-- ===== src/Value.antt =====
-- cluster-test/test-orchestrator/measurement.go, `Value`: an interface value that holds a float64 or
-- a `time.Duration`, or nothing. A duration is its count of nanoseconds.
use ringpop_common.Common.{Bool, true, false}
use ringpop_common.Common.Int.{ℤ, eqb_ℤ}
use ringpop_common.Float.{Float64}

pub data Value (F : Type 0) : Type 0 where
  nil : Value F
  number : F → Value F
  duration : ℤ → Value F

-- `reflect.TypeOf`
pub data Kind : Type 0 where
  no_type float64 time_duration : Kind

module _ {F : Type 0} where
  abbrev pub type_of : Value F → Kind
  type_of nil = no_type
  type_of (number x) = float64
  type_of (duration d) = time_duration

abbrev pub same_kind : Kind → Kind → Bool
same_kind no_type no_type = true
same_kind float64 float64 = true
same_kind time_duration time_duration = true
same_kind _ _ = false

module _ {F : Type 0} (fl : Float64 F) where
  -- `reflect.DeepEqual`: two values of one type that are `==`
  unfoldable pub deep_equal : Value F → Value F → Bool
  deep_equal nil nil = true
  deep_equal (number x) (number y) = fl.eq x y
  deep_equal (duration a) (duration b) = eqb_ℤ a b
  deep_equal _ _ = false
