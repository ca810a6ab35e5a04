-- ===== src/Assertion.antt =====
-- cluster-test/test-orchestrator/assertion.go. A nil `*Assertion` is `none`. The type of an assertion
-- is a Go string, so it can be other than "is" and "in".
pub mod Range
use ringpop_common.Common.{
  ◌+◌, not, ◌||◌, Option, none, some, [], ◌++◌, if◌then◌else◌, Bytes, codes, bytes_eq,
}
use ringpop_common.Float.{Float64}
use ringpop_common.Value.{Value, nil, number, duration, type_of, same_kind, deep_equal}
use ringpop_common.Outcome.{
  assertion_kind, not_expected, type_mismatch, not_in_range, type_assertion, Outcome, ok, err,
  panic, exit, ◌>>=◌,
}

pub record Assertion (F : Type 0) : Type 0 where
  pub kind : Bytes
  pub v1 : Value F
  pub v2 : Value F

-- `AssertionTypeIs` and `AssertionTypeIn`
abbrev pub is_type : Bytes
is_type = codes "is"

abbrev pub in_type : Bytes
in_type = codes "in"

module _ {F : Type 0} (fl : Float64 F) where
  unfoldable pub to_float64 : Value F → Outcome F
  to_float64 (number x) = ok x
  to_float64 (duration d) = ok (fl.of_int d)
  to_float64 nil = panic type_assertion

  unfoldable pub equals_assert : Value F → Value F → Outcome (Unit {0})
  unfolding deep_equal
  equals_assert v v1 = if deep_equal fl v v1 then ok tt else err not_expected

  unfoldable pub range_assert : Value F → Value F → Value F → Outcome (Unit {0})
  unfolding to_float64
  range_assert v v1 v2 =
      if not (same_kind (type_of v) (type_of v1)) || not (same_kind (type_of v) (type_of v2))
      then err type_mismatch
      else do
        f ← to_float64 v
        f1 ← to_float64 v1
        f2 ← to_float64 v2
        if fl.lt f f1 || fl.lt f2 f then err not_in_range else ok tt

  unfoldable pub assert_value : Option (Assertion F) → Value F → Outcome (Unit {0})
  unfolding equals_assert range_assert bytes_eq
  assert_value none v = ok tt
  assert_value (some a) v =
      if bytes_eq a.kind is_type
      then equals_assert v a.v1
      else if bytes_eq a.kind in_type
      then range_assert v a.v1 a.v2
      else err (assertion_kind a.kind)

module _ {F : Type 0} (format_value : Value F → Bytes) where
  -- `String`; `format_value` is the `%v` of package fmt
  unfoldable pub to_string : Option (Assertion F) → Outcome Bytes
  unfolding bytes_eq
  to_string none = ok []
  to_string (some a) =
      if bytes_eq a.kind is_type
      then ok (codes "is " ++ format_value a.v1)
      else if bytes_eq a.kind in_type
      then ok
          (codes "in (" ++ (format_value a.v1 ++ (codes "," ++ (format_value a.v2 ++ codes ")"))))
      else exit (assertion_kind a.kind)
