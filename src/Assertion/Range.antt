-- ===== src/Assertion/Range.antt =====
-- What an assertion accepts.
use ringpop_common.Common.{
  ◌+◌, ◌^◌, ◌≤◌, ◌≡◌, refl, ◌≢◌, ◌⊎◌, inl, inr, true, false, ◌||◌, Option, none, some, arith,
  Bool-cases, bytes_eq,
}
use ringpop_common.Common.Int.{ℤ, pos_part, neg_part, ◌≤ℤ◌, ltb_ℤ}
use ringpop_common.Float.{Float64, IsExact}
use ringpop_common.Outcome.{not_expected, type_mismatch, not_in_range, ok, err, IsResult}
use ringpop_common.Value.{
  Value, nil, number, duration, Kind, no_type, float64, time_duration, type_of, same_kind,
  deep_equal,
}
use ringpop_common.Assertion.{
  Assertion, is_type, in_type, equals_assert, range_assert, assert_value,
}

module _ {F : Type 0} where
  abbrev pub IsMeasured : Value F → Type 0
  IsMeasured nil = ⊥
  IsMeasured _ = Unit

  -- What the parser of test files makes.
  abbrev pub IsParsed : Option (Assertion F) → Type 0
  IsParsed none = Unit
  IsParsed (some a) =
      ((a.kind ≡ is_type) × IsMeasured a.v1)
      ⊎ ((a.kind ≡ in_type) × IsMeasured a.v1 × (type_of a.v1 ≡ type_of a.v2))

module _ {F : Type 0} (fl : Float64 F) where
  range_assert-IsResult : (v v1 v2 : Value F) → IsMeasured v → IsResult (range_assert fl v v1 v2)
  unfolding range_assert
  range_assert-IsResult nil v1 v2 h = absurd h
  range_assert-IsResult (number x) nil v2 h = tt
  range_assert-IsResult (number x) (duration a) v2 h = tt
  range_assert-IsResult (number x) (number a) nil h = tt
  range_assert-IsResult (number x) (number a) (duration b) h = tt
  range_assert-IsResult (number x) (number a) (number b) h = ground arith
  range_assert-IsResult (duration x) nil v2 h = tt
  range_assert-IsResult (duration x) (number a) v2 h = tt
  range_assert-IsResult (duration x) (duration a) nil h = tt
  range_assert-IsResult (duration x) (duration a) (number b) h = tt
  range_assert-IsResult (duration x) (duration a) (duration b) h = ground arith

  -- An assertion on a measured value always gives a result: it passes or reports an error.
  pub assert_value-IsResult :
      (a : Option (Assertion F)) (v : Value F) → IsMeasured v → IsResult (assert_value fl a v)
  unfolding assert_value
  assert_value-IsResult none v h = tt
  assert_value-IsResult (some a) v h = elim (Bool-cases (bytes_eq a.kind is_type)) [
    | inl e ↦ rw e (ground arith)
    | inr n ↦ rw n (elim (Bool-cases (bytes_eq a.kind in_type)) [
      | inl e ↦ rw e (range_assert-IsResult v a.v1 a.v2 h)
      | inr m ↦ rw m tt
    ])
  ]

-- At most 104 days, the durations that a float64 holds exactly.
abbrev pub IsShort : ℤ → Type 0
IsShort d = pos_part d + neg_part d ≤ 2 ^ 53

module _ {F : Type 0} (fl : Float64 F) (exact : IsExact fl) where
  -- For durations of at most 2^53 nanoseconds an `in` assertion accepts exactly those from the first
  -- bound to the second, both included, although it compares float64 values; it refuses the others
  -- as not in range.
  pub assert_value-duration :
      (d lo hi : ℤ)
      → IsShort d
      → IsShort lo
      → IsShort hi
      → ((lo ≤ℤ d)
          × (d ≤ℤ hi)
          × (assert_value fl
                (some (record { kind = in_type; v1 = duration lo; v2 = duration hi }))
                (duration d)
              ≡ ok tt))
        ⊎ ((¬ ((lo ≤ℤ d) × (d ≤ℤ hi)))
            × (assert_value fl
                  (some (record { kind = in_type; v1 = duration lo; v2 = duration hi }))
                  (duration d)
                ≡ err not_in_range))
  unfolding assert_value
  assert_value-duration d lo hi sd sl sh =
      rw (exact.lt-of_int d lo sd sl, exact.lt-of_int hi d sh sd)
        (elim (Bool-cases (ltb_ℤ d lo || ltb_ℤ hi d)) [
          | inl e ↦ inr ((λ h. ground arith), rw e)
          | inr n ↦ inl (ground arith, ground arith, rw n)
        ])

pub same_kind-eq : (a b : Kind) → same_kind a b ≡ true → a ≡ b
same_kind-eq no_type no_type h = refl
same_kind-eq float64 float64 h = refl
same_kind-eq time_duration time_duration h = refl
same_kind-eq _ _ h = cc

module _ {F : Type 0} (fl : Float64 F) where
  deep_equal-type_of : (v w : Value F) → type_of v ≢ type_of w → deep_equal fl v w ≡ false
  unfolding deep_equal
  deep_equal-type_of nil nil h = absurd (h refl)
  deep_equal-type_of (number x) (number y) h = absurd (h refl)
  deep_equal-type_of (duration a) (duration b) h = absurd (h refl)
  deep_equal-type_of _ _ h = refl

  range_assert-type_of :
      (v v1 v2 : Value F) → type_of v ≢ type_of v1 → range_assert fl v v1 v2 ≡ err type_mismatch
  unfolding range_assert
  range_assert-type_of v v1 v2 ne = elim (Bool-cases (same_kind (type_of v) (type_of v1))) [
    | inl e ↦ absurd (ne (same_kind-eq (type_of v) (type_of v1) e))
    | inr n ↦ rw n
  ]

  -- An assertion made by the parser refuses a value of another type than its bounds with an error
  -- and no panic: an `is` assertion as not expected, an `in` assertion as a type mismatch.
  pub assert_value-type_of :
      (a : Assertion F) (v : Value F)
      → IsParsed (some a)
      → type_of v ≢ type_of a.v1
      → ((a.kind ≡ is_type) × (assert_value fl (some a) v ≡ err not_expected))
        ⊎ ((a.kind ≡ in_type) × (assert_value fl (some a) v ≡ err type_mismatch))
  unfolding assert_value
  assert_value-type_of a v (inl (k, m)) ne =
      inl (k, rw k (rw (deep_equal-type_of v a.v1 ne, equals_assert)))
  assert_value-type_of a v (inr (k, m, t)) ne = inr (k, rw k (range_assert-type_of v a.v1 a.v2 ne))
