-- ===== src/Float.antt =====
-- What the orchestrator asks of `float64`: four operations, two comparisons, the conversion of an
-- integer and `strconv.ParseFloat`. The type itself is a parameter.
use ringpop_common.Common.{
  ℕ, ◌+◌, ◌-◌, ◌*◌, ◌^◌, ◌≤◌, ◌≡◌, refl, Bool, false, ◌&&◌, Option, none, some, [], ◌∷◌, leb,
  if◌then◌else◌, Bytes,
}
use ringpop_common.Common.Int.{ℤ, pos, pos_part, neg_part, ◌+ℤ◌, ◌-ℤ◌, ◌*ℤ◌, quot_ℤ, ltb_ℤ, eqb_ℤ}

pub record Float64 (F : Type 0) : Type 0 where
  pub add : F → F → F
  pub sub : F → F → F
  pub mul : F → F → F
  pub div : F → F → F
  -- `<` and `==`
  pub lt : F → F → Bool
  pub eq : F → F → Bool
  pub of_int : ℤ → F
  pub parse_float : Bytes → Option F

-- Every integer of at most 53 bits is a float64, so the order of two such integers and
-- whether they are one are kept.
pub record IsExact {F : Type 0} (fl : Float64 F) : Type 0 where
  pub lt-of_int :
      (a b : ℤ)
      → pos_part a + neg_part a ≤ 2 ^ 53
      → pos_part b + neg_part b ≤ 2 ^ 53
      → fl.lt (fl.of_int a) (fl.of_int b) ≡ ltb_ℤ a b
  pub eq-of_int :
      (a b : ℤ)
      → pos_part a + neg_part a ≤ 2 ^ 53
      → pos_part b + neg_part b ≤ 2 ^ 53
      → fl.eq (fl.of_int a) (fl.of_int b) ≡ eqb_ℤ a b

-- A concrete type that meets it: integers, with `none` for what is not a number.
abbrev pub Whole : Type 0
Whole = Option ℤ

abbrev lift : (ℤ → ℤ → ℤ) → Whole → Whole → Whole
lift f (some a) (some b) = some (f a b)
lift f _ _ = none

abbrev holds : (ℤ → ℤ → Bool) → Whole → Whole → Bool
holds f (some a) (some b) = f a b
holds f _ _ = false

abbrev pub read_digits : ℕ → Bytes → Whole
read_digits n [] = some (pos n)
read_digits n (c ∷ s) =
    let rest = read_digits (n * 10 + (c - b'0')) s in
    if leb b'0' c && leb c b'9' then rest else none

abbrev pub read_whole : Bytes → Whole
read_whole [] = none
read_whole (c ∷ s) = read_digits 0 (c ∷ s)

abbrev pub divide : ℤ → ℤ → ℤ
divide a b = if leb 1 (pos_part b) then quot_ℤ a (pos_part b) else quot_ℤ (pos 0 -ℤ a) (neg_part b)

abbrev pub whole : Float64 Whole
whole = record {
  add = lift ◌+ℤ◌;
  sub = lift ◌-ℤ◌;
  mul = lift ◌*ℤ◌;
  div = lift divide;
  lt = holds ltb_ℤ;
  eq = holds eqb_ℤ;
  of_int = some;
  parse_float = λ s. elim (read_whole s) [ none ↦ none | some z ↦ some (some z) ];
}

pub whole-IsExact : IsExact whole
whole-IsExact = record { lt-of_int = λ a b ha hb. refl; eq-of_int = λ a b ha hb. refl }
