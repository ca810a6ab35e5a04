-- ===== src/Yaml/Atoi.antt =====
-- `strconv.Atoi` on a 64-bit machine: an optional sign and digits, within int64.
pub mod Sizes
use ringpop_common.Common.{
  ℕ, ◌+◌, ◌-◌, ◌*◌, ◌^◌, ◌&&◌, Option, none, some, [], ◌∷◌, leb, ◌==◌, if◌then◌else◌, Bytes,
}
use ringpop_common.Common.Int.{ℤ, sub_ℕ}

pub digits_value : ℕ → Bytes → Option ℕ
digits_value n [] = some n
digits_value n (c ∷ s) =
    let rest = digits_value (n * 10 + (c - b'0')) s in
    if leb b'0' c && leb c b'9' then rest else none

pub magnitude : Bytes → Option ℕ
unfolding digits_value
magnitude [] = none
magnitude (c ∷ s) = digits_value 0 (c ∷ s)

abbrev bounded : ℕ → Option ℕ → (ℕ → ℤ) → Option ℤ
bounded limit none f = none
bounded limit (some n) f = if leb n limit then some (f n) else none

unfoldable pub atoi : Bytes → Option ℤ
unfolding magnitude
atoi [] = none
atoi (c ∷ s) =
    if c == b'-'
    then bounded (2 ^ 63) (magnitude s) (λ n. sub_ℕ 0 n)
    else if c == b'+'
    then bounded (2 ^ 63 - 1) (magnitude s) (λ n. sub_ℕ n 0)
    else bounded (2 ^ 63 - 1) (magnitude (c ∷ s)) (λ n. sub_ℕ n 0)
