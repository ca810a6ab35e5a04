-- ===== src/Yaml/Atoi/Sizes.antt =====
-- The size of a scenario in `extractScenario` of test_yaml_parser.go: the integer that its text names.
use ringpop_common.Common.{
  ℕ, zero, suc, ◌+◌, ◌-◌, ◌*◌, ◌^◌, ◌<◌, ◌≡◌, refl, ap, ◌∙◌, ◌≢◌, inl, inr, Bool, false, none, some,
  List, [], ◌∷◌, ◌++◌, map, arith, leb, ◌==◌, if◌then◌else◌, Bool-cases, Bytes, length, All,
}
use ringpop_common.Common.Int.{ℤ, sub_ℕ}
use ringpop_common.Outcome.{size_convert, ok, panic}
use ringpop_common.Yaml.Atoi.{digits_value, magnitude, atoi}
use ringpop_common.Yaml

-- decimal digits, the most significant first
abbrev pub IsDecimal : List ℕ → Type 0
IsDecimal = All (λ d. d < 10)

abbrev pub power : ℕ → ℕ
power zero = 1
power (suc n) = 10 * power n

abbrev pub value : List ℕ → ℕ
value [] = 0
value (d ∷ ds) = d * power (length ds) + value ds

abbrev pub digits_text : List ℕ → Bytes
digits_text ds = map (λ d. b'0' + d) ds

pub data Sign : Type 0 where
  unsigned plus minus : Sign

abbrev pub sign_text : Sign → Bytes
sign_text unsigned = []
sign_text plus = b'+' ∷ []
sign_text minus = b'-' ∷ []

-- the integer, and whether an int64 can hold it
abbrev pub signed : Sign → ℕ → ℤ
signed minus n = sub_ℕ 0 n
signed _ n = sub_ℕ n 0

abbrev pub fits : Sign → ℕ → Bool
fits minus n = leb n (2 ^ 63)
fits _ n = leb n (2 ^ 63 - 1)

shift : (n d p v : ℕ) → (n * 10 + d) * p + v ≡ n * (10 * p) + (d * p + v)
shift n d p v = omega arith

digits_value-digits_text :
    (n : ℕ) (ds : List ℕ)
    → IsDecimal ds
    → digits_value n (digits_text ds) ≡ some (n * power (length ds) + value ds)
unfolding digits_value
digits_value-digits_text n [] h = ap some (omega arith)
digits_value-digits_text n (d ∷ ds) (hd, h) =
    let same : n * 10 + (b'0' + d - b'0') ≡ n * 10 + d = omega arith in
    let rest : digits_value (n * 10 + (b'0' + d - b'0')) (digits_text ds)
        ≡ some (n * power (length (d ∷ ds)) + value (d ∷ ds)) =
      rw same (
        digits_value-digits_text (n * 10 + d) ds h
        ∙ ap some (shift n d (power (length ds)) (value ds))) in
    rw rest (ground arith)

magnitude-digits_text :
    (ds : List ℕ) → IsDecimal ds → ds ≢ [] → magnitude (digits_text ds) ≡ some (value ds)
unfolding magnitude
magnitude-digits_text [] h ne = absurd (ne refl)
magnitude-digits_text (d ∷ ds) h ne = digits_value-digits_text 0 (d ∷ ds) h ∙ ap some (omega arith)

no_sign : (d c : ℕ) → c < b'0' → (b'0' + d == c) ≡ false
no_sign d c h = ground arith

atoi-digits_text :
    (sg : Sign) (ds : List ℕ)
    → IsDecimal ds
    → ds ≢ []
    → atoi (sign_text sg ++ digits_text ds)
      ≡ (if fits sg (value ds) then some (signed sg (value ds)) else none)
unfolding atoi
atoi-digits_text sg [] h ne = absurd (ne refl)
atoi-digits_text minus (d ∷ ds) h ne = rw (magnitude-digits_text (d ∷ ds) h ne) refl
atoi-digits_text plus (d ∷ ds) h ne = rw (magnitude-digits_text (d ∷ ds) h ne) refl
atoi-digits_text unsigned (d ∷ ds) h ne =
    rw (no_sign d b'-' (omega arith), no_sign d b'+' (omega arith))
      (rw (magnitude-digits_text (d ∷ ds) h ne) refl)

-- The size of a scenario is the integer that its text names. For a text of one or more decimal digits,
-- with a sign or without, the size is the value of the digits, with the sign, if an int64 can hold
-- it; if not, the conversion panics with the text.
pub size_of-digits_text :
    (sg : Sign) (ds : List ℕ)
    → IsDecimal ds
    → ds ≢ []
    → Yaml.size_of (sign_text sg ++ digits_text ds) ≡ (
        if fits sg (value ds)
        then ok (signed sg (value ds))
        else panic (size_convert (sign_text sg ++ digits_text ds)))
unfolding Yaml.size_of Yaml.size_result
size_of-digits_text sg ds h ne =
    rw (atoi-digits_text sg ds h ne)
      (elim (Bool-cases (fits sg (value ds))) [ inl e ↦ rw e refl | inr e ↦ rw e refl ])
