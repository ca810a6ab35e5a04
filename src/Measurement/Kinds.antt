-- ===== src/Measurement/Kinds.antt =====
-- The type of what `Measure` of measurement.go returns, and what that means for the assertion.
use ringpop_common.Common.{
  ℕ, ◌≡◌, refl, sym, ◌∙◌, subst, ◌≢◌, ◌⊎◌, inl, inr, Bool, Option, some, List, [], ◌∷◌, arith,
  if◌then◌else◌, Bool-cases, Bytes, codes, bytes_eq,
}
use ringpop_common.Common.Int.{ℤ}
use ringpop_common.Float.{Float64}
use ringpop_common.Calc.{Expr}
use ringpop_common.Value.{Value, Kind, no_type, float64, time_duration, type_of}
use ringpop_common.Outcome.{not_expected, type_mismatch, Outcome, ok, err, bind-eq-ok}
use ringpop_common.Command.{Measurement}
use ringpop_common.Assertion.{Assertion, is_type, in_type, assert_value}
use ringpop_common.Assertion.{Assertion}
use ringpop_common.Assertion.Range.{IsMeasured, assert_value-type_of}
use ringpop_common.Scanner.{Scanner}
use ringpop_common.Scanner.Section.{SectionScanner, section_scanner, new_section_scanner}
use ringpop_common.Analysis.{count_analysis, checksums_analysis, convergence_time_analysis}
use ringpop_common.Measurement.{wrap_measure, measure, measure_section, count_case}
use ringpop_common.Yaml
use ringpop_common.Yaml.Shape.{parse_measurement-IsParsed}

-- The type of a quantity's values.
abbrev pub kind_of : Bytes → Kind
kind_of quantity =
    if bytes_eq quantity (codes "convtime")
    then time_duration
    else if bytes_eq quantity (codes "checksums")
    then float64
    else if bytes_eq quantity (codes "count")
    then float64
    else no_type

-- A number or a duration, of this type.
abbrev pub HasKind : {F : Type 0} → Value F → Kind → Type 0
HasKind v k = IsMeasured v × (type_of v ≡ k)

returned :
    {F : Type 0} (w v : Value F) (k : Kind)
    → ◌≡◌ {A = Outcome (Value F)} (ok w) (ok v)
    → HasKind w k
    → HasKind v k
returned w v k h t = let same : w ≡ v = ground arith in subst (λ u. HasKind u k) same t

module _ {F S : Type 0} (fl : Float64 F) (sc : Scanner S)
    (match_string : Bytes → Bytes → Option Bool) where
  count_case-HasKind :
      (fuel : ℕ) (m : Measurement F) (args : List Bytes) (s : SectionScanner S) {v : Value F}
      → count_case fl sc match_string fuel m args s ≡ ok v
      → HasKind v float64
  unfolding count_case
  count_case-HasKind fuel m [] s h = cc
  count_case-HasKind fuel m (x ∷ y ∷ args) s h = cc
  count_case-HasKind fuel m (stat ∷ []) s {v} h =
      let (n, _, e) =
        bind-eq-ok (wrap_measure m (count_analysis (section_scanner sc) match_string fuel s stat)) _
          h in
      returned _ v float64 e (tt, refl)

  measure_section-HasKind :
      (fuel : ℕ) (m : Measurement F) (s : SectionScanner S) {v : Value F}
      → measure_section fl sc match_string fuel m s ≡ ok v
      → HasKind v (kind_of m.quantity)
  unfolding measure_section
  measure_section-HasKind fuel m s {v} h =
      elim (Bool-cases (bytes_eq m.quantity (codes "convtime"))) [
        | inl c ↦
            let (d, _, e) =
              bind-eq-ok (wrap_measure m (convergence_time_analysis (section_scanner sc) fuel s)) _
                (rw c at h) in
            rw c (returned _ v time_duration e (tt, refl))
        | inr n1 ↦ elim (Bool-cases (bytes_eq m.quantity (codes "checksums"))) [
          | inl c ↦
              let (d, _, e) =
                bind-eq-ok (wrap_measure m (checksums_analysis (section_scanner sc) fuel s)) _
                  (rw (n1, c) at h) in
              rw n1 (rw c (returned _ v float64 e (tt, refl)))
          | inr n2 ↦ elim (Bool-cases (bytes_eq m.quantity (codes "count"))) [
            | inl c ↦
                rw n1 (rw n2 (rw c (count_case-HasKind fuel m m.args s (rw (n1, n2, c) at h))))
            | inr n3 ↦ cc (rw (n1, n2, n3) at h)
          ]
        ]
      ]

  -- A value that `Measure` returns is a duration for "convtime" and a float64 for "checksums" and
  -- "count"; for any other quantity it returns none.
  pub measure-HasKind :
      (fuel : ℕ) (m : Measurement F) (s : S) {v : Value F}
      → measure fl sc match_string fuel m s ≡ ok v
      → HasKind v (kind_of m.quantity)
  unfolding measure
  measure-HasKind fuel m s {v} h =
      let (section, _, e) =
        bind-eq-ok (wrap_measure m (new_section_scanner sc fuel s m.start m.end)) _ h in
      measure_section-HasKind fuel m section e

-- A measurement that `parseMeasurement` returns with an assertion on another type than that of its
-- quantity: whatever value `Measure` gives for it, `Assert` of the value fails with an error, that it
-- is not the expected one for an `is` assertion and that the types differ for an `in` assertion.
pub measure-mismatch :
    {F S : Type 0} (fl : Float64 F) (parse_expr : Bytes → Option Expr)
    (parse_duration : Bytes → Option ℤ) (sc : Scanner S)
    (match_string : Bytes → Bytes → Option Bool) (text : Bytes) (m : Measurement F)
    (a : Assertion F) (fuel : ℕ) (s : S) (v : Value F)
    → Yaml.parse_measurement fl parse_expr parse_duration text ≡ ok m
    → m.assertion ≡ some a
    → type_of a.v1 ≢ kind_of m.quantity
    → measure fl sc match_string fuel m s ≡ ok v
    → ((a.kind ≡ is_type) × (assert_value fl m.assertion v ≡ err not_expected))
      ⊎ ((a.kind ≡ in_type) × (assert_value fl m.assertion v ≡ err type_mismatch))
measure-mismatch fl pe pd sc match_string text m a fuel s v parsed asserts differ h =
    let (is, kind) = measure-HasKind fl sc match_string fuel m s h in
    let (shape, _) = parse_measurement-IsParsed fl pe pd text v parsed is in
    rw asserts (assert_value-type_of fl a v (rw asserts at shape) (λ e. differ (sym e ∙ kind)))
