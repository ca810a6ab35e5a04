-- ===== src/Yaml/Shape.antt =====
-- What a parsed measurement holds: an assertion whose bounds have a type, and the same one.
use ringpop_common.Common.{
  ℕ, ◌+◌, ◌-◌, ◌≡◌, refl, sym, ◌∙◌, inl, inr, not, ◌||◌, Option, none, some, List, [], ◌∷◌, arith,
  ltb, ◌==◌, if◌then◌else◌, Bool-cases, Bytes, bytes_eq, length, take, drop,
}
use ringpop_common.Common.Int.{ℤ}
use ringpop_common.Float.{Float64}
use ringpop_common.Value.{Value, nil, type_of, same_kind}
use ringpop_common.Outcome.{
  in_measure, in_assertion, in_range, in_value, types_differ, Outcome, ok, err, panic, exit,
  timeout, bind-eq-ok, wrap_panic-eq-ok, IsResult,
}
use ringpop_common.Calc.{Expr, eval_text}
use ringpop_common.Assertion.{Assertion, is_type, in_type, assert_value}
use ringpop_common.Assertion.Range.{IsMeasured, IsParsed, same_kind-eq, assert_value-IsResult}
use ringpop_common.Command.{Measurement}
use ringpop_common.Text.{fields, join, split}
use ringpop_common.Yaml
use ringpop_common.Yaml.Steps.{
  search_assertion_plain, search_assertion_outside, search_assertion_keyword,
}

module _ {F : Type 0} (fl : Float64 F) (parse_expr : Bytes → Option Expr)
    (parse_duration : Bytes → Option ℤ) where
  value_or_duration-IsMeasured :
      (m : Outcome F) (d : Option ℤ) {v : Value F}
      → Yaml.value_or_duration m d ≡ ok v
      → IsMeasured v
  unfolding Yaml.value_or_duration
  value_or_duration-IsMeasured (ok x) d h = ground arith
  value_or_duration-IsMeasured (err e) none h = cc
  value_or_duration-IsMeasured (err e) (some d) h = ground arith
  value_or_duration-IsMeasured (panic e) d h = cc
  value_or_duration-IsMeasured (exit e) d h = cc
  value_or_duration-IsMeasured timeout d h = cc

  parse_value-IsMeasured :
      (s : Bytes) {v : Value F}
      → Yaml.parse_value fl parse_expr parse_duration s ≡ ok v
      → IsMeasured v
  unfolding Yaml.parse_value
  parse_value-IsMeasured s h =
      value_or_duration-IsMeasured (eval_text fl parse_expr s) (parse_duration s)
        (wrap_panic-eq-ok (in_value s) _ h)

  -- two values of one type, which is not that of nil
  abbrev IsInterval : Value F × Value F → Type 0
  IsInterval p = IsMeasured p.0 × (type_of p.0 ≡ type_of p.1)

  range_values-IsInterval :
      (ss : List Bytes) {p : Value F × Value F}
      → Yaml.range_values fl parse_expr parse_duration ss ≡ ok p
      → IsInterval p
  unfolding Yaml.range_values
  range_values-IsInterval [] h = cc
  range_values-IsInterval (a ∷ []) h = cc
  range_values-IsInterval (a ∷ b ∷ c ∷ ss) h = cc
  range_values-IsInterval (a ∷ b ∷ []) {p} h =
      let (v, hv, h') = bind-eq-ok (Yaml.parse_value fl parse_expr parse_duration a) _ h in
      let (w, hw, h'') = bind-eq-ok (Yaml.parse_value fl parse_expr parse_duration b) _ h' in
      checked v w (parse_value-IsMeasured a hv) h''
    where
      checked :
          (v w : Value F)
          → IsMeasured v
          → (if same_kind (type_of v) (type_of w) then ok (v, w) else panic types_differ) ≡ ok p
          → IsInterval p
      checked v w m e = elim (Bool-cases (same_kind (type_of v) (type_of w))) [
        | inl same ↦
            let is : (v, w) ≡ p = ground (arith, rw same at e) in
            rw (← is) (m, same_kind-eq (type_of v) (type_of w) same)
        | inr differ ↦ cc (rw differ at e)
      ]

  parse_range-IsInterval :
      (s : Bytes) {p : Value F × Value F}
      → Yaml.parse_range fl parse_expr parse_duration s ≡ ok p
      → IsInterval p
  unfolding Yaml.parse_range
  parse_range-IsInterval s {p} h =
      let (a, ha, h') = bind-eq-ok (Yaml.at s 0) _ (wrap_panic-eq-ok (in_range s) _ h) in
      let (b, hb, h'') = bind-eq-ok (Yaml.at s (length s - 1)) _ h' in
      elim (Bool-cases (not (a == b'(') || not (b == b')'))) [
        | inl bad ↦ cc (rw bad at h'')
        | inr good ↦ range_values-IsInterval (split (Yaml.inner s) b',') (rw good at h'')
      ]

  assertion_body-IsParsed :
      (t s : Bytes) {a : Assertion F}
      → Yaml.assertion_body fl parse_expr parse_duration t s ≡ ok a
      → IsParsed (some a)
  unfolding Yaml.assertion_body
  assertion_body-IsParsed t s {a} e = elim (Bool-cases (bytes_eq t is_type)) [
    | inl k ↦
        let (v, hv, is) =
          bind-eq-ok (Yaml.parse_value fl parse_expr parse_duration s) _ (rw k at e) in
        let same : (record { kind = is_type; v1 = v; v2 = nil }) ≡ a = ground arith in
        rw (← same) (inl (refl, parse_value-IsMeasured s hv))
    | inr n ↦ elim (Bool-cases (bytes_eq t in_type)) [
      | inl k ↦
          let (p, hp, is) =
            bind-eq-ok (Yaml.parse_range fl parse_expr parse_duration s) _ (rw k at (rw n at e)) in
          let same : (record { kind = in_type; v1 = p.0; v2 = p.1 }) ≡ a = ground arith in
          let interval = parse_range-IsInterval s hp in
          rw (← same) (inr (refl, interval.0, interval.1))
      | inr m ↦ cc (rw m at (rw n at e))
    ]
  ]

  parse_assertion-IsParsed :
      (t s : Bytes) {a : Assertion F}
      → Yaml.parse_assertion fl parse_expr parse_duration t s ≡ ok a
      → IsParsed (some a)
  unfolding Yaml.parse_assertion
  parse_assertion-IsParsed t s h =
      assertion_body-IsParsed t s (wrap_panic-eq-ok (in_assertion t s) _ h)

  search_assertion-IsParsed :
      (i : ℕ) (ss args : List Bytes) (a : Option (Assertion F))
      {r : List Bytes × Option (Assertion F)}
      → IsParsed a
      → Yaml.search_assertion fl parse_expr parse_duration i ss args a ≡ ok r
      → IsParsed r.1
  search_assertion-IsParsed i [] args a {r} p h =
      let same : (args, a) ≡ r = unfold Yaml.search_assertion in ground arith in rw (← same) p
  search_assertion-IsParsed i (s ∷ ss) args a p h = elim (Bool-cases (Yaml.is_keyword s)) [
    | inr k ↦
        search_assertion-IsParsed (i + 1) ss args a p
          (sym (search_assertion_plain fl parse_expr parse_duration i s ss args a k) ∙ h)
    | inl k ↦ elim (Bool-cases (ltb i (length args))) [
      | inr outside ↦ absurd (
          cc (
            sym
              (search_assertion_outside fl parse_expr parse_duration i s ss args a k (ground arith))
            ∙ h))
      | inl inside ↦
          let (b, hb, h') =
            bind-eq-ok
              (Yaml.parse_assertion fl parse_expr parse_duration s (join (drop (i + 1) args) [])) _
              (sym (
                  search_assertion_keyword fl parse_expr parse_duration i s ss args a k
                    (ground arith))
                ∙ h) in
          search_assertion-IsParsed (i + 1) ss (take i args) (some b)
            (parse_assertion-IsParsed s (join (drop (i + 1) args) []) hb) h'
    ]
  ]

  measurement_fields-IsParsed :
      (fs : List Bytes) {m : Measurement F}
      → Yaml.measurement_fields fl parse_expr parse_duration fs ≡ ok m
      → IsParsed m.assertion
  unfolding Yaml.measurement_fields
  measurement_fields-IsParsed [] h = cc
  measurement_fields-IsParsed (a ∷ []) h = cc
  measurement_fields-IsParsed (a ∷ b ∷ []) h = cc
  measurement_fields-IsParsed (a ∷ b ∷ c ∷ args) {m} h =
      let (r, hr, is) =
        bind-eq-ok (Yaml.search_assertion fl parse_expr parse_duration 0 args args none) _ h in
      let same : r.1 ≡ m.assertion = ground arith in
      rw (← same) (search_assertion-IsParsed 0 args args none tt hr)

  -- Whatever `parseMeasurement` returns has no assertion, or an `is` assertion on a number or a
  -- duration, or an `in` assertion whose bounds are two numbers or two durations; and such an
  -- assertion, made on any number or duration, passes or gives an error: it neither panics on a nil
  -- value nor meets an unknown type.
  pub parse_measurement-IsParsed :
      (s : Bytes) {m : Measurement F} (v : Value F)
      → Yaml.parse_measurement fl parse_expr parse_duration s ≡ ok m
      → IsMeasured v
      → IsParsed m.assertion × IsResult (assert_value fl m.assertion v)
  unfolding Yaml.parse_measurement
  parse_measurement-IsParsed s {m} v h hv = (
    measurement_fields-IsParsed (fields s) (wrap_panic-eq-ok (in_measure s) _ h),
    assert_value-IsResult fl m.assertion v hv,
  )
