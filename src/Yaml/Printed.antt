-- ===== src/Yaml/Printed.antt =====
-- `Measurement.String` of measurement.go, with `Assertion.String` of assertion.go, against
-- `parseMeasurement` of test_yaml_parser.go.
use ringpop_common.Common.{
  ◌≡◌, refl, sym, ap, ◌∙◌, ◌⊎◌, inl, inr, true, false, Option, none, some, List, [], ◌∷◌, ◌++◌,
  append_assoc, arith, Option-cases, Bytes, codes, bytes_eq, All, All-append, Lacks,
}
use ringpop_common.Common.Int.{ℤ}
use ringpop_common.Float.{Float64}
use ringpop_common.Calc.{Expr, basic_lit, eval_text}
use ringpop_common.Calc.Meaning.{literal, eval_text_iff}
use ringpop_common.Value.{Value, nil, number, duration, type_of, same_kind}
use ringpop_common.Outcome.{ok, wrap_panic}
use ringpop_common.Text.{join}
use ringpop_common.Text.Fields.{IsWord, Visible}
use ringpop_common.Assertion
use ringpop_common.Assertion.{is_type, in_type}
use ringpop_common.Command
use ringpop_common.Measurement
use ringpop_common.Yaml
use ringpop_common.Yaml.Ranges.{enclosed, parse_range-enclosed}
use ringpop_common.Yaml.Words.{parse_measurement_keyword, parse_measurement_plain}

-- A value with a blank between two parts is joined as the two parts are.
join-split :
    (xs : List Bytes) (a b : Bytes)
    → join (xs ++ ((a ++ (b' ' ∷ b)) ∷ [])) (b' ' ∷ []) ≡ join (xs ++ (a ∷ b ∷ [])) (b' ' ∷ [])
unfolding join
join-split [] a b = refl
join-split (x ∷ []) a b = refl
join-split (x ∷ y ∷ xs) a b = ap (λ s. x ++ (b' ' ∷ s)) (join-split (y ∷ xs) a b)

module _ {F : Type 0} (fl : Float64 F) (parse_expr : Bytes → Option Expr)
    (parse_duration : Bytes → Option ℤ) (format_value : Value F → Bytes) where
  -- What package fmt prints for a value is read back: for a number it is a literal of it, for a
  -- duration no expression but the duration.
  abbrev pub Reads : Value F → Type 0
  Reads nil = ⊥
  Reads (number x) =
      (t : Bytes) × (parse_expr (format_value (number x)) ≡ some (basic_lit t))
      × (fl.parse_float t ≡ some x)
  Reads (duration d) =
      (parse_expr (format_value (duration d)) ≡ none)
      × (parse_duration (format_value (duration d)) ≡ some d)

  -- It is a word without a comma, and no keyword.
  pub record IsPrinted (v : Value F) : Type 0 where
    pub reads : Reads v
    pub one_word : IsWord (format_value v)
    pub no_comma_in : Lacks b',' (format_value v)
    pub not_keyword : Yaml.is_keyword (format_value v) ≡ false

  parse_value-Reads :
      (v : Value F)
      → Reads v
      → Yaml.parse_value fl parse_expr parse_duration (format_value v) ≡ ok v
  unfolding Yaml.parse_value Yaml.value_or_duration wrap_panic eval_text
  parse_value-Reads nil h = elim h [ ]
  parse_value-Reads (number x) (t, p, q) =
      let read : eval_text fl parse_expr (format_value (number x)) ≡ ok x =
        (eval_text_iff fl parse_expr (format_value (number x)) x).1.1 (basic_lit t, p, literal q) in
      rw read
  parse_value-Reads (duration d) (p, q) = rw (p, q)

  -- The assertions that are printed so that they read back: an `is` assertion has one value, an `in`
  -- assertion two of one type.
  abbrev pub IsPrintable : Option (Assertion.Assertion F) → Type 0
  IsPrintable none = Unit
  IsPrintable (some a) =
      ((a.kind ≡ is_type) × IsPrinted a.v1 × (a.v2 ≡ nil))
      ⊎ ((a.kind ≡ in_type)
          × IsPrinted a.v1
          × IsPrinted a.v2
          × (same_kind (type_of a.v1) (type_of a.v2) ≡ true))

  parse_assertion_is :
      (v : Value F)
      → Reads v
      → Yaml.parse_assertion fl parse_expr parse_duration is_type (format_value v)
        ≡ ok (record { kind = is_type; v1 = v; v2 = nil })
  unfolding Yaml.parse_assertion Yaml.assertion_body wrap_panic bytes_eq
  parse_assertion_is v h = rw (parse_value-Reads v h)

  parse_assertion_in :
      (v w : Value F)
      → IsPrinted v
      → IsPrinted w
      → same_kind (type_of v) (type_of w) ≡ true
      → Yaml.parse_assertion fl parse_expr parse_duration in_type
          (enclosed (format_value v ++ (b',' ∷ format_value w)))
        ≡ ok (record { kind = in_type; v1 = v; v2 = w })
  unfolding Yaml.parse_assertion Yaml.assertion_body wrap_panic bytes_eq
  parse_assertion_in v w pv pw same =
      rw
        (parse_range-enclosed fl parse_expr parse_duration (format_value v) (format_value w)
          pv.no_comma_in pw.no_comma_in)
        (rw (parse_value-Reads v pv.reads, parse_value-Reads w pw.reads) (rw same))

  -- What is printed reads back: the parts are words, and none of the arguments is a keyword.
  pub record IsPlain (m : Command.Measurement F) : Type 0 where
    pub start_word : IsWord m.start
    pub end_word : IsWord m.end
    pub quantity_word : IsWord m.quantity
    pub args_words : All IsWord m.args
    pub no_keyword : All (λ s. Yaml.is_keyword s ≡ false) m.args
    pub printable : IsPrintable m.assertion

  -- The text of a measurement in a test file: its labels and its `String`.
  abbrev pub ReadsBack : Command.Measurement F → Type 0
  ReadsBack m =
      (text : Bytes) × (Measurement.to_string format_value m ≡ ok text)
      × (Yaml.parse_measurement fl parse_expr parse_duration
            (m.start ++ (b' ' ∷ (m.end ++ (b' ' ∷ text))))
          ≡ ok m)

  plain-ReadsBack : (m : Command.Measurement F) → IsPlain m → m.assertion ≡ none → ReadsBack m
  unfolding Measurement.to_string join
  plain-ReadsBack m h e = (
    join (m.quantity ∷ m.args) (b' ' ∷ []),
    rw e,
    parse_measurement_plain fl parse_expr parse_duration m.start m.end m.quantity h.start_word
          h.end_word h.quantity_word m.args h.args_words h.no_keyword
        ∙ ap (λ a. ok (record m { assertion = a })) (sym e),
  )

  asserted-ReadsBack :
      (m : Command.Measurement F) (a : Assertion.Assertion F) (kw w : Bytes)
      → IsPlain m
      → m.assertion ≡ some a
      → Assertion.to_string format_value (some a) ≡ ok (kw ++ (b' ' ∷ w))
      → IsWord kw
      → Yaml.is_keyword kw ≡ true
      → IsWord w
      → Yaml.is_keyword w ≡ false
      → Yaml.parse_assertion fl parse_expr parse_duration kw w ≡ ok a
      → ReadsBack m
  unfolding Measurement.to_string join wrap_panic
  asserted-ReadsBack m a kw w h e prints hk k hw n parses = (
    join (m.quantity ∷ (m.args ++ ((kw ++ (b' ' ∷ w)) ∷ []))) (b' ' ∷ []),
    rw e (rw prints),
    ap
          (λ s.
            Yaml.parse_measurement fl parse_expr parse_duration
              (m.start ++ (b' ' ∷ (m.end ++ (b' ' ∷ s)))))
          (join-split (m.quantity ∷ m.args) kw w)
        ∙ parse_measurement_keyword fl parse_expr parse_duration m.start m.end m.quantity
            h.start_word h.end_word h.quantity_word m.args (w ∷ []) kw
            (All-append IsWord m.args (kw ∷ w ∷ []) h.args_words (hk, (hw, tt))) h.no_keyword k
            (n, tt)
        ∙ rw parses (ap (λ b. ok (record m { assertion = b })) (sym e)),
  )

  enclosed-IsWord : (v w : Bytes) → IsWord v → IsWord w → IsWord (enclosed (v ++ (b',' ∷ w)))
  enclosed-IsWord v w (nv, hv) (nw, hw) = (
    (λ e. cc),
    (
      (omega arith, omega arith),
      All-append Visible (v ++ (b',' ∷ w)) (b')' ∷ [])
          (All-append Visible v (b',' ∷ w) hv ((omega arith, omega arith), hw))
          ((omega arith, omega arith), tt),
    ),
  )

  keyword_word : IsWord is_type × IsWord in_type
  keyword_word = (
    ((λ e. cc), ((omega arith, omega arith), ((omega arith, omega arith), tt))),
    ((λ e. cc), ((omega arith, omega arith), ((omega arith, omega arith), tt))),
  )

  is-ReadsBack :
      (m : Command.Measurement F) (v : Value F)
      → IsPlain m
      → m.assertion ≡ some (record { kind = is_type; v1 = v; v2 = nil })
      → IsPrinted v
      → ReadsBack m
  unfolding Assertion.to_string bytes_eq Yaml.is_keyword
  is-ReadsBack m v h e p =
      asserted-ReadsBack m (record { kind = is_type; v1 = v; v2 = nil }) is_type (format_value v) h
        e refl keyword_word.0 refl p.one_word p.not_keyword (parse_assertion_is v p.reads)

  in-ReadsBack :
      (m : Command.Measurement F) (v w : Value F)
      → IsPlain m
      → m.assertion ≡ some (record { kind = in_type; v1 = v; v2 = w })
      → IsPrinted v
      → IsPrinted w
      → same_kind (type_of v) (type_of w) ≡ true
      → ReadsBack m
  unfolding Assertion.to_string bytes_eq Yaml.is_keyword
  in-ReadsBack m v w h e pv pw same =
      asserted-ReadsBack m (record { kind = in_type; v1 = v; v2 = w }) in_type
        (enclosed (format_value v ++ (b',' ∷ format_value w))) h e
        (ap (λ s. ok (codes "in (" ++ s))
          (sym (append_assoc (format_value v) (b',' ∷ format_value w) (b')' ∷ []))))
        keyword_word.1 refl
        (enclosed-IsWord (format_value v) (format_value w) pv.one_word pw.one_word) refl
        (parse_assertion_in v w pv pw same)

  -- Parsing undoes printing: a measurement whose parts are words and whose arguments hold no keyword,
  -- with no assertion, an `is` assertion or an `in` assertion on two values of one type, is read back
  -- from its two labels and its `String`, if what is printed for each value of the assertion is one
  -- word without a comma, no keyword, and parsed as that value by the libraries.
  pub parse_measurement-to_string : (m : Command.Measurement F) → IsPlain m → ReadsBack m
  parse_measurement-to_string m h = elim (Option-cases m.assertion) [
    | inl e ↦ plain-ReadsBack m h e
    | inr (a, e) ↦ by_kind a e (rw e at h.printable)
  ]
    where
      by_kind :
          (a : Assertion.Assertion F) → m.assertion ≡ some a → IsPrintable (some a) → ReadsBack m
      by_kind a e (inl (k, p, n)) =
          is-ReadsBack m a.v1 h (e ∙ λ i. some (record { kind = k i; v1 = a.v1; v2 = n i })) p
      by_kind a e (inr (k, p, q, same)) =
          in-ReadsBack m a.v1 a.v2 h (e ∙ λ i. some (record { kind = k i; v1 = a.v1; v2 = a.v2 })) p
            q same
