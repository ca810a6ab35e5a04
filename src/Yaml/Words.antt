-- ===== src/Yaml/Words.antt =====
-- `parseCommand` and `parseMeasurement` on lines of words.
use ringpop_common.Common.{
  ℕ, suc, ◌+◌, ◌<◌, ◌≡◌, refl, ap, ◌∙◌, true, false, Option, none, some, List, [], ◌∷◌, ◌++◌, arith,
  Bytes, length, length-append, take-append, drop-length_add, All,
}
use ringpop_common.Common.Int.{ℤ}
use ringpop_common.Float.{Float64}
use ringpop_common.Outcome.{
  Frame, in_measure, Failure, within, slice_out_of_range, Outcome, ok, err, panic, exit, timeout,
  ◌>>=◌, wrap_panic, ReturnsOrPanics,
}
use ringpop_common.Calc.{Expr}
use ringpop_common.Assertion.{Assertion}
use ringpop_common.Command
use ringpop_common.Command.{Command, Measurement}
use ringpop_common.Text.{join}
use ringpop_common.Text.Fields.{IsWord, fields-join, fields-cons}
use ringpop_common.Yaml
use ringpop_common.Yaml.Total.{parse_assertion-ReturnsOrPanics}
use ringpop_common.Yaml.Steps.{
  search_assertion_plain, search_assertion_outside, search_assertion_keyword,
}

-- Parsing undoes printing: a command whose name and arguments are words, that is visible ASCII
-- characters and at least one, is read back from its text, under its label.
parse_command-to_string :
    (c : Command)
    → IsWord c.cmd
    → All IsWord c.args
    → Yaml.parse_command c.label (Command.to_string c) ≡ ok c
unfolding Yaml.parse_command Yaml.command_of Command.to_string wrap_panic
parse_command-to_string c h hs =
    rw (fields-cons c.cmd (join c.args (b' ' ∷ [])) h, fields-join c.args hs) refl

module _ {F : Type 0} (fl : Float64 F) (parse_expr : Bytes → Option Expr)
    (parse_duration : Bytes → Option ℤ) where
  search_assertion-All :
      (ss : List Bytes) (i : ℕ) (args : List Bytes) (a : Option (Assertion F))
      → All (λ s. Yaml.is_keyword s ≡ false) ss
      → Yaml.search_assertion fl parse_expr parse_duration i ss args a ≡ ok (args, a)
  search_assertion-All [] i args a h = unfold Yaml.search_assertion in refl
  search_assertion-All (s ∷ ss) i args a (hs, h) =
      search_assertion_plain fl parse_expr parse_duration i s ss args a hs
      ∙ search_assertion-All ss (i + 1) args a h

  search_assertion-append :
      (pre rest : List Bytes) (i : ℕ) (args : List Bytes) (a : Option (Assertion F))
      → All (λ s. Yaml.is_keyword s ≡ false) pre
      → Yaml.search_assertion fl parse_expr parse_duration i (pre ++ rest) args a
        ≡ Yaml.search_assertion fl parse_expr parse_duration (i + length pre) rest args a
  search_assertion-append [] rest i args a h = let e : i + 0 ≡ i = omega arith in rw e
  search_assertion-append (s ∷ pre) rest i args a (hs, h) =
      search_assertion_plain fl parse_expr parse_duration i s (pre ++ rest) args a hs
      ∙ search_assertion-append pre rest (i + 1) args a h
      ∙ (let e : i + 1 + length pre ≡ i + suc (length pre) = omega arith in rw e)

  -- The first keyword: what follows is the assertion, what stands before are the arguments.
  search_assertion_first :
      (pre rest : List Bytes) (kw : Bytes)
      → All (λ s. Yaml.is_keyword s ≡ false) pre
      → Yaml.is_keyword kw ≡ true
      → Yaml.search_assertion fl parse_expr parse_duration 0
          (pre ++ (kw ∷ rest))
          (pre ++ (kw ∷ rest))
          none
        ≡ (Yaml.parse_assertion fl parse_expr parse_duration kw (join rest []) >>= λ b.
            Yaml.search_assertion fl parse_expr parse_duration (length pre + 1) rest pre (some b))
  search_assertion_first pre rest kw h k =
      search_assertion-append pre (kw ∷ rest) 0 (pre ++ (kw ∷ rest)) none h
      ∙ (let e : 0 + length pre ≡ length pre = omega arith in rw e refl)
      ∙ search_assertion_keyword fl parse_expr parse_duration (length pre) kw rest
          (pre ++ (kw ∷ rest)) none k (omega (arith, length-append {0} pre (kw ∷ rest)))
      ∙ rw (drop-length_add 1 pre (kw ∷ rest), take-append pre (kw ∷ rest)) refl

  search_then {κ} :
      {B : Type κ} (m : Outcome (Assertion F)) (i : ℕ) (rest args : List Bytes)
      (build : List Bytes × Option (Assertion F) → B)
      → All (λ s. Yaml.is_keyword s ≡ false) rest
      → ((m >>= λ b. Yaml.search_assertion fl parse_expr parse_duration i rest args (some b))
          >>= λ r. ok (build r))
        ≡ (m >>= λ b. ok (build (args, some b)))
  search_then (ok b) i rest args build h = rw (search_assertion-All rest i args (some b) h)
  search_then (err e) i rest args build h = refl
  search_then (panic e) i rest args build h = refl
  search_then (exit e) i rest args build h = refl
  search_then timeout i rest args build h = refl

  -- The text of a measurement: its words with a blank between each two.
  abbrev pub line_of : Bytes → Bytes → Bytes → List Bytes → Bytes
  line_of start end quantity args = join (start ∷ end ∷ quantity ∷ args) (b' ' ∷ [])

  module _ (start end quantity : Bytes) (hs : IsWord start) (he : IsWord end)
      (hq : IsWord quantity) where
    -- A line of words with no keyword among the arguments is a measurement with those arguments
    -- and no assertion.
    pub parse_measurement_plain :
        (args : List Bytes)
        → All IsWord args
        → All (λ s. Yaml.is_keyword s ≡ false) args
        → Yaml.parse_measurement fl parse_expr parse_duration (line_of start end quantity args)
          ≡ ok (record {
            start = start;
            end = end;
            quantity = quantity;
            args = args;
            assertion = none;
          })
    unfolding Yaml.parse_measurement Yaml.measurement_fields wrap_panic
    parse_measurement_plain args hw h =
        rw (fields-join (start ∷ end ∷ quantity ∷ args) (hs, (he, (hq, hw))))
          (rw (search_assertion-All args 0 args none h) refl)

    -- With one keyword among the words the words before it are the arguments, and those behind it,
    -- put together without blanks, the text of the assertion; a failure to parse that text is the
    -- failure of the measurement, in the context of its line.
    pub parse_measurement_keyword :
        (args rest : List Bytes) (kw : Bytes)
        → All IsWord (args ++ (kw ∷ rest))
        → All (λ s. Yaml.is_keyword s ≡ false) args
        → Yaml.is_keyword kw ≡ true
        → All (λ s. Yaml.is_keyword s ≡ false) rest
        → Yaml.parse_measurement fl parse_expr parse_duration
            (line_of start end quantity (args ++ (kw ∷ rest)))
          ≡ wrap_panic (in_measure (line_of start end quantity (args ++ (kw ∷ rest)))) (
              Yaml.parse_assertion fl parse_expr parse_duration kw (join rest []) >>= λ b.
              ok (record {
                start = start;
                end = end;
                quantity = quantity;
                args = args;
                assertion = some b;
              }))
    unfolding Yaml.parse_measurement Yaml.measurement_fields
    parse_measurement_keyword args rest kw hw ha k hr =
        rw (fields-join (start ∷ end ∷ quantity ∷ (args ++ (kw ∷ rest))) (hs, (he, (hq, hw)))) (
          ap (wrap_panic (in_measure (line_of start end quantity (args ++ (kw ∷ rest))))) (
            rw (search_assertion_first args rest kw ha k) (
              search_then (Yaml.parse_assertion fl parse_expr parse_duration kw (join rest []))
                (length args + 1) rest args _ hr)))

    two_keywords :
        (m : Outcome (Assertion F)) (i : ℕ) (mid rest args : List Bytes) (kw2 : Bytes)
        (build : List Bytes × Option (Assertion F) → Measurement F) (fr : Frame)
        → ReturnsOrPanics m
        → length args < i + 1
        → All (λ s. Yaml.is_keyword s ≡ false) mid
        → Yaml.is_keyword kw2 ≡ true
        → (f : Failure) × (wrap_panic fr (
              (m >>= λ b.
              Yaml.search_assertion fl parse_expr parse_duration i
                (mid ++ (kw2 ∷ rest))
                args
                (some b))
              >>= λ r. ok (build r))
            ≡ panic f)
    unfolding wrap_panic
    two_keywords (ok b) i mid rest args kw2 build fr h lt hm k2 = (
      within fr slice_out_of_range,
      rw (search_assertion-append mid (kw2 ∷ rest) i args (some b) hm) (
          rw
            (search_assertion_outside fl parse_expr parse_duration (i + length mid) kw2 rest args
              (some b) k2 (omega arith))
            refl),
    )
    two_keywords (panic e) i mid rest args kw2 build fr h lt hm k2 = (within fr e, refl)
    two_keywords (err e) i mid rest args kw2 build fr h lt hm k2 = absurd h
    two_keywords (exit e) i mid rest args kw2 build fr h lt hm k2 = absurd h
    two_keywords timeout i mid rest args kw2 build fr h lt hm k2 = absurd h

    -- A line with a second keyword behind the first is refused by a panic, whatever stands between
    -- and behind them: if the words behind the first keyword are an assertion, the second index is
    -- behind the end of the arguments, which the first keyword has cut.
    pub parse_measurement_two_keywords :
        (args mid rest : List Bytes) (kw kw2 : Bytes)
        → All IsWord (args ++ (kw ∷ (mid ++ (kw2 ∷ rest))))
        → All (λ s. Yaml.is_keyword s ≡ false) args
        → Yaml.is_keyword kw ≡ true
        → All (λ s. Yaml.is_keyword s ≡ false) mid
        → Yaml.is_keyword kw2 ≡ true
        → (f : Failure) × (Yaml.parse_measurement fl parse_expr parse_duration
              (line_of start end quantity (args ++ (kw ∷ (mid ++ (kw2 ∷ rest)))))
            ≡ panic f)
    unfolding Yaml.parse_measurement Yaml.measurement_fields
    parse_measurement_two_keywords args mid rest kw kw2 hw ha k hm k2 =
        rw
          (fields-join (start ∷ end ∷ quantity ∷ (args ++ (kw ∷ (mid ++ (kw2 ∷ rest)))))
            (hs, (he, (hq, hw))))
          (rw (search_assertion_first args (mid ++ (kw2 ∷ rest)) kw ha k) (
            two_keywords
              (Yaml.parse_assertion fl parse_expr parse_duration kw (join (mid ++ (kw2 ∷ rest)) []))
              (length args + 1) mid rest args kw2 _ _
              (parse_assertion-ReturnsOrPanics fl parse_expr parse_duration kw
                (join (mid ++ (kw2 ∷ rest)) []))
              (omega arith) hm k2))
