-- ===== src/Judged.antt =====
-- A test file from test_yaml_parser.go to the verdicts on its measurements: measurement.go measures
-- what the parser returned, and assertion.go checks it.
use ringpop_common.Common.{
  inl, inr, Option, none, some, ℕ, zero, suc, ◌+◌, ◌-◌, ◌<◌, ◌≡◌, refl, sym, subst, Bool, List, [],
  ◌∷◌, Bytes, length, All,
}
use ringpop_common.Common.Int.{ℤ, pos}
use ringpop_common.Outcome.{Failure, Outcome, ok, err, panic, exit, timeout, IsResult}
use ringpop_common.Float.{Float64}
use ringpop_common.Calc.{Expr}
use ringpop_common.Value.{Value, duration}
use ringpop_common.Assertion.{Assertion, assert_value}
use ringpop_common.Assertion.Range.{IsParsed}
use ringpop_common.Command.{Measurement, Scenario}
use ringpop_common.Scanner.{Scanner, Yields}
use ringpop_common.Measurement.{measure}
use ringpop_common.Measurement.Kinds.{HasKind, kind_of, measure-HasKind}
use ringpop_common.Measurement.Ends.{Ends, IsFatal, IsPanic, measure-Ends}
use ringpop_common.Yaml
use ringpop_common.Yaml.Shape.{parse_measurement-IsParsed}
use ringpop_common.Yaml.Content.{IsMeasurementOf, AreRunsOf, Follows, parse-Follows}
use ringpop_common.Yaml.Content.Texts.{Each}

module _ {F : Type 0} (fl : Float64 F) where
  -- A value of the type of the quantity that the assertion passes or refuses with an error, an error
  -- of the measurement, or the panic that a line cut short between its labels makes.
  abbrev pub Judged : List Bytes → Measurement F → Outcome (Value F) → Type 0
  Judged ls m (ok v) = HasKind v (kind_of m.quantity) × IsResult (assert_value fl m.assertion v)
  Judged ls m (err e) = Unit
  Judged ls m (panic e) = IsPanic m ls e
  Judged ls m _ = ⊥

module _ {F : Type 0} (fl : Float64 F) (parse_expr : Bytes → Option Expr)
    (parse_duration : Bytes → Option ℤ) where
  module _ (P : Measurement F → Type 0)
      (each : (text : Bytes) (m : Measurement F)
        → Yaml.parse_measurement fl parse_expr parse_duration text ≡ ok m
        → P m) where
    Each-All :
        (vs rs lines : List Bytes) (ms : List (Measurement F))
        → Each (IsMeasurementOf fl parse_expr parse_duration vs rs) lines ms
        → All P ms
    Each-All vs rs [] [] h = tt
    Each-All vs rs [] (m ∷ ms) h = elim h [ ]
    Each-All vs rs (l ∷ ls) [] h = elim h [ ]
    Each-All vs rs (l ∷ ls) (m ∷ ms) ((text, _, parsed), h) =
        (each text m parsed, Each-All vs rs ls ms h)

    AreRunsOf-All :
        (d : Yaml.ScenarioYaml) (n i : ℕ) (ss rest : List (Scenario F))
        → AreRunsOf fl parse_expr parse_duration d n i ss rest
        → All (λ (s : Scenario F). All P s.measure) rest
        → All (λ (s : Scenario F). All P s.measure) ss
    AreRunsOf-All d zero i ss rest h k = subst (All (λ (s : Scenario F). All P s.measure)) (sym h) k
    AreRunsOf-All d (suc n) i [] rest h k = absurd h
    AreRunsOf-All d (suc n) i (s ∷ ss) rest (h, hs) k = (
      Each-All h.vars h.values d.measure s.measure h.measured,
      AreRunsOf-All d n (i + 1) ss rest hs k,
    )

    Follows-All :
        (t : Yaml.TestYaml) (ss : List (Scenario F))
        → Follows fl parse_expr parse_duration t ss
        → All (λ (s : Scenario F). All P s.measure) ss
    Follows-All [] ss h = subst (All (λ (s : Scenario F). All P s.measure)) (sym h) tt
    Follows-All (none ∷ ds) ss h = absurd h
    Follows-All (some d ∷ ds) ss (_, rest, h, hs) =
        AreRunsOf-All d (length d.runs - 1) 1 ss rest h (Follows-All ds rest hs)

  not-IsFatal : (a : Option (Assertion F)) (e : Failure) → IsParsed a → IsFatal a e → ⊥
  not-IsFatal none e h f = f
  not-IsFatal (some a) e (inl (is, _)) (n_is, _, _) = n_is is
  not-IsFatal (some a) e (inr (is_in, _, _)) (_, n_in, _) = n_in is_in

  judged :
      {S : Type 0} (sc : Scanner S) (match_string : Bytes → Bytes → Option Bool) (text : Bytes)
      (m : Measurement F) (ls : List Bytes) (fuel : ℕ) (s : S) (r : Outcome (Value F))
      → Yaml.parse_measurement fl parse_expr parse_duration text ≡ ok m
      → measure fl sc match_string fuel m s ≡ r
      → Ends (IsFatal m.assertion) (IsPanic m ls) r
      → Judged fl ls m r
  judged sc match_string text m ls fuel s (ok v) parsed h e =
      let typed = measure-HasKind fl sc match_string fuel m s h in
      let (_, result) =
        parse_measurement-IsParsed fl parse_expr parse_duration text v parsed typed.0 in
      (typed, result)
  judged sc match_string text m ls fuel s (err f) parsed h e = tt
  judged sc match_string text m ls fuel s (panic f) parsed h e = e
  judged sc match_string text m ls fuel s (exit f) parsed h e =
      let (shape, _) =
        parse_measurement-IsParsed fl parse_expr parse_duration text (duration (pos 0)) parsed tt in
      not-IsFatal m.assertion f shape e
  judged sc match_string text m ls fuel s timeout parsed h e = e

  -- Every measurement of every scenario that `parse` returns, over any scanner that stops, with
  -- whatever lines and whatever error, and with more fuel than lines: `Measure` ends with an error, or
  -- with a value of the type of its quantity, and then `Assert` of that value passes or gives an error,
  -- and does not panic; or `Measure` panics on a slice out of range, and then the quantity is
  -- "checksums" and between the labels stands a line with a node's checksum path and less than two
  -- bytes behind it. It does not end the process.
  pub parse-Judged :
      {S : Type 0} (sc : Scanner S) (match_string : Bytes → Bytes → Option Bool)
      (unmarshal : Bytes → Option Yaml.TestYaml) (bts : Bytes) {ss : List (Scenario F)}
      (ls : List Bytes) (fuel : ℕ) (s : S) (e : Option Failure)
      → Yaml.parse fl parse_expr parse_duration unmarshal bts ≡ ok ss
      → length ls < fuel
      → Yields sc s ls e
      → All
          (λ (scn : Scenario F).
            All (λ m. Judged fl ls m (measure fl sc match_string fuel m s)) scn.measure)
          ss
  parse-Judged sc match_string unmarshal bts {ss} ls fuel s e h enough y =
      let (t, _, follows) = parse-Follows fl parse_expr parse_duration unmarshal bts h in
      Follows-All (λ m. Judged fl ls m (measure fl sc match_string fuel m s))
        (λ text m parsed.
          judged sc match_string text m ls fuel s (measure fl sc match_string fuel m s) parsed refl
            (measure-Ends fl match_string sc ls fuel m s e enough y))
        t ss follows
