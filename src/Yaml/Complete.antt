-- ===== src/Yaml/Complete.antt =====
-- test_yaml_parser.go parses every test file of the right form.
use ringpop_common.Common.{
  ℕ, zero, suc, ◌+◌, ◌-◌, ◌≡◌, refl, sym, ap, ◌↔◌, Option, none, some, List, [], ◌∷◌, ◌++◌, Bytes,
  length, get_elem?, All,
}
use ringpop_common.Common.Int.{ℤ}
use ringpop_common.Float.{Float64}
use ringpop_common.Calc.{Expr}
use ringpop_common.Outcome.{ok, wrap_panic}
use ringpop_common.Command.{Command, Measurement, Scenario}
use ringpop_common.Yaml
use ringpop_common.Yaml.Atoi.{atoi}
use ringpop_common.Yaml.Content.{IsMeasurementOf, IsRunOf, AreRunsOf, Follows, parse-Follows}
use ringpop_common.Yaml.Content.Texts.{Each, IsCommandOf, IsVariable}

at-get_elem? :
    {A : Type 0} (xs : List A) (i : ℕ) {x : A} → get_elem? xs i ≡ some x → Yaml.at xs i ≡ ok x
at-get_elem? xs i h = rw (Yaml.at, h)

check_var_ok : (v : Bytes) → IsVariable v → Yaml.check_var v ≡ ok tt
unfolding Yaml.check_var
check_var_ok v (first, last) =
    rw (at-get_elem? v 0 first) (rw (at-get_elem? v (length v - 1) last) refl)

check_vars_ok : (vs : List Bytes) → All IsVariable vs → Yaml.check_vars vs ≡ ok tt
unfolding Yaml.check_vars
check_vars_ok [] h = refl
check_vars_ok (v ∷ vs) (hv, h) = rw (check_var_ok v hv) (check_vars_ok vs h)

size_of_ok : (s : Bytes) {n : ℤ} → atoi s ≡ some n → Yaml.size_of s ≡ ok n
unfolding Yaml.size_of Yaml.size_result
size_of_ok s h = rw h

module _ (vs rs : List Bytes) where
  parse_command_ok :
      (d : List (Bytes × Bytes)) (c : Command) (h : IsCommandOf vs rs d c)
      → (Yaml.script_entry d vs rs ≡ ok (c.label, h.0)) × (Yaml.parse_command c.label h.0 ≡ ok c)
  unfolding Yaml.script_entry Yaml.parse_command Yaml.command_of wrap_panic
  parse_command_ok d c (text, (label, cmd, is, hl, ht), words) =
      (rw is (rw hl (rw ht refl)), rw words refl)

  script_ok :
      (ds : List (List (Bytes × Bytes))) (cs : List Command)
      → Each (IsCommandOf vs rs) ds cs
      → (labels : List Bytes) × (cmds : List Bytes) × (Yaml.extract_script ds vs rs
          ≡ ok (labels, cmds))
        × (Yaml.script_commands labels cmds ≡ ok cs)
  unfolding Yaml.extract_script Yaml.script_commands
  script_ok [] [] h = ([], [], refl, refl)
  script_ok [] (c ∷ cs) h = elim h [ ]
  script_ok (d ∷ ds) [] h = elim h [ ]
  script_ok (d ∷ ds) (c ∷ cs) (h, hs) =
      let (labels, cmds, extracted, parsed) = script_ok ds cs hs in
      let (entry, command) = parse_command_ok d c h in
      (c.label ∷ labels, h.0 ∷ cmds, rw entry (rw extracted refl), rw command (rw parsed refl))

  module _ {F : Type 0} (fl : Float64 F) (parse_expr : Bytes → Option Expr)
      (parse_duration : Bytes → Option ℤ) where
    measurements_ok :
        (ss : List Bytes) (ms : List (Measurement F))
        → Each (IsMeasurementOf fl parse_expr parse_duration vs rs) ss ms
        → (texts : List Bytes) × (Yaml.replace_each ss vs rs ≡ ok texts)
          × (Yaml.parse_measurements fl parse_expr parse_duration texts ≡ ok ms)
    unfolding Yaml.replace_each Yaml.parse_measurements
    measurements_ok [] [] h = ([], refl, refl)
    measurements_ok [] (m ∷ ms) h = elim h [ ]
    measurements_ok (s ∷ ss) [] h = elim h [ ]
    measurements_ok (s ∷ ss) (m ∷ ms) ((text, replaced, is), hs) =
        let (texts, each, parsed) = measurements_ok ss ms hs in
        (text ∷ texts, rw replaced (rw each refl), rw is (rw parsed refl))

module _ {F : Type 0} (fl : Float64 F) (parse_expr : Bytes → Option Expr)
    (parse_duration : Bytes → Option ℤ) where
  scenario_body_ok :
      (d : Yaml.ScenarioYaml) (i : ℕ) (s : Scenario F)
      (h : IsRunOf fl parse_expr parse_duration d i s)
      → Yaml.scenario_body fl parse_expr parse_duration d h.vars h.values ≡ ok s
  unfolding Yaml.scenario_body Yaml.parse_script wrap_panic
  scenario_body_ok d i s h =
      let (labels, cmds, extracted, parsed) =
        script_ok h.vars h.values d.script s.script h.scripted in
      let (texts, each, measured) =
        measurements_ok h.vars h.values fl parse_expr parse_duration d.measure s.measure
          h.measured in
      let renamed : ok (record s { name = d.name }) ≡ ok s =
        ap (λ n. ok (record s { name = n })) (sym h.named) in
      rw h.paired (
        rw (h.described, h.size_replaced)
          (rw (size_of_ok h.size_text h.sized, extracted) (rw (parsed, each, measured) renamed)))

  extract_scenario_ok :
      (d : Yaml.ScenarioYaml) (i : ℕ) (s : Scenario F)
      → IsRunOf fl parse_expr parse_duration d i s
      → Yaml.extract_scenario fl parse_expr parse_duration d i ≡ ok s
  unfolding Yaml.extract_scenario wrap_panic
  extract_scenario_ok d i s h =
      rw (at-get_elem? d.runs 0 h.vars_first)
        (rw (at-get_elem? d.runs i h.values_at) (rw (scenario_body_ok d i s h) refl))

  extract_runs_ok :
      (d : Yaml.ScenarioYaml) (n i : ℕ) (ss rest : List (Scenario F))
      → AreRunsOf fl parse_expr parse_duration d n i ss rest
      → (here : List (Scenario F)) × (ss ≡ here ++ rest)
        × (Yaml.extract_runs fl parse_expr parse_duration d n i ≡ ok here)
  unfolding Yaml.extract_runs
  extract_runs_ok d zero i ss rest h = ([], h, refl)
  extract_runs_ok d (suc n) i [] rest h = elim h [ ]
  extract_runs_ok d (suc n) i (s ∷ ss) rest (h, hs) =
      let (here, all, runs) = extract_runs_ok d n (i + 1) ss rest hs in
      (s ∷ here, ap (◌∷◌ s) all, rw (extract_scenario_ok d i s h) (rw runs refl))

  extract_scenarios_ok :
      (t : Yaml.TestYaml) (ss : List (Scenario F))
      → Follows fl parse_expr parse_duration t ss
      → Yaml.extract_scenarios fl parse_expr parse_duration t ≡ ok ss
  unfolding Yaml.extract_scenarios Yaml.scenario_runs
  extract_scenarios_ok [] ss h = rw h refl
  extract_scenarios_ok (none ∷ ds) ss h = elim h [ ]
  extract_scenarios_ok (some d ∷ ds) ss ((vars, first, named), rest, runs, others) =
      let (here, all, extracted) = extract_runs_ok d (length d.runs - 1) 1 ss rest runs in
      rw (at-get_elem? d.runs 0 first) (
        rw (check_vars_ok vars named)
          (rw extracted (rw (extract_scenarios_ok ds rest others) (ap ok (sym all)))))

  -- `parse` returns exactly the scenarios that a text describes, and returns them wherever it describes
  -- some: the text is YAML of the expected form, no scenario in it is null, each declares variables of
  -- the form <var> in the first line of its runs, and the result has, in order, one scenario for each
  -- of the other lines, which has as many values. That scenario has the name given, the description and
  -- the size with the variables replaced by the values, the size being an integer; a command for each
  -- entry of the script, which has one label and one text of at least one word, with the label and the
  -- words, both after the replacement; and for each measurement what its line, after the replacement,
  -- is parsed to.
  pub parse-Follows_iff :
      (unmarshal : Bytes → Option Yaml.TestYaml) (bts : Bytes) (ss : List (Scenario F))
      → (Yaml.parse fl parse_expr parse_duration unmarshal bts ≡ ok ss) ↔ (
          (t : Yaml.TestYaml) × (unmarshal bts ≡ some t)
          × Follows fl parse_expr parse_duration t ss)
  unfolding Yaml.parse Yaml.parse_scenarios Yaml.unmarshalled
  parse-Follows_iff unmarshal bts ss = (
    parse-Follows fl parse_expr parse_duration unmarshal bts,
    λ (t, read, follows). rw read (rw (extract_scenarios_ok t ss follows) refl),
  )
