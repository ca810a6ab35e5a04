-- ===== src/Yaml/Content.antt =====
-- What the scenarios of a successful `parse` of test_yaml_parser.go are made of.
pub mod Texts
use ringpop_common.Common.{
  ℕ, zero, suc, ◌+◌, ◌-◌, ◌≡◌, refl, inl, inr, true, Option, none, some, List, [], ◌∷◌, ◌++◌, ◌==◌,
  Bool-cases, Bytes, length, get_elem?, All,
}
use ringpop_common.Common.Int.{ℤ}
use ringpop_common.Float.{Float64}
use ringpop_common.Calc.{Expr}
use ringpop_common.Outcome.{in_scenario, in_run, in_script, ok, recovered-eq-ok}
use ringpop_common.Command.{Measurement, Scenario}
use ringpop_common.Yaml
use ringpop_common.Yaml.Atoi.{atoi}
use ringpop_common.Yaml.Ensures.{
  Ensures, Ensures-bind, Ensures-wrap_panic, Ensures-eq_ok, Ensures-self, Ensures-map,
}
use ringpop_common.Yaml.Content.Texts.{
  IsVariable, check_vars-All, Each, at-some, size_of-atoi, IsCommandOf, extract_script-Entries,
  script_commands-Each, replace_each-Each,
}

module _ {F : Type 0} (fl : Float64 F) (parse_expr : Bytes → Option Expr)
    (parse_duration : Bytes → Option ℤ) where
  -- The measurement is what the line is parsed to, after the replacement.
  abbrev pub IsMeasurementOf : List Bytes → List Bytes → Bytes → Measurement F → Type 0
  IsMeasurementOf vs rs line m =
      (text : Bytes) × (Yaml.replace line vs rs ≡ ok text)
      × (Yaml.parse_measurement fl parse_expr parse_duration text ≡ ok m)

  -- The scenario is the run `i` of that scenario of the file.
  pub record IsRunOf (d : Yaml.ScenarioYaml) (i : ℕ) (s : Scenario F) : Type 0 where
    pub vars : List Bytes
    pub values : List Bytes
    pub vars_first : get_elem? d.runs 0 ≡ some vars
    pub values_at : get_elem? d.runs i ≡ some values
    pub paired : (length vars == length values) ≡ true
    pub named : s.name ≡ d.name
    pub described : Yaml.replace d.desc vars values ≡ ok s.desc
    pub size_text : Bytes
    pub size_replaced : Yaml.replace d.size vars values ≡ ok size_text
    pub sized : atoi size_text ≡ some s.size
    pub scripted : Each (IsCommandOf vars values) d.script s.script
    pub measured : Each (IsMeasurementOf vars values) d.measure s.measure

  parse_measurements-Each :
      (vs rs ss ts : List Bytes)
      → Each (λ s t. Yaml.replace s vs rs ≡ ok t) ss ts
      → Ensures
          (Each (IsMeasurementOf vs rs) ss)
          (Yaml.parse_measurements fl parse_expr parse_duration ts)
  unfolding Yaml.parse_measurements
  parse_measurements-Each vs rs [] [] h = tt
  parse_measurements-Each vs rs [] (t ∷ ts) h = elim h [ ]
  parse_measurements-Each vs rs (s ∷ ss) [] h = elim h [ ]
  parse_measurements-Each vs rs (s ∷ ss) (t ∷ ts) (h, hs) =
      let first = Yaml.parse_measurement fl parse_expr parse_duration t in
      let others = Yaml.parse_measurements fl parse_expr parse_duration ts in
      Ensures-bind _ _ first _ (Ensures-self first) λ m hm.
        Ensures-bind _ _ others _ (parse_measurements-Each vs rs ss ts hs) λ ms k. ((t, h, hm), k)

  scenario_body-IsRunOf :
      (d : Yaml.ScenarioYaml) (vs rs : List Bytes) (i : ℕ)
      → get_elem? d.runs 0 ≡ some vs
      → get_elem? d.runs i ≡ some rs
      → Ensures (IsRunOf d i) (Yaml.scenario_body fl parse_expr parse_duration d vs rs)
  unfolding Yaml.scenario_body Yaml.parse_script
  scenario_body-IsRunOf d vs rs i first here = elim (Bool-cases (length vs == length rs)) [
    | inr differ ↦ rw differ tt
    | inl same ↦ rw same (
        Ensures-bind _ _ (Yaml.replace d.desc vs rs) _ (Ensures-self (Yaml.replace d.desc vs rs))
          λ desc hd.
            Ensures-bind _ _ (Yaml.replace d.size vs rs) _
              (Ensures-self (Yaml.replace d.size vs rs))
              λ size_str hz.
                Ensures-bind _ _ (Yaml.size_of size_str) _ (size_of-atoi size_str) λ size hn.
                  Ensures-bind _ _ (Yaml.extract_script d.script vs rs) _
                    (extract_script-Entries vs rs d.script)
                    λ lc hl.
                      Ensures-bind _ _ (Yaml.parse_script lc.0 lc.1) _
                        (Ensures-wrap_panic _ in_script (Yaml.script_commands lc.0 lc.1)
                          (script_commands-Each vs rs d.script lc.0 lc.1 hl))
                        λ script hs.
                          Ensures-bind _ _ (Yaml.replace_each d.measure vs rs) _
                            (replace_each-Each vs rs d.measure)
                            λ strs hm.
                              Ensures-bind _ _
                                (Yaml.parse_measurements fl parse_expr parse_duration strs) _
                                (parse_measurements-Each vs rs d.measure strs hm)
                                λ ms hk. record {
                                  vars = vs;
                                  values = rs;
                                  vars_first = first;
                                  values_at = here;
                                  paired = same;
                                  named = refl;
                                  described = hd;
                                  size_text = size_str;
                                  size_replaced = hz;
                                  sized = hn;
                                  scripted = hs;
                                  measured = hk;
                                })
  ]

  extract_scenario-IsRunOf :
      (d : Yaml.ScenarioYaml) (i : ℕ)
      → Ensures (IsRunOf d i) (Yaml.extract_scenario fl parse_expr parse_duration d i)
  unfolding Yaml.extract_scenario
  extract_scenario-IsRunOf d i = Ensures-bind _ _ (Yaml.at d.runs 0) _ (at-some d.runs 0) λ vs hv.
      Ensures-bind _ _ (Yaml.at d.runs i) _ (at-some d.runs i) λ rs hr.
        Ensures-wrap_panic _ (in_scenario d.name) _
          (Ensures-wrap_panic _ (in_run i) _ (scenario_body-IsRunOf d vs rs i hv hr))

  -- the runs from number `i` on, `n` of them, and then the rest
  abbrev pub AreRunsOf : Yaml.ScenarioYaml → ℕ → ℕ → List (Scenario F) → List (Scenario F) → Type 0
  AreRunsOf d zero i ss rest = ss ≡ rest
  AreRunsOf d (suc n) i [] rest = ⊥
  AreRunsOf d (suc n) i (s ∷ ss) rest = IsRunOf d i s × AreRunsOf d n (i + 1) ss rest

  -- The first line of the runs is there, and names variables only.
  abbrev pub HasVariables : Yaml.ScenarioYaml → Type 0
  HasVariables d = (vars : List Bytes) × (get_elem? d.runs 0 ≡ some vars) × All IsVariable vars

  abbrev pub Follows : Yaml.TestYaml → List (Scenario F) → Type 0
  Follows [] ss = ss ≡ []
  Follows (none ∷ ds) ss = ⊥
  Follows (some d ∷ ds) ss =
      HasVariables d
      × (rest : List (Scenario F)) × AreRunsOf d (length d.runs - 1) 1 ss rest
      × Follows ds rest

  extract_runs-AreRunsOf :
      (d : Yaml.ScenarioYaml) (n i : ℕ)
      → Ensures
          (λ ss. (rest : List (Scenario F)) → AreRunsOf d n i (ss ++ rest) rest)
          (Yaml.extract_runs fl parse_expr parse_duration d n i)
  unfolding Yaml.extract_runs
  extract_runs-AreRunsOf d zero i = λ rest. refl
  extract_runs-AreRunsOf d (suc n) i =
      let first = Yaml.extract_scenario fl parse_expr parse_duration d i in
      let others = Yaml.extract_runs fl parse_expr parse_duration d n (i + 1) in
      Ensures-bind _ _ first _ (extract_scenario-IsRunOf d i) (λ s hs.
        Ensures-bind _ _ others _ (extract_runs-AreRunsOf d n (i + 1))
          (λ ss h. λ rest. (hs, h rest)))

  -- what one scenario of the file gives, whatever follows
  abbrev IsHere : Yaml.ScenarioYaml → List (Scenario F) → Type 0
  IsHere d ss =
      HasVariables d
      × ((rest : List (Scenario F)) → AreRunsOf d (length d.runs - 1) 1 (ss ++ rest) rest)

  scenario_runs-IsHere :
      (d : Yaml.ScenarioYaml)
      → Ensures (IsHere d) (Yaml.scenario_runs fl parse_expr parse_duration (some d))
  unfolding Yaml.scenario_runs
  scenario_runs-IsHere d =
      let k = length d.runs - 1 in
      Ensures-bind _ _ (Yaml.at d.runs 0) _ (at-some d.runs 0) λ vs hv.
        Ensures-bind _ _ (Yaml.check_vars vs) _ (check_vars-All vs) λ u named.
          Ensures-map _ (IsHere d) (Yaml.extract_runs fl parse_expr parse_duration d k 1)
            (λ ss h. ((vs, hv, named), h)) (extract_runs-AreRunsOf d k 1)

  extract_scenarios-Follows :
      (t : Yaml.TestYaml)
      → Ensures (Follows t) (Yaml.extract_scenarios fl parse_expr parse_duration t)
  unfolding Yaml.extract_scenarios
  extract_scenarios-Follows [] = refl
  extract_scenarios-Follows (none ∷ ds) = unfold Yaml.scenario_runs in tt
  extract_scenarios-Follows (some d ∷ ds) =
      let others = Yaml.extract_scenarios fl parse_expr parse_duration ds in
      Ensures-bind (IsHere d) _ (Yaml.scenario_runs fl parse_expr parse_duration (some d)) _
        (scenario_runs-IsHere d)
        (λ here (has, hh).
          Ensures-bind (Follows ds) _ others _ (extract_scenarios-Follows ds)
            (λ rest hr. (has, rest, hh rest, hr)))

  unmarshalled-Follows :
      (o : Option Yaml.TestYaml) {ss : List (Scenario F)}
      → Yaml.unmarshalled fl parse_expr parse_duration o ≡ ok ss
      → (t : Yaml.TestYaml) × (o ≡ some t) × Follows t ss
  unfolding Yaml.unmarshalled
  unmarshalled-Follows none h = cc
  unmarshalled-Follows (some t) h = (
    t,
    refl,
    Ensures-eq_ok (Follows t) (Yaml.extract_scenarios fl parse_expr parse_duration t)
        (extract_scenarios-Follows t) h,
  )

  -- Whenever `parse` returns scenarios, the text was YAML of the expected form, no scenario in it was
  -- null, each declares variables of the form <var> in the first line of its runs, and the result has,
  -- in order, one scenario for each of the others. It has the scenario's name,
  -- its description and its size with the variables of the first line replaced by the values of the
  -- run, which are as many; a command for each entry of the script, with the entry's one label and the
  -- words of its one text, both replaced; and for each measurement what its replaced line parses to.
  pub parse-Follows :
      (unmarshal : Bytes → Option Yaml.TestYaml) (bts : Bytes) {ss : List (Scenario F)}
      → Yaml.parse fl parse_expr parse_duration unmarshal bts ≡ ok ss
      → (t : Yaml.TestYaml) × (unmarshal bts ≡ some t) × Follows t ss
  unfolding Yaml.parse Yaml.parse_scenarios
  parse-Follows unmarshal bts h = unmarshalled-Follows (unmarshal bts) (recovered-eq-ok _ h)
