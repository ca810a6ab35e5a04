-- ===== src/Yaml/Total.antt =====
-- `parse` always gives a result: every panic of the functions below it ends as an error.
pub mod Parts
use ringpop_common.Common.{
  ℕ, zero, suc, ◌+◌, ◌-◌, inl, inr, not, Option, none, some, List, [], ◌∷◌, arith, ltb, ◌==◌,
  Bool-cases, Bytes, bytes_eq, length, take, drop,
}
use ringpop_common.Common.Int.{ℤ}
use ringpop_common.Float.{Float64}
use ringpop_common.Outcome.{
  in_scenario, in_run, in_script, in_measure, in_assertion, in_range, in_value, Outcome, ok, err,
  panic, exit, timeout, ReturnsOrPanics, bind-ReturnsOrPanics, wrap_panic-ReturnsOrPanics, IsResult,
  recovered-IsResult,
}
use ringpop_common.Calc.{Expr, eval_text}
use ringpop_common.Calc.Meaning.{eval_text-IsResult}
use ringpop_common.Assertion.{Assertion, is_type, in_type}
use ringpop_common.Text.{fields, split, join}
use ringpop_common.Yaml.Steps.{
  search_assertion_plain, search_assertion_outside, search_assertion_keyword,
}
use ringpop_common.Yaml
use ringpop_common.Yaml.Total.Parts.{
  at-ReturnsOrPanics, replace-ReturnsOrPanics, script_commands-ReturnsOrPanics,
  extract_script-ReturnsOrPanics, replace_each-ReturnsOrPanics, size_of-ReturnsOrPanics,
  check_vars-ReturnsOrPanics,
}

module _ {F : Type 0} (fl : Float64 F) (parse_expr : Bytes → Option Expr)
    (parse_duration : Bytes → Option ℤ) where
  value_or_duration-ReturnsOrPanics :
      (m : Outcome F) (d : Option ℤ) → IsResult m → ReturnsOrPanics (Yaml.value_or_duration m d)
  unfolding Yaml.value_or_duration
  value_or_duration-ReturnsOrPanics (ok v) d h = tt
  value_or_duration-ReturnsOrPanics (err e) none h = tt
  value_or_duration-ReturnsOrPanics (err e) (some d) h = tt
  value_or_duration-ReturnsOrPanics (panic e) d h = tt
  value_or_duration-ReturnsOrPanics (exit e) d h = h
  value_or_duration-ReturnsOrPanics timeout d h = h

  parse_value-ReturnsOrPanics :
      (s : Bytes) → ReturnsOrPanics (Yaml.parse_value fl parse_expr parse_duration s)
  unfolding Yaml.parse_value
  parse_value-ReturnsOrPanics s = wrap_panic-ReturnsOrPanics (in_value s) _ (
      value_or_duration-ReturnsOrPanics (eval_text fl parse_expr s) (parse_duration s)
        (eval_text-IsResult fl parse_expr s))

  range_values-ReturnsOrPanics :
      (ss : List Bytes) → ReturnsOrPanics (Yaml.range_values fl parse_expr parse_duration ss)
  unfolding Yaml.range_values
  range_values-ReturnsOrPanics [] = tt
  range_values-ReturnsOrPanics (a ∷ []) = tt
  range_values-ReturnsOrPanics (a ∷ b ∷ []) =
      bind-ReturnsOrPanics (Yaml.parse_value fl parse_expr parse_duration a) _
        (parse_value-ReturnsOrPanics a)
        (λ v.
          bind-ReturnsOrPanics (Yaml.parse_value fl parse_expr parse_duration b) _
            (parse_value-ReturnsOrPanics b) (λ w. ground arith))
  range_values-ReturnsOrPanics (a ∷ b ∷ c ∷ ss) = tt

  parse_range-ReturnsOrPanics :
      (s : Bytes) → ReturnsOrPanics (Yaml.parse_range fl parse_expr parse_duration s)
  unfolding Yaml.parse_range
  parse_range-ReturnsOrPanics s = wrap_panic-ReturnsOrPanics (in_range s) _ (
      bind-ReturnsOrPanics (Yaml.at s 0) _ (at-ReturnsOrPanics s 0) (λ a.
        bind-ReturnsOrPanics (Yaml.at s (length s - 1)) _ (at-ReturnsOrPanics s (length s - 1))
          (λ b. ground (arith, range_values-ReturnsOrPanics (split (Yaml.inner s) b',')))))

  assertion_body-ReturnsOrPanics :
      (t s : Bytes) → ReturnsOrPanics (Yaml.assertion_body fl parse_expr parse_duration t s)
  unfolding Yaml.assertion_body
  assertion_body-ReturnsOrPanics t s = elim (Bool-cases (bytes_eq t is_type)) [
    | inl e ↦ rw e (
        bind-ReturnsOrPanics (Yaml.parse_value fl parse_expr parse_duration s) _
          (parse_value-ReturnsOrPanics s) (λ v. tt))
    | inr n ↦ rw n (elim (Bool-cases (bytes_eq t in_type)) [
      | inl e ↦ rw e (
          bind-ReturnsOrPanics (Yaml.parse_range fl parse_expr parse_duration s) _
            (parse_range-ReturnsOrPanics s) (λ v. tt))
      | inr m ↦ rw m tt
    ])
  ]

  pub parse_assertion-ReturnsOrPanics :
      (t s : Bytes) → ReturnsOrPanics (Yaml.parse_assertion fl parse_expr parse_duration t s)
  unfolding Yaml.parse_assertion
  parse_assertion-ReturnsOrPanics t s =
      wrap_panic-ReturnsOrPanics (in_assertion t s) _ (assertion_body-ReturnsOrPanics t s)

  search_assertion-ReturnsOrPanics :
      (i : ℕ) (ss args : List Bytes) (a : Option (Assertion F))
      → ReturnsOrPanics (Yaml.search_assertion fl parse_expr parse_duration i ss args a)
  search_assertion-ReturnsOrPanics i [] args a = unfold Yaml.search_assertion in tt
  search_assertion-ReturnsOrPanics i (s ∷ ss) args a = elim (Bool-cases (Yaml.is_keyword s)) [
    | inl k ↦ elim (Bool-cases (ltb i (length args))) [
      | inl inside ↦
          rw (search_assertion_keyword fl parse_expr parse_duration i s ss args a k (ground arith))
            (bind-ReturnsOrPanics
              (Yaml.parse_assertion fl parse_expr parse_duration s (join (drop (i + 1) args) [])) _
              (parse_assertion-ReturnsOrPanics s (join (drop (i + 1) args) []))
              (λ b. search_assertion-ReturnsOrPanics (i + 1) ss (take i args) (some b)))
      | inr outside ↦
          rw (search_assertion_outside fl parse_expr parse_duration i s ss args a k (ground arith))
            tt
    ]
    | inr k ↦
        rw (search_assertion_plain fl parse_expr parse_duration i s ss args a k)
          (search_assertion-ReturnsOrPanics (i + 1) ss args a)
  ]

  measurement_fields-ReturnsOrPanics :
      (fs : List Bytes) → ReturnsOrPanics (Yaml.measurement_fields fl parse_expr parse_duration fs)
  unfolding Yaml.measurement_fields
  measurement_fields-ReturnsOrPanics [] = tt
  measurement_fields-ReturnsOrPanics (a ∷ []) = tt
  measurement_fields-ReturnsOrPanics (a ∷ b ∷ []) = tt
  measurement_fields-ReturnsOrPanics (a ∷ b ∷ c ∷ args) =
      bind-ReturnsOrPanics (Yaml.search_assertion fl parse_expr parse_duration 0 args args none) _
        (search_assertion-ReturnsOrPanics 0 args args none) (λ r. tt)

  parse_measurements-ReturnsOrPanics :
      (ss : List Bytes) → ReturnsOrPanics (Yaml.parse_measurements fl parse_expr parse_duration ss)
  unfolding Yaml.parse_measurements Yaml.parse_measurement
  parse_measurements-ReturnsOrPanics [] = tt
  parse_measurements-ReturnsOrPanics (s ∷ ss) =
      bind-ReturnsOrPanics (Yaml.parse_measurement fl parse_expr parse_duration s) _
        (wrap_panic-ReturnsOrPanics (in_measure s) _
          (measurement_fields-ReturnsOrPanics (fields s)))
        (λ m.
          bind-ReturnsOrPanics (Yaml.parse_measurements fl parse_expr parse_duration ss) _
            (parse_measurements-ReturnsOrPanics ss) (λ r. tt))

  scenario_body-ReturnsOrPanics :
      (d : Yaml.ScenarioYaml) (vs rs : List Bytes)
      → ReturnsOrPanics (Yaml.scenario_body fl parse_expr parse_duration d vs rs)
  unfolding Yaml.scenario_body Yaml.parse_script
  scenario_body-ReturnsOrPanics d vs rs = elim (Bool-cases (not (length vs == length rs))) [
    | inl differ ↦ rw differ tt
    | inr same ↦ rw same (
        bind-ReturnsOrPanics (Yaml.replace d.desc vs rs) _ (replace-ReturnsOrPanics d.desc vs rs)
          λ desc.
            bind-ReturnsOrPanics (Yaml.replace d.size vs rs) _
              (replace-ReturnsOrPanics d.size vs rs)
              λ size_str.
                bind-ReturnsOrPanics (Yaml.size_of size_str) _ (size_of-ReturnsOrPanics size_str)
                  λ size.
                    bind-ReturnsOrPanics (Yaml.extract_script d.script vs rs) _
                      (extract_script-ReturnsOrPanics d.script vs rs)
                      λ lc.
                        bind-ReturnsOrPanics (Yaml.parse_script lc.0 lc.1) _
                          (wrap_panic-ReturnsOrPanics in_script _
                            (script_commands-ReturnsOrPanics lc.0 lc.1))
                          λ script.
                            bind-ReturnsOrPanics (Yaml.replace_each d.measure vs rs) _
                              (replace_each-ReturnsOrPanics d.measure vs rs)
                              λ strs.
                                bind-ReturnsOrPanics
                                  (Yaml.parse_measurements fl parse_expr parse_duration strs) _
                                  (parse_measurements-ReturnsOrPanics strs) λ ms. tt)
  ]

  extract_scenario-ReturnsOrPanics :
      (d : Yaml.ScenarioYaml) (i : ℕ)
      → ReturnsOrPanics (Yaml.extract_scenario fl parse_expr parse_duration d i)
  unfolding Yaml.extract_scenario
  extract_scenario-ReturnsOrPanics d i =
      bind-ReturnsOrPanics (Yaml.at d.runs 0) _ (at-ReturnsOrPanics d.runs 0) λ vs.
        bind-ReturnsOrPanics (Yaml.at d.runs i) _ (at-ReturnsOrPanics d.runs i) λ rs.
          wrap_panic-ReturnsOrPanics (in_scenario d.name) _
            (wrap_panic-ReturnsOrPanics (in_run i) _ (scenario_body-ReturnsOrPanics d vs rs))

  extract_runs-ReturnsOrPanics :
      (d : Yaml.ScenarioYaml) (n i : ℕ)
      → ReturnsOrPanics (Yaml.extract_runs fl parse_expr parse_duration d n i)
  unfolding Yaml.extract_runs
  extract_runs-ReturnsOrPanics d zero i = tt
  extract_runs-ReturnsOrPanics d (suc n) i =
      bind-ReturnsOrPanics (Yaml.extract_scenario fl parse_expr parse_duration d i) _
        (extract_scenario-ReturnsOrPanics d i)
        λ s.
          bind-ReturnsOrPanics (Yaml.extract_runs fl parse_expr parse_duration d n (i + 1)) _
            (extract_runs-ReturnsOrPanics d n (i + 1)) λ r. tt

  scenario_runs-ReturnsOrPanics :
      (o : Option Yaml.ScenarioYaml)
      → ReturnsOrPanics (Yaml.scenario_runs fl parse_expr parse_duration o)
  unfolding Yaml.scenario_runs
  scenario_runs-ReturnsOrPanics none = tt
  scenario_runs-ReturnsOrPanics (some d) =
      bind-ReturnsOrPanics (Yaml.at d.runs 0) _ (at-ReturnsOrPanics d.runs 0) λ vs.
        bind-ReturnsOrPanics (Yaml.check_vars vs) _ (check_vars-ReturnsOrPanics vs)
          λ u. extract_runs-ReturnsOrPanics d (length d.runs - 1) 1

  extract_scenarios-ReturnsOrPanics :
      (t : Yaml.TestYaml) → ReturnsOrPanics (Yaml.extract_scenarios fl parse_expr parse_duration t)
  unfolding Yaml.extract_scenarios
  extract_scenarios-ReturnsOrPanics [] = tt
  extract_scenarios-ReturnsOrPanics (d ∷ ds) =
      bind-ReturnsOrPanics (Yaml.scenario_runs fl parse_expr parse_duration d) _
        (scenario_runs-ReturnsOrPanics d)
        λ here.
          bind-ReturnsOrPanics (Yaml.extract_scenarios fl parse_expr parse_duration ds) _
            (extract_scenarios-ReturnsOrPanics ds) λ rest. tt

  unmarshalled-ReturnsOrPanics :
      (o : Option Yaml.TestYaml)
      → ReturnsOrPanics (Yaml.unmarshalled fl parse_expr parse_duration o)
  unfolding Yaml.unmarshalled
  unmarshalled-ReturnsOrPanics none = tt
  unmarshalled-ReturnsOrPanics (some t) = extract_scenarios-ReturnsOrPanics t

  -- `parse` returns scenarios or an error for every text and whatever the libraries make of it: no
  -- panic, none of the runtime's out-of-range panics either, escapes it.
  pub parse-IsResult :
      (unmarshal : Bytes → Option Yaml.TestYaml) (bts : Bytes)
      → IsResult (Yaml.parse fl parse_expr parse_duration unmarshal bts)
  unfolding Yaml.parse Yaml.parse_scenarios
  parse-IsResult unmarshal bts =
      recovered-IsResult (Yaml.unmarshalled fl parse_expr parse_duration (unmarshal bts))
        (unmarshalled-ReturnsOrPanics (unmarshal bts))
