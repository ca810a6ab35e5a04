-- ===== src/Yaml.antt =====
-- cluster-test/test-orchestrator/test_yaml_parser.go: from the text of a test file to scenarios. The
-- functions of the file panic where the test file is wrong, and `parse` turns the panic into an error.
-- `yaml.Unmarshal`, `parser.ParseExpr` and `time.ParseDuration` are parameters; `none` is their error.
pub mod Measures
pub mod Replace
pub mod Atoi
pub mod Words
pub mod Printed
pub mod Ranges
pub mod Shape
pub mod Ensures
pub mod Content
pub mod Complete
pub mod Steps
pub mod Total
use ringpop_common.Common.{
  ℕ, zero, suc, ◌+◌, ◌-◌, ◌<◌, not, ◌||◌, Option, none, some, List, [], ◌∷◌, ◌++◌, ◌==◌,
  if◌then◌else◌, Bytes, length,
}
use ringpop_common.Common.Int.{ℤ}
use ringpop_common.Float.{Float64}
use ringpop_common.Outcome.{
  in_scenario, in_run, in_script, in_command, index_out_of_range, nil_pointer, not_yaml,
  too_many_entries, empty_command, var_count, not_a_variable, size_convert, Outcome, ok, panic,
  ◌>>=◌, ◌>>◌, recovered, wrap_panic,
}
use ringpop_common.Calc.{Expr}
use ringpop_common.Command.{Command, Measurement, Scenario}
use ringpop_common.Text.{replace_all, fields}
use Atoi.{atoi}
unfoldable pub use Measures.{
  at, inner, is_keyword, value_or_duration, parse_value, range_values, parse_range, assertion_body,
  parse_assertion, search_assertion, measurement_fields, parse_measurement,
}

-- A script is a list of maps from labels to commands, a map being the list of its entries.
pub record ScenarioYaml : Type 0 where
  pub name : Bytes
  pub size : Bytes
  pub desc : Bytes
  pub script : List (List (Bytes × Bytes))
  pub measure : List Bytes
  pub runs : List (List Bytes)

-- An element of `Scenarios` is a pointer, `none` for nil.
abbrev pub TestYaml : Type 0
TestYaml = List (Option ScenarioYaml)

-- `for i := range varsData { str = strings.Replace(str, varsData[i], runData[i], -1) }`
unfoldable pub replace : Bytes → List Bytes → List Bytes → Outcome Bytes
replace str [] run_data = ok str
replace str (v ∷ vars_data) [] = panic index_out_of_range
replace str (v ∷ vars_data) (r ∷ run_data) = replace (replace_all str v r) vars_data run_data

unfoldable pub command_of : Bytes → List Bytes → Outcome Command
command_of label [] = panic empty_command
command_of label (cmd ∷ args) = ok (record { label = label; cmd = cmd; args = args })

unfoldable pub parse_command : Bytes → Bytes → Outcome Command
parse_command label cmd_string =
    wrap_panic (in_command label cmd_string) (command_of label (fields cmd_string))

-- the loop of `parseScript`: `cmdStrs[i]` for every label
unfoldable pub script_commands : List Bytes → List Bytes → Outcome (List Command)
script_commands [] cmd_strs = ok []
script_commands (label ∷ labels) [] = panic index_out_of_range
script_commands (label ∷ labels) (s ∷ cmd_strs) = do
  cmd ← parse_command label s
  cmds ← script_commands labels cmd_strs
  ok (cmd ∷ cmds)

unfoldable pub parse_script : List Bytes → List Bytes → Outcome (List Command)
parse_script labels cmd_strs = wrap_panic in_script (script_commands labels cmd_strs)

-- the body of the loop of `extractScript`, for one command: its label and its text
unfoldable pub script_entry :
    List (Bytes × Bytes) → List Bytes → List Bytes → Outcome (Bytes × Bytes)
script_entry ((label, cmd) ∷ []) vars_data run_data = do
  l ← replace label vars_data run_data
  c ← replace cmd vars_data run_data
  ok (l, c)
script_entry _ vars_data run_data = panic too_many_entries

unfoldable pub extract_script :
    List (List (Bytes × Bytes)) → List Bytes → List Bytes → Outcome (List Bytes × List Bytes)
extract_script [] vars_data run_data = ok ([], [])
extract_script (cmd_data ∷ script) vars_data run_data = do
  (l, c) ← script_entry cmd_data vars_data run_data
  (labels, cmds) ← extract_script script vars_data run_data
  ok (l ∷ labels, c ∷ cmds)

-- `measureStrs[i] = replace(data.Measure[i], …)`
unfoldable pub replace_each : List Bytes → List Bytes → List Bytes → Outcome (List Bytes)
replace_each [] vars_data run_data = ok []
replace_each (s ∷ strs) vars_data run_data = do
  t ← replace s vars_data run_data
  ts ← replace_each strs vars_data run_data
  ok (t ∷ ts)

unfoldable pub size_result : Bytes → Option ℤ → Outcome ℤ
size_result s none = panic (size_convert s)
size_result s (some n) = ok n

unfoldable pub size_of : Bytes → Outcome ℤ
size_of s = size_result s (atoi s)

-- the test of a variable's form; both indices panic on an empty text
unfoldable pub check_var : Bytes → Outcome (Unit {0})
check_var vari = do
  first ← at vari 0
  last ← at vari (length vari - 1)
  if not (first == b'<') || not (last == b'>') then panic (not_a_variable vari) else ok tt

unfoldable pub check_vars : List Bytes → Outcome (Unit {0})
check_vars [] = ok tt
check_vars (v ∷ vs) = check_var v >> check_vars vs

module _ {F : Type 0} (fl : Float64 F) (parse_expr : Bytes → Option Expr)
    (parse_duration : Bytes → Option ℤ) where
  unfoldable pub parse_measurements : List Bytes → Outcome (List (Measurement F))
  parse_measurements [] = ok []
  parse_measurements (s ∷ ms_data) = do
    m ← parse_measurement fl parse_expr parse_duration s
    ms ← parse_measurements ms_data
    ok (m ∷ ms)

  -- what stands in `extractScenario` behind the two `defer` lines
  unfoldable pub scenario_body : ScenarioYaml → List Bytes → List Bytes → Outcome (Scenario F)
  scenario_body scn vars_data run_data =
      if not (length vars_data == length run_data) then panic var_count else (do
        desc ← replace scn.desc vars_data run_data
        size_str ← replace scn.size vars_data run_data
        size ← size_of size_str
        (labels, cmds) ← extract_script scn.script vars_data run_data
        script ← parse_script labels cmds
        measure_strs ← replace_each scn.measure vars_data run_data
        measure ← parse_measurements measure_strs
        ok (record {
          name = scn.name;
          desc = desc;
          size = size;
          script = script;
          measure = measure;
        }))

  unfoldable pub extract_scenario : ScenarioYaml → ℕ → Outcome (Scenario F)
  extract_scenario scn run_ix = do
    vars_data ← at scn.runs 0
    run_data ← at scn.runs run_ix
    wrap_panic (in_scenario scn.name)
        (wrap_panic (in_run run_ix) (scenario_body scn vars_data run_data))

  -- `for i := …; i < len(scenarioData.Runs); i++`, with `n` rounds left
  unfoldable pub extract_runs : ScenarioYaml → ℕ → ℕ → Outcome (List (Scenario F))
  extract_runs scn zero i = ok []
  extract_runs scn (suc n) i = do
    s ← extract_scenario scn i
    rest ← extract_runs scn n (i + 1)
    ok (s ∷ rest)

  unfoldable pub scenario_runs : Option ScenarioYaml → Outcome (List (Scenario F))
  scenario_runs none = panic nil_pointer
  scenario_runs (some scn) = do
    vars_data ← at scn.runs 0
    check_vars vars_data
    extract_runs scn (length scn.runs - 1) 1

  unfoldable pub extract_scenarios : TestYaml → Outcome (List (Scenario F))
  extract_scenarios [] = ok []
  extract_scenarios (d ∷ ds) = do
    here ← scenario_runs d
    rest ← extract_scenarios ds
    ok (here ++ rest)

  unfoldable pub unmarshalled : Option TestYaml → Outcome (List (Scenario F))
  unmarshalled none = panic not_yaml
  unmarshalled (some test_yaml) = extract_scenarios test_yaml

  module _ (unmarshal : Bytes → Option TestYaml) where
    unfoldable pub parse_scenarios : Bytes → Outcome (List (Scenario F))
    parse_scenarios bts = unmarshalled (unmarshal bts)

    -- `parse`: a panic becomes the error
    unfoldable pub parse : Bytes → Outcome (List (Scenario F))
    parse bts = recovered (parse_scenarios bts)
