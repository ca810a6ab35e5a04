-- ===== src/Tests/Parse.antt =====
-- A test file, its scenarios and their sizes.
use ringpop_common.Common.{
  ◌↔◌, ℕ, ◌≡◌, refl, Bool, true, ◌&&◌, Option, none, some, List, [], ◌∷◌, ◌++◌, map, arith, ltb,
  if◌then◌else◌, Bytes, codes, bytes_eq, All,
}
use ringpop_common.Common.{lacks, lacks-Lacks}
use ringpop_common.Common.Int.{ℤ, pos}
use ringpop_common.Outcome.{size_convert, ok, panic, wrap_panic, IsResult}
use ringpop_common.Float.{whole, Whole}
use ringpop_common.Calc.{Expr, basic_lit, eval_text}
use ringpop_common.Value.{nil, number}
use ringpop_common.Text.{join, fields, replace_all}
use ringpop_common.Yaml.Atoi.{atoi}
use ringpop_common.Yaml.Atoi.Sizes.{
  IsDecimal, unsigned, sign_text, digits_text, signed, fits, value, size_of-digits_text,
}
use ringpop_common.Command.{Command, Measurement, Scenario}
use ringpop_common.Yaml.{ScenarioYaml, TestYaml}
use ringpop_common.Yaml
use ringpop_common.Yaml.Replace.{Piece, lit, ref, angled, spell, resolve, replace-spell}
use ringpop_common.Judged.{Judged, parse-Judged}
use ringpop_common.Measurement.{measure}
use ringpop_common.Scanner.Lines.{line_scanner, open_lines, open_lines-Yields}
use ringpop_common.Yaml.Content.{Follows}
use ringpop_common.Yaml.Complete.{parse-Follows_iff}
use ringpop_common.Yaml.Total.{parse-IsResult}

-- a number is its own expression
abbrev pub parse_expr : Bytes → Option Expr
parse_expr s = some (basic_lit s)

abbrev pub parse_duration : Bytes → Option ℤ
parse_duration s = none

abbrev scenario : ScenarioYaml
scenario = record {
  name = codes "kill";
  size = codes "<N>";
  desc = codes "kill a node";
  script = ((codes "t0", codes "kill 1") ∷ []) ∷ [];
  measure = codes "t0 .. count ping is 2" ∷ [];
  runs = (codes "<N>" ∷ []) ∷ (codes "7" ∷ []) ∷ [];
}

abbrev unmarshal : Bytes → Option TestYaml
unmarshal s = some (some scenario ∷ [])

parse-IsResult_example :
    IsResult (Yaml.parse whole parse_expr parse_duration unmarshal (codes "scenarios:"))
parse-IsResult_example =
    parse-IsResult whole parse_expr parse_duration unmarshal (codes "scenarios:")

abbrev pub kill : Command
kill = record { label = codes "t0"; cmd = codes "kill"; args = codes "1" ∷ [] }

abbrev counted_pings : Measurement Whole
counted_pings = record {
  start = codes "t0";
  end = codes "..";
  quantity = codes "count";
  args = codes "ping" ∷ [];
  assertion = some (record { kind = codes "is"; v1 = number (some (pos 2)); v2 = nil });
}

abbrev parsed : List (Scenario Whole)
parsed =
    record {
      name = codes "kill";
      size = pos 7;
      desc = codes "kill a node";
      script = kill ∷ [];
      measure = counted_pings ∷ [];
    }
    ∷ []

scenario_parses :
    Yaml.parse whole parse_expr parse_duration unmarshal (codes "scenarios:") ≡ ok parsed
unfolding Yaml.parse Yaml.parse_scenarios Yaml.unmarshalled Yaml.extract_scenarios
    Yaml.scenario_runs Yaml.check_vars Yaml.check_var Yaml.extract_runs Yaml.extract_scenario
    wrap_panic Yaml.scenario_body Yaml.replace Yaml.size_of Yaml.size_result atoi replace_all
    Yaml.extract_script Yaml.script_entry Yaml.command_of Yaml.parse_command Yaml.parse_measurements
    Yaml.parse_measurement Yaml.parse_script Yaml.replace_each Yaml.script_commands
    Yaml.measurement_fields fields Yaml.search_assertion Yaml.is_keyword bytes_eq
    Yaml.parse_assertion Yaml.assertion_body Yaml.parse_value Yaml.value_or_duration eval_text join
scenario_parses = refl

-- a pattern matches the line "ping"
abbrev match_ping : Bytes → Bytes → Option Bool
match_ping pattern line = some (bytes_eq line (codes "ping"))

abbrev lines : List Bytes
lines = codes "label:t0|cmd: kill 1" ∷ codes "ping" ∷ []

parse-Judged_example :
    All
      (λ (scn : Scenario Whole).
        All
          (λ m.
            Judged whole lines m
              (measure whole line_scanner match_ping 9 m (open_lines lines none)))
          scn.measure)
      parsed
parse-Judged_example =
    parse-Judged whole parse_expr parse_duration line_scanner match_ping unmarshal
      (codes "scenarios:") lines 9 (open_lines lines none) none scenario_parses (omega arith)
      (open_lines-Yields lines none)

parse-Follows_iff_example :
    (Yaml.parse whole parse_expr parse_duration unmarshal (codes "scenarios:") ≡ ok parsed) ↔ (
      (t : TestYaml) × (unmarshal (codes "scenarios:") ≡ some t)
      × Follows whole parse_expr parse_duration t parsed)
parse-Follows_iff_example =
    parse-Follows_iff whole parse_expr parse_duration unmarshal (codes "scenarios:") parsed

abbrev template : List Piece
template = lit (codes "size ") ∷ ref (codes "N") ∷ ref (codes "M") ∷ []

replace-spell_example :
    Yaml.replace (spell template) (map angled (codes "N" ∷ [])) (codes "7" ∷ [])
    ≡ ok (spell (map (resolve (codes "N" ∷ []) (codes "7" ∷ [])) template))
unfolding lacks
replace-spell_example =
    replace-spell (codes "N" ∷ []) (codes "7" ∷ []) template
      ((lacks-Lacks b'<' (codes "N") refl, lacks-Lacks b'>' (codes "N") refl), tt)
      (lacks-Lacks b'<' (codes "7") refl, tt) refl
      (
        lacks-Lacks b'<' (codes "size ") refl,
        (
          (lacks-Lacks b'<' (codes "N") refl, lacks-Lacks b'>' (codes "N") refl),
          ((lacks-Lacks b'<' (codes "M") refl, lacks-Lacks b'>' (codes "M") refl), tt),
        ),
      )

-- one more than an int64 can hold
abbrev large : List ℕ
large = 9 ∷ 2 ∷ 2 ∷ 3 ∷ 3 ∷ 7 ∷ 2 ∷ 0 ∷ 3 ∷ 6 ∷ 8 ∷ 5 ∷ 4 ∷ 7 ∷ 7 ∷ 5 ∷ 8 ∷ 0 ∷ 8 ∷ []

abbrev all_small : List ℕ → Bool
all_small [] = true
all_small (d ∷ ds) = ltb d 10 && all_small ds

all_small-IsDecimal : (ds : List ℕ) → all_small ds ≡ true → IsDecimal ds
all_small-IsDecimal [] h = tt
all_small-IsDecimal (d ∷ ds) h = (ground arith, all_small-IsDecimal ds (ground arith))

size_of-digits_text_example : Yaml.size_of (sign_text unsigned ++ digits_text large) ≡ (
    if fits unsigned (value large)
    then ok (signed unsigned (value large))
    else panic (size_convert (sign_text unsigned ++ digits_text large)))
size_of-digits_text_example =
    size_of-digits_text unsigned large (all_small-IsDecimal large refl) (λ e. cc)
