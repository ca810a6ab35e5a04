-- ===== src/Tests/Measure.antt =====
-- What `Measure` returns, and the times of membership changes.
use ringpop_common.Common.{
  ◌≡◌, refl, ◌⊎◌, Bool, true, false, Option, none, some, List, [], ◌∷◌, ◌++◌, arith, Bytes, codes,
  bytes_eq,
}
use ringpop_common.Common.Int.{ℤ, pos}
use ringpop_common.Outcome.{not_expected, type_mismatch, wrap_panic, ok, err}
use ringpop_common.Float.{whole, Whole}
use ringpop_common.Calc.{Expr, eval_text}
use ringpop_common.Value.{nil, number, duration}
use ringpop_common.Text.{join, fields, contains, has_prefix}
use ringpop_common.Assertion.{is_type, in_type, Assertion, assert_value}
use ringpop_common.Command.{Measurement}
use ringpop_common.Yaml
use ringpop_common.Scanner.Lines.{line_scanner, open_lines, open_lines-Yields}
use ringpop_common.Scanner.Loops.{find_line}
use ringpop_common.Scanner.Section.{is_label, closes, from_label, until_label, until_error}
use ringpop_common.Clock.{days_in}
use ringpop_common.Clock.Stamps.{Stamp, IsStamp, stamp}
use ringpop_common.Analysis.{membership_set_path}
use ringpop_common.Analysis.Counting.{occurrences, counted}
use ringpop_common.Analysis.Convergence.Stamped.{Line, change, other}
use ringpop_common.Measurement.{wrap_measure, measure}
use ringpop_common.Measurement.Window.{measured, quantity_of, occurrences_of, measure-measured}
use ringpop_common.Measurement.Kinds.{HasKind, kind_of, measure-HasKind, measure-mismatch}
use ringpop_common.Measurement.Ends.{Ends, IsFatal, IsPanic, measure-Ends}

-- an expression is never found, a duration always
abbrev parse_expr : Bytes → Option Expr
parse_expr s = none

abbrev parse_duration : Bytes → Option ℤ
parse_duration s = some (pos 2000000000)

-- a pattern matches the line "ping"
abbrev match_ping : Bytes → Bytes → Option Bool
match_ping pattern line = some (bytes_eq line (codes "ping"))

abbrev two_seconds : Assertion Whole
two_seconds = record { kind = codes "is"; v1 = duration (pos 2000000000); v2 = nil }

abbrev pings : Measurement Whole
pings = record {
  start = codes "t0";
  end = codes "t1";
  quantity = codes "count";
  args = codes "ping" ∷ [];
  assertion = some two_seconds;
}

abbrev lines : List Bytes
lines = codes "label:t0|cmd: start" ∷ codes "ping" ∷ codes "label:t1|cmd: kill" ∷ []

one_ping :
    measure whole line_scanner match_ping 4 pings (open_lines lines none)
    ≡ ok (number (some (pos 1)))
unfolding measured from_label is_label has_prefix find_line until_label until_error quantity_of
    occurrences_of occurrences counted bytes_eq closes wrap_measure
one_ping =
    measure-measured whole match_ping line_scanner lines 4 pings (open_lines lines none) none
      (omega arith) (open_lines-Yields lines none)

measure-HasKind_example : HasKind {F = Whole} (number (some (pos 1))) (kind_of pings.quantity)
measure-HasKind_example =
    measure-HasKind whole line_scanner match_ping 4 pings (open_lines lines none) one_ping

-- the one checksum is cut short
abbrev checksums : Measurement Whole
checksums = record pings { quantity = codes "checksums"; args = [] }

abbrev cut_lines : List Bytes
cut_lines = codes "label:t0|cmd: start" ∷ codes "2015|ringpop.127_0_0_1_3000.checksum:4" ∷ []

measure-Ends_example :
    Ends
      (IsFatal checksums.assertion)
      (IsPanic checksums cut_lines)
      (measure whole line_scanner match_ping 4 checksums (open_lines cut_lines none))
measure-Ends_example =
    measure-Ends whole match_ping line_scanner cut_lines 4 checksums (open_lines cut_lines none)
      none (omega arith) (open_lines-Yields cut_lines none)

pings_parse :
    Yaml.parse_measurement whole parse_expr parse_duration (codes "t0 t1 count ping is 2s")
    ≡ ok pings
unfolding Yaml.parse_measurement wrap_panic Yaml.measurement_fields fields Yaml.search_assertion
    Yaml.is_keyword bytes_eq Yaml.parse_assertion Yaml.assertion_body Yaml.parse_value
    Yaml.value_or_duration eval_text join
pings_parse = refl

measure-mismatch_example :
    ((two_seconds.kind ≡ is_type)
      × (assert_value whole pings.assertion (number (some (pos 1))) ≡ err not_expected))
    ⊎ ((two_seconds.kind ≡ in_type)
        × (assert_value whole pings.assertion (number (some (pos 1))) ≡ err type_mismatch))
unfolding bytes_eq
measure-mismatch_example =
    measure-mismatch whole parse_expr parse_duration line_scanner match_ping
      (codes "t0 t1 count ping is 2s") pings two_seconds 4 (open_lines lines none)
      (number (some (pos 1))) pings_parse refl (λ e. cc) one_ping

abbrev pub evening : Stamp
evening = record {
  year = 2015;
  month = 6;
  day = 25;
  hour = 18;
  minute = 0;
  sec = 1;
  frac = codes "5";
}

abbrev pub later : Stamp
later = record evening { sec = 9; frac = codes "25" }

pub evening-IsStamp : IsStamp evening
unfolding days_in
evening-IsStamp = record {
  year_in = omega arith;
  month_in = (omega arith, omega arith);
  day_in = (omega arith, omega arith);
  hour_in = omega arith;
  minute_in = omega arith;
  sec_in = omega arith;
  digits = ((omega arith, omega arith), tt);
  some_digit = λ e. cc;
}

pub later-IsStamp : IsStamp later
unfolding days_in
later-IsStamp = record {
  year_in = omega arith;
  month_in = (omega arith, omega arith);
  day_in = (omega arith, omega arith);
  hour_in = omega arith;
  minute_in = omega arith;
  sec_in = omega arith;
  digits = ((omega arith, omega arith), ((omega arith, omega arith), tt));
  some_digit = λ e. cc;
}

abbrev pub path : Bytes
path = codes "ringpop.127_0_0_1_3000.membership-set.alive:1|c"

pub evening_change : contains (stamp evening ++ (b'|' ∷ path)) membership_set_path ≡ true
unfolding contains stamp
evening_change = refl

pub later_change : contains (stamp later ++ (b'|' ∷ path)) membership_set_path ≡ true
unfolding contains stamp
later_change = refl

pub no_change : contains (codes "ping") membership_set_path ≡ false
unfolding contains
no_change = refl

abbrev pub stats : List Line
stats =
    change evening evening-IsStamp path evening_change
    ∷ other (codes "ping") no_change
    ∷ change later later-IsStamp path later_change
    ∷ []
