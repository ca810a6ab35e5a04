-- ===== src/Tests/Stats.antt =====
-- Scanners, analyses, measurements and assertions on short stats files.
use ringpop_common.Common.{lacks, lacks-Lacks}
use ringpop_common.Common.{
  ◌≡◌, refl, ◌↔◌, ◌⊎◌, inl, Bool, true, false, Option, none, some, List, [], ◌∷◌, ◌++◌, map, arith,
  if◌then◌else◌, Bytes, codes, bytes_eq, length,
}
use ringpop_common.Common.Int.{pos, ◌≤ℤ◌}
use ringpop_common.Outcome.{slice_out_of_range, not_in_range, ok, err, panic, IsResult}
use ringpop_common.Float.{whole, whole-IsExact, Whole}
use ringpop_common.Calc.{Expr, basic_lit, other, eval_text}
use ringpop_common.Calc.Meaning.{Denotes, eval_text_iff}
use ringpop_common.Value.{duration}
use ringpop_common.Assertion.{Assertion, in_type, assert_value}
use ringpop_common.Assertion.Range.{assert_value-duration}
use ringpop_common.Command.{Measurement}
use ringpop_common.Scanner.Lines.{line_scanner, open_lines, open_lines-Yields}
use ringpop_common.Text.{index, contains}
use mathlib.Core.List.Permᴰ.{swap}
use ringpop_common.Scanner.Section.{
  new_section_scanner, from_label, Opens, new_section_scanner-Opens,
}
use ringpop_common.Analysis.{
  checksum_path, uniq, checksum_line, checksums_analysis, convergence_time_analysis,
}
use ringpop_common.Analysis.Host.{hostport_regex}
use ringpop_common.Analysis.Host.Regex.{Spells}
use ringpop_common.Analysis.Distinct.{elem, Distinct, uniq-perm}
use ringpop_common.Analysis.Checksums.{Entry, stat, other, entry_line, reported}
use ringpop_common.Analysis.Checksums.Hosts.{Stored, checksum_line-Stored}
use ringpop_common.Analysis.Checksums.Cut.{cut_stat, checksums_analysis_cut}
use ringpop_common.Analysis.Agreement.{checksum_of, checksums_analysis-checksum_of}
use ringpop_common.Analysis.Checksums.Stats.{Stat, IsStat}
use ringpop_common.Analysis.Convergence.{
  changes, convergence, convergence_time_analysis-convergence,
}
use ringpop_common.Measurement.{measure}
use ringpop_common.Measurement.Window.{measured, measure-measured}

abbrev change : Bytes
change = codes "2015-06-25T18:00:01.5Z|ringpop.127_0_0_1_3000.membership-set.alive:1|c"

abbrev later_change : Bytes
later_change = codes "2015-06-25T18:00:09.5Z|ringpop.127_0_0_1_3001.membership-set.alive:1|c"

abbrev lines : List Bytes
lines =
    codes "label:t0|cmd: start"
    ∷ change
    ∷ codes "other"
    ∷ later_change
    ∷ codes "label:t1|cmd: kill"
    ∷ []

abbrev in_bounds : Option (Assertion Whole)
in_bounds = some (record { kind = in_type; v1 = duration (pos 0); v2 = duration (pos 8000000000) })

abbrev convtime : Measurement Whole
convtime = record {
  start = codes "t0";
  end = codes "t1";
  quantity = codes "convtime";
  args = [];
  assertion = in_bounds;
}

-- a pattern matches where it stands
abbrev match_text : Bytes → Bytes → Option Bool
match_text pattern line = some (bytes_eq pattern line)

measure-measured_example :
    measure whole line_scanner match_text 9 convtime (open_lines lines none)
    ≡ measured whole match_text convtime none lines
measure-measured_example =
    measure-measured whole match_text line_scanner lines 9 convtime (open_lines lines none) none
      (omega arith) (open_lines-Yields lines none)

new_section_scanner-Opens_example :
    Opens line_scanner
      (codes "t0")
      (codes "t1")
      none
      (from_label (codes "t0") lines)
      (new_section_scanner line_scanner 9 (open_lines lines none) (codes "t0") (codes "t1"))
new_section_scanner-Opens_example =
    new_section_scanner-Opens line_scanner lines 9 (open_lines lines none) (codes "t0") (codes "t1")
      none (omega arith) (open_lines-Yields lines none)

convergence_time_analysis-convergence_example :
    convergence_time_analysis line_scanner 9 (open_lines lines none)
    ≡ convergence none (changes lines)
convergence_time_analysis-convergence_example =
    convergence_time_analysis-convergence line_scanner lines 9 (open_lines lines none) none
      (omega arith) (open_lines-Yields lines none)

abbrev pub first_stat : Stat
first_stat = record {
  time = codes "2015-06-25";
  host = codes "127_0_0_1_3000";
  checksum = codes "41";
}

last_two : Spells (3 ∷ 6 ∷ []) (codes "1_3000")
last_two = (
  codes "1",
  codes "3000",
  refl,
  ((λ e. cc), (refl, tt), omega arith),
  ((λ e. cc), (refl, (refl, (refl, (refl, tt)))), omega arith),
)

last_three : Spells (3 ∷ 3 ∷ 6 ∷ []) (codes "0_1_3000")
last_three = (codes "0", codes "1_3000", refl, ((λ e. cc), (refl, tt), omega arith), last_two)

last_four : Spells (3 ∷ 3 ∷ 3 ∷ 6 ∷ []) (codes "0_0_1_3000")
last_four = (codes "0", codes "0_1_3000", refl, ((λ e. cc), (refl, tt), omega arith), last_three)

spelled : Spells hostport_regex (codes "127_0_0_1_3000")
spelled = (
  codes "127",
  codes "0_0_1_3000",
  refl,
  ((λ e. cc), (refl, (refl, (refl, tt))), omega arith),
  last_four,
)

pub first_stat-IsStat : IsStat first_stat
unfolding lacks
first_stat-IsStat = record {
  no_underscore = lacks-Lacks b'_' (codes "2015-06-25") refl;
  no_c = lacks-Lacks b'c' (codes "2015-06-25") refl;
  no_r = lacks-Lacks b'r' (codes "2015-06-25") refl;
  checksum_no_r = lacks-Lacks b'r' (codes "41") refl;
  host_spelled = spelled;
}

pub not_checksum : contains (codes "other") checksum_path ≡ false
unfolding contains
not_checksum = refl

abbrev pub entries : List Entry
entries = stat first_stat first_stat-IsStat ∷ other (codes "other") (inl not_checksum) ∷ []

checksums_analysis-checksum_of_example :
    (u : List Bytes) × Distinct u
    × ((c : Bytes)
        → (elem c u ≡ true) ↔ ((host : Bytes) × (checksum_of host none entries ≡ some c)))
    × (checksums_analysis line_scanner 3 (open_lines (map entry_line entries) none)
        ≡ reported none (length u))
checksums_analysis-checksum_of_example =
    checksums_analysis-checksum_of line_scanner entries 3 (open_lines (map entry_line entries) none)
      none (omega arith) (open_lines-Yields (map entry_line entries) none)

abbrev cut : Stat
cut = record first_stat { checksum = codes "4" }

cut-IsStat : IsStat cut
unfolding lacks
cut-IsStat = record {
  no_underscore = lacks-Lacks b'_' (codes "2015-06-25") refl;
  no_c = lacks-Lacks b'c' (codes "2015-06-25") refl;
  no_r = lacks-Lacks b'r' (codes "2015-06-25") refl;
  checksum_no_r = lacks-Lacks b'r' (codes "4") refl;
  host_spelled = spelled;
}

abbrev cut_short : List Bytes
cut_short = map entry_line entries ++ (cut_stat cut ∷ codes "more" ∷ [])

checksums_analysis_cut_example :
    checksums_analysis line_scanner 9 (open_lines cut_short none) ≡ panic slice_out_of_range
checksums_analysis_cut_example =
    checksums_analysis_cut line_scanner entries cut (codes "more" ∷ []) 9
      (open_lines cut_short none) none cut-IsStat (omega arith) (omega arith)
      (open_lines-Yields cut_short none)

abbrev gauge : Bytes
gauge = codes "2015|ringpop.127_0_0_1_3000.checksum:41|g"

checksum_line-Stored_example : Stored gauge (codes "41") [] (checksum_line [] gauge)
unfolding index contains
checksum_line-Stored_example = checksum_line-Stored gauge (codes "41") 27 [] refl refl refl

uniq-perm_example :
    uniq ((codes "a", codes "1") ∷ (codes "b", codes "2") ∷ [])
    ≡ uniq ((codes "b", codes "2") ∷ (codes "a", codes "1") ∷ [])
uniq-perm_example = uniq-perm (∣ swap refl refl ∣₁)

abbrev parse_seven : Bytes → Option Expr
parse_seven s = if bytes_eq s (codes "7") then some (basic_lit (codes "7")) else none

eval_text_iff_example :
    IsResult (eval_text whole parse_seven (codes "7"))
    × ((eval_text whole parse_seven (codes "7") ≡ ok (some (pos 7)))
        ↔ ((e : Expr) × (parse_seven (codes "7") ≡ some e) × Denotes whole e (some (pos 7))))
eval_text_iff_example = eval_text_iff whole parse_seven (codes "7") (some (pos 7))

assert_value-duration_example :
    ((pos 0 ≤ℤ pos 5)
      × (pos 5 ≤ℤ pos 8000000000)
      × (assert_value whole in_bounds (duration (pos 5)) ≡ ok tt))
    ⊎ ((¬ ((pos 0 ≤ℤ pos 5) × (pos 5 ≤ℤ pos 8000000000)))
        × (assert_value whole in_bounds (duration (pos 5)) ≡ err not_in_range))
assert_value-duration_example =
    assert_value-duration whole whole-IsExact (pos 5) (pos 0) (pos 8000000000) (omega arith)
      (omega arith) (omega arith)
