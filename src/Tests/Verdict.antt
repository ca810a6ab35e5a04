-- ===== src/Tests/Verdict.antt =====
-- The verdict on scenarios: a convergence time in its bounds, and checksums that agree.
use ringpop_common.Common.{
  ◌≡◌, refl, ◌⊎◌, none, some, List, [], ◌∷◌, ◌++◌, map, arith, Bytes, codes, bytes_eq,
}
use ringpop_common.Common.{lacks}
use ringpop_common.Common.Int.{ℤ, pos, ◌≤ℤ◌}
use ringpop_common.Common.Dict.{insert}
use ringpop_common.Outcome.{not_expected, not_in_range, ok, err}
use ringpop_common.Float.{whole, whole-IsExact, Whole}
use ringpop_common.Value.{duration, number}
use ringpop_common.Assertion.{assert_value}
use ringpop_common.Command.{Measurement}
use ringpop_common.Scanner.Lines.{line_scanner, open_lines}
use ringpop_common.Scanner.Section.{is_label}
use ringpop_common.Clock.{second, days_in, days_before, days_of_years}
use ringpop_common.Clock.Stamps.{stamp, frac_nanos, nanos}
use ringpop_common.Analysis.{uniq, gather, add_value}
use ringpop_common.Analysis.Distinct.{IsOnly}
use ringpop_common.Analysis.Checksums.{entry_line, last_checksums}
use ringpop_common.Analysis.Checksums.Stats.{checksum_stat}
use ringpop_common.Analysis.Convergence.Stamped.{line_text, changes_of, time_between}
use ringpop_common.Measurement.{measure}
use ringpop_common.Ingester.{StatIngester, new_stat_ingester, label_line, get_between}
use ringpop_common.Ingester.Reports.{report}
use ringpop_common.Ingester.Session.{Action, ingest, label, action_line, stats_of, perform}
use ringpop_common.Ingester.Session.File.{file, file_lines}
use ringpop_common.Ingester.Session.Measured.{scripted, IsScript}
use ringpop_common.Verdict.{within_range, is_number, measure_convtime, measure_checksums}
use ringpop_common.Tests.Stats.{first_stat, entries}
use ringpop_common.Tests.Measure.{evening, evening-IsStamp, later, later-IsStamp, path, stats}
use ringpop_common.Tests.Scenario.{match_ping, is_line-IsLine}

abbrev convtime : Measurement Whole
convtime = record {
  start = codes "t0";
  end = codes "t1";
  quantity = codes "convtime";
  args = [];
  assertion = some (within_range (pos 0) (pos 9000000000));
}

abbrev changes : List Action
changes =
    ingest (stamp evening ++ (b'|' ∷ path))
    ∷ ingest (codes "ping")
    ∷ ingest (stamp later ++ (b'|' ∷ path))
    ∷ []

convtime-IsScript : IsScript convtime [] changes [] (codes "start") (codes "kill 1")
unfolding bytes_eq is_label action_line stamp stats_of report get_between lacks
convtime-IsScript = record {
  named_start = refl;
  named_end = refl;
  without_start = tt;
  without_end = (refl, (refl, (refl, tt)));
  known = ((λ e. cc), ((λ e. cc), ((λ e. cc), tt)));
  lines = (
    is_line-IsLine (label_line (codes "t0") (codes "start")) refl,
    (
      is_line-IsLine (stamp evening ++ (b'|' ∷ path)) refl,
      (
        is_line-IsLine (codes "ping") refl,
        (
          is_line-IsLine (stamp later ++ (b'|' ∷ path)) refl,
          (is_line-IsLine (label_line (codes "t1") (codes "kill 1")) refl, tt),
        ),
      ),
    ),
  );
}

measure_convtime_example :
    (si : StatIngester Bytes) × (d : ℤ) × (d
      ≡ pos (time_between (evening, evening-IsStamp, path) (later, later-IsStamp, path)))
    × (perform file (new_stat_ingester []) (
          scripted []
            (label (codes "t0") (codes "start"))
            changes
            (label (codes "t1") (codes "kill 1"))
            [])
        ≡ ok si)
    × (measure whole line_scanner match_ping 9 convtime (open_lines (file_lines si.writer) none)
        ≡ ok (duration d))
    × (((pos 0 ≤ℤ d)
          × (d ≤ℤ pos 9000000000)
          × (assert_value whole convtime.assertion (duration d) ≡ ok tt))
        ⊎ ((¬ ((pos 0 ≤ℤ d) × (d ≤ℤ pos 9000000000)))
            × (assert_value whole convtime.assertion (duration d) ≡ err not_in_range)))
unfolding changes_of line_text action_line nanos days_before days_of_years days_in second frac_nanos
measure_convtime_example =
    measure_convtime whole whole-IsExact match_ping convtime [] changes [] (codes "start")
      (codes "kill 1") 9 stats (evening, evening-IsStamp, path) ((later, later-IsStamp, path) ∷ [])
      (pos 0) (pos 9000000000) refl refl convtime-IsScript (omega arith) refl refl (omega arith)
      (omega arith) (omega arith) (omega arith)

abbrev checksums : Measurement Whole
checksums = record {
  start = codes "t0";
  end = codes "t1";
  quantity = codes "checksums";
  args = [];
  assertion = some (is_number whole 1);
}

abbrev sums : List Action
sums = map ingest (map entry_line entries)

checksums-IsScript : IsScript checksums [] sums [] (codes "start") (codes "kill 1")
unfolding bytes_eq is_label action_line entry_line checksum_stat stats_of report get_between lacks
checksums-IsScript = record {
  named_start = refl;
  named_end = refl;
  without_start = tt;
  without_end = (refl, (refl, tt));
  known = ((λ e. cc), ((λ e. cc), tt));
  lines = (
    is_line-IsLine (label_line (codes "t0") (codes "start")) refl,
    (
      is_line-IsLine (checksum_stat first_stat) refl,
      (
        is_line-IsLine (codes "other") refl,
        (is_line-IsLine (label_line (codes "t1") (codes "kill 1")) refl, tt),
      ),
    ),
  );
}

measure_checksums_example :
    (si : StatIngester Bytes) × (n : Whole) × (n ≡ some (pos (uniq (last_checksums [] entries))))
    × (perform file (new_stat_ingester []) (
          scripted []
            (label (codes "t0") (codes "start"))
            sums
            (label (codes "t1") (codes "kill 1"))
            [])
        ≡ ok si)
    × (measure whole line_scanner match_ping 9 checksums (open_lines (file_lines si.writer) none)
        ≡ ok (number n))
    × ((((v : Bytes) × IsOnly v (last_checksums [] entries))
          × (assert_value whole checksums.assertion (number n) ≡ ok tt))
        ⊎ ((¬ ((v : Bytes) × IsOnly v (last_checksums [] entries)))
            × (assert_value whole checksums.assertion (number n) ≡ err not_expected)))
unfolding action_line entry_line last_checksums insert uniq gather add_value
measure_checksums_example =
    measure_checksums whole whole-IsExact match_ping checksums [] sums [] (codes "start")
      (codes "kill 1") 9 entries refl refl checksums-IsScript (omega arith) refl (omega arith)
