-- ===== src/Tests/Threads.antt =====
-- The goroutines of the ingester over two stats of one node, with a wait and two labels.
use ringpop_common.Common.{
  ℕ, ◌+◌, ◌-◌, ◌≤◌, ◌≡◌, refl, ◌⊎◌, Bool, true, false, Option, none, some, List, [], ◌∷◌, ◌++◌,
  arith, Bytes, codes, bytes_eq,
}
use ringpop_common.Common.{lacks}
use ringpop_common.Common.Int.{pos}
use ringpop_common.Value.{number}
use ringpop_common.Assertion.{assert_value}
use ringpop_common.Analysis.Counting.{occurrences}
use ringpop_common.Verdict.Counts.{counts_range}
use ringpop_common.Verdict.Interleaved.{measure-Run_count}
use ringpop_common.Outcome.{not_in_range, ok, err}
use ringpop_common.Float.{whole, Whole, whole-IsExact}
use ringpop_common.Command.{Measurement}
use ringpop_common.Measurement.{measure}
use ringpop_common.Measurement.Window.{quantity_of}
use ringpop_common.Scanner.Lines.{line_scanner, open_lines}
use ringpop_common.Scanner.Section.{is_label}
use ringpop_common.Tests.Ingest.{busy, idle, hosts, idle-report}
use ringpop_common.Tests.Scenario.{is_line-IsLine}
use ringpop_common.Ingester.{
  new_stat_ingester, handle_stat, is_cluster_stable, label_line, get_between, insert_label,
}
use ringpop_common.Ingester.Reports.{report, apply_report}
use ringpop_common.Ingester.Stability.{write_lines}
use ringpop_common.Ingester.Session.File.{file, file_lines}
use ringpop_common.Ingester.Wait.{
  await_unstable, await_stable, done, wait_step, in_phase, run as run_wait,
}
use ringpop_common.Ingester.Threads.{
  System, Event, took, wrote, labelled, began, looked, cleared, take_stat, write_stat, insert,
  begin, look, clear, Run, here, next, Run-append, start,
}
use ringpop_common.Ingester.Threads.History.{Recorded, Run-Recorded}
use ringpop_common.Ingester.Threads.Serial.{turns_of, Run-turns_of}
use ringpop_common.Ingester.Threads.Overtaken.{label_overtakes_stat}
use ringpop_common.Ingester.Threads.Returned.{Returned, Run-Returned}
use ringpop_common.Ingester.Threads.Measured.{IsMeasurable, measure-Run}

abbrev inside : List Event
inside =
    labelled (codes "t0") (codes "start")
    ∷ took busy
    ∷ wrote busy
    ∷ looked
    ∷ took idle
    ∷ looked
    ∷ []

abbrev section : List Event
section = took busy ∷ wrote busy ∷ looked ∷ took idle ∷ looked ∷ cleared ∷ []

abbrev after : List Event
after = labelled (codes "t1") (codes "kill 1") ∷ wrote idle ∷ []

abbrev tail : List Event
tail = (inside ++ (cleared ∷ [])) ++ after

abbrev pub waiting : System Bytes
waiting = record (start []) { phase = await_unstable; hosts = hosts }

-- the state in which the wait returns, while `idle` is in flight
abbrev pub returned : System Bytes
returned = record {
  ingester = record {
    writer = write_lines file [] (label_line (codes "t0") (codes "start") ∷ busy ∷ []);
    empty_nodes = (codes "127_0_0_1_3000", true) ∷ [];
    was_unstable = false;
  };
  in_flight = some idle;
  phase = done;
  hosts = hosts;
}

-- the end of the run: `idle` stands behind the second label
abbrev pub last : System Bytes
last = record returned {
  ingester = record returned.ingester {
    writer = write_lines file [] (
        label_line (codes "t0") (codes "start")
        ∷ busy
        ∷ label_line (codes "t1") (codes "kill 1")
        ∷ idle
        ∷ []);
  };
  in_flight = none;
}

wait_runs : Run file waiting (inside ++ (cleared ∷ [])) returned
unfolding handle_stat bytes_eq wait_step is_cluster_stable insert_label write_lines
wait_runs = next (insert (codes "t0") (codes "start")) (
    next (take_stat busy refl refl) (
      next (write_stat busy refl refl) (
        next (look tt)
          (next (take_stat idle refl refl) (next (look tt) (next (clear refl) here))))))

tail_runs : Run file waiting tail last
unfolding insert_label write_lines
tail_runs =
    Run-append file wait_runs
      (next (insert (codes "t1") (codes "kill 1")) (next (write_stat idle refl refl) here))

Run-Returned_example : Returned hosts [] inside
Run-Returned_example =
    Run-Returned file hosts [] [] inside returned (next (begin hosts refl) wait_runs)
      (tt, (tt, (tt, (tt, (tt, (tt, tt))))))

Run-turns_of_example :
    run_wait hosts (in_phase hosts await_unstable (new_stat_ingester [])) (turns_of tail)
    ≡ ok (in_phase hosts done (record last.ingester { writer = [] }))
Run-turns_of_example =
    Run-turns_of file [] tail_runs (tt, (tt, (tt, (tt, (tt, (tt, (tt, (tt, (tt, tt)))))))))

Run-Recorded_example : Recorded file [] (began hosts ∷ tail) last
Run-Recorded_example =
    Run-Recorded file [] (began hosts ∷ tail) last (next (begin hosts refl) tail_runs)

abbrev changes : Measurement Whole
changes = record {
  start = codes "t0";
  end = codes "t1";
  quantity = codes "count";
  args = codes "changes.disseminate" ∷ [];
  assertion = some (counts_range whole 1 2);
}

abbrev match_all : Bytes → Bytes → Option Bool
match_all pattern line = some true

changes-IsMeasurable :
    IsMeasurable changes
      (began hosts ∷ [])
      section
      (wrote idle ∷ [])
      (codes "start")
      (codes "kill 1")
unfolding bytes_eq is_label lacks
changes-IsMeasurable = record {
  named_start = refl;
  named_end = refl;
  without_start = tt;
  without_end = (refl, tt);
  lines = (
    is_line-IsLine (label_line (codes "t0") (codes "start")) refl,
    (
      is_line-IsLine busy refl,
      (
        is_line-IsLine (label_line (codes "t1") (codes "kill 1")) refl,
        (is_line-IsLine idle refl, tt),
      ),
    ),
  );
}

measure-Run_example :
    measure whole line_scanner match_all 9 changes
      (open_lines (file_lines last.ingester.writer) none)
    ≡ quantity_of whole match_all changes none (busy ∷ [])
measure-Run_example =
    measure-Run whole match_all changes (began hosts ∷ []) section (wrote idle ∷ []) (codes "start")
      (codes "kill 1") last 9 changes-IsMeasurable (next (begin hosts refl) tail_runs) (omega arith)

measure-Run_count_example :
    (n : ℕ) × (n ≡ occurrences (match_all (codes "changes.disseminate:")) (busy ∷ []))
    × (measure whole line_scanner match_all 9 changes
          (open_lines (file_lines last.ingester.writer) none)
        ≡ ok (number (some (pos n))))
    × (((1 ≤ n) × (n ≤ 2) × (assert_value whole changes.assertion (number (some (pos n))) ≡ ok tt))
        ⊎ ((¬ ((1 ≤ n) × (n ≤ 2)))
            × (assert_value whole changes.assertion (number (some (pos n))) ≡ err not_in_range)))
unfolding occurrences
measure-Run_count_example =
    measure-Run_count whole whole-IsExact match_all changes (began hosts ∷ []) section
      (wrote idle ∷ []) (codes "start") (codes "kill 1") last 9 (codes "changes.disseminate") 1 2
      refl refl refl changes-IsMeasurable (next (begin hosts refl) tail_runs) (omega arith)
      (omega arith) (omega arith) (omega arith)

-- the node is busy and a wait looks for a stable cluster
abbrev looking : System Bytes
looking = record {
  ingester = record {
    writer = [];
    empty_nodes = (codes "127_0_0_1_3000", false) ∷ [];
    was_unstable = true;
  };
  in_flight = none;
  phase = await_stable;
  hosts = hosts;
}

looking_stable : is_cluster_stable (apply_report looking.ingester (report idle)) hosts ≡ true
unfolding is_cluster_stable apply_report report get_between bytes_eq
    ringpop_common.Common.Dict.insert
looking_stable = refl

label_overtakes_stat_example :
    (u : System Bytes) × Run file looking
      (took idle ∷ looked ∷ cleared ∷ labelled (codes "t1") (codes "kill 1") ∷ wrote idle ∷ [])
      u
    × (u.phase ≡ done)
    × (u.ingester.writer
        ≡ write_lines file [] (label_line (codes "t1") (codes "kill 1") ∷ idle ∷ []))
label_overtakes_stat_example =
    label_overtakes_stat file looking idle (codes "t1") (codes "kill 1") (λ v b. refl) refl refl
      (λ e. cc (idle-report)) looking_stable
