-- ===== src/Tests/Served.antt =====
-- The ingester's loop over a scanner of two stats, beside a wait and two labels.
use ringpop_common.Common.{
  ◌≡◌, refl, ◌↔◌, true, false, none, some, List, [], ◌∷◌, ◌++◌, Bytes, codes, bytes_eq,
}
use ringpop_common.Scanner.Lines.{LineScanner, line_scanner, open_lines, open_lines-Yields}
use ringpop_common.Tests.Ingest.{busy, idle, hosts, idle-report, busy-report}
use ringpop_common.Tests.Threads.{last, waiting}
use ringpop_common.Ingester.{label_line, handle_stat, is_cluster_stable, insert_label}
use ringpop_common.Ingester.Stability.{AllStable, write_lines}
use ringpop_common.Ingester.Session.File.{file}
use ringpop_common.Ingester.Wait.{wait_step}
use ringpop_common.Ingester.Threads.{
  System, Event, took, wrote, labelled, began, looked, cleared, take_stat, write_stat, insert,
  begin, look, clear, start, stored, lines_of,
}
use ringpop_common.Ingester.Threads.Fed.{Fed, at_rest, feed, beside, Fed-append, Finishes}
use ringpop_common.Ingester.Threads.Served.{Fed-stored, Fed-Finishes}

abbrev lines : List Bytes
lines = busy ∷ idle ∷ []

-- up to where `busy` is in flight
abbrev opening : List Event
opening = began hosts ∷ labelled (codes "t0") (codes "start") ∷ took busy ∷ []

abbrev closing : List Event
closing =
    wrote busy
    ∷ looked
    ∷ took idle
    ∷ looked
    ∷ cleared
    ∷ labelled (codes "t1") (codes "kill 1")
    ∷ wrote idle
    ∷ []

abbrev midway : System Bytes
midway = record waiting {
  ingester = record {
    writer = write_lines file [] (label_line (codes "t0") (codes "start") ∷ []);
    empty_nodes = (codes "127_0_0_1_3000", false) ∷ [];
    was_unstable = true;
  };
  in_flight = some busy;
}

-- the scanner after lines of it
abbrev scanned_to : Bytes → List Bytes → LineScanner
scanned_to l ls = record (open_lines ls none) { current = l }

opening-Fed :
    Fed file line_scanner
      (start [])
      (open_lines lines none)
      opening
      midway
      (scanned_to busy (idle ∷ []))
unfolding handle_stat bytes_eq insert_label write_lines line_scanner
opening-Fed =
    beside tt (begin hosts refl) (
      beside tt (insert (codes "t0") (codes "start"))
        (feed refl (take_stat busy refl refl) at_rest))

closing-Fed :
    Fed file line_scanner midway (scanned_to busy (idle ∷ [])) closing last (scanned_to idle [])
unfolding handle_stat bytes_eq wait_step is_cluster_stable insert_label write_lines line_scanner
closing-Fed = beside tt (write_stat busy refl refl) (
    beside tt (look tt) (
      feed refl (take_stat idle refl refl) (
        beside tt (look tt) (
          beside tt (clear refl) (
            beside tt (insert (codes "t1") (codes "kill 1"))
              (beside tt (write_stat idle refl refl) at_rest))))))

Fed-stored_example :
    (stored (opening ++ closing) ≡ lines)
    × (last.ingester.writer ≡ write_lines file [] (lines_of (opening ++ closing)))
    × ((hs : List Bytes) → (is_cluster_stable last.ingester hs ≡ true) ↔ AllStable lines hs)
unfolding line_scanner
Fed-stored_example =
    Fed-stored file line_scanner [] (open_lines lines none) lines none (opening ++ closing) last
      (scanned_to idle []) (open_lines-Yields lines none)
      (Fed-append file line_scanner opening-Fed closing-Fed) refl refl

Fed-Finishes_example :
    (f : Finishes file line_scanner midway (scanned_to busy (idle ∷ []))) × (stored
        (opening ++ f.events)
      ≡ lines)
Fed-Finishes_example =
    Fed-Finishes file line_scanner [] (open_lines lines none) lines none opening midway
      (scanned_to busy (idle ∷ [])) (open_lines-Yields lines none) opening-Fed (λ v b. refl)
      ((λ e. cc (busy-report)), ((λ e. cc (idle-report)), tt))
