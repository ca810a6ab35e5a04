-- ===== src/Tests/Ingest.antt =====
-- Stats of two nodes, taken in.
use ringpop_common.Common.{
  ◌≡◌, refl, true, false, none, List, [], ◌∷◌, ◌++◌, arith, if◌then◌else◌, Bytes, codes, bytes_eq,
  bytes_eq_iff,
}
use ringpop_common.Common.{lacks, lacks-Lacks}
use ringpop_common.Scanner.{Yields}
use ringpop_common.Scanner.Section.{is_label, SectionScanner, new_section_scanner, section_scanner}
use ringpop_common.Ingester.Session.File.{file}
use ringpop_common.Ingester.Hosts.{Address, IsAddress, handle_stat-host}
use ringpop_common.Ingester.Reordered.{Apart, exchange, ingest_stats-Reordered}
use ringpop_common.Ingester.Fatal.{IsIngestion, ingest_stats-IsIngestion}
use ringpop_common.Ingester.Labels.{labelled, new_section_scanner-labelled}
use ringpop_common.Ingester.{label_line}
use ringpop_common.Outcome.{ok}
use ringpop_common.Scanner.Lines.{LineScanner, line_scanner, open_lines, open_lines-Yields}
use ringpop_common.Ingester.{
  StatIngester, new_stat_ingester, get_between, handle_stat, is_cluster_stable, ingest_stats,
}
use ringpop_common.Ingester.Lines.{stat_line}
use ringpop_common.Ingester.Reports.{node, broken, report}
use ringpop_common.Ingester.Stability.{Ingested, ingest_stats-Ingested}

abbrev pub busy : Bytes
busy = stat_line (codes "2015-06-25T18:00Z") (codes "127_0_0_1_3000") (codes "3")

abbrev pub idle : Bytes
idle = stat_line (codes "2015-06-25T18:01Z") (codes "127_0_0_1_3000") (codes "0")

abbrev pub hosts : List Bytes
hosts = codes "127.0.0.1:3000" ∷ []

pub busy-report : report busy ≡ node (codes "127_0_0_1_3000") false
unfolding report get_between bytes_eq
busy-report = refl

pub idle-report : report idle ≡ node (codes "127_0_0_1_3000") true
unfolding report get_between bytes_eq
idle-report = refl

ingest_stats-Ingested_example :
    (si : StatIngester Bytes) × (t : LineScanner) × (ingest_stats file line_scanner 3
        (new_stat_ingester [])
        (open_lines (busy ∷ idle ∷ []) none)
      ≡ ok (si, t))
    × Ingested file [] (busy ∷ idle ∷ []) (busy ∷ idle ∷ []) si
ingest_stats-Ingested_example =
    ingest_stats-Ingested file line_scanner [] (open_lines (busy ∷ idle ∷ []) none)
      (busy ∷ idle ∷ []) 3 none (λ v b. refl)
      ((λ e. cc (busy-report)), ((λ e. cc (idle-report)), tt))
      (open_lines-Yields (busy ∷ idle ∷ []) none) (omega arith)

abbrev first_node : Address
first_node = record {
  first = codes "127";
  second = codes "0";
  third = codes "0";
  fourth = codes "1";
  port = codes "3000";
}

first_node-IsAddress : IsAddress first_node
first_node-IsAddress = record {
  first_number = ((λ e. cc), (refl, (refl, (refl, tt))), omega arith);
  second_number = ((λ e. cc), (refl, tt), omega arith);
  third_number = ((λ e. cc), (refl, tt), omega arith);
  fourth_number = ((λ e. cc), (refl, tt), omega arith);
  port_number = ((λ e. cc), (refl, (refl, (refl, (refl, tt)))), omega arith);
}

handle_stat-host_example :
    (si' : StatIngester Bytes) × (handle_stat
        (new_stat_ingester [])
        (stat_line (codes "2015") (codes "127_0_0_1_3000") (codes "0"))
      ≡ ok si')
    × (is_cluster_stable si' (codes "127.0.0.1:3000" ∷ []) ≡ (
        if bytes_eq (codes "127.0.0.1:3000") (codes "127.0.0.1:3000")
        then bytes_eq (codes "0") (codes "0")
        else is_cluster_stable {W = Bytes} (new_stat_ingester []) (codes "127.0.0.1:3000" ∷ [])))
unfolding lacks
handle_stat-host_example =
    handle_stat-host (new_stat_ingester []) first_node first_node (codes "2015") (codes "0")
      first_node-IsAddress first_node-IsAddress
      (lacks-Lacks b'c' (codes "2015") refl, lacks-Lacks b'r' (codes "2015") refl)
      (lacks-Lacks b'|' (codes "0") refl)

-- a stat of another node
abbrev other_busy : Bytes
other_busy = stat_line (codes "2015-06-25T18:00Z") (codes "127_0_0_1_3001") (codes "2")

other_busy-report : report other_busy ≡ node (codes "127_0_0_1_3001") false
unfolding report get_between bytes_eq
other_busy-report = refl

busy-Apart : Apart (report busy) (report other_busy)
unfolding bytes_eq
busy-Apart =
    rw (busy-report, other_busy-report)
      (λ e. cc ((bytes_eq_iff (codes "127_0_0_1_3000") (codes "127_0_0_1_3001")).1 e))

ingest_stats-Reordered_example :
    (si : StatIngester Bytes) × (si' : StatIngester Bytes) × (t : LineScanner) × (t' : LineScanner)
    × (ingest_stats file line_scanner 4
          (new_stat_ingester [])
          (open_lines (busy ∷ other_busy ∷ idle ∷ []) none)
        ≡ ok (si, t))
    × (ingest_stats file line_scanner 4
          (new_stat_ingester [])
          (open_lines (other_busy ∷ busy ∷ idle ∷ []) none)
        ≡ ok (si', t'))
    × ((hosts : List Bytes) → is_cluster_stable si hosts ≡ is_cluster_stable si' hosts)
    × (si.was_unstable ≡ si'.was_unstable)
ingest_stats-Reordered_example =
    ingest_stats-Reordered file line_scanner [] (open_lines (busy ∷ other_busy ∷ idle ∷ []) none)
      (open_lines (other_busy ∷ busy ∷ idle ∷ []) none) (busy ∷ other_busy ∷ idle ∷ [])
      (other_busy ∷ busy ∷ idle ∷ []) 4 none none (λ v b. refl)
      ((λ e. cc (busy-report)), ((λ e. cc (other_busy-report)), ((λ e. cc (idle-report)), tt)))
      (exchange busy other_busy (idle ∷ []) busy-Apart)
      (open_lines-Yields (busy ∷ other_busy ∷ idle ∷ []) none)
      (open_lines-Yields (other_busy ∷ busy ∷ idle ∷ []) none) (omega arith)

-- a dissemination stat without a node
abbrev nameless : Bytes
nameless = codes "2015|changes.disseminate:3|g"

nameless-report : report nameless ≡ broken
unfolding report get_between
nameless-report = refl

ingest_stats-IsIngestion_example : IsIngestion (busy ∷ nameless ∷ []) (
    ingest_stats file line_scanner 3
      (new_stat_ingester [])
      (open_lines (busy ∷ nameless ∷ []) none))
ingest_stats-IsIngestion_example =
    ingest_stats-IsIngestion file line_scanner (new_stat_ingester [])
      (open_lines (busy ∷ nameless ∷ []) none) (busy ∷ nameless ∷ []) 3 none
      (open_lines-Yields (busy ∷ nameless ∷ []) none) (omega arith)

-- the stats of a scenario, with the label t10 where t1 is looked for
abbrev scenario_lines : List Bytes
scenario_lines =
    labelled (codes "before" ∷ []) (label_line (codes "t0" ++ []) (codes "start"))
      (busy ∷ idle ∷ []) (label_line (codes "t1" ++ codes "0") (codes "kill 1"))
      (codes "after" ∷ [])

new_section_scanner-labelled_example :
    (s : SectionScanner LineScanner) × (new_section_scanner line_scanner 9
        (open_lines scenario_lines none)
        (codes "t0")
        (codes "t1")
      ≡ ok s)
    × Yields (section_scanner line_scanner) s (busy ∷ idle ∷ []) none
unfolding bytes_eq is_label
new_section_scanner-labelled_example =
    new_section_scanner-labelled line_scanner (codes "t0") [] (codes "start") (codes "t1")
      (codes "0") (codes "kill 1") (codes "before" ∷ []) (busy ∷ idle ∷ []) (codes "after" ∷ []) 9
      (open_lines scenario_lines none) none refl refl (refl, tt) (refl, (refl, tt)) (omega arith)
      (open_lines-Yields scenario_lines none)
