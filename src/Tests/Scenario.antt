-- ===== src/Tests/Scenario.antt =====
-- A whole scenario: stats and labels written to a file, read back and measured, and stats that come in
-- as datagrams.
use ringpop_common.Common.{
  ◌≡◌, refl, ◌≢◌, Bool, true, ◌&&◌, Option, none, some, List, [], ◌∷◌, map, arith, ltb, Bytes,
  codes, bytes_eq, length, take, All,
}
use ringpop_common.Common.{lacks, lacks-Lacks}
use ringpop_common.Outcome.{ok}
use ringpop_common.Float.{whole, Whole}
use ringpop_common.Command.{Measurement}
use ringpop_common.Scanner.Lines.{line_scanner, open_lines}
use ringpop_common.Scanner.Section.{is_label}
use ringpop_common.Scanner.Udp.{Net, UdpScanner, buffer_size, new_udp_scanner, udp_scanner_methods}
use ringpop_common.Measurement.{measure}
use ringpop_common.Measurement.Window.{quantity_of}
use ringpop_common.Ingester.{StatIngester, new_stat_ingester, label_line, get_between, ingest_stats}
use ringpop_common.Ingester.Reports.{broken, report}
use ringpop_common.Ingester.Stability.{Ingested}
use ringpop_common.Ingester.Datagrams.{ingest_stats-datagrams}
use ringpop_common.Ingester.Session.{Action, ingest, label, action_line, stats_of, perform}
use ringpop_common.Ingester.Session.File.{file, file_lines, IsLine}
use ringpop_common.Ingester.Session.Measured.{scripted, IsScript, measure-scripted}

abbrev pub busy : Bytes
busy = codes "2015|ringpop.127_0_0_1_3000.changes.disseminate:3|g"

abbrev pub idle : Bytes
idle = codes "2015|ringpop.127_0_0_1_3000.changes.disseminate:0|g"

abbrev pub ping : Bytes
ping = codes "2015|ringpop.127_0_0_1_3000.ping.send:1|c"

abbrev pub actions : List Action
actions =
    scripted (ingest busy ∷ []) (label (codes "t0") (codes "start"))
      (ingest ping ∷ ingest idle ∷ []) (label (codes "t1") (codes "kill 1")) (ingest busy ∷ [])

-- every ping counts
abbrev pub match_ping : Bytes → Bytes → Option Bool
match_ping pattern line = some (bytes_eq line ping)

abbrev pings : Measurement Whole
pings = record {
  start = codes "t0";
  end = codes "t1";
  quantity = codes "count";
  args = codes "ping.send" ∷ [];
  assertion = none;
}

busy_known : report busy ≢ broken
unfolding report get_between bytes_eq
busy_known e = cc

idle_known : report idle ≢ broken
unfolding report get_between bytes_eq
idle_known e = cc

ping_known : report ping ≢ broken
unfolding report get_between bytes_eq
ping_known e = cc

actions_known : All (λ str. report str ≢ broken) (stats_of actions)
unfolding stats_of
actions_known = (busy_known, (ping_known, (idle_known, (busy_known, tt))))

-- whether a text can be a line of a file
abbrev pub is_line : Bytes → Bool
is_line l = lacks b'\n' l && lacks b'\r' l && ltb (length l) 65536

pub is_line-IsLine : (l : Bytes) → is_line l ≡ true → IsLine l
is_line-IsLine l h =
    (lacks-Lacks b'\n' l (ground arith), lacks-Lacks b'\r' l (ground arith), ground arith)

actions_lines : All IsLine (map action_line actions)
unfolding action_line lacks
actions_lines = (
  is_line-IsLine busy refl,
  (
    is_line-IsLine (label_line (codes "t0") (codes "start")) refl,
    (
      is_line-IsLine ping refl,
      (
        is_line-IsLine idle refl,
        (
          is_line-IsLine (label_line (codes "t1") (codes "kill 1")) refl,
          (is_line-IsLine busy refl, tt),
        ),
      ),
    ),
  ),
)

pings-IsScript :
    IsScript pings
      (ingest busy ∷ [])
      (ingest ping ∷ ingest idle ∷ [])
      (ingest busy ∷ [])
      (codes "start")
      (codes "kill 1")
unfolding bytes_eq is_label action_line
pings-IsScript = record {
  named_start = refl;
  named_end = refl;
  without_start = (refl, tt);
  without_end = (refl, (refl, tt));
  known = actions_known;
  lines = actions_lines;
}

measure-scripted_example :
    (si : StatIngester Bytes) × (perform file (new_stat_ingester []) actions ≡ ok si)
    × (measure whole line_scanner match_ping 9 pings (open_lines (file_lines si.writer) none)
        ≡ quantity_of whole match_ping pings none
            (map action_line (ingest ping ∷ ingest idle ∷ [])))
measure-scripted_example =
    measure-scripted whole match_ping pings (ingest busy ∷ []) (ingest ping ∷ ingest idle ∷ [])
      (ingest busy ∷ []) (codes "start") (codes "kill 1") 9 pings-IsScript (omega arith)

-- a connection is the list of the datagrams on their way
abbrev queue : Net (List Bytes)
queue = record {
  resolve = λ port. none;
  listen = λ port. some (busy ∷ idle ∷ []);
  receive = λ c. elim c [ [] ↦ ([], none) | x ∷ xs ↦ (xs, some x) ];
}

ingest_stats-datagrams_example :
    (s : UdpScanner (List Bytes)) × (new_udp_scanner queue (codes "3300") ≡ ok s)
    × (si : StatIngester Bytes) × (t : UdpScanner (List Bytes)) × (ingest_stats file
          (udp_scanner_methods queue)
          3
          (new_stat_ingester [])
          s
        ≡ ok (si, t))
    × Ingested file []
        (map (take buffer_size) (busy ∷ idle ∷ []))
        (map (take buffer_size) (busy ∷ idle ∷ []))
        si
ingest_stats-datagrams_example =
    ingest_stats-datagrams queue file (codes "3300") (busy ∷ idle ∷ []) (busy ∷ idle ∷ []) [] 3 refl
      refl (idle ∷ [], refl, ([], refl, ([], refl))) (λ v b. refl) (busy_known, (idle_known, tt))
      (omega arith)
