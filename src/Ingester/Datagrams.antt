-- ===== src/Ingester/Datagrams.antt =====
-- stat_ingester.go fed by udp_scanner.go: the stats that the nodes send as datagrams.
use ringpop_common.Common.{ℕ, ◌<◌, ◌≡◌, ◌≢◌, true, none, some, List, map, Bytes, length, take, All}
use ringpop_common.Outcome.{ok}
use ringpop_common.Scanner.Udp.{
  Net, UdpScanner, buffer_size, new_udp_scanner, udp_scanner_methods, Delivers,
  new_udp_scanner-Yields,
}
use ringpop_common.Ingester.{Writer, StatIngester, new_stat_ingester, ingest_stats}
use ringpop_common.Ingester.Reports.{broken, report}
use ringpop_common.Ingester.Stability.{Ingested, ingest_stats-Ingested}

-- Where the port resolves and the connection on it receives the datagrams `xs` and then an error,
-- `NewUDPScanner` makes a scanner, and `IngestStats` of a new ingester over it, with a writer that
-- takes every line, returns with no error once the connection fails, if no datagram, cut to 1024
-- bytes, is a dissemination stat that names no node: it has written the cut datagrams, a line for each,
-- in order, and knows of each node what the last of them says.
pub ingest_stats-datagrams :
    {C W : Type 0} (net : Net C) (wr : Writer W) (port : Bytes) (c : C) (xs : List Bytes) (w : W)
    (fuel : ℕ)
    → net.resolve port ≡ none
    → net.listen port ≡ some c
    → Delivers net c xs
    → ((v : W) (b : Bytes) → (wr.write v b).1 ≡ true)
    → All (λ l. report l ≢ broken) (map (take buffer_size) xs)
    → length (map (take buffer_size) xs) < fuel
    → (s : UdpScanner C) × (new_udp_scanner net port ≡ ok s)
      × (si : StatIngester W) × (t : UdpScanner C) × (ingest_stats wr
            (udp_scanner_methods net)
            fuel
            (new_stat_ingester w)
            s
          ≡ ok (si, t))
      × Ingested wr w (map (take buffer_size) xs) (map (take buffer_size) xs) si
ingest_stats-datagrams net wr port c xs w fuel resolves listens more accepts well enough =
    let (s, opened, yields) = new_udp_scanner-Yields net port c xs resolves listens more in
    let (si, t, ran, state) =
      ingest_stats-Ingested wr (udp_scanner_methods net) w s (map (take buffer_size) xs) fuel _
        accepts well yields enough in
    (s, opened, si, t, ran, state)
