-- ===== src/Ingester.antt =====
-- cluster-test/test-orchestrator/stat_ingester.go: the server that reads the stats of the cluster,
-- writes them to a file and keeps track of which nodes have changes to disseminate. The mutex makes
-- `handleStat` and `IsClusterStable` atomic, so each is one function of the state; `WaitForStable`,
-- which other goroutines interrupt, is in Ingester/Wait.
pub mod Labels
pub mod Hosts
pub mod Reports
pub mod Fatal
pub mod Threads
pub mod Reordered
pub mod Datagrams
pub mod Session
pub mod Lines
pub mod Stability
pub mod Wait
use ringpop_common.Common.{
  ℕ, ◌+◌, Bool, true, false, not, Option, none, some, List, [], ◌∷◌, ◌++◌, if◌then◌else◌, Bytes,
  codes, bytes_eq, length, take, drop,
}
use ringpop_common.Common.Dict.{lookup, insert}
use ringpop_common.Outcome.{
  ingesting, within, io_error, no_hostport, Outcome, ok, err, panic, exit, timeout,
}
use ringpop_common.Text.{index, replace_all}
use ringpop_common.Scanner.{Scanner, for_scan}

-- `io.Writer`: the writer after a call of `Write`, and whether the call had no error
pub record Writer (W : Type 0) : Type 0 where
  pub write : W → Bytes → W × Bool

pub record StatIngester (W : Type 0) : Type 0 where
  pub writer : W
  pub empty_nodes : List (Bytes × Bool)
  pub was_unstable : Bool

abbrev pub new_stat_ingester : {W : Type 0} → W → StatIngester W
new_stat_ingester w = record { writer = w; empty_nodes = []; was_unstable = false }

-- the part of `getBetween` behind the first text
up_to : Bytes → Option ℕ → Option Bytes
up_to s none = none
up_to s (some end) = some (take end s)

between : Bytes → Bytes → Bytes → Option ℕ → Option Bytes
unfolding up_to index
between s before after none = none
between s before after (some start) =
    up_to (drop (start + length before) s) (index (drop (start + length before) s) after)

-- `getBetween`, with `none` where it reports no success
unfoldable pub get_between : Bytes → Bytes → Bytes → Option Bytes
unfolding between
get_between s before after = between s before after (index s before)

-- what is done with a dissemination stat, for its count of changes and its node
record_changes :
    {W : Type 0} → StatIngester W → Bytes → Bytes → Option Bytes → Outcome (StatIngester W)
unfolding bytes_eq insert
record_changes si str changes none = err (no_hostport str)
record_changes si str changes (some hostport) =
    let empty = bytes_eq changes (codes "0") in
    ok (record si {
      was_unstable = if not empty then true else si.was_unstable;
      empty_nodes = insert hostport empty si.empty_nodes;
    })

-- `handleStat` behind its two calls of `getBetween`
pub handled :
    {W : Type 0} → StatIngester W → Bytes → Option Bytes → Option Bytes → Outcome (StatIngester W)
unfolding record_changes
handled si str none hostport = ok si
handled si str (some changes) hostport = record_changes si str changes hostport

unfoldable pub handle_stat : {W : Type 0} → StatIngester W → Bytes → Outcome (StatIngester W)
unfolding get_between handled
handle_stat si str =
    handled si str (get_between str (codes "changes.disseminate:") (codes "|"))
      (get_between str (codes "ringpop.") (codes "."))

-- the name of a host in the stats
unfoldable pub stat_name : Bytes → Bytes
unfolding replace_all
stat_name h = replace_all (replace_all h (codes ".") (codes "_")) (codes ":") (codes "_")

-- the test of the loop: the node is known and has nothing to disseminate
abbrev pub is_empty : Option Bool → Bool
is_empty (some true) = true
is_empty _ = false

unfoldable pub stable_hosts : List (Bytes × Bool) → List Bytes → Bool
stable_hosts m [] = true
stable_hosts m (h ∷ hs) = if is_empty (lookup (stat_name h) m) then stable_hosts m hs else false

unfoldable pub is_cluster_stable : {W : Type 0} → StatIngester W → List Bytes → Bool
unfolding stable_hosts stat_name lookup
is_cluster_stable si hosts = stable_hosts si.empty_nodes hosts

-- the line of `InsertLabel`, without its end
abbrev pub label_line : Bytes → Bytes → Bytes
label_line label cmd = codes "label:" ++ (label ++ (codes "|cmd: " ++ cmd))

module _ {W : Type 0} (wr : Writer W) where
  pub written : StatIngester W → W × Bool → Outcome (StatIngester W)
  written si (w, true) = ok (record si { writer = w })
  written si (w, false) = exit (io_error (codes "write"))

  -- Both failures end the process.
  pub handled_or_fatal : Bytes → Outcome (StatIngester W) → Outcome (StatIngester W)
  unfolding written
  handled_or_fatal str (ok si) = written si (wr.write si.writer (str ++ b'\n' ∷ []))
  handled_or_fatal str (err e) = exit (within ingesting e)
  handled_or_fatal str (panic e) = panic e
  handled_or_fatal str (exit e) = exit e
  handled_or_fatal str timeout = timeout

  -- one round of `IngestStats`
  unfoldable pub ingest_line : StatIngester W → Bytes → Outcome (StatIngester W)
  unfolding handle_stat handled_or_fatal
  ingest_line si str = handled_or_fatal str (handle_stat si str)

  unfoldable pub ingest_stats :
      {S : Type 0} → Scanner S → ℕ → StatIngester W → S → Outcome (StatIngester W × S)
  unfolding ingest_line for_scan
  ingest_stats sc fuel si s = for_scan sc ingest_line fuel si s

  -- The result of the write is ignored.
  unfoldable pub insert_label : StatIngester W → Bytes → Bytes → StatIngester W
  insert_label si label cmd = record si {
    writer = (wr.write si.writer (label_line label cmd ++ b'\n' ∷ [])).0;
  }
