-- ===== src/Ingester/Stability.antt =====
-- `IngestStats` and `IsClusterStable` against the sequence of stats: what the ingester knows of a node
-- is the node's last dissemination stat.
use ringpop_common.Common.{
  ℕ, ◌<◌, ◌≡◌, refl, sym, ap, ◌∙◌, subst, ◌≢◌, ◌↔◌, Bool, true, false, ◌||◌, Option, none, some,
  List, [], ◌∷◌, ◌++◌, map, arith, Bytes, length, All,
}
use ringpop_common.Common.Dict.{lookup, lookup-insert}
use mathlib.Core.Path.{fun_ext}
use ringpop_common.Outcome.{Failure, ok}
use ringpop_common.Scanner.{Scanner, Yields, for_scan}
use ringpop_common.Scanner.Loops.{for_lines, Agrees, for_scan-Agrees}
use ringpop_common.Ingester.Reports.{
  Report, silent, node, broken, report, last_report, any_unstable, apply_report, handle_stat-report,
}
use ringpop_common.Ingester.{
  Writer, StatIngester, new_stat_ingester, stat_name, stable_hosts, is_cluster_stable, written,
  handled_or_fatal, ingest_line, ingest_stats,
}

module _ {W : Type 0} (wr : Writer W) where
  -- the state after one line, and after all, if every write succeeds
  unfoldable pub take_line : StatIngester W → Bytes → StatIngester W
  take_line si l = record (apply_report si (report l)) {
    writer = (wr.write (apply_report si (report l)).writer (l ++ b'\n' ∷ [])).0;
  }

  pub take_lines : StatIngester W → List Bytes → StatIngester W
  take_lines si [] = si
  take_lines si (l ∷ ls) = take_lines (take_line si l) ls

  pub lookup-apply_report :
      (name : Bytes) (si : StatIngester W) (r : Report) (rs : List Report)
      → last_report name (lookup name si.empty_nodes) (r ∷ rs)
        ≡ last_report name (lookup name (apply_report si r).empty_nodes) rs
  unfolding last_report apply_report
  lookup-apply_report name si silent rs = refl
  lookup-apply_report name si broken rs = refl
  lookup-apply_report name si (node h empty) rs = rw (lookup-insert h name empty si.empty_nodes)

  lookup-take_lines :
      (name : Bytes) (si : StatIngester W) (ls : List Bytes)
      → lookup name (take_lines si ls).empty_nodes
        ≡ last_report name (lookup name si.empty_nodes) (map report ls)
  unfolding take_lines take_line
  lookup-take_lines name si [] = unfold last_report in refl
  lookup-take_lines name si (l ∷ ls) =
      lookup-take_lines name (take_line si l) ls
      ∙ sym (lookup-apply_report name si (report l) (map report ls))

  pub was_unstable-apply_report :
      (si : StatIngester W) (r : Report) (rs : List Report)
      → (any_unstable rs || (apply_report si r).was_unstable)
        ≡ (any_unstable (r ∷ rs) || si.was_unstable)
  unfolding any_unstable apply_report
  was_unstable-apply_report si silent rs = refl
  was_unstable-apply_report si broken rs = refl
  was_unstable-apply_report si (node h true) rs = refl
  was_unstable-apply_report si (node h false) rs = ground arith

  was_unstable-take_lines :
      (si : StatIngester W) (ls : List Bytes)
      → (take_lines si ls).was_unstable ≡ (any_unstable (map report ls) || si.was_unstable)
  unfolding take_lines take_line
  was_unstable-take_lines si [] = unfold any_unstable in refl
  was_unstable-take_lines si (l ∷ ls) =
      was_unstable-take_lines (take_line si l) ls
      ∙ was_unstable-apply_report si (report l) (map report ls)

  written-ok :
      (si : StatIngester W) (r : W × Bool)
      → r.1 ≡ true
      → written wr si r ≡ ok (record si { writer = r.0 })
  unfolding written
  written-ok si (w, true) h = refl
  written-ok si (w, false) h = cc

  pub ingest_line-take_line :
      (si : StatIngester W) (l : Bytes)
      → ((w : W) (b : Bytes) → (wr.write w b).1 ≡ true)
      → report l ≢ broken
      → ingest_line wr si l ≡ ok (take_line si l)
  unfolding ingest_line handled_or_fatal take_line
  ingest_line-take_line si l accepts h =
      ap (handled_or_fatal wr l) (handle_stat-report si l h)
      ∙ written-ok (apply_report si (report l))
          (wr.write (apply_report si (report l)).writer (l ++ b'\n' ∷ []))
          (accepts (apply_report si (report l)).writer (l ++ b'\n' ∷ []))

  -- what the writer is given: every line with its end, in order
  unfoldable pub write_lines : W → List Bytes → W
  write_lines w [] = w
  write_lines w (l ∷ ls) = write_lines (wr.write w (l ++ b'\n' ∷ [])).0 ls

  pub writer-apply_report :
      (si : StatIngester W) (r : Report) → (apply_report si r).writer ≡ si.writer
  unfolding apply_report
  writer-apply_report si silent = refl
  writer-apply_report si broken = refl
  writer-apply_report si (node h empty) = refl

  writer-take_lines :
      (si : StatIngester W) (ls : List Bytes) → (take_lines si ls).writer ≡ write_lines si.writer ls
  unfolding take_lines take_line write_lines
  writer-take_lines si [] = refl
  writer-take_lines si (l ∷ ls) =
      writer-take_lines (take_line si l) ls
      ∙ ap (λ w. write_lines (wr.write w (l ++ b'\n' ∷ [])).0 ls)
          (writer-apply_report si (report l))

  pub for_lines-take_lines :
      (si : StatIngester W) (ls : List Bytes)
      → ((w : W) (b : Bytes) → (wr.write w b).1 ≡ true)
      → All (λ l. report l ≢ broken) ls
      → for_lines (ingest_line wr) si ls ≡ ok (take_lines si ls)
  unfolding for_lines take_lines
  for_lines-take_lines si [] accepts h = refl
  for_lines-take_lines si (l ∷ ls) accepts (hl, h) =
      rw (ingest_line-take_line si l accepts hl)
        (for_lines-take_lines (take_line si l) ls accepts h)

-- A host is stable if the last dissemination stat of its node says that nothing is left.
pub stable_hosts_iff :
    (m : List (Bytes × Bool)) (hosts : List Bytes)
    → (stable_hosts m hosts ≡ true) ↔ All (λ h. lookup (stat_name h) m ≡ some true) hosts
unfolding stable_hosts
stable_hosts_iff m [] = ((λ h. tt), (λ h. refl))
stable_hosts_iff m (h ∷ hs) = (
  (λ e. ground (arith, (stable_hosts_iff m hs).0)),
  (λ e. ground (arith, (stable_hosts_iff m hs).1)),
)

-- The hosts that are stable after the reports: the last report of each says that nothing is left.
abbrev pub AllStable : List Bytes → List Bytes → Type 0
AllStable ls = All (λ h. last_report (stat_name h) none (map report ls) ≡ some true)

-- What the ingester is after the stats `stats`, with the lines `ls` written.
pub record Ingested {W : Type 0} (wr : Writer W) (w : W) (stats ls : List Bytes)
    (si : StatIngester W) : Type 0 where
  pub stable : (hosts : List Bytes) → (is_cluster_stable si hosts ≡ true) ↔ AllStable stats hosts
  pub unstable : si.was_unstable ≡ any_unstable (map report stats)
  pub output : si.writer ≡ write_lines wr w ls

pub known-AllStable :
    {W : Type 0} (stats : List Bytes) (si : StatIngester W)
    → ((name : Bytes) → lookup name si.empty_nodes ≡ last_report name none (map report stats))
    → (hosts : List Bytes) → (is_cluster_stable si hosts ≡ true) ↔ AllStable stats hosts
unfolding is_cluster_stable
known-AllStable stats si known hosts =
    subst
      (λ (said : Bytes → Option Bool).
        (stable_hosts si.empty_nodes hosts ≡ true)
        ↔ All (λ h. said (stat_name h) ≡ some true) hosts)
      (fun_ext known) (stable_hosts_iff si.empty_nodes hosts)

-- They are decided by what is known of each name, by the flag and by the writer.
pub known-Ingested :
    {W : Type 0} (wr : Writer W) (w : W) (stats ls : List Bytes) (si : StatIngester W)
    → ((name : Bytes) → lookup name si.empty_nodes ≡ last_report name none (map report stats))
    → si.was_unstable ≡ any_unstable (map report stats)
    → si.writer ≡ write_lines wr w ls
    → Ingested wr w stats ls si
known-Ingested wr w stats ls si known flag out = record {
  stable = known-AllStable stats si known;
  unstable = flag;
  output = out;
}

lookup-new :
    {W : Type 0} (wr : Writer W) (w : W) (ls : List Bytes) (name : Bytes)
    → lookup name (take_lines wr (new_stat_ingester w) ls).empty_nodes
      ≡ last_report name none (map report ls)
unfolding lookup
lookup-new wr w ls name = lookup-take_lines wr name (new_stat_ingester w) ls

pub or_false : (b : Bool) → (b || false) ≡ b
or_false true = refl
or_false false = refl

take_lines-Ingested :
    {W : Type 0} (wr : Writer W) (w : W) (ls : List Bytes)
    → Ingested wr w ls ls (take_lines wr (new_stat_ingester w) ls)
take_lines-Ingested wr w ls =
    known-Ingested wr w ls ls (take_lines wr (new_stat_ingester w) ls) (lookup-new wr w ls)
      (was_unstable-take_lines wr (new_stat_ingester w) ls
        ∙ or_false (any_unstable (map report ls)))
      (writer-take_lines wr (new_stat_ingester w) ls)

-- Over a scanner that yields the lines `ls`, none of which names no node in a dissemination stat, a
-- writer that takes every line, and more fuel than there are lines: `IngestStats` of a new ingester
-- ends without a failure. Then the cluster is stable for given hosts exactly if the last
-- dissemination stat of each host's node has the count 0; it was unstable exactly if some stat had
-- another count; and each line was written once, in order, with its end.
pub ingest_stats-Ingested :
    {W S : Type 0} (wr : Writer W) (sc : Scanner S) (w : W) (s : S) (ls : List Bytes) (fuel : ℕ)
    (e : Option Failure)
    → ((v : W) (b : Bytes) → (wr.write v b).1 ≡ true)
    → All (λ l. report l ≢ broken) ls
    → Yields sc s ls e
    → length ls < fuel
    → (si : StatIngester W) × (t : S) × (ingest_stats wr sc fuel (new_stat_ingester w) s
        ≡ ok (si, t))
      × Ingested wr w ls ls si
unfolding ingest_stats
ingest_stats-Ingested wr sc w s ls fuel e accepts well y h =
    let body = ingest_line wr in
    let si = new_stat_ingester w in
    let (t, run, _) =
      subst (λ m. Agrees sc body e m (for_scan sc body fuel si s))
        (for_lines-take_lines wr si ls accepts well) (for_scan-Agrees sc body ls fuel si s e h y) in
    (take_lines wr si ls, t, run, take_lines-Ingested wr w ls)
