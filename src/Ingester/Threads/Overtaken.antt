-- ===== src/Ingester/Threads/Overtaken.antt =====
-- A label of `InsertLabel` that overtakes the stat behind whose handling `WaitForStable` returned.
use ringpop_common.Common.{◌≡◌, refl, ◌≢◌, true, false, none, List, [], ◌∷◌, ◌++◌, Bytes}
use ringpop_common.Ingester.{Writer, StatIngester, is_cluster_stable, label_line, insert_label}
use ringpop_common.Ingester.Reports.{broken, report, apply_report, handle_stat-report}
use ringpop_common.Ingester.Stability.{write_lines}
use ringpop_common.Ingester.Wait.{await_stable, clearing, done, Phase, wait_step}
use ringpop_common.Ingester.Threads.History.{Run-writer}
use ringpop_common.Ingester.Threads.{
  System, took, wrote, labelled, looked, cleared, take_stat, write_stat, insert, look, clear, Run,
  here, next, takes_all,
}

look-clearing :
    {W : Type 0} (hosts : List Bytes) (p : Phase) (si : StatIngester W)
    → p ≡ await_stable
    → is_cluster_stable si hosts ≡ true
    → (wait_step hosts p si).phase ≡ clearing
unfolding wait_step
look-clearing hosts p si h stable = rw h (rw stable refl)

-- While a wait looks for a stable cluster and no stat is in flight, if a stat comes in whose report is
-- not broken and makes the cluster stable, and the writer takes every line: there is a run in which the
-- stat is handled, the wait ends, a label is inserted, and only then the stat is written, so that the
-- writer has the stat behind the label.
pub label_overtakes_stat :
    {W : Type 0} (wr : Writer W) (s : System W) (str l cmd : Bytes)
    → ((v : W) (b : Bytes) → (wr.write v b).1 ≡ true)
    → s.phase ≡ await_stable
    → s.in_flight ≡ none
    → report str ≢ broken
    → is_cluster_stable (apply_report s.ingester (report str)) s.hosts ≡ true
    → (u : System W) × Run wr s (took str ∷ looked ∷ cleared ∷ labelled l cmd ∷ wrote str ∷ []) u
      × (u.phase ≡ done)
      × (u.ingester.writer ≡ write_lines wr s.ingester.writer (label_line l cmd ∷ str ∷ []))
label_overtakes_stat {W} wr s str l cmd accepts p idle known stable =
    let si = apply_report s.ingester (report str) in
    let labelled_si = insert_label wr (record si { was_unstable = false }) l cmd in
    let v : W = labelled_si.writer in
    let last : System W = record {
      ingester = record labelled_si { writer = (wr.write v (str ++ b'\n' ∷ [])).0 };
      in_flight = none;
      phase = done;
      hosts = s.hosts;
    } in
    let r : Run wr s (took str ∷ looked ∷ cleared ∷ labelled l cmd ∷ wrote str ∷ []) last =
      next (take_stat str idle (handle_stat-report s.ingester str known)) (
        next (look (rw p tt)) (
          next (clear (look-clearing s.hosts s.phase si p stable)) (
            next (insert l cmd) (
              next
                (write_stat str refl
                  (takes_all wr v (str ++ b'\n' ∷ []) (accepts v (str ++ b'\n' ∷ []))))
                here)))) in
    (last, r, refl, Run-writer wr r)
