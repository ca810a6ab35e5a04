-- ===== src/Ingester/Threads/Serial.antt =====
-- The goroutines of stat_ingester.go as `WaitForStable` sees them: labels and the writing of stats
-- change nothing for it.
use ringpop_common.Common.{◌≡◌, refl, sym, ap, ◌∙◌, inl, inr, List, [], ◌∷◌, Bool-cases, Bytes, All}
use ringpop_common.Outcome.{ok}
use ringpop_common.Ingester.{
  Writer, StatIngester, handle_stat, stable_hosts, is_cluster_stable, insert_label,
}
use ringpop_common.Ingester.Reports.{
  handle_stat-report, report, apply_report, silent, node, broken, Report,
}
use ringpop_common.Ingester.Wait.{
  Phase, await_unstable, await_stable, clearing, done, wait_step, in_phase, run, stat, turn,
  Event as WaitEvent,
}
use ringpop_common.Ingester.Threads.{
  System, Event, took, began, looked, cleared, IsLooking, take_stat, write_stat, insert, begin,
  look, clear, Run, here, next,
}
use ringpop_common.Ingester.Threads.History.{handle_stat-known, handle_stat-ok}

-- what the wait has to do with the events
unfoldable pub turns_of : List Event → List WaitEvent
turns_of [] = []
turns_of (took str ∷ es) = stat str ∷ turns_of es
turns_of (looked ∷ es) = turn ∷ turns_of es
turns_of (cleared ∷ es) = turn ∷ turns_of es
turns_of (_ ∷ es) = turns_of es

-- no wait begins
abbrev pub IsNoStart : Event → Type 0
IsNoStart (began hosts) = ⊥
IsNoStart _ = Unit

module _ {W : Type 0} (wr : Writer W) where
  abbrev with_writer : StatIngester W → W → StatIngester W
  with_writer si w = record si { writer = w }

  apply_report-with_writer :
      (si : StatIngester W) (r : Report) (w : W)
      → apply_report (with_writer si w) r ≡ with_writer (apply_report si r) w
  unfolding apply_report
  apply_report-with_writer si silent w = refl
  apply_report-with_writer si broken w = refl
  apply_report-with_writer si (node name empty) w = refl

  handle_stat-with_writer :
      (si : StatIngester W) (str : Bytes) (w : W) {si' : StatIngester W}
      → handle_stat si str ≡ ok si'
      → handle_stat (with_writer si w) str ≡ ok (with_writer si' w)
  handle_stat-with_writer si str w h =
      handle_stat-report (with_writer si w) str (handle_stat-known wr si str h)
      ∙ ap ok (
          apply_report-with_writer si (report str) w
          ∙ ap (λ v. with_writer v w) (sym (handle_stat-ok wr si str h)))

  wait_step-with_writer :
      (hosts : List Bytes) (p : Phase) (si : StatIngester W) (w : W)
      → IsLooking p
      → wait_step hosts p (with_writer si w)
        ≡ in_phase hosts (wait_step hosts p si).phase (with_writer si w)
  unfolding wait_step is_cluster_stable
  wait_step-with_writer hosts await_unstable si w h = elim (Bool-cases si.was_unstable) [
    | inl z ↦ rw z refl
    | inr z ↦ rw z refl
  ]
  wait_step-with_writer hosts await_stable si w h =
      elim (Bool-cases (stable_hosts si.empty_nodes hosts)) [
        | inl z ↦ rw z refl
        | inr z ↦ rw z refl
      ]
  wait_step-with_writer hosts clearing si w h = absurd h
  wait_step-with_writer hosts done si w h = absurd h

  -- Goroutines that handle and write stats, insert labels and wait, interleaved in any way in which
  -- no new wait begins: the handling of the stats and the steps of the wait alone, in the same order,
  -- are a run of the wait as Ingester/Wait has it, from the same state to the same state, with any
  -- writer in the place of the ingester's.
  pub Run-turns_of :
      (w : W) {s u : System W} {es : List Event}
      → Run wr s es u
      → All IsNoStart es
      → run s.hosts (in_phase s.hosts s.phase (with_writer s.ingester w)) (turns_of es)
        ≡ ok (in_phase s.hosts u.phase (with_writer u.ingester w))
  unfolding turns_of run insert_label
  Run-turns_of w here h = refl
  Run-turns_of w (next {s} (take_stat str idle d) r) (_, h) =
      rw (handle_stat-with_writer s.ingester str w d) (Run-turns_of w r h)
  Run-turns_of w (next (write_stat str full d) r) (_, h) = Run-turns_of w r h
  Run-turns_of w (next (insert l cmd) r) (_, h) = Run-turns_of w r h
  Run-turns_of w (next (begin hosts d) r) (b, h) = absurd b
  Run-turns_of w (next {s} (look d) r) (_, h) =
      rw (wait_step-with_writer s.hosts s.phase s.ingester w d) (Run-turns_of w r h)
  Run-turns_of w (next {s} (clear d) r) (_, h) = rw d (Run-turns_of w r h)
