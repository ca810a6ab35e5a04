-- ===== src/Ingester/Wait/Lost.antt =====
-- When `WaitForStable` of stat_ingester.go ends, and what its last step forgets.
use ringpop_common.Common.{
  ℕ, zero, suc, ◌≡◌, refl, ap, ◌∙◌, ◌≢◌, true, false, some, List, [], ◌∷◌, Bytes, bytes_eq_refl,
}
use ringpop_common.Common.Dict.{lookup, lookup-insert}
use ringpop_common.Outcome.{ok}
use ringpop_common.Ingester.Reports.{node, broken, report, apply_report, handle_stat-report}
use ringpop_common.Ingester.{StatIngester, is_cluster_stable}
use ringpop_common.Ingester.Wait.{
  Phase, await_unstable, await_stable, clearing, done, stat, turn, turns, World, wait_step,
  on_ingester, step, run, in_phase, run-step, wait_on, clear,
}

module _ {W : Type 0} (hosts : List Bytes) where
  -- The state when the wait is over.
  abbrev pub cleared : StatIngester W → World W
  cleared si = in_phase hosts done (record si { was_unstable = false })

  pub finish_step :
      (si : StatIngester W) → step hosts (in_phase hosts clearing si) turn ≡ ok (cleared si)
  unfolding step wait_step
  finish_step si = refl

  run-turns :
      (n : ℕ) (si : StatIngester W)
      → si.was_unstable ≡ false
      → run hosts (in_phase hosts await_unstable si) (turns n)
        ≡ ok (in_phase hosts await_unstable si)
  run-turns zero si h = unfold run in refl
  run-turns (suc n) si h =
      run-step hosts _ (in_phase hosts await_unstable si) turn (turns n) (wait_on hosts si h)
      ∙ run-turns n si h

  pub stat-step :
      (p : Phase) (si : StatIngester W) (str : Bytes)
      → report str ≢ broken
      → step hosts (in_phase hosts p si) (stat str)
        ≡ ok (in_phase hosts p (apply_report si (report str)))
  unfolding step
  stat-step p si str h = ap (on_ingester hosts p) (handle_stat-report si str h)

  -- An instability that is reported between the last test of a wait and the assignment is lost: the
  -- wait ends with the flag cleared although the node of that stat still has changes to disseminate,
  -- and a next wait never leaves its first loop, however often it looks, while no further stat comes.
  pub run_lost_instability :
      (si : StatIngester W) (str name : Bytes) (n : ℕ)
      → is_cluster_stable si hosts ≡ true
      → report str ≡ node name false
      → (si' : StatIngester W) × (run hosts
            (in_phase hosts await_stable si)
            (turn ∷ stat str ∷ turn ∷ [])
          ≡ ok (in_phase hosts done si'))
        × (lookup name si'.empty_nodes ≡ some false)
        × (run hosts (in_phase hosts await_unstable si') (turns n)
            ≡ ok (in_phase hosts await_unstable si'))
  run_lost_instability si str name n s r =
      let si1 = apply_report si (node name false) in
      let known : report str ≢ broken = rw r (cc) in
      (
        record si1 { was_unstable = false },
        run-step hosts _ (in_phase hosts clearing si) turn _ (clear hosts si s)
            ∙ run-step hosts _ (in_phase hosts clearing si1) (stat str) _
                (rw r at (stat-step clearing si str known))
            ∙ run-step hosts _ (cleared si1) turn [] (finish_step si1)
            ∙ unfold run in refl,
        unfold apply_report in
            (lookup-insert name name false si.empty_nodes ∙ rw (bytes_eq_refl name)),
        run-turns n (record si1 { was_unstable = false }) refl,
      )
