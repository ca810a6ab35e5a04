-- ===== src/Tests/Wait.antt =====
-- The wait for a stable cluster of one node.
use ringpop_common.Common.{
  ◌≡◌, refl, true, false, some, List, [], ◌∷◌, arith, Bytes, codes, bytes_eq,
}
use ringpop_common.Ingester.Wait.Settled.{IsCalm, Settled, run-Settled}
use ringpop_common.Common.Dict.{lookup}
use ringpop_common.Outcome.{ok}
use ringpop_common.Ingester.{StatIngester, new_stat_ingester, is_cluster_stable}
use ringpop_common.Ingester.Reports.{report}
use ringpop_common.Ingester.Wait.{
  await_unstable, await_stable, done, Event, stat, turn, turns, World, run, in_phase,
}
use ringpop_common.Ingester.Wait.Lost.{run_lost_instability}
use ringpop_common.Tests.Ingest.{busy, idle, hosts, busy-report, idle-report}

-- unstable once, stable now
abbrev settled : StatIngester Bytes
settled = record {
  writer = [];
  empty_nodes = (codes "127_0_0_1_3000", true) ∷ [];
  was_unstable = true;
}

settled_stable : is_cluster_stable settled hosts ≡ true
unfolding is_cluster_stable bytes_eq
settled_stable = refl

abbrev events : List Event
events = stat busy ∷ turn ∷ turn ∷ stat idle ∷ turn ∷ turn ∷ []

abbrev finished : World Bytes
finished = in_phase hosts done (record settled { was_unstable = false })

events_finish :
    run hosts (in_phase hosts await_unstable (new_stat_ingester [])) events ≡ ok finished
unfolding run is_cluster_stable
events_finish = refl

idle-IsCalm : IsCalm (report idle)
idle-IsCalm = rw idle-report (refl)

run-Settled_example :
    (last : World Bytes) × (run hosts
        (in_phase hosts await_unstable settled)
        (turn ∷ stat idle ∷ turn ∷ turn ∷ [])
      ≡ ok last)
    × Settled hosts last
run-Settled_example =
    run-Settled hosts settled (turn ∷ stat idle ∷ turn ∷ turn ∷ []) refl settled_stable
      (tt, (idle-IsCalm, (tt, (tt, tt)))) (omega arith)

run_lost_instability_example :
    (si' : StatIngester Bytes) × (run hosts
        (in_phase hosts await_stable settled)
        (turn ∷ stat busy ∷ turn ∷ [])
      ≡ ok (in_phase hosts done si'))
    × (lookup (codes "127_0_0_1_3000") si'.empty_nodes ≡ some false)
    × (run hosts (in_phase hosts await_unstable si') (turns 4)
        ≡ ok (in_phase hosts await_unstable si'))
run_lost_instability_example =
    run_lost_instability hosts settled busy (codes "127_0_0_1_3000") 4 settled_stable busy-report
