-- ===== src/Ingester/Wait/Settled.antt =====
-- When `WaitForStable` of stat_ingester.go comes to its end.
use ringpop_common.Common.{
  ℕ, suc, ◌≤◌, ◌≡◌, refl, ◌∙◌, ◌≢◌, inl, inr, Bool, true, false, List, [], ◌∷◌, arith, Bool-cases,
  Bytes, bytes_eq, All,
}
use ringpop_common.Common.Dict.{lookup, insert, lookup-insert}
use ringpop_common.Outcome.{ok}
use ringpop_common.Ingester.Reports.{Report, silent, node, broken, report, apply_report}
use ringpop_common.Ingester.{StatIngester, is_empty, stat_name, stable_hosts, is_cluster_stable}
use ringpop_common.Ingester.Wait.{
  Phase, await_unstable, await_stable, clearing, done, Event, stat, turn, World, wait_step, step,
  step-turn, run, in_phase, run-step, go_on, clear,
}
use ringpop_common.Ingester.Wait.Lost.{stat-step, finish_step}

-- A stat that says nothing about dissemination, or that a node has nothing left.
abbrev pub IsCalm : Report → Type 0
IsCalm silent = Unit
IsCalm (node name empty) = empty ≡ true
IsCalm broken = ⊥

abbrev pub IsCalmEvent : Event → Type 0
IsCalmEvent (stat str) = IsCalm (report str)
IsCalmEvent turn = Unit

-- the steps of the waiter among the events
abbrev pub turns_in : List Event → ℕ
turns_in [] = 0
turns_in (stat str ∷ es) = turns_in es
turns_in (turn ∷ es) = suc (turns_in es)

-- the steps that are left
abbrev to_go : Phase → ℕ
to_go await_unstable = 3
to_go await_stable = 2
to_go clearing = 1
to_go done = 0

-- what the flag has to be
abbrev IsFlag : Phase → Bool → Type 0
IsFlag await_unstable flag = flag ≡ true
IsFlag done flag = flag ≡ false
IsFlag _ flag = Unit

is_empty-insert :
    (name k : Bytes) (m : List (Bytes × Bool))
    → is_empty (lookup k m) ≡ true
    → is_empty (lookup k (insert name true m)) ≡ true
is_empty-insert name k m h =
    rw (lookup-insert name k true m)
      (elim (Bool-cases (bytes_eq name k)) [ inl e ↦ rw e | inr e ↦ rw e h ])

stable_hosts-insert :
    (name : Bytes) (m : List (Bytes × Bool)) (hosts : List Bytes)
    → stable_hosts m hosts ≡ true
    → stable_hosts (insert name true m) hosts ≡ true
unfolding stable_hosts
stable_hosts-insert name m [] h = refl
stable_hosts-insert name m (x ∷ hosts) h = elim (Bool-cases (is_empty (lookup (stat_name x) m))) [
  | inl e ↦
      rw (is_empty-insert name (stat_name x) m e) (stable_hosts-insert name m hosts (rw e at h))
  | inr e ↦ cc (rw e at h)
]

calm-stable :
    {W : Type 0} (hosts : List Bytes) (si : StatIngester W) (r : Report)
    → IsCalm r
    → is_cluster_stable si hosts ≡ true
    → is_cluster_stable (apply_report si r) hosts ≡ true
unfolding is_cluster_stable apply_report
calm-stable hosts si silent c h = h
calm-stable hosts si (node name true) c h = stable_hosts-insert name si.empty_nodes hosts h
calm-stable hosts si (node name false) c h = cc
calm-stable hosts si broken c h = absurd c

calm-IsFlag :
    {W : Type 0} (p : Phase) (si : StatIngester W) (r : Report)
    → IsCalm r
    → IsFlag p si.was_unstable
    → IsFlag p (apply_report si r).was_unstable
unfolding apply_report
calm-IsFlag p si silent c h = h
calm-IsFlag p si (node name true) c h = h
calm-IsFlag p si (node name false) c h = cc
calm-IsFlag p si broken c h = absurd c

calm-ne-broken : (r : Report) → IsCalm r → r ≢ broken
calm-ne-broken silent c e = cc
calm-ne-broken (node name empty) c e = cc
calm-ne-broken broken c e = c

module _ {W : Type 0} (hosts : List Bytes) where
  -- The wait is over, with the flag cleared and the cluster stable.
  pub record Settled (last : World W) : Type 0 where
    pub phase : last.phase ≡ done
    pub flag : last.ingester.was_unstable ≡ false
    pub stable : is_cluster_stable last.ingester hosts ≡ true

  take_turn :
      (w v : World W) (es : List Event)
      → step hosts w turn ≡ ok v
      → ((last : World W) × (run hosts v es ≡ ok last) × Settled last)
      → (last : World W) × (run hosts w (turn ∷ es) ≡ ok last) × Settled last
  take_turn w v es h (last, ran, ends) = (last, run-step hosts w v turn es h ∙ ran, ends)

  settle :
      (es : List Event) (p : Phase) (si : StatIngester W)
      → IsFlag p si.was_unstable
      → is_cluster_stable si hosts ≡ true
      → All IsCalmEvent es
      → to_go p ≤ turns_in es
      → (last : World W) × (run hosts (in_phase hosts p si) es ≡ ok last) × Settled last
  settle [] await_unstable si f s c n = absurd (omega arith)
  settle [] await_stable si f s c n = absurd (omega arith)
  settle [] clearing si f s c n = absurd (omega arith)
  settle [] done si f s c n =
      (in_phase hosts done si, unfold run in refl, record { phase = refl; flag = f; stable = s })
  settle (stat str ∷ es) p si f s (c, cs) n =
      let r = report str in
      let (last, ran, ends) =
        settle es p (apply_report si r) (calm-IsFlag p si r c f) (calm-stable hosts si r c s) cs
          n in
      (
        last,
        run-step hosts _ (in_phase hosts p (apply_report si r)) (stat str) es
              (stat-step hosts p si str (calm-ne-broken r c))
            ∙ ran,
        ends,
      )
  settle (turn ∷ es) await_unstable si f s (c, cs) n =
      take_turn _ (in_phase hosts await_stable si) es (go_on hosts si f)
        (settle es await_stable si tt s cs (omega arith))
  settle (turn ∷ es) await_stable si f s (c, cs) n =
      take_turn _ (in_phase hosts clearing si) es (clear hosts si s)
        (settle es clearing si tt s cs (omega arith))
  settle (turn ∷ es) clearing si f s (c, cs) n =
      let cleared = record si { was_unstable = false } in
      take_turn _ (in_phase hosts done cleared) es (finish_step hosts si)
        (settle es done cleared refl (unfold is_cluster_stable in s) cs (omega arith))
  settle (turn ∷ es) done si f s (c, cs) n =
      take_turn _ (in_phase hosts done si) es (unfold wait_step in step-turn hosts done si)
        (settle es done si f s cs (omega arith))

-- A wait ends: where an instability is on record and the cluster is stable, and from then on no stat
-- says that a node has changes left or names no node, the run of `WaitForStable` and of the stats,
-- interleaved in any way, ends as soon as the waiter has taken three steps, with the flag cleared and
-- the cluster stable.
pub run-Settled :
    {W : Type 0} (hosts : List Bytes) (si : StatIngester W) (es : List Event)
    → si.was_unstable ≡ true
    → is_cluster_stable si hosts ≡ true
    → All IsCalmEvent es
    → 3 ≤ turns_in es
    → (last : World W) × (run hosts (in_phase hosts await_unstable si) es ≡ ok last)
      × Settled hosts last
run-Settled hosts si es u s c n = settle hosts es await_unstable si u s c n
