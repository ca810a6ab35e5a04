-- ===== src/Ingester/Wait.antt =====
-- `WaitForStable` of stat_ingester.go beside the goroutine that ingests stats. The waiter reads
-- `wasUnstable` and calls `IsClusterStable` again and again, sleeping in between, and then clears
-- `wasUnstable`; a stat can be handled between any two of its steps. A run is a sequence of events,
-- each a stat that is handled or a step of the waiter; a sleep is the absence of steps.
pub mod Seen
pub mod Lost
pub mod Settled
use ringpop_common.Common.{
  ℕ, zero, suc, ◌-◌, ◌≡◌, refl, true, false, List, [], ◌∷◌, arith, if◌then◌else◌, Bytes,
}
use ringpop_common.Outcome.{Outcome, ok, err, panic, exit, timeout, ◌>>=◌, bind-eq-ok}
use ringpop_common.Ingester.{StatIngester, handle_stat, is_cluster_stable}

pub data Phase : Type 0 where
  await_unstable await_stable clearing done : Phase

pub data Event : Type 0 where
  stat : Bytes → Event
  turn : Event

-- only steps of the waiter
abbrev pub turns : ℕ → List Event
turns zero = []
turns (suc n) = turn ∷ turns n

pub record World (W : Type 0) : Type 0 where
  pub ingester : StatIngester W
  pub phase : Phase

module _ {W : Type 0} (hosts : List Bytes) where
  -- one step of `WaitForStable`: the test of the first loop, the test of the second, the assignment
  unfoldable pub wait_step : Phase → StatIngester W → World W
  wait_step await_unstable si =
      if si.was_unstable
      then record { ingester = si; phase = await_stable }
      else record { ingester = si; phase = await_unstable }
  wait_step await_stable si =
      if is_cluster_stable si hosts
      then record { ingester = si; phase = clearing }
      else record { ingester = si; phase = await_stable }
  wait_step clearing si = record { ingester = record si { was_unstable = false }; phase = done }
  wait_step done si = record { ingester = si; phase = done }

  on_ingester : Phase → Outcome (StatIngester W) → Outcome (World W)
  on_ingester p (ok si) = ok (record { ingester = si; phase = p })
  on_ingester p (err e) = err e
  on_ingester p (panic e) = panic e
  on_ingester p (exit e) = exit e
  on_ingester p timeout = timeout

  unfoldable pub step : World W → Event → Outcome (World W)
  unfolding wait_step on_ingester handle_stat
  step w (stat str) = on_ingester w.phase (handle_stat w.ingester str)
  step w turn = ok (wait_step w.phase w.ingester)

  unfoldable pub run : World W → List Event → Outcome (World W)
  unfolding step
  run w [] = ok w
  run w (e ∷ es) = step w e >>= λ v. run v es

  abbrev pub in_phase : Phase → StatIngester W → World W
  in_phase p si = record { ingester = si; phase = p }

  run-step :
      (w v : World W) (e : Event) (es : List Event) → step w e ≡ ok v → run w (e ∷ es) ≡ run v es
  unfolding run
  run-step w v e es h = rw h

  step-turn : (p : Phase) (si : StatIngester W) → step (in_phase p si) turn ≡ ok (wait_step p si)
  unfolding step
  step-turn p si = refl

  step-stat :
      (p : Phase) (si : StatIngester W) (str : Bytes) {v : World W}
      → step (in_phase p si) (stat str) ≡ ok v
      → (si' : StatIngester W) × (v ≡ in_phase p si')
  unfolding step
  step-stat p si str {v} h = kept (handle_stat si str) h
    where
      kept :
          (m : Outcome (StatIngester W))
          → on_ingester p m ≡ ok v
          → (si' : StatIngester W) × (v ≡ in_phase p si')
      kept (ok si') e = (si', ground arith)
      kept (err f) e = cc
      kept (panic f) e = cc
      kept (exit f) e = cc
      kept timeout e = cc

  run-nil : (w last : World W) → run w [] ≡ ok last → w ≡ last
  unfolding run
  run-nil w last h = ground arith

  run-cons :
      (w last : World W) (e : Event) (es : List Event)
      → run w (e ∷ es) ≡ ok last
      → (v : World W) × (step w e ≡ ok v) × (run v es ≡ ok last)
  unfolding run
  run-cons w last e es h = bind-eq-ok (step w e) (λ v. run v es) h

  -- A test that fails leaves the waiter where it is.
  wait_again :
      (si : StatIngester W)
      → is_cluster_stable si hosts ≡ false
      → step (in_phase await_stable si) turn ≡ ok (in_phase await_stable si)
  unfolding step wait_step
  wait_again si h = rw h

  wait_on :
      (si : StatIngester W)
      → si.was_unstable ≡ false
      → step (in_phase await_unstable si) turn ≡ ok (in_phase await_unstable si)
  unfolding step wait_step
  wait_on si h = rw h

  go_on :
      (si : StatIngester W)
      → si.was_unstable ≡ true
      → step (in_phase await_unstable si) turn ≡ ok (in_phase await_stable si)
  unfolding step wait_step
  go_on si h = rw h

  clear :
      (si : StatIngester W)
      → is_cluster_stable si hosts ≡ true
      → step (in_phase await_stable si) turn ≡ ok (in_phase clearing si)
  unfolding step wait_step
  clear si h = rw h
