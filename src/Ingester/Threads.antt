-- ===== src/Ingester/Threads.antt =====
-- The goroutines of stat_ingester.go: one in `IngestStats`, which handles a stat under the lock and then
-- writes it without, one in `WaitForStable`, and any that call `InsertLabel`. Only single steps are
-- atomic, so a label or a step of the wait can come between the handling of a stat and its write.
pub mod Flag
pub mod History
pub mod Serial
pub mod Returned
pub mod Overtaken
pub mod Measured
pub mod Fed
pub mod Served
use ringpop_common.Common.{
  ◌+◌, ◌-◌, ◌≡◌, ap, true, false, Option, none, some, List, [], ◌∷◌, ◌++◌, Bytes,
}
use ringpop_common.Outcome.{ok}
use ringpop_common.Ingester.{
  Writer, StatIngester, new_stat_ingester, handle_stat, insert_label, label_line,
}
use ringpop_common.Ingester.Wait.{Phase, await_unstable, await_stable, clearing, done, wait_step}

-- The state that the goroutines share, the stat that is handled and not yet written, and where the wait
-- stands, for which hosts: `done` where no goroutine is in `WaitForStable`.
pub record System (W : Type 0) : Type 0 where
  pub ingester : StatIngester W
  pub in_flight : Option Bytes
  pub phase : Phase
  pub hosts : List Bytes

pub data Event : Type 0 where
  took wrote : Bytes → Event
  labelled : Bytes → Bytes → Event
  began : List Bytes → Event
  looked cleared : Event

-- the phases in which the wait tests and may sleep
abbrev pub IsLooking : Phase → Type 0
IsLooking await_unstable = Unit
IsLooking await_stable = Unit
IsLooking _ = ⊥

-- A failure of the handling or of the write ends the process: there is no step for it.
pub data Step {W : Type 0} (wr : Writer W) (s : System W) : Event → System W → Type 0 where
  take_stat :
      (str : Bytes) {si : StatIngester W}
      → s.in_flight ≡ none
      → handle_stat s.ingester str ≡ ok si
      → Step wr s (took str) (record s { ingester = si; in_flight = some str })
  write_stat :
      (str : Bytes) {w : W}
      → s.in_flight ≡ some str
      → wr.write s.ingester.writer (str ++ b'\n' ∷ []) ≡ (w, true)
      → Step wr s
          (wrote str)
          (record s { ingester = record s.ingester { writer = w }; in_flight = none })
  insert :
      (l cmd : Bytes)
      → Step wr s (labelled l cmd) (record s { ingester = insert_label wr s.ingester l cmd })
  begin :
      (hosts : List Bytes)
      → s.phase ≡ done
      → Step wr s (began hosts) (record s { phase = await_unstable; hosts = hosts })
  look :
      IsLooking s.phase
      → Step wr s looked (record s { phase = (wait_step s.hosts s.phase s.ingester).phase })
  clear :
      s.phase ≡ clearing
      → Step wr s cleared
          (record s { ingester = record s.ingester { was_unstable = false }; phase = done })

pub data Run {W : Type 0} (wr : Writer W) : System W → List Event → System W → Type 0 where
  here : {s : System W} → Run wr s [] s
  next :
      {s t u : System W} {e : Event} {es : List Event}
      → Step wr s e t
      → Run wr t es u
      → Run wr s (e ∷ es) u

pub Run-append :
    {W : Type 0} (wr : Writer W) {s t u : System W} {es fs : List Event}
    → Run wr s es t
    → Run wr t fs u
    → Run wr s (es ++ fs) u
Run-append wr here q = q
Run-append wr (next st r) q = next st (Run-append wr r q)

abbrev pub start : {W : Type 0} → W → System W
start w = record { ingester = new_stat_ingester w; in_flight = none; phase = done; hosts = [] }

-- the stats that were handled, the stats that were written, and the lines that were written
abbrev pub taken : List Event → List Bytes
taken [] = []
taken (took str ∷ es) = str ∷ taken es
taken (_ ∷ es) = taken es

abbrev pub stored : List Event → List Bytes
stored [] = []
stored (wrote str ∷ es) = str ∷ stored es
stored (_ ∷ es) = stored es

abbrev pub lines_of : List Event → List Bytes
lines_of [] = []
lines_of (wrote str ∷ es) = str ∷ lines_of es
lines_of (labelled l cmd ∷ es) = label_line l cmd ∷ lines_of es
lines_of (_ ∷ es) = lines_of es

abbrev pub queue : Option Bytes → List Bytes
queue none = []
queue (some str) = str ∷ []

pub takes_all :
    {W : Type 0} (wr : Writer W) (v : W) (b : Bytes)
    → (wr.write v b).1 ≡ true
    → wr.write v b ≡ ((wr.write v b).0, true)
takes_all wr v b h = ap (λ ok. ((wr.write v b).0, ok)) h
