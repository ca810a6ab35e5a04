-- ===== src/Ingester/Threads/Returned.antt =====
-- What the stats have said when `WaitForStable` of stat_ingester.go returns.
use ringpop_common.Common.{
  ◌≡◌, refl, sym, ap, ◌∙◌, subst, inl, inr, true, false, List, [], ◌∷◌, ◌++◌, map, append_assoc,
  Bool-cases, Bytes, All,
}
use ringpop_common.Ingester.{Writer, StatIngester, is_cluster_stable}
use ringpop_common.Ingester.Reports.{report, any_unstable}
use ringpop_common.Ingester.Stability.{AllStable}
use ringpop_common.Ingester.Wait.{Phase, await_unstable, await_stable, clearing, wait_step}
use ringpop_common.Ingester.Threads.{
  System, Event, began, looked, cleared, Step, take_stat, write_stat, insert, begin, look, clear,
  Run, here, next, Run-append, start, taken,
}
use ringpop_common.Ingester.Threads.Flag.{recent}
use ringpop_common.Ingester.Threads.History.{Run-Recorded}

-- the events of one wait, between its begin and its end
abbrev pub IsInside : Event → Type 0
IsInside (began hosts) = ⊥
IsInside cleared = ⊥
IsInside _ = Unit

-- A run passes through a moment that, with the events behind it, has a property.
record Passes {W : Type 0} (wr : Writer W) (P : System W → List Event → Type 0) (s : System W)
    (es : List Event) : Type 0 where
  before : List Event
  after : List Event
  splits : es ≡ before ++ after
  moment : System W
  reaches : Run wr s before moment
  holds : P moment after

module _ {W : Type 0} (wr : Writer W) where
  Passes-here :
      (P : System W → List Event → Type 0) (s : System W) (es : List Event)
      → P s es
      → Passes wr P s es
  Passes-here P s es h = record {
    before = [];
    after = es;
    splits = refl;
    moment = s;
    reaches = here;
    holds = h;
  }

  Passes-next :
      {P : System W → List Event → Type 0} {s t : System W} {e : Event} {es : List Event}
      → Step wr s e t
      → Passes wr P t es
      → Passes wr P s (e ∷ es)
  Passes-next {e = e} st p = record {
    before = e ∷ p.before;
    after = p.after;
    splits = ap (◌∷◌ e) p.splits;
    moment = p.moment;
    reaches = next st p.reaches;
    holds = p.holds;
  }

  look_again :
      (hosts : List Bytes) (p : Phase) (si : StatIngester W)
      → p ≡ await_stable
      → is_cluster_stable si hosts ≡ false
      → (wait_step hosts p si).phase ≡ await_stable
  unfolding wait_step
  look_again hosts p si h z = rw h (rw z refl)

  look_on :
      (hosts : List Bytes) (p : Phase) (si : StatIngester W)
      → p ≡ await_unstable
      → si.was_unstable ≡ false
      → (wait_step hosts p si).phase ≡ await_unstable
  unfolding wait_step
  look_on hosts p si h z = rw h (rw z refl)

  look_further :
      (hosts : List Bytes) (p : Phase) (si : StatIngester W)
      → p ≡ await_unstable
      → si.was_unstable ≡ true
      → (wait_step hosts p si).phase ≡ await_stable
  unfolding wait_step
  look_further hosts p si h z = rw h (rw z refl)

  abbrev IsStable : List Bytes → System W → List Event → Type 0
  IsStable hosts m after = is_cluster_stable m.ingester hosts ≡ true

  Run-IsStable :
      {s u : System W} {es : List Event}
      → Run wr s es u
      → All IsInside es
      → u.phase ≡ clearing
      → s.phase ≡ await_stable
      → Passes wr (IsStable s.hosts) s es
  Run-IsStable here h d p = cc
  Run-IsStable (next (take_stat str idle t) r) (_, h) d p =
      Passes-next (take_stat str idle t) (Run-IsStable r h d p)
  Run-IsStable (next (write_stat str full w) r) (_, h) d p =
      Passes-next (write_stat str full w) (Run-IsStable r h d p)
  Run-IsStable (next (insert l cmd) r) (_, h) d p =
      Passes-next (insert l cmd) (Run-IsStable r h d p)
  Run-IsStable (next (begin hosts b) r) (started, h) d p = absurd started
  Run-IsStable (next {s} {es = es} (look b) r) (_, h) d p =
      elim (Bool-cases (is_cluster_stable s.ingester s.hosts)) [
        | inl z ↦ Passes-here (IsStable s.hosts) s (looked ∷ es) z
        | inr z ↦
            Passes-next (look b) (Run-IsStable r h d (look_again s.hosts s.phase s.ingester p z))
      ]
  Run-IsStable (next (clear b) r) (closed, h) d p = absurd closed

  -- an instability is on record, and a stable cluster follows
  abbrev IsUnstable : List Bytes → System W → List Event → Type 0
  IsUnstable hosts m after = (m.ingester.was_unstable ≡ true) × Passes wr (IsStable hosts) m after

  Run-IsUnstable :
      {s u : System W} {es : List Event}
      → Run wr s es u
      → All IsInside es
      → u.phase ≡ clearing
      → s.phase ≡ await_unstable
      → Passes wr (IsUnstable s.hosts) s es
  Run-IsUnstable here h d p = cc
  Run-IsUnstable (next (take_stat str idle t) r) (_, h) d p =
      Passes-next (take_stat str idle t) (Run-IsUnstable r h d p)
  Run-IsUnstable (next (write_stat str full w) r) (_, h) d p =
      Passes-next (write_stat str full w) (Run-IsUnstable r h d p)
  Run-IsUnstable (next (insert l cmd) r) (_, h) d p =
      Passes-next (insert l cmd) (Run-IsUnstable r h d p)
  Run-IsUnstable (next (begin hosts b) r) (started, h) d p = absurd started
  Run-IsUnstable (next {s} {es = es} (look b) r) (_, h) d p =
      elim (Bool-cases s.ingester.was_unstable) [
        | inl z ↦ Passes-here (IsUnstable s.hosts) s (looked ∷ es) (
          z,
          Passes-next (look b) (Run-IsStable r h d (look_further s.hosts s.phase s.ingester p z)),
        )
        | inr z ↦
            Passes-next (look b) (Run-IsUnstable r h d (look_on s.hosts s.phase s.ingester p z))
      ]
  Run-IsUnstable (next (clear b) r) (closed, h) d p = absurd closed

  Run-split :
      (es : List Event) {fs : List Event} {s u : System W}
      → Run wr s (es ++ fs) u
      → (t : System W) × Run wr s es t × Run wr t fs u
  Run-split [] {s = s} r = (s, here, r)
  Run-split (e ∷ es) (next st r) = let (t, q, rest) = Run-split es r in (t, next st q, rest)

clear-clearing :
    {W : Type 0} (wr : Writer W) {s u : System W} → Run wr s (cleared ∷ []) u → s.phase ≡ clearing
clear-clearing wr (next (clear d) r) = d

-- What the stats have said when a wait returns that began after the events `es`, with the events `fs` between its
-- begin and its end.
pub record Returned (hosts : List Bytes) (es fs : List Event) : Type 0 where
  pub first : List Event
  pub second : List Event
  pub third : List Event
  pub splits : fs ≡ first ++ (second ++ third)
  pub unstable : any_unstable (map report (recent (es ++ (began hosts ∷ first)))) ≡ true
  pub stable : AllStable (taken (es ++ (began hosts ∷ (first ++ second)))) hosts

Run-began :
    {W : Type 0} (wr : Writer W) (hosts : List Bytes) (w : W) (es fs : List Event) {s u : System W}
    → Run wr (start w) es s
    → Run wr s (began hosts ∷ (fs ++ (cleared ∷ []))) u
    → All IsInside fs
    → Returned hosts es fs
Run-began wr hosts w es fs before (next (begin _ b) r) h =
    let (end, inside, closing) = Run-split wr fs r in
    let sees = Run-IsUnstable wr inside h (clear-clearing wr closing) refl in
    let (flag, later) = sees.holds in
    let reached = Run-append wr before (next (begin hosts b) sees.reaches) in
    let whole = Run-append wr reached later.reaches in
    record {
      first = sees.before;
      second = later.before;
      third = later.after;
      splits = sees.splits ∙ ap (λ gs. sees.before ++ gs) later.splits;
      unstable =
          sym (Run-Recorded wr w (es ++ (began hosts ∷ sees.before)) sees.moment reached).unstable
          ∙ flag;
      stable =
          subst (λ gs. AllStable (taken gs) hosts)
            (append_assoc es (began hosts ∷ sees.before) later.before)
            (((Run-Recorded wr w ((es ++ (began hosts ∷ sees.before)) ++ later.before) later.moment
                  whole).stable
                hosts).0
              later.holds);
    }

-- Goroutines that handle and write stats, insert labels and wait, interleaved in any way, from a new
-- ingester on, with one goroutine at most that handles stats and one that waits. If a call of
-- `WaitForStable` begins after the events `es` and returns after the events `fs` of itself and the
-- others, there was a moment during the call at which some stat handled since the end of the wait
-- before, or since the start if there was none, had a count other than 0, and then, still during the
-- call, at once or later, one at which the last dissemination stat handled of the node of each host
-- that the call waits for had the count 0.
pub Run-Returned :
    {W : Type 0} (wr : Writer W) (hosts : List Bytes) (w : W) (es fs : List Event) (u : System W)
    → Run wr (start w) (es ++ (began hosts ∷ (fs ++ (cleared ∷ [])))) u
    → All IsInside fs
    → Returned hosts es fs
Run-Returned wr hosts w es fs u r h =
    let (s, before, behind) = Run-split wr es r in Run-began wr hosts w es fs before behind h
