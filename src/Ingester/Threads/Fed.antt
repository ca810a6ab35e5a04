-- ===== src/Ingester/Threads/Fed.antt =====
-- `IngestStats` of stat_ingester.go as one of the goroutines: the stats that it handles are the lines of
-- its scanner, whatever the others do in between.
use ringpop_common.Common.{
  ◌≡◌, refl, sym, ap, ◌∙◌, subst, ◌≢◌, true, false, Option, none, some, List, [], ◌∷◌, ◌++◌, Bytes,
  All,
}
use ringpop_common.Outcome.{Failure}
use ringpop_common.Scanner.{Scanner, Yields}
use ringpop_common.Ingester.{Writer}
use ringpop_common.Ingester.{Writer}
use ringpop_common.Ingester.Reports.{report, broken, apply_report, handle_stat-report}
use ringpop_common.Ingester.Threads.{
  System, Event, took, wrote, labelled, began, looked, cleared, Step, take_stat, write_stat, Run,
  here, next, taken, takes_all,
}

-- the events that are not of the loop over the scanner
abbrev pub IsBeside : Event → Type 0
IsBeside (took str) = ⊥
IsBeside _ = Unit

-- the events of the loop over the scanner
abbrev pub IsOwn : Event → Type 0
IsOwn (took str) = Unit
IsOwn (wrote str) = Unit
IsOwn _ = ⊥

-- A run in which each stat that is handled is the next line of the scanner.
pub data Fed {W S : Type 0} (wr : Writer W) (sc : Scanner S)
    : System W → S → List Event → System W → S → Type 0 where
  at_rest : {s : System W} {c : S} → Fed wr sc s c [] s c
  feed :
      {s t u : System W} {c d last : S} {es : List Event}
      → sc.scan c ≡ (true, d)
      → Step wr s (took (sc.text d)) t
      → Fed wr sc t d es u last
      → Fed wr sc s c (took (sc.text d) ∷ es) u last
  beside :
      {s t u : System W} {c last : S} {e : Event} {es : List Event}
      → IsBeside e
      → Step wr s e t
      → Fed wr sc t c es u last
      → Fed wr sc s c (e ∷ es) u last

taken-IsBeside : (e : Event) (es : List Event) → IsBeside e → taken (e ∷ es) ≡ taken es
taken-IsBeside (took str) es h = absurd h
taken-IsBeside (wrote str) es h = refl
taken-IsBeside (labelled l cmd) es h = refl
taken-IsBeside (began hosts) es h = refl
taken-IsBeside looked es h = refl
taken-IsBeside cleared es h = refl

module _ {W S : Type 0} (wr : Writer W) (sc : Scanner S) where
  pub Fed-Run : {s u : System W} {c d : S} {es : List Event} → Fed wr sc s c es u d → Run wr s es u
  Fed-Run at_rest = here
  Fed-Run (feed h st r) = next st (Fed-Run r)
  Fed-Run (beside b st r) = next st (Fed-Run r)

  pub Fed-append :
      {s t u : System W} {c d last : S} {es fs : List Event}
      → Fed wr sc s c es t d
      → Fed wr sc t d fs u last
      → Fed wr sc s c (es ++ fs) u last
  Fed-append at_rest q = q
  Fed-append (feed h st r) q = feed h st (Fed-append r q)
  Fed-append (beside b st r) q = beside b st (Fed-append r q)

  Yields-scan :
      (ls : List Bytes) (e : Option Failure) (c d : S)
      → Yields sc c ls e
      → sc.scan c ≡ (true, d)
      → (rest : List Bytes) × (ls ≡ sc.text d ∷ rest) × Yields sc d rest e
  Yields-scan [] e c d (t, stop, er) h = cc
  Yields-scan (l ∷ ls) e c d (t, step, tx, ne, y) h =
      let same : t ≡ d = cc in
      (ls, ap (λ x. x ∷ ls) (sym tx ∙ ap sc.text same), subst (λ v. Yields sc v ls e) same y)

  -- what is handled, and what the scanner still yields
  pub Fed-taken :
      (ls : List Bytes) (e : Option Failure) {s u : System W} {c d : S} {es : List Event}
      → Yields sc c ls e
      → Fed wr sc s c es u d
      → (rest : List Bytes) × (taken es ++ rest ≡ ls) × Yields sc d rest e
  Fed-taken ls e y at_rest = (ls, refl, y)
  Fed-taken ls e y (feed {c = c} {d = d} h st r) =
      let (behind, first, yd) = Yields-scan ls e c d y h in
      let (rest, all, more) = Fed-taken behind e yd r in
      (rest, ap (◌∷◌ (sc.text d)) all ∙ sym first, more)
  Fed-taken ls e y (beside {e = event} {es = es} b st r) =
      let (rest, all, more) = Fed-taken ls e y r in (rest, rw (taken-IsBeside event es b) all, more)

  pub Yields-stopped :
      (ls : List Bytes) (e : Option Failure) (c : S)
      → Yields sc c ls e
      → (sc.scan c).0 ≡ false
      → ls ≡ []
  Yields-stopped [] e c y h = refl
  Yields-stopped (l ∷ ls) e c (t, step, tx, ne, y) h = cc

  -- `IngestStats` goes on by itself from the state `s` to the end of the scanner.
  pub record Finishes (s : System W) (c : S) : Type 0 where
    pub events : List Event
    pub alone : All IsOwn events
    pub last : System W
    pub end : S
    pub fed : Fed wr sc s c events last end
    pub idle : last.in_flight ≡ none
    pub stopped : (sc.scan end).0 ≡ false

  idle-Finishes :
      (ls : List Bytes) (e : Option Failure) (s : System W) (c : S)
      → ((v : W) (b : Bytes) → (wr.write v b).1 ≡ true)
      → All (λ l. report l ≢ broken) ls
      → Yields sc c ls e
      → s.in_flight ≡ none
      → Finishes s c
  idle-Finishes [] e s c accepts known (t, stop, er) idle = record {
    events = [];
    alone = tt;
    last = s;
    end = c;
    fed = at_rest;
    idle = idle;
    stopped = ap (λ r. r.0) stop;
  }
  idle-Finishes (l ∷ ls) e s c accepts (kl, known) (t, step, tx, ne, y) idle =
      let str = sc.text t in
      let si = apply_report s.ingester (report str) in
      let (v, line) : W × Bytes = (si.writer, str ++ b'\n' ∷ []) in
      let rest =
        idle-Finishes ls e
          (record s { ingester = record si { writer = (wr.write v line).0 }; in_flight = none }) t
          accepts known y refl in
      record {
        events = took str ∷ wrote str ∷ rest.events;
        alone = (tt, (tt, rest.alone));
        last = rest.last;
        end = rest.end;
        fed =
            feed step
              (take_stat str idle
                (handle_stat-report s.ingester str (subst (λ x. report x ≢ broken) (sym tx) kl)))
              (beside tt (write_stat str refl (takes_all wr v line (accepts v line))) rest.fed);
        idle = rest.idle;
        stopped = rest.stopped;
      }

  -- from any state: a stat in flight is written first
  pub Yields-Finishes :
      (flight : Option Bytes) (ls : List Bytes) (e : Option Failure) (s : System W) (c : S)
      → ((v : W) (b : Bytes) → (wr.write v b).1 ≡ true)
      → All (λ l. report l ≢ broken) ls
      → Yields sc c ls e
      → s.in_flight ≡ flight
      → Finishes s c
  Yields-Finishes none ls e s c accepts known y h = idle-Finishes ls e s c accepts known y h
  Yields-Finishes (some str) ls e s c accepts known y h =
      let v = s.ingester.writer in
      let line = str ++ b'\n' ∷ [] in
      let rest =
        idle-Finishes ls e
          (record s {
            ingester = record s.ingester { writer = (wr.write v line).0 };
            in_flight = none;
          })
          c accepts known y refl in
      record {
        events = wrote str ∷ rest.events;
        alone = (tt, rest.alone);
        last = rest.last;
        end = rest.end;
        fed = beside tt (write_stat str h (takes_all wr v line (accepts v line))) rest.fed;
        idle = rest.idle;
        stopped = rest.stopped;
      }
