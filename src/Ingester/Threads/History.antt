-- ===== src/Ingester/Threads/History.antt =====
-- What holds of stat_ingester.go after any interleaving of its goroutines.
use ringpop_common.Common.{
  ◌≡◌, refl, sym, ap, ◌∙◌, ◌≢◌, ◌↔◌, inl, inr, Bool, true, List, [], ◌∷◌, ◌++◌, map, append-nil,
  arith, Bool-cases, Bytes,
}
use ringpop_common.Common.Dict.{lookup}
use ringpop_common.Outcome.{ok}
use ringpop_common.Ingester.{Writer, StatIngester, handle_stat, is_cluster_stable, insert_label}
use ringpop_common.Ingester.Reports.{
  Report, silent, node, broken, report, last_report, any_unstable, apply_report, handle_stat-report,
  handle_stat-broken,
}
use ringpop_common.Ingester.Stability.{
  lookup-apply_report, was_unstable-apply_report, write_lines, writer-apply_report, AllStable,
  known-AllStable,
}
use ringpop_common.Ingester.Wait.{await_unstable, await_stable, clearing, done, Phase, wait_step}
use ringpop_common.Ingester.Threads.{
  System, Event, Step, take_stat, write_stat, insert, begin, look, clear, Run, here, next, start,
  taken, stored, lines_of, queue,
}
use ringpop_common.Ingester.Threads.Flag.{flag_after, recent, flag_after-new}

-- the phases behind the first loop of `WaitForStable`
abbrev pub IsPast : Phase → Type 0
IsPast await_stable = Unit
IsPast clearing = Unit
IsPast _ = ⊥

abbrev OnRecord : {W : Type 0} → System W → Type 0
OnRecord s = IsPast s.phase → s.ingester.was_unstable ≡ true

module _ {W : Type 0} (wr : Writer W) where
  pub handle_stat-known :
      (si : StatIngester W) (str : Bytes) {si' : StatIngester W}
      → handle_stat si str ≡ ok si'
      → report str ≢ broken
  handle_stat-known si str h b = let e = handle_stat-broken si str b in cc

  pub handle_stat-ok :
      (si : StatIngester W) (str : Bytes) {si' : StatIngester W}
      → handle_stat si str ≡ ok si'
      → si' ≡ apply_report si (report str)
  handle_stat-ok si str h = let e = handle_stat-report si str (handle_stat-known si str h) in cc

  Run-queue :
      {s u : System W} {es : List Event}
      → Run wr s es u
      → queue s.in_flight ++ taken es ≡ stored es ++ queue u.in_flight
  Run-queue here = append-nil _
  Run-queue (next (take_stat str idle h) r) = rw idle (Run-queue r)
  Run-queue (next (write_stat str full h) r) = rw full (ap (◌∷◌ str) (Run-queue r))
  Run-queue (next (insert l cmd) r) = Run-queue r
  Run-queue (next (begin hosts d) r) = Run-queue r
  Run-queue (next (look d) r) = Run-queue r
  Run-queue (next (clear d) r) = Run-queue r

  pub Run-writer :
      {s u : System W} {es : List Event}
      → Run wr s es u
      → u.ingester.writer ≡ write_lines wr s.ingester.writer (lines_of es)
  unfolding insert_label write_lines
  Run-writer here = refl
  Run-writer (next {s} {es = es} (take_stat str idle h) r) =
      Run-writer r
      ∙ ap (λ si. write_lines wr si.writer (lines_of es)) (handle_stat-ok s.ingester str h)
      ∙ ap (λ v. write_lines wr v (lines_of es)) (writer-apply_report wr s.ingester (report str))
  Run-writer (next {es = es} (write_stat str full h) r) =
      Run-writer r ∙ ap (λ (p : W × Bool). write_lines wr p.0 (lines_of es)) (sym h)
  Run-writer (next (insert l cmd) r) = Run-writer r
  Run-writer (next (begin hosts d) r) = Run-writer r
  Run-writer (next (look d) r) = Run-writer r
  Run-writer (next (clear d) r) = Run-writer r

  Run-lookup :
      (name : Bytes) {s u : System W} {es : List Event}
      → Run wr s es u
      → lookup name u.ingester.empty_nodes
        ≡ last_report name (lookup name s.ingester.empty_nodes) (map report (taken es))
  unfolding insert_label last_report
  Run-lookup name here = refl
  Run-lookup name (next {s} {es = es} (take_stat str idle h) r) =
      Run-lookup name r
      ∙ ap (λ si. last_report name (lookup name si.empty_nodes) (map report (taken es)))
          (handle_stat-ok s.ingester str h)
      ∙ sym (lookup-apply_report wr name s.ingester (report str) (map report (taken es)))
  Run-lookup name (next (write_stat str full h) r) = Run-lookup name r
  Run-lookup name (next (insert l cmd) r) = Run-lookup name r
  Run-lookup name (next (begin hosts d) r) = Run-lookup name r
  Run-lookup name (next (look d) r) = Run-lookup name r
  Run-lookup name (next (clear d) r) = Run-lookup name r

  Run-flag :
      {s u : System W} {es : List Event}
      → Run wr s es u
      → u.ingester.was_unstable ≡ flag_after s.ingester.was_unstable es
  unfolding flag_after insert_label any_unstable
  Run-flag here = refl
  Run-flag (next {s} {es = es} (take_stat str idle h) r) =
      Run-flag r
      ∙ ap (λ si. flag_after si.was_unstable es) (handle_stat-ok s.ingester str h)
      ∙ ap (λ flag. flag_after flag es) (was_unstable-apply_report wr s.ingester (report str) [])
  Run-flag (next (write_stat str full h) r) = Run-flag r
  Run-flag (next (insert l cmd) r) = Run-flag r
  Run-flag (next (begin hosts d) r) = Run-flag r
  Run-flag (next (look d) r) = Run-flag r
  Run-flag (next (clear d) r) = Run-flag r

  wait_step-OnRecord :
      (hosts : List Bytes) (p : Phase) (si : StatIngester W)
      → (IsPast p → si.was_unstable ≡ true)
      → IsPast (wait_step hosts p si).phase
      → si.was_unstable ≡ true
  unfolding wait_step
  wait_step-OnRecord hosts await_unstable si o = elim (Bool-cases si.was_unstable) [
    | inl z ↦ λ b. z
    | inr z ↦ rw z (λ b. absurd b)
  ]
  wait_step-OnRecord hosts await_stable si o = λ b. o tt
  wait_step-OnRecord hosts clearing si o = λ b. absurd b
  wait_step-OnRecord hosts done si o = λ b. absurd b

  apply_report-keeps :
      (si : StatIngester W) (r : Report)
      → si.was_unstable ≡ true
      → (apply_report si r).was_unstable ≡ true
  unfolding apply_report
  apply_report-keeps si silent h = h
  apply_report-keeps si broken h = h
  apply_report-keeps si (node name empty) h = rw h (ground arith)

  Step-OnRecord : {s t : System W} {e : Event} → Step wr s e t → OnRecord s → OnRecord t
  Step-OnRecord {s} (take_stat str idle h) o = λ b.
      ap (λ si. si.was_unstable) (handle_stat-ok s.ingester str h)
      ∙ apply_report-keeps s.ingester (report str) (o b)
  Step-OnRecord (write_stat str full h) o = o
  Step-OnRecord (insert l cmd) o = unfold insert_label in o
  Step-OnRecord (begin hosts d) o = λ b. absurd b
  Step-OnRecord {s} (look d) o = wait_step-OnRecord s.hosts s.phase s.ingester o
  Step-OnRecord (clear d) o = λ b. absurd b

  Run-OnRecord : {s u : System W} {es : List Event} → Run wr s es u → OnRecord s → OnRecord u
  Run-OnRecord here o = o
  Run-OnRecord (next st r) o = Run-OnRecord r (Step-OnRecord st o)

-- What holds in a state that has been reached from the start by the events `es`.
pub record Recorded {W : Type 0} (wr : Writer W) (w : W) (es : List Event) (u : System W)
    : Type 0 where
  pub in_order : taken es ≡ stored es ++ queue u.in_flight
  pub output : u.ingester.writer ≡ write_lines wr w (lines_of es)
  pub stable :
      (hosts : List Bytes)
      → (is_cluster_stable u.ingester hosts ≡ true) ↔ AllStable (taken es) hosts
  pub unstable : u.ingester.was_unstable ≡ any_unstable (map report (recent es))
  pub waited : IsPast u.phase → any_unstable (map report (recent es)) ≡ true

-- Goroutines that handle and write stats, insert labels and wait, interleaved in any way, from a new
-- ingester on, with one goroutine at most that handles stats and one that waits. The stats that were
-- handled are those that were written, in the same order, and then the one that is still to be
-- written, if there is one; the writer has one line for each stat written and each label, in the
-- order of the writes. The cluster is stable for given hosts exactly if the last dissemination stat
-- that was handled of each host's node has the count 0. `wasUnstable` is set exactly if some stat
-- that was handled since the last end of a wait has another count, and it is set whenever a wait is
-- behind its first loop.
pub Run-Recorded :
    {W : Type 0} (wr : Writer W) (w : W) (es : List Event) (u : System W)
    → Run wr (start w) es u
    → Recorded wr w es u
Run-Recorded wr w es u r =
    let flag : u.ingester.was_unstable ≡ any_unstable (map report (recent es)) =
      Run-flag wr r ∙ flag_after-new es in
    record {
      in_order = Run-queue wr r;
      output = Run-writer wr r;
      stable =
          known-AllStable (taken es) u.ingester (λ name. unfold lookup in Run-lookup wr name r);
      unstable = flag;
      waited = λ b. sym flag ∙ Run-OnRecord wr r (λ c. absurd c) b;
    }
