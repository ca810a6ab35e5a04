-- ===== src/Ingester/Threads/Served.antt =====
-- `IngestStats` of stat_ingester.go over a whole scanner, beside the goroutines that wait and insert
-- labels.
use ringpop_common.Common.{
  All_suffix, ◌≡◌, refl, sym, ap, ◌∙◌, subst, ◌≢◌, ◌↔◌, true, false, Option, none, List, ◌++◌,
  append-nil, Bytes, All,
}
use ringpop_common.Outcome.{Failure}
use ringpop_common.Scanner.{Scanner, Yields}
use ringpop_common.Ingester.{Writer, is_cluster_stable}
use ringpop_common.Ingester.Reports.{report, broken}
use ringpop_common.Ingester.Stability.{AllStable, write_lines}
use ringpop_common.Ingester.Threads.{System, Event, start, taken, stored, lines_of, queue}
use ringpop_common.Ingester.Threads.History.{Run-Recorded}
use ringpop_common.Ingester.Threads.Fed.{
  Fed, Fed-Run, Fed-append, Fed-taken, Yields-stopped, Finishes, Yields-Finishes,
}

module _ {W S : Type 0} (wr : Writer W) (sc : Scanner S) where
  -- With the loop at its end, every line of the scanner has been handled.
  taken-all :
      (w : W) (c : S) (ls : List Bytes) (e : Option Failure) {es : List Event} {u : System W}
      {d : S}
      → Yields sc c ls e
      → Fed wr sc (start w) c es u d
      → (sc.scan d).0 ≡ false
      → taken es ≡ ls
  taken-all w c ls e {es} {d = d} y r stopped =
      let (rest, all, more) = Fed-taken wr sc ls e y r in
      sym (append-nil (taken es))
      ∙ ap (λ xs. taken es ++ xs) (sym (Yields-stopped wr sc rest e d more stopped))
      ∙ all

  -- `IngestStats` over a scanner that yields the lines `ls`, beside goroutines that insert labels and
  -- wait, interleaved with it in any way from a new ingester on. When it has returned, that is, when
  -- the scanner has stopped and no stat is still to be written: the stats written are the lines, all and
  -- in order, the writer has one line for each of them and for each label, in the order of the writes,
  -- and the cluster is stable for given hosts exactly if the last dissemination stat of each host's
  -- node among the lines has the count 0.
  pub Fed-stored :
      (w : W) (c : S) (ls : List Bytes) (e : Option Failure) (es : List Event) (u : System W)
      (d : S)
      → Yields sc c ls e
      → Fed wr sc (start w) c es u d
      → u.in_flight ≡ none
      → (sc.scan d).0 ≡ false
      → (stored es ≡ ls)
        × (u.ingester.writer ≡ write_lines wr w (lines_of es))
        × ((hosts : List Bytes) → (is_cluster_stable u.ingester hosts ≡ true) ↔ AllStable ls hosts)
  Fed-stored w c ls e es u d y r idle stopped =
      let record_of = Run-Recorded wr w es u (Fed-Run wr sc r) in
      let all = taken-all w c ls e y r stopped in
      (
        sym (append-nil (stored es))
            ∙ ap (λ f. stored es ++ queue f) (sym idle)
            ∙ sym record_of.in_order
            ∙ all,
        record_of.output,
        λ hosts.
            subst (λ xs. (is_cluster_stable u.ingester hosts ≡ true) ↔ AllStable xs hosts) all
              (record_of.stable hosts),
      )

  -- `IngestStats` over a scanner that yields the lines `ls`, none of which names no node in a
  -- dissemination stat, with a writer that takes every line: whatever goroutines that insert labels and
  -- wait have done in between from a new ingester on, it can go on by its own steps alone to its
  -- return, and then all the lines have been written, in order.
  pub Fed-Finishes :
      (w : W) (c : S) (ls : List Bytes) (e : Option Failure) (es : List Event) (u : System W)
      (d : S)
      → Yields sc c ls e
      → Fed wr sc (start w) c es u d
      → ((v : W) (b : Bytes) → (wr.write v b).1 ≡ true)
      → All (λ l. report l ≢ broken) ls
      → (f : Finishes wr sc u d) × (stored (es ++ f.events) ≡ ls)
  Fed-Finishes w c ls e es u d y r accepts known =
      let (rest, all, more) = Fed-taken wr sc ls e y r in
      let f =
        Yields-Finishes wr sc u.in_flight rest e u d accepts
          (All_suffix (λ l. report l ≢ broken) (taken es) rest
            (subst (All (λ l. report l ≢ broken)) (sym all) known))
          more refl in
      (
        f,
        (Fed-stored w c ls e (es ++ f.events) f.last f.end y (Fed-append wr sc r f.fed) f.idle
            f.stopped).0,
      )
