-- ===== src/Ingester/Session/Measured.antt =====
-- A whole scenario: stat_ingester.go writes the stats file with its labels, and measurement.go measures
-- the file between two of them.
use ringpop_common.Common.{
  append-nil, ℕ, ◌<◌, ◌≡◌, refl, ap, ◌∙◌, subst, ◌≢◌, Bool, true, false, Option, none, List, [],
  ◌∷◌, ◌++◌, map, Bytes, bytes_eq, length, All,
}
use ringpop_common.Outcome.{ok}
use ringpop_common.Float.{Float64}
use ringpop_common.Command.{Measurement}
use ringpop_common.Scanner.Lines.{line_scanner, open_lines, open_lines-Yields}
use ringpop_common.Scanner.Section.{script_start_label, script_end_label, is_label}
use ringpop_common.Measurement.{measure}
use ringpop_common.Measurement.Window.{measured, quantity_of, measure-measured}
use ringpop_common.Ingester.{StatIngester, new_stat_ingester, label_line}
use ringpop_common.Ingester.Labels.{
  Without, labelled, is_label-label_line, until_label-Without, until_error-Without,
  from_label-labelled,
}
use ringpop_common.Ingester.Reports.{report, broken}
use ringpop_common.Ingester.Session.{
  Action, label, action_line, stats_of, perform, perform-Ingested,
}
use ringpop_common.Ingester.Session.File.{IsLine, file, file_lines, file_lines-write_lines}

-- The actions around two labels.
abbrev pub scripted : List Action → Action → List Action → Action → List Action → List Action
scripted before first between last after = before ++ (first ∷ (between ++ (last ∷ after)))

map-append {ℓ κ} :
    {A : Type ℓ} {B : Type κ} (f : A → B) (xs ys : List A) → map f (xs ++ ys) ≡ map f xs ++ map f ys
map-append f [] ys = refl
map-append f (x ∷ xs) ys = ap (◌∷◌ (f x)) (map-append f xs ys)

map-scripted :
    (before between after : List Action) (a cmd b cmd2 : Bytes)
    → map action_line (scripted before (label a cmd) between (label b cmd2) after)
      ≡ labelled
          (map action_line before)
          (label_line a cmd)
          (map action_line between)
          (label_line b cmd2)
          (map action_line after)
unfolding action_line
map-scripted before between after a cmd b cmd2 =
    map-append action_line before (label a cmd ∷ (between ++ (label b cmd2 ∷ after)))
    ∙ ap (λ ls. map action_line before ++ (label_line a cmd ∷ ls))
        (map-append action_line between (label b cmd2 ∷ after))

pub is_label_own : (a cmd : Bytes) → is_label a (label_line a cmd) ≡ true
is_label_own a cmd =
    subst (λ s. is_label a (label_line s cmd) ≡ true) (append-nil a) (is_label-label_line a [] cmd)

-- A scenario that a measurement can be made of: neither of its labels is ".."; no line before its first
-- label bears that label, and none between the labels bears the second; no dissemination stat names no
-- node; and each line is one of a file.
pub record IsScript {F : Type 0} (m : Measurement F) (before between after : List Action)
    (cmd cmd2 : Bytes) : Type 0 where
  pub named_start : bytes_eq m.start script_start_label ≡ false
  pub named_end : bytes_eq m.end script_end_label ≡ false
  pub without_start : Without m.start (map action_line before)
  pub without_end : Without m.end (map action_line between)
  pub known :
      All
        (λ str. report str ≢ broken)
        (stats_of (scripted before (label m.start cmd) between (label m.end cmd2) after))
  pub lines :
      All IsLine
        (map action_line (scripted before (label m.start cmd) between (label m.end cmd2) after))

module _ {F : Type 0} (fl : Float64 F) (match_string : Bytes → Bytes → Option Bool) where
  pub measured-labelled :
      (m : Measurement F) (before between after : List Bytes) (first last : Bytes)
      → bytes_eq m.start script_start_label ≡ false
      → bytes_eq m.end script_end_label ≡ false
      → Without m.start before
      → Without m.end between
      → is_label m.start first ≡ true
      → is_label m.end last ≡ true
      → measured fl match_string m none (labelled before first between last after)
        ≡ quantity_of fl match_string m none between
  unfolding measured
  measured-labelled m before between after first last na nb ha hb la lb =
      rw (measured, from_label-labelled m.start first before (between ++ (last ∷ after)) na ha la)
        (rw (until_label-Without m.end last between after nb hb lb)
          (rw (until_error-Without m.end last between after none nb hb lb)))

  -- For a scenario in which stats are ingested and labels inserted in any order into a file, where
  -- no line holds an end of a line, each is shorter than 64 KB, and no dissemination stat names no
  -- node: nothing fails, and `Measure` over the lines of the file, with more fuel than lines, gives
  -- the quantity of exactly the lines that were written between the measurement's two labels, if
  -- these are not "..", no line before the first label bears it and none between the labels bears the
  -- second.
  pub measure-scripted :
      (m : Measurement F) (before between after : List Action) (cmd cmd2 : Bytes) (fuel : ℕ)
      → IsScript m before between after cmd cmd2
      → length
          (map action_line (scripted before (label m.start cmd) between (label m.end cmd2) after))
        < fuel
      → (si : StatIngester Bytes) × (perform file
            (new_stat_ingester [])
            (scripted before (label m.start cmd) between (label m.end cmd2) after)
          ≡ ok si)
        × (measure fl line_scanner match_string fuel m (open_lines (file_lines si.writer) none)
            ≡ quantity_of fl match_string m none (map action_line between))
  measure-scripted m before between after cmd cmd2 fuel h enough =
      let actions = scripted before (label m.start cmd) between (label m.end cmd2) after in
      let ls = map action_line actions in
      let (si, performed, state) = perform-Ingested file [] actions (λ w b. refl) h.known in
      let read : file_lines si.writer ≡ ls =
        ap file_lines state.output ∙ file_lines-write_lines ls h.lines in
      (
        si,
        performed,
        ap (λ xs. measure fl line_scanner match_string fuel m (open_lines xs none)) read
            ∙ measure-measured fl match_string line_scanner ls fuel m (open_lines ls none) none
                enough (open_lines-Yields ls none)
            ∙ ap (measured fl match_string m none)
                (map-scripted before between after m.start cmd m.end cmd2)
            ∙ measured-labelled m (map action_line before) (map action_line between)
                (map action_line after) (label_line m.start cmd) (label_line m.end cmd2)
                h.named_start h.named_end h.without_start h.without_end (is_label_own m.start cmd)
                (is_label_own m.end cmd2),
      )
