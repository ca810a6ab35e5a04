-- ===== src/Ingester/Threads/Measured.antt =====
-- measurement.go over the stats file that the goroutines of stat_ingester.go have written.
use ringpop_common.Common.{
  ℕ, ◌<◌, ◌≡◌, refl, ap, ◌∙◌, Bool, false, Option, none, List, [], ◌∷◌, ◌++◌, Bytes, bytes_eq,
  length, All,
}
use ringpop_common.Float.{Float64}
use ringpop_common.Command.{Measurement}
use ringpop_common.Scanner.Lines.{line_scanner, open_lines, open_lines-Yields}
use ringpop_common.Measurement.{measure}
use ringpop_common.Measurement.Window.{measured, quantity_of, measure-measured}
use ringpop_common.Scanner.Section.{script_start_label, script_end_label}
use ringpop_common.Ingester.{label_line}
use ringpop_common.Ingester.Labels.{Without}
use ringpop_common.Ingester.Session.Measured.{is_label_own, measured-labelled}
use ringpop_common.Ingester.Session.File.{IsLine, file, file_lines, file_lines-write_lines}
use ringpop_common.Ingester.Threads.{
  System, Event, took, wrote, labelled, began, looked, cleared, Run, start, lines_of,
}
use ringpop_common.Ingester.Threads.History.{Run-writer}

-- The events around two labels.
abbrev pub between_labels :
    List Event → Bytes → Bytes → List Event → Bytes → Bytes → List Event → List Event
between_labels before a cmd between b cmd2 after =
    before ++ (labelled a cmd ∷ (between ++ (labelled b cmd2 ∷ after)))

lines_of-append : (xs ys : List Event) → lines_of (xs ++ ys) ≡ lines_of xs ++ lines_of ys
lines_of-append [] ys = refl
lines_of-append (took str ∷ xs) ys = lines_of-append xs ys
lines_of-append (wrote str ∷ xs) ys = ap (◌∷◌ str) (lines_of-append xs ys)
lines_of-append (labelled l cmd ∷ xs) ys = ap (◌∷◌ (label_line l cmd)) (lines_of-append xs ys)
lines_of-append (began hosts ∷ xs) ys = lines_of-append xs ys
lines_of-append (looked ∷ xs) ys = lines_of-append xs ys
lines_of-append (cleared ∷ xs) ys = lines_of-append xs ys

lines_of-between_labels :
    (before between after : List Event) (a cmd b cmd2 : Bytes)
    → lines_of (between_labels before a cmd between b cmd2 after)
      ≡ lines_of before
        ++ (label_line a cmd ∷ (lines_of between ++ (label_line b cmd2 ∷ lines_of after)))
lines_of-between_labels before between after a cmd b cmd2 =
    lines_of-append before (labelled a cmd ∷ (between ++ (labelled b cmd2 ∷ after)))
    ∙ ap (λ ls. lines_of before ++ (label_line a cmd ∷ ls))
        (lines_of-append between (labelled b cmd2 ∷ after))

-- Events that a measurement can be made of: neither of its labels is ".."; no line before its first
-- label bears that label, and none between the labels bears the second; and each line is one of a file.
pub record IsMeasurable {F : Type 0} (m : Measurement F) (before between after : List Event)
    (cmd cmd2 : Bytes) : Type 0 where
  pub named_start : bytes_eq m.start script_start_label ≡ false
  pub named_end : bytes_eq m.end script_end_label ≡ false
  pub without_start : Without m.start (lines_of before)
  pub without_end : Without m.end (lines_of between)
  pub lines : All IsLine (lines_of (between_labels before m.start cmd between m.end cmd2 after))

module _ {F : Type 0} (fl : Float64 F) (match_string : Bytes → Bytes → Option Bool) where
  -- However the goroutines that handle and write stats, wait and insert labels are interleaved, from
  -- a new ingester with an empty file on, if no line written holds an end of a line and each is shorter
  -- than 64 KB: `Measure` over the lines of the file, with more fuel than lines, gives the quantity of
  -- exactly the lines that were written between the measurement's two labels, if these are not "..", no
  -- line before the first label bears it and none between the labels bears the second.
  pub measure-Run :
      (m : Measurement F) (before between after : List Event) (cmd cmd2 : Bytes) (u : System Bytes)
      (fuel : ℕ)
      → IsMeasurable m before between after cmd cmd2
      → Run file (start []) (between_labels before m.start cmd between m.end cmd2 after) u
      → length (lines_of (between_labels before m.start cmd between m.end cmd2 after)) < fuel
      → measure fl line_scanner match_string fuel m (open_lines (file_lines u.ingester.writer) none)
        ≡ quantity_of fl match_string m none (lines_of between)
  measure-Run m before between after cmd cmd2 u fuel h r enough =
      let ls = lines_of (between_labels before m.start cmd between m.end cmd2 after) in
      let read : file_lines u.ingester.writer ≡ ls =
        ap file_lines (Run-writer file r) ∙ file_lines-write_lines ls h.lines in
      ap (λ xs. measure fl line_scanner match_string fuel m (open_lines xs none)) read
      ∙ measure-measured fl match_string line_scanner ls fuel m (open_lines ls none) none enough
          (open_lines-Yields ls none)
      ∙ ap (measured fl match_string m none)
          (lines_of-between_labels before between after m.start cmd m.end cmd2)
      ∙ measured-labelled fl match_string m (lines_of before) (lines_of between) (lines_of after)
          (label_line m.start cmd) (label_line m.end cmd2) h.named_start h.named_end h.without_start
          h.without_end (is_label_own m.start cmd) (is_label_own m.end cmd2)
