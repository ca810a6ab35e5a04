-- ===== src/Ingester/Labels.antt =====
-- `InsertLabel` and `NewSectionScanner`: the lines that the one writes between the stats, and the
-- section that the other finds between them.
use ringpop_common.Common.{
  ℕ, ◌<◌, ◌≡◌, ap, subst, true, false, Option, none, some, List, [], ◌∷◌, ◌++◌, append_assoc, Bytes,
  codes, bytes_eq, length, All,
}
use ringpop_common.Outcome.{Failure, ok}
use ringpop_common.Text.{has_prefix}
use ringpop_common.Text.Index.{has_prefix-append}
use ringpop_common.Scanner.{Scanner, Yields}
use ringpop_common.Scanner.Loops.{find_line}
use ringpop_common.Scanner.Section.{
  SectionScanner, script_start_label, script_end_label, is_label, new_section_scanner,
  section_scanner, from_label, closes, until_label, until_error, Opens, new_section_scanner-Opens,
}
use ringpop_common.Ingester.{label_line}

-- No line bears the label.
abbrev pub Without : Bytes → List Bytes → Type 0
Without label = All (λ l. is_label label l ≡ false)

pub is_label-label_line : (a x cmd : Bytes) → is_label a (label_line (a ++ x) cmd) ≡ true
unfolding is_label
is_label-label_line a x cmd = rw (append_assoc a x (codes "|cmd: " ++ cmd)) (
    subst (λ s. has_prefix s (codes "label:" ++ a) ≡ true)
      (append_assoc (codes "label:") a (x ++ (codes "|cmd: " ++ cmd)))
      (has_prefix-append (codes "label:" ++ a) (x ++ (codes "|cmd: " ++ cmd))))

find_line-Without :
    (a l : Bytes) (before rest : List Bytes)
    → Without a before
    → is_label a l ≡ true
    → find_line (is_label a) (before ++ (l ∷ rest)) ≡ some (l, rest)
unfolding find_line
find_line-Without a l [] rest h here = rw here
find_line-Without a l (b ∷ before) rest (hb, h) here =
    rw hb (find_line-Without a l before rest h here)

closes_named : (b l : Bytes) → bytes_eq b script_end_label ≡ false → closes b l ≡ is_label b l
unfolding closes
closes_named b l named = rw named

pub until_label-Without :
    (b l : Bytes) (stats rest : List Bytes)
    → bytes_eq b script_end_label ≡ false
    → Without b stats
    → is_label b l ≡ true
    → until_label b (stats ++ (l ∷ rest)) ≡ stats
unfolding until_label
until_label-Without b l [] rest named h here = rw (closes_named b l named) (rw here)
until_label-Without b l (x ∷ stats) rest named (hx, h) here =
    rw (closes_named b x named)
      (rw hx (ap (◌∷◌ x) (until_label-Without b l stats rest named h here)))

pub until_error-Without :
    (b l : Bytes) (stats rest : List Bytes) (e : Option Failure)
    → bytes_eq b script_end_label ≡ false
    → Without b stats
    → is_label b l ≡ true
    → until_error b (stats ++ (l ∷ rest)) e ≡ none
unfolding until_error
until_error-Without b l [] rest e named h here = rw (closes_named b l named) (rw here)
until_error-Without b l (x ∷ stats) rest e named (hx, h) here =
    rw (closes_named b x named) (rw hx (until_error-Without b l stats rest e named h here))

-- The lines of a stats file around two labels.
abbrev pub labelled : List Bytes → Bytes → List Bytes → Bytes → List Bytes → List Bytes
labelled before first stats last after = before ++ (first ∷ (stats ++ (last ∷ after)))

pub from_label-labelled :
    (a l : Bytes) (before rest : List Bytes)
    → bytes_eq a script_start_label ≡ false
    → Without a before
    → is_label a l ≡ true
    → from_label a (before ++ (l ∷ rest)) ≡ some rest
unfolding from_label
from_label-labelled a l before rest na ha here =
    rw na (rw (find_line-Without a l before rest ha here))

module _ {S : Type 0} (sc : Scanner S) where
  -- Between the lines that `InsertLabel` writes for two labels `NewSectionScanner` finds exactly the
  -- stats that stand there, and no error, if no line before the first bears its label and no stat bears
  -- the second. The labels looked for may be the ones written, with `x` and `y` empty, or any that the
  -- written ones begin with: the section of t1 opens at the label t10 as well.
  pub new_section_scanner-labelled :
      (a x cmd b y cmd2 : Bytes) (before stats after : List Bytes) (fuel : ℕ) (base : S)
      (e : Option Failure)
      → bytes_eq a script_start_label ≡ false
      → bytes_eq b script_end_label ≡ false
      → Without a before
      → Without b stats
      → length (labelled before (label_line (a ++ x) cmd) stats (label_line (b ++ y) cmd2) after)
        < fuel
      → Yields sc base
          (labelled before (label_line (a ++ x) cmd) stats (label_line (b ++ y) cmd2) after)
          e
      → (s : SectionScanner S) × (new_section_scanner sc fuel base a b ≡ ok s)
        × Yields (section_scanner sc) s stats none
  new_section_scanner-labelled a x cmd b y cmd2 before stats after fuel base e na nb ha hb h ys =
      let first : Bytes = label_line (a ++ x) cmd in
      let last : Bytes = label_line (b ++ y) cmd2 in
      let (s, opened, section) =
        subst (λ o. Opens sc a b e o (new_section_scanner sc fuel base a b))
          (from_label-labelled a first before (stats ++ (last ∷ after)) na ha
            (is_label-label_line a x cmd))
          (new_section_scanner-Opens sc (labelled before first stats last after) fuel base a b e h
            ys) in
      (
        s,
        opened,
        rw
            (
              until_label-Without b last stats after nb hb (is_label-label_line b y cmd2),
              until_error-Without b last stats after e nb hb (is_label-label_line b y cmd2),
            )
            at section,
      )
