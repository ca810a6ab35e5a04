-- ===== src/Scanner/Section.antt =====
-- cluster-test/test-orchestrator/section_scanner.go, `SectionScanner`: a scanner around a scanner that
-- yields the lines between two labels.
use ringpop_common.Common.{
  ℕ, ◌<◌, ◌≡◌, refl, inl, inr, Bool, true, false, not, ◌&&◌, Option, none, some, List, [], ◌∷◌,
  ◌++◌, arith, if◌then◌else◌, Bool-cases, Bytes, codes, bytes_eq, length,
}
use ringpop_common.Outcome.{Failure, start_not_found, Outcome, ok, err, ◌>>=◌}
use ringpop_common.Text.{has_prefix}
use ringpop_common.Scanner.{Scanner, Yields, scan_until}
use ringpop_common.Scanner.Loops.{find_line, Finds, scan_until-Finds}

pub record SectionScanner (S : Type 0) : Type 0 where
  pub scanner : S
  pub start : Bytes
  pub end : Bytes

-- `scriptStartLabel` and `scriptEndLabel`
abbrev pub script_start_label : Bytes
script_start_label = codes ".."

abbrev pub script_end_label : Bytes
script_end_label = codes ".."

-- the test of both loops, `strings.HasPrefix(text, "label:"+label)`
unfoldable pub is_label : Bytes → Bytes → Bool
unfolding has_prefix
is_label label line = has_prefix line (codes "label:" ++ label)

opened : {S : Type 0} → Bytes → Bytes → Bool → S → Outcome (SectionScanner S)
opened start end true t = ok (record { scanner = t; start = start; end = end })
opened start end false t = err (start_not_found start)

module _ {S : Type 0} (sc : Scanner S) where
  unfoldable pub new_section_scanner : ℕ → S → Bytes → Bytes → Outcome (SectionScanner S)
  unfolding bytes_eq scan_until is_label opened
  new_section_scanner fuel base start end =
      if bytes_eq start script_start_label
      then ok (record { scanner = base; start = start; end = end })
      else do (found, t) ← scan_until sc (is_label start) fuel base; opened start end found t

  -- what `Scan` does with the answer of the wrapped scanner
  after_scan : SectionScanner S → Bool × S → Bool × SectionScanner S
  unfolding bytes_eq is_label
  after_scan s (false, t) = (false, record s { scanner = t })
  after_scan s (true, t) =
      if bytes_eq s.end script_end_label
      then (true, record s { scanner = t })
      else if is_label s.end (sc.text t)
      then (false, record s { scanner = t })
      else (true, record s { scanner = t })

  -- `Text` and `Err` are those of the embedded scanner.
  unfoldable pub section_scanner : Scanner (SectionScanner S)
  unfolding after_scan
  section_scanner = record {
    scan = λ s. after_scan s (sc.scan s.scanner);
    text = λ s. sc.text s.scanner;
    err_of = λ s. sc.err_of s.scanner;
  }

-- The lines behind the first one that bears the label, and all lines for "..".
unfoldable pub from_label : Bytes → List Bytes → Option (List Bytes)
from_label start ls =
    if bytes_eq start script_start_label
    then some ls
    else elim (find_line (is_label start) ls) [ none ↦ none | some (l, rest) ↦ some rest ]

module _ (end : Bytes) where
  -- is this line the end of the section?
  unfoldable pub closes : Bytes → Bool
  closes l = not (bytes_eq end script_end_label) && is_label end l

  -- The lines before the first one that ends the section.
  unfoldable pub until_label : List Bytes → List Bytes
  until_label [] = []
  until_label (l ∷ ls) = if closes l then [] else l ∷ until_label ls

  -- A section that was ended by its label has no error.
  unfoldable pub until_error : List Bytes → Option Failure → Option Failure
  until_error [] e = e
  until_error (l ∷ ls) e = if closes l then none else until_error ls e

module _ {S : Type 0} (sc : Scanner S) where
  after_scan_closed :
      (s : SectionScanner S) (t : S)
      → closes s.end (sc.text t) ≡ true
      → after_scan sc s (true, t) ≡ (false, record s { scanner = t })
  unfolding after_scan closes
  after_scan_closed s t h = ground arith

  after_scan_open :
      (s : SectionScanner S) (t : S)
      → closes s.end (sc.text t) ≡ false
      → after_scan sc s (true, t) ≡ (true, record s { scanner = t })
  unfolding after_scan closes
  after_scan_open s t h = ground arith

  section_scanner-Yields :
      (s : SectionScanner S) (ls : List Bytes) (e : Option Failure)
      → Yields sc s.scanner ls e
      → Yields (section_scanner sc) s (until_label s.end ls) (until_error s.end ls e)
  unfolding section_scanner until_label until_error
  section_scanner-Yields s [] e (t, stop, er) = (record s { scanner = t }, rw stop, er)
  section_scanner-Yields s (l ∷ ls) e (t, step, tx, no_err, y) =
      elim (Bool-cases (closes s.end l)) [
        | inl c ↦ rw c (record s { scanner = t }, rw step (after_scan_closed s t (rw tx c)), no_err)
        | inr c ↦ rw c (
          record s { scanner = t },
          rw step (after_scan_open s t (rw tx c)),
          tx,
          no_err,
          section_scanner-Yields (record s { scanner = t }) ls e y,
        )
      ]

  -- Either the start label is there and the new scanner yields the lines of the section, or it is
  -- not and the error names it.
  abbrev pub Opens :
      Bytes → Bytes → Option Failure → Option (List Bytes) → Outcome (SectionScanner S) → Type 0
  Opens start end e none r = r ≡ err (start_not_found start)
  Opens start end e (some xs) r =
      (s : SectionScanner S) × (r ≡ ok s)
      × Yields (section_scanner sc) s (until_label end xs) (until_error end xs e)

  search-Opens :
      (start end : Bytes) (e : Option Failure) (o : Option (Bytes × List Bytes))
      (r : Outcome (Bool × S))
      → Finds sc (is_label start) e o r
      → Opens start end e
          (elim o [ none ↦ none | some (l, rest) ↦ some rest ])
          (r >>= λ (found, t). opened start end found t)
  unfolding opened
  search-Opens start end e none r (t, f, er) = rw f
  search-Opens start end e (some (l, rest)) r (t, f, tx, no_err, y) =
      rw f (
        _,
        refl,
        section_scanner-Yields (record { scanner = t; start = start; end = end }) rest e y,
      )

  -- Over a scanner that yields `ls`, and with more fuel than there are lines: where a line bears the
  -- start label, `NewSectionScanner` makes a scanner that yields exactly the lines behind the first
  -- such line and before the next line that bears the end label; ".." stands for the first and the
  -- last line; where no line bears the start label the result is the error that names it. A section
  -- ended by its label reports no error of the wrapped scanner.
  pub new_section_scanner-Opens :
      (ls : List Bytes) (fuel : ℕ) (base : S) (start end : Bytes) (e : Option Failure)
      → length ls < fuel
      → Yields sc base ls e
      → Opens start end e (from_label start ls) (new_section_scanner sc fuel base start end)
  unfolding from_label new_section_scanner
  new_section_scanner-Opens ls fuel base start end e h y =
      elim (Bool-cases (bytes_eq start script_start_label)) [
        | inl all ↦ rw all (_, refl, section_scanner-Yields whole ls e y)
        | inr some_label ↦ rw some_label (
            search-Opens start end e (find_line test ls) (scan_until sc test fuel base)
              (scan_until-Finds sc test ls fuel base e h y))
      ]
    where
      whole : SectionScanner S
      whole = record { scanner = base; start = start; end = end }

      test : Bytes → Bool
      test = is_label start
