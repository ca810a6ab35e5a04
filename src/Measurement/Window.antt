-- ===== src/Measurement/Window.antt =====
-- `Measure`: a measurement of a quantity is the analysis of the lines between its two labels.
use ringpop_common.Common.{
  ℕ, ◌≤◌, ◌<◌, ◌≡◌, refl, inl, inr, Bool, Option, none, some, List, [], ◌∷◌, ◌++◌, arith,
  if◌then◌else◌, Bool-cases, Option-cases, Bytes, codes, bytes_eq, length,
}
use ringpop_common.Common.Int.{pos}
use ringpop_common.Float.{Float64}
use ringpop_common.Value.{Value, number, duration}
use ringpop_common.Outcome.{
  Failure, start_not_found, no_such_quantity, count_arguments, Outcome, ok, err, ◌>>=◌,
}
use ringpop_common.Command.{Measurement}
use ringpop_common.Scanner.{Scanner, Yields}
use ringpop_common.Scanner.Loops.{find_line}
use ringpop_common.Scanner.Section.{
  SectionScanner, script_start_label, is_label, new_section_scanner, section_scanner, from_label,
  until_label, until_error, Opens, new_section_scanner-Opens,
}
use ringpop_common.Analysis.Counting.{occurrences, counted, count_analysis-occurrences}
use ringpop_common.Analysis.Checksums.{checksums_of, checksums_analysis-checksums_of}
use ringpop_common.Analysis.Convergence.{
  changes, convergence, convergence_time_analysis-convergence,
}
use ringpop_common.Measurement.{
  wrap_measure, wrap_measure-bind, count_case, measure_section, measure,
}

length-until_label : (end : Bytes) (ls : List Bytes) → length (until_label end ls) ≤ length ls
unfolding until_label
length-until_label end [] = omega arith
length-until_label end (l ∷ ls) = ground (arith, length-until_label end ls)

length-find_line :
    (test : Bytes → Bool) (ls : List Bytes) (l : Bytes) (rest : List Bytes)
    → find_line test ls ≡ some (l, rest)
    → length rest ≤ length ls
unfolding find_line
length-find_line test [] l rest h = cc
length-find_line test (x ∷ ls) l rest h = elim (Bool-cases (test x)) [
  | inl c ↦ ground (arith, rw c at h)
  | inr c ↦ omega (arith, length-find_line test ls l rest (rw c at h))
]

length-from_label :
    (start : Bytes) (ls xs : List Bytes) → from_label start ls ≡ some xs → length xs ≤ length ls
unfolding from_label
length-from_label start ls xs h = elim (Bool-cases (bytes_eq start script_start_label)) [
  | inl all ↦ ground (arith, rw all at h)
  | inr n ↦ elim (Option-cases (find_line (is_label start) ls)) [
    | inl miss ↦ cc (rw (n, miss) at h)
    | inr ((l, rest), hit) ↦
        ground (arith, rw (n, hit) at h, length-find_line (is_label start) ls l rest hit)
  ]
]

module _ {F : Type 0} (fl : Float64 F) (match_string : Bytes → Bytes → Option Bool) where
  -- the count of the lines that match the one argument
  unfoldable pub occurrences_of :
      Measurement F → List Bytes → Option Failure → List Bytes → Outcome (Value F)
  occurrences_of m (stat ∷ []) e ls = do
    count ← wrap_measure m (counted e (occurrences (match_string (stat ++ codes ":")) ls))
    ok (number (fl.of_int (pos count)))
  occurrences_of m args e ls = err (count_arguments args)

  -- What a measurement says about the lines of its section, read to their end with this error.
  unfoldable pub quantity_of : Measurement F → Option Failure → List Bytes → Outcome (Value F)
  quantity_of m e ls =
      if bytes_eq m.quantity (codes "convtime")
      then (do d ← wrap_measure m (convergence e (changes ls)); ok (duration d))
      else if bytes_eq m.quantity (codes "checksums")
      then (do n ← wrap_measure m (checksums_of e ls); ok (number (fl.of_int (pos n))))
      else if bytes_eq m.quantity (codes "count")
      then occurrences_of m m.args e ls
      else err (no_such_quantity m.quantity)

  -- What a measurement says about all lines: the section is cut out first.
  unfoldable pub measured : Measurement F → Option Failure → List Bytes → Outcome (Value F)
  measured m e ls = elim (from_label m.start ls) [
    | none ↦ wrap_measure m (err (start_not_found m.start))
    | some xs ↦ quantity_of m (until_error m.end xs e) (until_label m.end xs)
  ]

  module _ {S : Type 0} (sc : Scanner S) where
    count_case-occurrences_of :
        (fuel : ℕ) (m : Measurement F) (args : List Bytes) (s : SectionScanner S) (ls : List Bytes)
        (e : Option Failure)
        → length ls < fuel
        → Yields (section_scanner sc) s ls e
        → count_case fl sc match_string fuel m args s ≡ occurrences_of m args e ls
    unfolding count_case occurrences_of
    count_case-occurrences_of fuel m [] s ls e h y = refl
    count_case-occurrences_of fuel m (stat ∷ []) s ls e h y =
        rw (count_analysis-occurrences (section_scanner sc) match_string ls fuel s stat e h y)
    count_case-occurrences_of fuel m (x ∷ y ∷ args) s ls e h ys = refl

    measure_section-quantity_of :
        (fuel : ℕ) (m : Measurement F) (s : SectionScanner S) (ls : List Bytes) (e : Option Failure)
        → length ls < fuel
        → Yields (section_scanner sc) s ls e
        → measure_section fl sc match_string fuel m s ≡ quantity_of m e ls
    unfolding measure_section quantity_of
    measure_section-quantity_of fuel m s ls e h y = rw (
      convergence_time_analysis-convergence (section_scanner sc) ls fuel s e h y,
      checksums_analysis-checksums_of (section_scanner sc) ls fuel s e h y,
      count_case-occurrences_of fuel m m.args s ls e h y,
    )

    -- `Measure` over a scanner that yields `ls`, with more fuel than lines, is the measurement of exactly
    -- the lines between its two labels: for "convtime" the time between the first and the last
    -- membership change, for "checksums" what the rounds of `ChecksumsAnalysis` make of these lines, for
    -- "count" the number of lines that match. A missing start label, another quantity, another number
    -- of arguments of "count" and a failure of the analysis are each the failure that tells so; a failure that is wrapped with
    -- the text of the measurement ends the process if its assertion is of unknown type.
    pub measure-measured :
        (ls : List Bytes) (fuel : ℕ) (m : Measurement F) (s : S) (e : Option Failure)
        → length ls < fuel
        → Yields sc s ls e
        → measure fl sc match_string fuel m s ≡ measured m e ls
    unfolding measure measured
    measure-measured ls fuel m s e h y =
        decided (from_label m.start ls) (length-from_label m.start ls)
          (new_section_scanner sc fuel s m.start m.end)
          (new_section_scanner-Opens sc ls fuel s m.start m.end e h y)
      where
        decided :
            (o : Option (List Bytes))
            → ((xs : List Bytes) → o ≡ some xs → length xs ≤ length ls)
            → (r : Outcome (SectionScanner S)) → Opens sc m.start m.end e o r
            → (wrap_measure m r >>= λ section. measure_section fl sc match_string fuel m section)
              ≡ (elim o [
                | none ↦ wrap_measure m (err (start_not_found m.start))
                | some xs ↦ quantity_of m (until_error m.end xs e) (until_label m.end xs)
              ])
        decided none small r no_start =
            rw no_start (wrap_measure-bind m (start_not_found m.start) _)
        decided (some xs) small r (section, opens, ys) = rw opens (
            unfold wrap_measure in
            (measure_section-quantity_of fuel m section (until_label m.end xs)
              (until_error m.end xs e) (omega (arith, small xs refl, length-until_label m.end xs))
              ys))
