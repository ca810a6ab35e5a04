-- ===== src/Analysis/Counting.antt =====
-- `CountAnalysis`: how many lines it counts.
use ringpop_common.Common.{
  ℕ, suc, ◌+◌, ◌<◌, ◌≡◌, refl, ap, ◌∙◌, subst, inl, inr, Bool, true, false, Option, none, some,
  List, [], ◌∷◌, ◌++◌, arith, if◌then◌else◌, Bool-cases, Bytes, codes, length,
}
use ringpop_common.Outcome.{counting, Failure, within, Outcome, ok, err, ◌>>◌}
use ringpop_common.Scanner.{Scanner, Yields, for_scan}
use ringpop_common.Scanner.Loops.{for_lines, Agrees, for_scan-Agrees}
use ringpop_common.Analysis.{check_err, counts, count_analysis}

abbrev is_match : Option Bool → Bool
is_match (some true) = true
is_match (some false) = false
is_match none = false

module _ (test : Bytes → Option Bool) where
  -- the number of lines that the pattern matches
  unfoldable pub occurrences : List Bytes → ℕ
  occurrences [] = 0
  occurrences (l ∷ ls) = if is_match (test l) then suc (occurrences ls) else occurrences ls

  count_round : (n : ℕ) (o : Option Bool) → counts o n ≡ ok (if is_match o then n + 1 else n)
  unfolding counts
  count_round n (some true) = refl
  count_round n (some false) = refl
  count_round n none = refl

  for_lines-counts :
      (n : ℕ) (ls : List Bytes)
      → for_lines (λ n line. counts (test line) n) n ls ≡ ok (occurrences ls + n)
  unfolding for_lines occurrences
  for_lines-counts n [] = ap ok (omega arith)
  for_lines-counts n (l ∷ ls) = elim (Bool-cases (is_match (test l))) [
    | inl h ↦ rw (count_round n (test l)) (rw h (for_lines-counts (n + 1) ls ∙ ap ok (omega arith)))
    | inr h ↦ rw (count_round n (test l)) (rw h (for_lines-counts n ls))
  ]

-- the number, if the scanner did not fail
unfoldable pub counted : Option Failure → ℕ → Outcome ℕ
counted none n = ok n
counted (some f) n = err (within counting f)

module _ {S : Type 0} (sc : Scanner S) where
  -- `CountAnalysis` of a scanner that yields `ls`, with more fuel than lines: the number of lines that
  -- the pattern, the given one with a colon behind it, matches; a pattern that does not compile
  -- matches no line. An error of the scanner is reported in place of the number.
  pub count_analysis-occurrences :
      (match_string : Bytes → Bytes → Option Bool) (ls : List Bytes) (fuel : ℕ) (s : S)
      (stat : Bytes) (e : Option Failure)
      → length ls < fuel
      → Yields sc s ls e
      → count_analysis sc match_string fuel s stat
        ≡ counted e (occurrences (match_string (stat ++ codes ":")) ls)
  unfolding count_analysis check_err counted
  count_analysis-occurrences match_string ls fuel s stat e h y =
      let (u, run, er) =
        subst
          (λ m.
            Agrees sc (λ n line. counts (match_string (stat ++ codes ":") line) n) e m
              (for_scan sc (λ n line. counts (match_string (stat ++ codes ":") line) n) fuel 0 s))
          (for_lines-counts (match_string (stat ++ codes ":")) 0 ls)
          (for_scan-Agrees sc (λ n line. counts (match_string (stat ++ codes ":") line) n) ls fuel 0
            s e h y) in
      rw run (rw er (checked e))
    where
      checked :
          (e : Option Failure)
          → (check_err counting e >> ok (occurrences (match_string (stat ++ codes ":")) ls + 0))
            ≡ counted e (occurrences (match_string (stat ++ codes ":")) ls)
      checked none = ap ok (omega arith)
      checked (some f) = refl
