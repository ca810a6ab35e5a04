-- ===== src/Analysis/Convergence.antt =====
-- `ConvergenceTimeAnalysis`: which two stats it compares, and the precision of its result.
pub mod Stamped
use ringpop_common.Common.{
  ℕ, suc, ◌+◌, ◌%◌, ◌≤◌, ◌<◌, ◌≡◌, refl, ◌∙◌, subst, inl, inr, Bool, true, false, Option, none,
  some, List, [], ◌∷◌, arith, if◌then◌else◌, Bool-cases, Bytes, bytes_eq, length,
}
use ringpop_common.Common.Int.{ℤ, pos, negsuc, pos_part, neg_part}
use ringpop_common.Outcome.{
  converging, Failure, within, no_first_change, Outcome, ok, err, ◌>>=◌, ◌>>◌, wrap_err,
}
use ringpop_common.Text.{contains, split}
use ringpop_common.Clock.{millisecond, max_duration, min_duration, time_sub}
use ringpop_common.Scanner.{Scanner, Yields, for_scan, scan_until}
use ringpop_common.Scanner.Loops.{
  for_lines, find_line, Agrees, for_scan-Agrees, Finds, scan_until-Finds,
}
use ringpop_common.Analysis.{
  membership_set_path, check_err, time_diff, whole_millis, keep_change, converge,
  convergence_time_analysis,
}

abbrev pub is_change : Bytes → Bool
is_change l = contains l membership_set_path

-- the membership changes among the lines
unfoldable pub changes : List Bytes → List Bytes
changes [] = []
changes (l ∷ ls) = if is_change l then l ∷ changes ls else changes ls

unfoldable pub last_of : Bytes → List Bytes → Bytes
last_of l [] = l
last_of l (m ∷ ms) = last_of m ms

-- What the analysis reports for the changes, in order, and the error of the scanner.
unfoldable pub convergence : Option Failure → List Bytes → Outcome ℤ
convergence e [] = err no_first_change
convergence (some f) (l ∷ ls) = err (within converging f)
convergence none (l ∷ ls) = do
  d ← wrap_err converging (time_diff l (last_of l ls))
  ok (whole_millis d)

for_lines-keep_change :
    (last : Bytes) (ls : List Bytes)
    → for_lines keep_change last ls ≡ ok (last_of last (changes ls))
unfolding for_lines keep_change changes last_of
for_lines-keep_change last [] = refl
for_lines-keep_change last (l ∷ ls) = elim (Bool-cases (is_change l)) [
  | inl c ↦ rw c (for_lines-keep_change l ls)
  | inr c ↦ rw c (for_lines-keep_change last ls)
]

-- The first loop finds the first change, and the changes behind it are those of the rest.
abbrev Splits : List Bytes → Option (Bytes × List Bytes) → Type 0
Splits ls none = changes ls ≡ []
Splits ls (some (l, rest)) =
    (is_change l ≡ true) × (changes ls ≡ l ∷ changes rest) × (length rest < suc (length ls))

pub changes_hit :
    (l : Bytes) (ls : List Bytes) → is_change l ≡ true → changes (l ∷ ls) ≡ l ∷ changes ls
unfolding changes
changes_hit l ls c = rw c

pub changes_miss :
    (l : Bytes) (ls : List Bytes) → is_change l ≡ false → changes (l ∷ ls) ≡ changes ls
unfolding changes
changes_miss l ls c = rw c

Splits-cons :
    (l : Bytes) (ls : List Bytes) (o : Option (Bytes × List Bytes))
    → is_change l ≡ false
    → Splits ls o
    → Splits (l ∷ ls) o
Splits-cons l ls none c h = changes_miss l ls c ∙ h
Splits-cons l ls (some (m, rest)) c (h, e, lt) = (h, changes_miss l ls c ∙ e, omega arith)

find_line-Splits : (ls : List Bytes) → Splits ls (find_line is_change ls)
unfolding find_line
find_line-Splits [] = unfold changes in refl
find_line-Splits (l ∷ ls) = elim (Bool-cases (is_change l)) [
  | inl c ↦ rw c (c, changes_hit l ls c, omega arith)
  | inr c ↦ rw c (Splits-cons l ls (find_line is_change ls) c (find_line-Splits ls))
]

change-ne-nil : (l : Bytes) → is_change l ≡ true → bytes_eq l [] ≡ false
unfolding contains bytes_eq
change-ne-nil [] h = cc
change-ne-nil (c ∷ l) h = refl

module _ {S : Type 0} (sc : Scanner S) where
  converge-convergence :
      (fuel : ℕ) (l : Bytes) (rest : List Bytes) (t : S) (e : Option Failure)
      → is_change l ≡ true
      → length rest < fuel
      → Yields sc t rest e
      → converge sc fuel l t ≡ convergence e (l ∷ changes rest)
  unfolding converge check_err convergence
  converge-convergence fuel l rest t e c h y =
      let (u, run, er) =
        subst (λ m. Agrees sc keep_change e m (for_scan sc keep_change fuel l t))
          (for_lines-keep_change l rest) (for_scan-Agrees sc keep_change rest fuel l t e h y) in
      rw (change-ne-nil l c) (rw run (rw er (checked e)))
    where
      checked :
          (e : Option Failure)
          → (check_err converging e >> do
            d ← wrap_err converging (time_diff l (last_of l (changes rest)))
            ok (whole_millis d))
            ≡ convergence e (l ∷ changes rest)
      checked none = refl
      checked (some f) = refl

  -- `ConvergenceTimeAnalysis` of a scanner that yields `ls`, with more fuel than lines: it compares the
  -- first and the last of the lines that contain "membership-set", and reports their time difference
  -- in whole milliseconds or the error of `timeDiff`; without such a line it reports that no first
  -- change was found; with one, an error of the scanner goes before the result.
  pub convergence_time_analysis-convergence :
      (ls : List Bytes) (fuel : ℕ) (s : S) (e : Option Failure)
      → length ls < fuel
      → Yields sc s ls e
      → convergence_time_analysis sc fuel s ≡ convergence e (changes ls)
  unfolding convergence_time_analysis
  convergence_time_analysis-convergence ls fuel s e h y =
      decided (find_line is_change ls) (find_line-Splits ls) (scan_until sc is_change fuel s)
        (scan_until-Finds sc is_change ls fuel s e h y)
    where
      decided :
          (o : Option (Bytes × List Bytes))
          → Splits ls o
          → (r : Outcome (Bool × S)) → Finds sc is_change e o r
          → (r >>= λ (found, t). converge sc fuel (if found then sc.text t else []) t)
            ≡ convergence e (changes ls)
      decided none no_change r (t, f, er) =
          rw f (rw no_change (unfold converge bytes_eq convergence in refl))
      decided (some (l, rest)) (c, split, lt) r (t, f, tx, no_err, y) =
          rw f (rw (tx, split) (converge-convergence fuel l rest t e c (omega arith) y))

-- `d / time.Millisecond * time.Millisecond` differs from `d` by less than a millisecond, towards zero,
-- and is a whole number of milliseconds.
whole_millis_bounds :
    (d : ℤ)
    → (pos_part (whole_millis d) ≤ pos_part d)
      × (neg_part (whole_millis d) ≤ neg_part d)
      × (pos_part d < pos_part (whole_millis d) + millisecond)
      × (neg_part d < neg_part (whole_millis d) + millisecond)
      × (pos_part (whole_millis d) % millisecond ≡ 0)
      × (neg_part (whole_millis d) % millisecond ≡ 0)
unfolding whole_millis
whole_millis_bounds (pos n) = ground arith
whole_millis_bounds (negsuc n) = ground arith

-- A difference of times is an int64.
pub time_sub_bounds :
    (t u : ℤ) → (pos_part (time_sub t u) ≤ max_duration) × (neg_part (time_sub t u) ≤ min_duration)
unfolding time_sub
time_sub_bounds t u = ground arith
