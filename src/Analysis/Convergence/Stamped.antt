-- ===== src/Analysis/Convergence/Stamped.antt =====
-- `ConvergenceTimeAnalysis` of stat_analysis.go on stats as the nodes send them, with the times printed
-- at their front.
use ringpop_common.Common.{
  ℕ, ◌-◌, ◌*◌, ◌/◌, ◌≤◌, ◌<◌, ◌≡◌, refl, ap, ◌∙◌, true, false, none, List, [], ◌∷◌, ◌++◌, map,
  arith, Bytes, length, take-append,
}
use ringpop_common.Common.Int.{pos}
use ringpop_common.Outcome.{ok}
use ringpop_common.Text.{contains}
use ringpop_common.Text.Index.{index-append}
use ringpop_common.Clock.{millisecond, max_duration, time_sub}
use ringpop_common.Clock.Stamps.{Stamp, IsStamp, stamp, nanos, stamp-Lacks, parse_time-stamp}
use ringpop_common.Analysis.{
  membership_set_path, timestamps, bars, time_diff, whole_millis, convergence_time_analysis,
}
use ringpop_common.Scanner.{Scanner, Yields}
use ringpop_common.Analysis.Convergence.{
  changes, last_of, convergence, changes_hit, changes_miss, convergence_time_analysis-convergence,
}

abbrev pub stamped : Stamp → Bytes → Bytes
stamped t rest = stamp t ++ (b'|' ∷ rest)

-- A stat of a membership change, or another line.
pub data Line : Type 0 where
  change :
      (t : Stamp)
      → IsStamp t
      → (rest : Bytes) → contains (stamped t rest) membership_set_path ≡ true
      → Line
  other : (line : Bytes) → contains line membership_set_path ≡ false → Line

unfoldable pub line_text : Line → Bytes
line_text (change t h rest c) = stamped t rest
line_text (other line c) = line

-- a change, by its time and what follows the bar
abbrev pub Change : Type 0
Change = (t : Stamp) × IsStamp t × Bytes

abbrev change_text : Change → Bytes
change_text c = stamped c.0 c.2

-- the changes among the lines
unfoldable pub changes_of : List Line → List Change
changes_of [] = []
changes_of (change t h rest c ∷ ls) = (t, h, rest) ∷ changes_of ls
changes_of (other line c ∷ ls) = changes_of ls

changes-changes_of : (ls : List Line) → changes (map line_text ls) ≡ map change_text (changes_of ls)
unfolding changes line_text changes_of
changes-changes_of [] = refl
changes-changes_of (change t h rest c ∷ ls) =
    changes_hit (stamped t rest) (map line_text ls) c
    ∙ ap (◌∷◌ (stamped t rest)) (changes-changes_of ls)
changes-changes_of (other line c ∷ ls) =
    changes_miss line (map line_text ls) c ∙ changes-changes_of ls

time_diff-stamped :
    (t u : Stamp) (rest rest2 : Bytes)
    → IsStamp t
    → IsStamp u
    → time_diff (stamped t rest) (stamped u rest2) ≡ ok (time_sub (pos (nanos u)) (pos (nanos t)))
unfolding time_diff bars timestamps
time_diff-stamped t u rest rest2 ht hu =
    rw
      (
        index-append b'|' (stamp t) [] rest (stamp-Lacks b'|' t ht (omega arith)),
        index-append b'|' (stamp u) [] rest2 (stamp-Lacks b'|' u hu (omega arith)),
      )
      (rw (take-append (stamp t) (b'|' ∷ rest), take-append (stamp u) (b'|' ∷ rest2))
        (rw (parse_time-stamp t ht, parse_time-stamp u hu)))

-- A difference that is no larger than an int64 is exact.
time_sub_exact : (a b : ℕ) → b ≤ a → a - b ≤ max_duration → time_sub (pos a) (pos b) ≡ pos (a - b)
unfolding time_sub
time_sub_exact a b h small = ground arith

whole_millis_pos : (n : ℕ) → whole_millis (pos n) ≡ pos (n / millisecond * millisecond)
unfolding whole_millis
whole_millis_pos n = ground arith

abbrev pub last_change : Change → List Change → Change
last_change c [] = c
last_change c (d ∷ ds) = last_change d ds

last_of-last_change :
    (c : Change) (cs : List Change)
    → last_of (change_text c) (map change_text cs) ≡ change_text (last_change c cs)
unfolding last_of
last_of-last_change c [] = refl
last_of-last_change c (d ∷ ds) = last_of-last_change d ds

convergence-stamped :
    (c : Change) (cs : List Change)
    → nanos c.0 ≤ nanos (last_change c cs).0
    → nanos (last_change c cs).0 - nanos c.0 ≤ max_duration
    → convergence none (change_text c ∷ map change_text cs)
      ≡ ok (pos ((nanos (last_change c cs).0 - nanos c.0) / millisecond * millisecond))
unfolding convergence
convergence-stamped c cs order small =
    let d = last_change c cs in
    rw (last_of-last_change c cs) (
      rw (time_diff-stamped c.0 d.0 c.2 d.2 c.1 d.1) (
        rw (time_sub_exact (nanos d.0) (nanos c.0) order small)
          (ap ok (whole_millis_pos (nanos d.0 - nanos c.0)))))

-- the time that is reported
abbrev pub time_between : Change → Change → ℕ
time_between c d = (nanos d.0 - nanos c.0) / millisecond * millisecond

pub convergence-changes_of :
    (ls : List Line) (c : Change) (cs : List Change)
    → changes_of ls ≡ c ∷ cs
    → nanos c.0 ≤ nanos (last_change c cs).0
    → nanos (last_change c cs).0 - nanos c.0 ≤ max_duration
    → convergence none (changes (map line_text ls)) ≡ ok (pos (time_between c (last_change c cs)))
convergence-changes_of ls c cs is order small =
    ap (convergence none) (changes-changes_of ls ∙ ap (map change_text) is)
    ∙ convergence-stamped c cs order small

module _ {S : Type 0} (sc : Scanner S) where
  -- `ConvergenceTimeAnalysis` of stats as the nodes print them, with the times of the membership changes
  -- at their front, and with more fuel than lines: where there is a change, the last one is not before
  -- the first and at most an int64 of nanoseconds behind it, and the scanner does not fail, the
  -- result is the time between these two instants of the calendar, cut to whole milliseconds.
  convergence_time_analysis-stamped :
      (ls : List Line) (c : Change) (cs : List Change) (fuel : ℕ) (s : S)
      → changes_of ls ≡ c ∷ cs
      → nanos c.0 ≤ nanos (last_change c cs).0
      → nanos (last_change c cs).0 - nanos c.0 ≤ max_duration
      → length (map line_text ls) < fuel
      → Yields sc s (map line_text ls) none
      → convergence_time_analysis sc fuel s ≡ ok (pos (time_between c (last_change c cs)))
  convergence_time_analysis-stamped ls c cs fuel s is order small h y =
      convergence_time_analysis-convergence sc (map line_text ls) fuel s none h y
      ∙ convergence-changes_of ls c cs is order small
