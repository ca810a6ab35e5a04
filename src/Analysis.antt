-- ===== src/Analysis.antt =====
-- cluster-test/test-orchestrator/stat_analysis.go: the analyses of a section of the stats. Package
-- regexp's `MatchString` of a user's pattern is a parameter, `none` standing for its error; the pattern
-- of a host is written out in Analysis/Host. The fuel counts the calls of `Scan`.
pub mod Host
pub mod Counting
pub mod Distinct
pub mod Checksums
pub mod Convergence
pub mod Agreement
use ringpop_common.Common.{
  ℕ, ◌+◌, ◌-◌, ◌*◌, Bool, true, not, Option, none, some, List, [], ◌∷◌, ◌++◌, ltb, if◌then◌else◌,
  Bytes, codes, bytes_eq, length, take, drop,
}
use ringpop_common.Common.Dict.{insert}
use ringpop_common.Common.Int.{ℤ, pos, ◌*ℤ◌, quot_ℤ}
use ringpop_common.Outcome.{
  Frame, counting, checksumming, converging, first_timestamp, second_timestamp, Failure, within,
  slice_out_of_range, not_a_gauge, no_host, no_first_timestamp, no_second_timestamp, bad_time,
  no_first_change, Outcome, ok, err, panic, ◌>>=◌, ◌>>◌, wrap_err,
}
use ringpop_common.Text.{index, contains}
use ringpop_common.Scanner.{Scanner, for_scan, scan_until}
use ringpop_common.Clock.{millisecond, parse_time, time_sub}
use Host.{find_host}

abbrev pub checksum_path : Bytes
checksum_path = codes ".checksum:"

abbrev pub membership_set_path : Bytes
membership_set_path = codes "membership-set"

-- `if s.Err() != nil { return errors.Wrap(…) }`
unfoldable pub check_err : Frame → Option Failure → Outcome (Unit {0})
check_err fr none = ok tt
check_err fr (some e) = err (within fr e)

-- one round of `CountAnalysis`: a pattern that does not compile counts as no match
unfoldable pub counts : Option Bool → ℕ → Outcome ℕ
counts (some true) n = ok (n + 1)
counts _ n = ok n

-- `uniq`: the distinct values of the map, gathered in the order of iteration
unfoldable pub add_value : Bytes → List Bytes → List Bytes
add_value v [] = v ∷ []
add_value v (w ∷ u) = if bytes_eq w v then w ∷ u else w ∷ add_value v u

unfoldable pub gather : List Bytes → List (Bytes × Bytes) → List Bytes
gather u [] = u
gather u ((host, csum) ∷ m) = gather (add_value csum u) m

unfoldable pub uniq : List (Bytes × Bytes) → ℕ
uniq m = length (gather [] m)

-- `m[host] = csum`, for a line whose checksum text is `csum`
unfoldable pub store_checksum :
    Bytes → Bytes → List (Bytes × Bytes) → Outcome (List (Bytes × Bytes))
store_checksum line csum m =
    if ltb (length csum) 2
    then panic slice_out_of_range
    else if not (bytes_eq (drop (length csum - 2) csum) (codes "|g"))
    then err (not_a_gauge csum)
    else if bytes_eq (find_host line) []
    then err (no_host line)
    else ok (insert (find_host line) (take (length csum - 2) csum) m)

-- one round of `ChecksumsAnalysis`
unfoldable pub checksum_line : List (Bytes × Bytes) → Bytes → Outcome (List (Bytes × Bytes))
checksum_line m line = elim (index line checksum_path) [
  | none ↦ ok m
  | some ix ↦
      if contains line (codes "ring.checksum")
      then ok m
      else store_checksum line (drop (ix + length checksum_path) line) m
]

-- `timeDiff`
unfoldable pub timestamps : Option ℤ → Option ℤ → Bytes → Bytes → Outcome ℤ
timestamps none t2 text1 text2 = err (within first_timestamp (bad_time text1))
timestamps (some t1) none text1 text2 = err (within second_timestamp (bad_time text2))
timestamps (some t1) (some t2) text1 text2 = ok (time_sub t2 t1)

unfoldable pub bars : Option ℕ → Option ℕ → Bytes → Bytes → Outcome ℤ
unfolding timestamps
bars none i2 stat1 stat2 = err (no_first_timestamp stat1)
bars (some i1) none stat1 stat2 = err (no_second_timestamp stat2)
bars (some i1) (some i2) stat1 stat2 =
    timestamps (parse_time (take i1 stat1)) (parse_time (take i2 stat2)) (take i1 stat1)
      (take i2 stat2)

unfoldable pub time_diff : Bytes → Bytes → Outcome ℤ
unfolding bars
time_diff stat1 stat2 = bars (index stat1 (codes "|")) (index stat2 (codes "|")) stat1 stat2

-- `d / time.Millisecond * time.Millisecond`
unfoldable pub whole_millis : ℤ → ℤ
whole_millis d = quot_ℤ d millisecond *ℤ pos millisecond

-- one round of the second loop of `ConvergenceTimeAnalysis`
unfoldable pub keep_change : Bytes → Bytes → Outcome Bytes
keep_change last line = ok (if contains line membership_set_path then line else last)

module _ {S : Type 0} (sc : Scanner S) where
  unfoldable pub count_analysis : (Bytes → Bytes → Option Bool) → ℕ → S → Bytes → Outcome ℕ
  count_analysis match_string fuel s stat = do
    (count, t) ← for_scan sc (λ n line. counts (match_string (stat ++ codes ":") line) n) fuel 0 s
    check_err counting (sc.err_of t)
    ok count

  unfoldable pub checksums_analysis : ℕ → S → Outcome ℕ
  checksums_analysis fuel s = do
    (m, t) ← for_scan sc checksum_line fuel [] s
    check_err checksumming (sc.err_of t)
    ok (uniq m)

  -- behind the first loop: `firstChange` is empty if no line was found
  unfoldable pub converge : ℕ → Bytes → S → Outcome ℤ
  converge fuel first_change s = if bytes_eq first_change [] then err no_first_change else do
    (last_change, t) ← for_scan sc keep_change fuel first_change s
    check_err converging (sc.err_of t)
    d ← wrap_err converging (time_diff first_change last_change)
    ok (whole_millis d)

  unfoldable pub convergence_time_analysis : ℕ → S → Outcome ℤ
  convergence_time_analysis fuel s = do
    (found, t) ← scan_until sc (λ line. contains line membership_set_path) fuel s
    converge fuel (if found then sc.text t else []) t
