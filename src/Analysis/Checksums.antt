-- ===== src/Analysis/Checksums.antt =====
-- `ChecksumsAnalysis` of stat_analysis.go: what it makes of each line, and what it reports.
pub mod Stats
pub mod Hosts
pub mod Cut
use ringpop_common.Common.{
  ℕ, ◌-◌, ◌<◌, ◌≡◌, refl, ◌∙◌, ◌⊎◌, true, false, Option, none, some, List, [], ◌∷◌, map, arith,
  Bytes, codes, length,
}
use ringpop_common.Common.Dict.{insert}
use ringpop_common.Outcome.{
  checksumming, Failure, within, Outcome, ok, err, panic, exit, timeout, ◌>>=◌, ◌>>◌,
}
use ringpop_common.Text.{contains}
use ringpop_common.Scanner.{Scanner, Yields, for_scan}
use ringpop_common.Scanner.Loops.{for_lines, Agrees, for_scan-Agrees}
use ringpop_common.Analysis.{checksum_path, check_err, uniq, checksum_line, checksums_analysis}
use ringpop_common.Analysis.Checksums.Stats.{Stat, checksum_stat, IsStat, checksum_line-insert}

-- Other lines change nothing: those without the path, and those of the ring's own checksum.
pub checksum_line_other :
    (m : List (Bytes × Bytes)) (line : Bytes)
    → (contains line checksum_path ≡ false) ⊎ (contains line (codes "ring.checksum") ≡ true)
    → checksum_line m line ≡ ok m
unfolding checksum_line contains
checksum_line_other m line h = ground arith

-- A line of the section: a stat of a checksum, or a line that changes nothing.
pub data Entry : Type 0 where
  stat : (r : Stat) → IsStat r → Entry
  other :
      (line : Bytes)
      → (contains line checksum_path ≡ false) ⊎ (contains line (codes "ring.checksum") ≡ true)
      → Entry

unfoldable pub entry_line : Entry → Bytes
entry_line (stat r h) = checksum_stat r
entry_line (other line h) = line

-- the last checksum of each host
unfoldable pub last_checksums : List (Bytes × Bytes) → List Entry → List (Bytes × Bytes)
last_checksums m [] = m
last_checksums m (stat r h ∷ es) = last_checksums (insert r.host r.checksum m) es
last_checksums m (other line h ∷ es) = last_checksums m es

pub for_lines-entries :
    (m : List (Bytes × Bytes)) (es : List Entry)
    → for_lines checksum_line m (map entry_line es) ≡ ok (last_checksums m es)
unfolding for_lines entry_line last_checksums
for_lines-entries m [] = refl
for_lines-entries m (stat r h ∷ es) =
    rw (checksum_line-insert m r h) (for_lines-entries (insert r.host r.checksum m) es)
for_lines-entries m (other line h ∷ es) = rw (checksum_line_other m line h) (for_lines-entries m es)

-- the analysis of the lines and of the scanner's error
unfoldable pub checksums_of : Option Failure → List Bytes → Outcome ℕ
checksums_of e ls = do m ← for_lines checksum_line [] ls; check_err checksumming e; ok (uniq m)

-- the number, if the scanner did not fail
pub reported : Option Failure → ℕ → Outcome ℕ
reported none n = ok n
reported (some f) n = err (within checksumming f)

module _ {S : Type 0} (sc : Scanner S) where
  pub checksums_analysis-checksums_of :
      (ls : List Bytes) (fuel : ℕ) (s : S) (e : Option Failure)
      → length ls < fuel
      → Yields sc s ls e
      → checksums_analysis sc fuel s ≡ checksums_of e ls
  unfolding checksums_analysis checksums_of
  checksums_analysis-checksums_of ls fuel s e h y =
      decided (for_lines checksum_line [] ls) (for_scan sc checksum_line fuel [] s)
        (for_scan-Agrees sc checksum_line ls fuel [] s e h y)
    where
      decided :
          (o : Outcome (List (Bytes × Bytes))) (r : Outcome (List (Bytes × Bytes) × S))
          → Agrees sc checksum_line e o r
          → (r >>= λ (m, t). check_err checksumming (sc.err_of t) >> ok (uniq m))
            ≡ (o >>= λ m. check_err checksumming e >> ok (uniq m))
      decided (ok m) r (t, run, er) = rw run (rw er)
      decided (err f) r run = rw run
      decided (panic f) r run = rw run
      decided (exit f) r run = rw run
      decided timeout r run = rw run

  -- The analysis of such lines, by the map that it builds.
  pub checksums_analysis-last_checksums :
      (es : List Entry) (fuel : ℕ) (s : S) (e : Option Failure)
      → length (map entry_line es) < fuel
      → Yields sc s (map entry_line es) e
      → checksums_analysis sc fuel s ≡ reported e (uniq (last_checksums [] es))
  unfolding checksums_of check_err reported
  checksums_analysis-last_checksums es fuel s e h y =
      checksums_analysis-checksums_of (map entry_line es) fuel s e h y
      ∙ rw (for_lines-entries [] es) (checked e)
    where
      checked :
          (e : Option Failure)
          → (check_err checksumming e >> ok (uniq (last_checksums [] es)))
            ≡ reported e (uniq (last_checksums [] es))
      checked none = refl
      checked (some f) = refl
