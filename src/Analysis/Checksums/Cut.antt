-- ===== src/Analysis/Checksums/Cut.antt =====
-- `ChecksumsAnalysis` of stat_analysis.go on a line that was cut short: the slice of the last two
-- bytes behind the path.
use ringpop_common.Common.{
  ℕ, ◌+◌, ◌<◌, ◌≡◌, refl, ◌∙◌, ◌⊎◌, true, false, Option, some, List, [], ◌∷◌, ◌++◌, map, arith, ltb,
  Bytes, codes, length, drop,
}
use ringpop_common.Common.Dict.{insert}
use ringpop_common.Outcome.{Failure, slice_out_of_range, panic}
use ringpop_common.Text.{index, contains}
use ringpop_common.Scanner.{Scanner, Yields}
use ringpop_common.Scanner.Loops.{for_lines}
use ringpop_common.Analysis.{checksum_path, store_checksum, checksum_line, checksums_analysis}
use ringpop_common.Analysis.Checksums.{
  Entry, stat, other, entry_line, last_checksums, checksum_line_other, checksums_of,
  checksums_analysis-checksums_of,
}
use ringpop_common.Analysis.Checksums.Stats.{
  Stat, IsStat, front, stat_index, no_ring, text_behind, checksum_line-insert,
}

-- A line with the path of a node's checksum and less than two bytes behind it.
abbrev pub IsCut : Bytes → Type 0
IsCut line =
    (i : ℕ) × (index line checksum_path ≡ some i)
    × (contains line (codes "ring.checksum") ≡ false)
    × (length (drop (i + length checksum_path) line) < 2)

abbrev pub HasCut : List Bytes → Type 0
HasCut [] = ⊥
HasCut (l ∷ ls) = IsCut l ⊎ HasCut ls

checksum_line-IsCut :
    (m : List (Bytes × Bytes)) (line : Bytes)
    → IsCut line
    → checksum_line m line ≡ panic slice_out_of_range
unfolding checksum_line store_checksum
checksum_line-IsCut m line (i, found, not_ring, short) =
    rw (checksum_line, found) (rw not_ring (rw (too_short _ short)))
  where
    too_short : (n : ℕ) → n < 2 → ltb n 2 ≡ true
    too_short n h = ground arith

-- a stat of a checksum that ends in the checksum
abbrev pub cut_stat : Stat → Bytes
cut_stat r = front r ++ (checksum_path ++ r.checksum)

cut_stat-IsCut : (r : Stat) → IsStat r → length r.checksum < 2 → IsCut (cut_stat r)
cut_stat-IsCut r h short = (
  length (front r),
  stat_index r r.checksum h,
  no_ring r r.checksum h h.checksum_no_r,
  rw (text_behind r r.checksum) short,
)

-- the lines behind some stats of checksums
for_lines_behind :
    (m : List (Bytes × Bytes)) (ls : List Bytes) (es : List Entry)
    → for_lines checksum_line m (map entry_line es ++ ls)
      ≡ for_lines checksum_line (last_checksums m es) ls
unfolding for_lines last_checksums entry_line
for_lines_behind m ls [] = refl
for_lines_behind m ls (stat r h ∷ es) =
    rw (checksum_line-insert m r h) (for_lines_behind (insert r.host r.checksum m) ls es)
for_lines_behind m ls (other line h ∷ es) =
    rw (checksum_line_other m line h) (for_lines_behind m ls es)

-- After any stats of checksums and other lines, a stat of a checksum that is cut short, so that its
-- line ends behind the path or one byte further, makes `ChecksumsAnalysis` panic on a slice out of
-- range, whatever lines follow and whatever error the scanner ends with: the lines before are dealt
-- with without an error, and the error of the scanner is not reported.
pub checksums_analysis_cut :
    {S : Type 0} (sc : Scanner S) (es : List Entry) (r : Stat) (rest : List Bytes) (fuel : ℕ)
    (s : S) (e : Option Failure)
    → IsStat r
    → length r.checksum < 2
    → length (map entry_line es ++ (cut_stat r ∷ rest)) < fuel
    → Yields sc s (map entry_line es ++ (cut_stat r ∷ rest)) e
    → checksums_analysis sc fuel s ≡ panic slice_out_of_range
unfolding checksums_of for_lines
checksums_analysis_cut sc es r rest fuel s e is short enough y =
    checksums_analysis-checksums_of sc (map entry_line es ++ (cut_stat r ∷ rest)) fuel s e enough y
    ∙ rw (for_lines_behind [] (cut_stat r ∷ rest) es) (
        rw (checksum_line-IsCut (last_checksums [] es) (cut_stat r) (cut_stat-IsCut r is short))
          refl)
