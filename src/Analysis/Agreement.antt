-- ===== src/Analysis/Agreement.antt =====
-- `ChecksumsAnalysis` of stat_analysis.go against what each host reported last.
use ringpop_common.Common.{
  ℕ, ◌<◌, ◌≡◌, refl, sym, ap, ◌∙◌, ◌↔◌, inl, inr, true, Option, none, some, List, [], ◌∷◌, map,
  arith, if◌then◌else◌, Bool-cases, Bytes, bytes_eq, bytes_eq_iff, bytes_eq_refl, length,
}
use ringpop_common.Common.Dict.{lookup, insert, lookup-insert}
use ringpop_common.Outcome.{Failure}
use ringpop_common.Scanner.{Scanner, Yields}
use ringpop_common.Analysis.{uniq, gather, checksums_analysis}
use ringpop_common.Analysis.Distinct.{elem, Distinct, has_value, gather-Distinct, elem-gather}
use ringpop_common.Analysis.Checksums.{
  Entry, stat, other, entry_line, last_checksums, reported, checksums_analysis-last_checksums,
}

-- the checksum in the last stat of the host, or else the one known before
unfoldable pub checksum_of : Bytes → Option Bytes → List Entry → Option Bytes
checksum_of host known [] = known
checksum_of host known (stat r h ∷ es) =
    checksum_of host (if bytes_eq r.host host then some r.checksum else known) es
checksum_of host known (other line h ∷ es) = checksum_of host known es

lookup-last_checksums :
    (host : Bytes) (m : List (Bytes × Bytes)) (es : List Entry)
    → lookup host (last_checksums m es) ≡ checksum_of host (lookup host m) es
unfolding last_checksums checksum_of
lookup-last_checksums host m [] = refl
lookup-last_checksums host m (stat r h ∷ es) =
    lookup-last_checksums host (insert r.host r.checksum m) es
    ∙ ap (λ known. checksum_of host known es) (lookup-insert r.host host r.checksum m)
lookup-last_checksums host m (other line h ∷ es) = lookup-last_checksums host m es

-- A map holds each key once.
abbrev Keyed : List (Bytes × Bytes) → Type 0
Keyed [] = Unit
Keyed ((k, v) ∷ m) = (lookup k m ≡ none) × Keyed m

insert-Keyed : (k v : Bytes) (m : List (Bytes × Bytes)) → Keyed m → Keyed (insert k v m)
unfolding insert
insert-Keyed k v [] h = (unfold lookup in refl, tt)
insert-Keyed k v ((j, w) ∷ m) (hj, h) = elim (Bool-cases (bytes_eq j k)) [
  | inl e ↦ rw e (hj, h)
  | inr n ↦ rw n (
    ground (arith, lookup-insert k j v m, bytes_eq_iff k j, bytes_eq_iff j k),
    insert-Keyed k v m h,
  )
]

last_checksums-Keyed :
    (m : List (Bytes × Bytes)) (es : List Entry) → Keyed m → Keyed (last_checksums m es)
unfolding last_checksums
last_checksums-Keyed m [] h = h
last_checksums-Keyed m (stat r is ∷ es) h =
    last_checksums-Keyed (insert r.host r.checksum m) es (insert-Keyed r.host r.checksum m h)
last_checksums-Keyed m (other line is ∷ es) h = last_checksums-Keyed m es h

has_value-lookup :
    (c : Bytes) (m : List (Bytes × Bytes))
    → Keyed m
    → has_value c m ≡ true
    → (host : Bytes) × (lookup host m ≡ some c)
unfolding has_value lookup
has_value-lookup c [] h e = absurd (cc)
has_value-lookup c ((k, v) ∷ m) (hk, h) e = elim (Bool-cases (bytes_eq v c)) [
  | inl same ↦ (k, rw (bytes_eq_refl k) (ap some ((bytes_eq_iff v c).0 same)))
  | inr n ↦
      let (host, found) = has_value-lookup c m h (rw n at e) in
      (
        host,
        elim (Bool-cases (bytes_eq k host)) [
          | inl same ↦ let is : k ≡ host = (bytes_eq_iff k host).0 same in absurd (cc (rw is at hk))
          | inr ne ↦ rw ne found
        ],
      )
]

lookup-has_value :
    (c host : Bytes) (m : List (Bytes × Bytes)) → lookup host m ≡ some c → has_value c m ≡ true
unfolding has_value lookup
lookup-has_value c host [] e = absurd (cc)
lookup-has_value c host ((k, v) ∷ m) e = ground (arith, lookup-has_value c host m, bytes_eq_iff v c)

-- the values of the map of last checksums are the last checksums of the hosts
has_value-checksum_of :
    (c : Bytes) (es : List Entry)
    → (has_value c (last_checksums [] es) ≡ true)
      ↔ ((host : Bytes) × (checksum_of host none es ≡ some c))
has_value-checksum_of c es = (
  (λ e.
      let (host, found) =
        has_value-lookup c (last_checksums [] es) (last_checksums-Keyed [] es tt) e in
      (host, sym (last host) ∙ found)),
  (λ (host, known). lookup-has_value c host (last_checksums [] es) (last host ∙ known)),
)
  where
    last : (host : Bytes) → lookup host (last_checksums [] es) ≡ checksum_of host none es
    last host = unfold lookup in lookup-last_checksums host [] es

-- `ChecksumsAnalysis` of a scanner that yields stats of checksums and lines that are none, with more
-- fuel than lines: it reports the length of a list of distinct texts that holds exactly the checksums
-- that some host has in its last stat. An error of the scanner is reported in place of the number.
pub checksums_analysis-checksum_of :
    {S : Type 0} (sc : Scanner S) (es : List Entry) (fuel : ℕ) (s : S) (e : Option Failure)
    → length (map entry_line es) < fuel
    → Yields sc s (map entry_line es) e
    → (u : List Bytes) × Distinct u
      × ((c : Bytes) → (elem c u ≡ true) ↔ ((host : Bytes) × (checksum_of host none es ≡ some c)))
      × (checksums_analysis sc fuel s ≡ reported e (length u))
unfolding uniq elem
checksums_analysis-checksum_of sc es fuel s e enough y = (
  gather [] (last_checksums [] es),
  gather-Distinct [] (last_checksums [] es) tt,
  (λ c. rw (elem-gather c [] (last_checksums [] es)) (has_value-checksum_of c es)),
  checksums_analysis-last_checksums sc es fuel s e enough y,
)
