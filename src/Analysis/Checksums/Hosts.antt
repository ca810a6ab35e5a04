-- ===== src/Analysis/Checksums/Hosts.antt =====
-- `ChecksumsAnalysis` of stat_analysis.go: the host under which the checksum of a line is stored.
use ringpop_common.Common.{
  ℕ, ◌+◌, ◌≤◌, ◌≡◌, refl, ◌∙◌, subst, ◌≢◌, ◌⊎◌, inl, inr, false, some, List, [], ◌∷◌, ◌++◌, arith,
  Bytes, codes, bytes_eq, length, drop, All,
}
use ringpop_common.Common.Dict.{insert}
use ringpop_common.Outcome.{no_host, Outcome, ok, err}
use ringpop_common.Text.{index, contains}
use ringpop_common.Analysis.{checksum_path, store_checksum, checksum_line}
use ringpop_common.Analysis.Host.{hostport_regex, find_host}
use ringpop_common.Analysis.Host.Regex.{
  IsDigit, IsNumber, Spells, Holds, Leftmost, ne-nil, Spells-ne-nil, find_host-Leftmost,
}
use ringpop_common.Analysis.Checksums.Stats.{store_checksum-gauge}

-- from one to `max` decimal digits
abbrev pub IsDecimal : ℕ → Bytes → Type 0
IsDecimal max w = (1 ≤ length w) × (length w ≤ max) × All (λ c. (b'0' ≤ c) × (c ≤ b'9')) w

-- The bytes of an IPv4 address with underscores in place of its dots, and a port behind another.
abbrev pub IsHostPort : Bytes → Type 0
IsHostPort w =
    (a : Bytes) × (b : Bytes) × (c : Bytes) × (d : Bytes) × (port : Bytes) × IsDecimal 3 a
    × IsDecimal 3 b
    × IsDecimal 3 c
    × IsDecimal 3 d
    × IsDecimal 6 port
    × (w ≡ a ++ (b'_' ∷ (b ++ (b'_' ∷ (c ++ (b'_' ∷ (d ++ (b'_' ∷ port))))))))

-- The line holds this host and port behind the text `pre`.
abbrev pub HoldsHost : Bytes → Bytes → Bytes → Type 0
HoldsHost line pre host = IsHostPort host × ((rest : Bytes) × (line ≡ pre ++ (host ++ rest)))

-- What becomes of the checksum of a line.
abbrev pub Stored : Bytes → Bytes → List (Bytes × Bytes) → Outcome (List (Bytes × Bytes)) → Type 0
Stored line checksum m o =
    ((o ≡ err (no_host line)) × ((pre host : Bytes) → ¬ HoldsHost line pre host))
    ⊎ ((pre : Bytes) × (host : Bytes) × HoldsHost line pre host
        × (o ≡ ok (insert host checksum m))
        × ((pre' host' : Bytes)
            → HoldsHost line pre' host'
            → (length pre ≤ length pre') × (pre ≡ pre' → length host' ≤ length host)))

digits-All : (w : Bytes) → All IsDigit w → All (λ c. (b'0' ≤ c) × (c ≤ b'9')) w
digits-All [] h = tt
digits-All (c ∷ w) (hc, h) = ((ground arith, ground arith), digits-All w h)

All-digits : (w : Bytes) → All (λ c. (b'0' ≤ c) × (c ≤ b'9')) w → All IsDigit w
All-digits [] h = tt
All-digits (c ∷ w) ((low, high), h) = (ground arith, All-digits w h)

IsNumber-IsDecimal : (max : ℕ) (w : Bytes) → IsNumber max w → IsDecimal max w
IsNumber-IsDecimal max [] (ne, h, l) = absurd (ne refl)
IsNumber-IsDecimal max (c ∷ w) (ne, h, l) = (omega arith, l, digits-All (c ∷ w) h)

IsDecimal-IsNumber : (max : ℕ) (w : Bytes) → IsDecimal max w → IsNumber max w
IsDecimal-IsNumber max [] (ne, l, h) = absurd (omega arith)
IsDecimal-IsNumber max (c ∷ w) (ne, l, h) = ((λ e. cc), All-digits (c ∷ w) h, l)

Spells-IsHostPort : (w : Bytes) → Spells hostport_regex w → IsHostPort w
Spells-IsHostPort w (a, r1, e1, ha, (b, r2, e2, hb, (c, r3, e3, hc, (d, port, e4, hd, hp)))) = (
  a,
  b,
  c,
  d,
  port,
  IsNumber-IsDecimal 3 a ha,
  IsNumber-IsDecimal 3 b hb,
  IsNumber-IsDecimal 3 c hc,
  IsNumber-IsDecimal 3 d hd,
  IsNumber-IsDecimal 6 port hp,
  rw e1 (rw e2 (rw e3 (rw e4 refl))),
)

IsHostPort-Spells : (w : Bytes) → IsHostPort w → Spells hostport_regex w
IsHostPort-Spells w (a, b, c, d, port, ha, hb, hc, hd, hp, e) =
    let last : Spells (3 ∷ 6 ∷ []) (d ++ (b'_' ∷ port)) =
      (d, port, refl, IsDecimal-IsNumber 3 d hd, IsDecimal-IsNumber 6 port hp) in
    let behind : Spells (3 ∷ 3 ∷ 6 ∷ []) (c ++ (b'_' ∷ (d ++ (b'_' ∷ port)))) =
      (c, d ++ (b'_' ∷ port), refl, IsDecimal-IsNumber 3 c hc, last) in
    let more : Spells (3 ∷ 3 ∷ 3 ∷ 6 ∷ []) (b ++ (b'_' ∷ (c ++ (b'_' ∷ (d ++ (b'_' ∷ port)))))) =
      (b, c ++ (b'_' ∷ (d ++ (b'_' ∷ port))), refl, IsDecimal-IsNumber 3 b hb, behind) in
    (a, b ++ (b'_' ∷ (c ++ (b'_' ∷ (d ++ (b'_' ∷ port))))), e, IsDecimal-IsNumber 3 a ha, more)

HoldsHost-Holds : (line pre host : Bytes) → HoldsHost line pre host → Holds line pre host
HoldsHost-Holds line pre host (h, behind) = (IsHostPort-Spells host h, behind)

stored :
    (line checksum : Bytes) (m : List (Bytes × Bytes))
    → Leftmost line (find_host line)
    → Stored line checksum m (store_checksum line (checksum ++ codes "|g") m)
stored line checksum m (inl (is_nil, no_hold)) = inl (
  store_checksum-gauge line checksum m ∙ rw is_nil (unfold bytes_eq in refl),
  λ pre host h. no_hold pre host (HoldsHost-Holds line pre host h),
)
stored line checksum m (inr (pre, (spelled, behind), longest, first)) = inr (
  pre,
  find_host line,
  (Spells-IsHostPort (find_host line) spelled, behind),
  store_checksum-gauge line checksum m ∙ rw (ne-nil (find_host line) found) refl,
  λ pre' host h. (
    first pre' host (HoldsHost-Holds line pre' host h),
    λ e. longest host (rw e (HoldsHost-Holds line pre' host h)),
  ),
)
  where
    found : find_host line ≢ []
    found e = Spells-ne-nil hostport_regex (subst (Spells hostport_regex) e spelled)

-- A line whose first ".checksum:", not that of the ring's own checksum, has a checksum and the suffix
-- "|g" behind it: if the line holds four numbers of one to three digits and one of one to six, joined
-- by underscores, the checksum is put into the map under the leftmost such text, and the longest at
-- its place; if it holds none, the line is refused with the error that it has no host.
pub checksum_line-Stored :
    (line checksum : Bytes) (i : ℕ) (m : List (Bytes × Bytes))
    → index line checksum_path ≡ some i
    → contains line (codes "ring.checksum") ≡ false
    → drop (i + length checksum_path) line ≡ checksum ++ codes "|g"
    → Stored line checksum m (checksum_line m line)
unfolding checksum_line
checksum_line-Stored line checksum i m found not_ring behind =
    rw (checksum_line, found)
      (rw not_ring (rw behind (stored line checksum m (find_host-Leftmost line))))
