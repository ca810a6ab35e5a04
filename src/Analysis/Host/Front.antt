-- ===== src/Analysis/Host/Front.antt =====
-- Where `find_host` finds the host of a stat: behind a text without underscores that ends in a dot.
use ringpop_common.Common.{
  ℕ, zero, suc, ◌≤◌, ◌<◌, ◌≡◌, refl, ◌⊎◌, inl, inr, none, some, List, [], ◌∷◌, ◌++◌, append_assoc,
  arith, Bool-cases, Option-cases, Bytes, length, drop, All, All-append, Lacks,
}
use ringpop_common.Analysis.Host.{
  is_digit, digits, underscore, match_numbers, hostport_regex, find_host,
}
use ringpop_common.Analysis.Host.Regex.{
  IsDigit, Spells, digits-append, ne-nil, match-More, match_front, Spells-ne-nil,
}

underscore_blocked :
    (m : ℕ) (p s : Bytes)
    → Lacks b'_' p
    → underscore (drop (length (digits m (p ++ (b'.' ∷ s)))) (p ++ (b'.' ∷ s))) ≡ none
unfolding underscore digits
underscore_blocked zero [] s h = refl
underscore_blocked (suc m) [] s h = refl
underscore_blocked zero (c ∷ p) s (hc, h) = ground arith
underscore_blocked (suc m) (c ∷ p) s (hc, h) = elim (Bool-cases (is_digit c)) [
  | inl d ↦ rw d (underscore_blocked m p s h)
  | inr d ↦ rw d (ground arith)
]

match_blocked :
    (m k : ℕ) (ms : List ℕ) (p s : Bytes)
    → Lacks b'_' p
    → match_numbers (m ∷ k ∷ ms) (p ++ (b'.' ∷ s)) ≡ none
match_blocked m k ms p s h = elim (Option-cases (match_numbers (m ∷ k ∷ ms) (p ++ (b'.' ∷ s)))) [
  | inl n ↦ n
  | inr (w, f) ↦
      let (r, v, e, u, g, is) = match-More m k ms (p ++ (b'.' ∷ s)) w f in
      absurd (cc (underscore_blocked m p s h, u))
]

pub find_host_behind : (p s : Bytes) → Lacks b'_' p → find_host (p ++ (b'.' ∷ s)) ≡ find_host s
unfolding find_host
find_host_behind [] s h = rw (match_blocked 3 3 (3 ∷ 3 ∷ 6 ∷ []) [] s h)
find_host_behind (c ∷ p) s h =
    rw (match_blocked 3 3 (3 ∷ 3 ∷ 6 ∷ []) (c ∷ p) s h) (find_host_behind p s h.1)

match_exact :
    (ms : List ℕ) (w s : Bytes) → Spells ms w → match_numbers ms (w ++ (b'.' ∷ s)) ≡ some w
match_exact [] w s h = absurd h
match_exact (m ∷ []) w s (ne, all, len) =
    unfold match_numbers in rw (digits-append m b'.' w s all len refl) (rw (ne-nil w ne))
match_exact (m ∷ k ∷ ms) w s (d, r, is, num, h) = rw is (
    rw (append_assoc d (b'_' ∷ r) (b'.' ∷ s))
      (match_front m k ms d (r ++ (b'.' ∷ s)) r num (match_exact (k ∷ ms) r s h)))

pub find_host_front : (w s : Bytes) → Spells hostport_regex w → find_host (w ++ (b'.' ∷ s)) ≡ w
find_host_front [] s h = absurd (Spells-ne-nil hostport_regex h)
find_host_front (c ∷ w) s h = unfold find_host in rw (match_exact hostport_regex (c ∷ w) s h)

-- A host and port holds digits and underscores only.
abbrev pub IsHostByte : ℕ → Type 0
IsHostByte c = (b'0' ≤ c) × (c ≤ b'9') ⊎ (c ≡ b'_')

digits-IsHostByte : (d : Bytes) → All IsDigit d → All IsHostByte d
digits-IsHostByte [] h = tt
digits-IsHostByte (c ∷ d) (hc, h) = (inl (ground arith, ground arith), digits-IsHostByte d h)

pub Spells-IsHostByte : (ms : List ℕ) (w : Bytes) → Spells ms w → All IsHostByte w
Spells-IsHostByte [] w h = absurd h
Spells-IsHostByte (m ∷ []) w h = digits-IsHostByte w h.1
Spells-IsHostByte (m ∷ k ∷ ms) w (d, r, is, num, h) = rw is (
    All-append _ d (b'_' ∷ r) (digits-IsHostByte d num.1)
      (inr refl, Spells-IsHostByte (k ∷ ms) r h))

pub IsHostByte-Lacks : (b : ℕ) (w : Bytes) → (b < b'0') ⊎ (b'_' < b) → All IsHostByte w → Lacks b w
IsHostByte-Lacks b [] h hw = tt
IsHostByte-Lacks b (c ∷ w) h (hc, hw) = ((λ e. ground arith), IsHostByte-Lacks b w h hw)
