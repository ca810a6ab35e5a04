-- ===== src/Analysis/Host/Regex.antt =====
-- `find_host` against the language of `hostportRegex`.
use ringpop_common.Common.{
  ℕ, zero, suc, ◌≤◌, ◌≡◌, refl, sym, ap, ◌∙◌, ◌≢◌, ◌⊎◌, inl, inr, true, false, none, some, List, [],
  ◌∷◌, ◌++◌, append_assoc, arith, Bool-cases, Option-cases, Bytes, bytes_eq, bytes_eq_iff, length,
  length-append, drop, drop-append, All,
}
use ringpop_common.Analysis.Host.{
  is_digit, digits, underscore, match_numbers, hostport_regex, find_host,
}

abbrev pub IsDigit : ℕ → Type 0
IsDigit c = is_digit c ≡ true

-- [0-9]{1,max}
abbrev pub IsNumber : ℕ → Bytes → Type 0
IsNumber max w = (w ≢ []) × All IsDigit w × (length w ≤ max)

-- numbers with an underscore between each two
abbrev pub Spells : List ℕ → Bytes → Type 0
Spells [] w = ⊥
Spells (m ∷ []) w = IsNumber m w
Spells (m ∷ k ∷ ms) w =
    (d : Bytes) × (r : Bytes) × (w ≡ d ++ (b'_' ∷ r)) × IsNumber m d × Spells (k ∷ ms) r

digits-All : (m : ℕ) (s : Bytes) → All IsDigit (digits m s) × (length (digits m s) ≤ m)
unfolding digits
digits-All zero s = (tt, omega arith)
digits-All (suc m) [] = (tt, omega arith)
digits-All (suc m) (c ∷ s) = elim (Bool-cases (is_digit c)) [
  | inl h ↦ rw h ((h, (digits-All m s).0), omega (arith, (digits-All m s).1))
  | inr h ↦ rw h (tt, omega arith)
]

digits-append-drop : (m : ℕ) (s : Bytes) → s ≡ digits m s ++ drop (length (digits m s)) s
unfolding digits
digits-append-drop zero s = refl
digits-append-drop (suc m) [] = refl
digits-append-drop (suc m) (c ∷ s) = elim (Bool-cases (is_digit c)) [
  | inl h ↦ rw h (ap (◌∷◌ c) (digits-append-drop m s))
  | inr h ↦ rw h
]

-- a number is taken whole if no digit follows
pub digits-append :
    (m c : ℕ) (d s : Bytes)
    → All IsDigit d
    → length d ≤ m
    → is_digit c ≡ false
    → digits m (d ++ (c ∷ s)) ≡ d
unfolding digits
digits-append zero c [] s h l n = refl
digits-append (suc m) c [] s h l n = rw n
digits-append zero c (x ∷ d) s h l n = absurd (omega arith)
digits-append (suc m) c (x ∷ d) s (hx, h) l n =
    rw hx (ap (◌∷◌ x) (digits-append m c d s h (omega arith) n))

-- as many digits are taken as there can be
length-digits :
    (m : ℕ) (d s : Bytes) → All IsDigit d → length d ≤ m → length d ≤ length (digits m (d ++ s))
unfolding digits
length-digits m [] s h l = omega arith
length-digits zero (x ∷ d) s h l = absurd (omega arith)
length-digits (suc m) (x ∷ d) s (hx, h) l =
    rw hx (omega (arith, length-digits m d s h (omega arith)))

digits-ne-nil : (m : ℕ) (d s : Bytes) → IsNumber m d → digits m (d ++ s) ≢ []
unfolding digits
digits-ne-nil m [] s (ne, h, l) = absurd (ne refl)
digits-ne-nil zero (x ∷ d) s (ne, h, l) = absurd (omega arith)
digits-ne-nil (suc m) (x ∷ d) s (ne, (hx, h), l) = rw hx (cc)

pub ne-nil : (w : Bytes) → w ≢ [] → bytes_eq w [] ≡ false
ne-nil w h = elim (Bool-cases (bytes_eq w [])) [
  | inl e ↦ absurd (h ((bytes_eq_iff w []).0 e))
  | inr e ↦ e
]

not-nil : (w : Bytes) → bytes_eq w [] ≡ false → w ≢ []
not-nil w h e = cc (sym h, (bytes_eq_iff w []).1 e)

underscore-some : (s r : Bytes) → underscore s ≡ some r → s ≡ b'_' ∷ r
unfolding underscore
underscore-some [] r h = cc
underscore-some (c ∷ s) r h = ground arith

abbrev Matched : List ℕ → Bytes → Bytes → Type 0
Matched ms s w = Spells ms w × ((rest : Bytes) × (s ≡ w ++ rest))

match_last : (m : ℕ) (s w : Bytes) → match_numbers (m ∷ []) s ≡ some w → Matched (m ∷ []) s w
unfolding match_numbers
match_last m s w h = elim (Bool-cases (bytes_eq (digits m s) [])) [
  | inl e ↦ cc (rw e at h)
  | inr e ↦
      let same : digits m s ≡ w = ground (arith, rw e at h) in
      rw (← same) (
        (not-nil (digits m s) e, (digits-All m s).0, (digits-All m s).1),
        (drop (length (digits m s)) s, digits-append-drop m s),
      )
]

abbrev pub More : ℕ → ℕ → List ℕ → Bytes → Bytes → Type 0
More m k ms s w =
    (r : Bytes) × (v : Bytes) × (bytes_eq (digits m s) [] ≡ false)
    × (underscore (drop (length (digits m s)) s) ≡ some r)
    × (match_numbers (k ∷ ms) r ≡ some v)
    × (w ≡ digits m s ++ (b'_' ∷ v))

pub match-More :
    (m k : ℕ) (ms : List ℕ) (s w : Bytes) → match_numbers (m ∷ k ∷ ms) s ≡ some w → More m k ms s w
unfolding match_numbers
match-More m k ms s w h = elim (Bool-cases (bytes_eq (digits m s) [])) [
  | inl e ↦ cc (rw e at h)
  | inr e ↦ elim (Option-cases (underscore (drop (length (digits m s)) s))) [
    | inl n ↦ cc (rw (e, n) at h)
    | inr (r, u) ↦ elim (Option-cases (match_numbers (k ∷ ms) r)) [
      | inl n ↦ cc (rw (e, u, n) at h)
      | inr (v, f) ↦ (r, v, e, u, f, ground (arith, rw (e, u, f) at h))
    ]
  ]
]

-- What is matched is in the language, and stands at the front of the text.
match_numbers-Spells : (ms : List ℕ) (s w : Bytes) → match_numbers ms s ≡ some w → Matched ms s w
match_numbers-Spells [] s w h = unfold match_numbers in cc
match_numbers-Spells (m ∷ []) s w h = match_last m s w h
match_numbers-Spells (m ∷ k ∷ ms) s w h =
    let (r, v, e, u, f, is) = match-More m k ms s w h in
    let (spelled, tail) = match_numbers-Spells (k ∷ ms) r v f in
    (
      (
        digits m s,
        v,
        is,
        (not-nil (digits m s) e, (digits-All m s).0, (digits-All m s).1),
        spelled,
      ),
      (
        tail.0,
        digits-append-drop m s
            ∙ ap (λ t. digits m s ++ t)
                (underscore-some (drop (length (digits m s)) s) r u ∙ ap (◌∷◌ b'_') tail.1)
            ∙ sym (ap (λ t. t ++ tail.0) is ∙ append_assoc (digits m s) (b'_' ∷ v) tail.0),
      ),
    )

pub match_front :
    (m k : ℕ) (ms : List ℕ) (d s v : Bytes)
    → IsNumber m d
    → match_numbers (k ∷ ms) s ≡ some v
    → match_numbers (m ∷ k ∷ ms) (d ++ (b'_' ∷ s)) ≡ some (d ++ (b'_' ∷ v))
unfolding match_numbers
match_front m k ms d s v (ne, all, len) f =
    rw (digits-append m b'_' d s all len refl)
      (rw (ne-nil d ne) (rw (drop-append d (b'_' ∷ s)) (rw f refl)))

-- A text that begins with a word of the language has a match at its front, of at least its length.
match_numbers_complete :
    (ms : List ℕ) (w rest : Bytes)
    → Spells ms w
    → (v : Bytes) × (match_numbers ms (w ++ rest) ≡ some v) × (length w ≤ length v)
match_numbers_complete [] w rest h = absurd h
match_numbers_complete (m ∷ []) w rest h = (
  digits m (w ++ rest),
  (unfold match_numbers in rw (ne-nil (digits m (w ++ rest)) (digits-ne-nil m w rest h))),
  length-digits m w rest h.1 h.2,
)
match_numbers_complete (m ∷ k ∷ ms) w rest (d, r, is, num, spelled) =
    let (v, f, long) = match_numbers_complete (k ∷ ms) r rest spelled in
    (
      d ++ (b'_' ∷ v),
      rw is (rw (append_assoc d (b'_' ∷ r) rest) (match_front m k ms d (r ++ rest) v num f)),
      rw is (omega (arith, length-append d (b'_' ∷ r), length-append d (b'_' ∷ v), long)),
    )

-- Where the text holds a word of the language, at this position.
abbrev pub Holds : Bytes → Bytes → Bytes → Type 0
Holds s pre w = Spells hostport_regex w × ((rest : Bytes) × (s ≡ pre ++ (w ++ rest)))

-- The two ways in which `FindString` ends: no match anywhere, or a match with none further left and
-- none longer at its place.
abbrev pub Leftmost : Bytes → Bytes → Type 0
Leftmost s found =
    ((found ≡ []) × ((pre w : Bytes) → ¬ Holds s pre w))
    ⊎ ((pre : Bytes) × Holds s pre found
        × ((w : Bytes) → Holds s pre w → length w ≤ length found)
        × ((pre' w : Bytes) → Holds s pre' w → length pre ≤ length pre'))

pub Spells-ne-nil : (ms : List ℕ) → ¬ Spells ms []
Spells-ne-nil [] h = h
Spells-ne-nil (m ∷ []) h = h.0 refl
Spells-ne-nil (m ∷ k ∷ ms) ([], r, is, num, h) = cc
Spells-ne-nil (m ∷ k ∷ ms) (c ∷ d, r, is, num, h) = cc

no_match-Holds : (s w : Bytes) → match_numbers hostport_regex s ≡ none → ¬ Holds s [] w
no_match-Holds s w h (spelled, (rest, e)) =
    let (v, f, _) = match_numbers_complete hostport_regex w rest spelled in cc (rw (← e) at f)

-- what is matched is the longest
match_numbers_longest :
    (s v w : Bytes) → match_numbers hostport_regex s ≡ some v → Holds s [] w → length w ≤ length v
match_numbers_longest s v w found (spelled, (rest, e)) =
    let (v', f, long) = match_numbers_complete hostport_regex w rest spelled in
    let same : some v' ≡ some v = sym (rw (← e) at f) ∙ found in
    let is : v' ≡ v = cc same in rw (← is) long

Leftmost-cons :
    (c : ℕ) (s found : Bytes)
    → match_numbers hostport_regex (c ∷ s) ≡ none
    → Leftmost s found
    → Leftmost (c ∷ s) found
Leftmost-cons c s found n (inl (is_nil, no_hold)) = inl (is_nil, none_here)
  where
    none_here : (pre w : Bytes) → ¬ Holds (c ∷ s) pre w
    none_here [] w h = no_match-Holds (c ∷ s) w n h
    none_here (x ∷ pre) w (spelled, (rest, e)) = no_hold pre w (spelled, (rest, cc))
Leftmost-cons c s found n (inr (pre, (spelled, (rest, e)), long, first)) =
    inr (c ∷ pre, (spelled, (rest, ap (◌∷◌ c) e)), longest, later)
  where
    longest : (w : Bytes) → Holds (c ∷ s) (c ∷ pre) w → length w ≤ length found
    longest w (sp, (r, e')) = long w (sp, (r, cc))

    later : (pre' w : Bytes) → Holds (c ∷ s) pre' w → length (c ∷ pre) ≤ length pre'
    later [] w h = absurd (no_match-Holds (c ∷ s) w n h)
    later (x ∷ pre') w (sp, (r, e')) = omega (arith, first pre' w (sp, (r, cc)))

-- `FindString` of `hostportRegex`, against the pattern itself.
pub find_host-Leftmost : (s : Bytes) → Leftmost s (find_host s)
unfolding find_host
find_host-Leftmost [] = inl (refl, no_hold)
  where
    no_hold : (pre w : Bytes) → ¬ Holds [] pre w
    no_hold [] [] (h, r) = Spells-ne-nil hostport_regex h
    no_hold [] (c ∷ w) (h, (rest, e)) = cc
    no_hold (x ∷ pre) w (h, (rest, e)) = cc
find_host-Leftmost (c ∷ s) = elim (Option-cases (match_numbers hostport_regex (c ∷ s))) [
  | inl n ↦ rw n (Leftmost-cons c s (find_host s) n (find_host-Leftmost s))
  | inr (w, f) ↦ rw f (
      let (spelled, tail) = match_numbers-Spells hostport_regex (c ∷ s) w f in
      inr (
        [],
        (spelled, tail),
        (λ v h. match_numbers_longest (c ∷ s) w v f h),
        (λ pre' v h. omega arith),
      ))
]
