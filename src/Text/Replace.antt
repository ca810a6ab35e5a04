-- ===== src/Text/Replace.antt =====
-- What `strings.Replace` does around and at an occurrence, and for texts of one byte.
use ringpop_common.Common.{
  ℕ, suc, ◌-◌, ◌≡◌, refl, ap, ◌∙◌, false, [], ◌∷◌, ◌++◌, map, arith, ◌==◌, if◌then◌else◌, Bytes,
  length, Lacks,
}
use ringpop_common.Text.{has_prefix, replace_from, replace_all}
use ringpop_common.Text.Index.{has_prefix-append}

module _ (old new : Bytes) where
  replace_from-append :
      (p s : Bytes) → replace_from old new (length p) (p ++ s) ≡ replace_from old new 0 s
  unfolding replace_from
  replace_from-append [] s = refl
  replace_from-append (c ∷ p) s = replace_from-append p s

-- An occurrence at the front is replaced.
pub replace_from_hit :
    (o : ℕ) (old new s : Bytes)
    → replace_from (o ∷ old) new 0 (o ∷ (old ++ s)) ≡ new ++ replace_from (o ∷ old) new 0 s
unfolding replace_from
replace_from_hit o old new s =
    rw (has_prefix-append (o ∷ old) s, replace_from)
      (let e : suc (length old) - 1 ≡ length old = omega arith in
        rw e (ap (◌++◌ new) (replace_from-append (o ∷ old) new old s)))

-- Where no occurrence begins, a byte is copied.
pub replace_from_miss :
    (old new s : Bytes) (c : ℕ)
    → has_prefix (c ∷ s) old ≡ false
    → replace_from old new 0 (c ∷ s) ≡ c ∷ replace_from old new 0 s
unfolding replace_from
replace_from_miss old new s c h = rw (h, replace_from)

-- A text without the first byte of `old` is copied.
pub replace_from-Lacks :
    (o : ℕ) (old new p s : Bytes)
    → Lacks o p
    → replace_from (o ∷ old) new 0 (p ++ s) ≡ p ++ replace_from (o ∷ old) new 0 s
replace_from-Lacks o old new [] s h = refl
replace_from-Lacks o old new (c ∷ p) s (hc, h) =
    replace_from_miss (o ∷ old) new (p ++ s) c (unfold has_prefix in ground arith)
    ∙ ap (◌∷◌ c) (replace_from-Lacks o old new p s h)

replace_from-map :
    (o n : ℕ) (s : Bytes)
    → replace_from (o ∷ []) (n ∷ []) 0 s ≡ map (λ c. if c == o then n else c) s
unfolding replace_from has_prefix
replace_from-map o n [] = refl
replace_from-map o n (c ∷ s) = ground (arith, replace_from-map o n s)

-- Replacing a byte by a byte works byte by byte.
pub replace_all-map :
    (o n : ℕ) (s : Bytes) → replace_all s (o ∷ []) (n ∷ []) ≡ map (λ c. if c == o then n else c) s
unfolding replace_all
replace_all-map o n s = replace_from-map o n s
