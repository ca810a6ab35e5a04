-- ===== src/Text/Index.antt =====
-- What `strings.Index` finds.
use ringpop_common.Common.{
  ◌≢◌, ℕ, zero, suc, ◌<◌, true, false, none, some, [], ◌∷◌, ◌++◌, ◌≡◌, refl, arith, Bytes, length,
  drop, Lacks,
}
use ringpop_common.Text.{has_prefix, index}

pub has_prefix-append : (p s : Bytes) → has_prefix (p ++ s) p ≡ true
unfolding has_prefix
has_prefix-append [] s = refl
has_prefix-append (c ∷ p) s = ground (arith, has_prefix-append p s)

-- A prefix splits the text.
pub has_prefix_splits : (s p : Bytes) → has_prefix s p ≡ true → s ≡ p ++ drop (length p) s
unfolding has_prefix
has_prefix_splits s [] h = refl
has_prefix_splits [] (c ∷ p) h = cc
has_prefix_splits (x ∷ s) (c ∷ p) h = ground (arith, has_prefix_splits s p)

-- The position found holds the pattern.
pub index-has_prefix : (s p : Bytes) (i : ℕ) → index s p ≡ some i → has_prefix (drop i s) p ≡ true
unfolding index
index-has_prefix [] [] zero h = refl
index-has_prefix [] [] (suc i) h = refl
index-has_prefix [] (c ∷ p) i h = cc
index-has_prefix (c ∷ s) p zero h = ground arith
index-has_prefix (c ∷ s) p (suc i) h = ground (arith, index-has_prefix s p i)

-- No earlier position does.
pub index_first :
    (s p : Bytes) (i j : ℕ) → index s p ≡ some i → j < i → has_prefix (drop j s) p ≡ false
unfolding index
index_first [] [] i j h lt = ground arith
index_first [] (c ∷ p) i j h lt = cc
index_first (c ∷ s) p zero j h lt = absurd (omega arith)
index_first (c ∷ s) p (suc i) zero h lt = ground arith
index_first (c ∷ s) p (suc i) (suc j) h lt = ground (arith, index_first s p i j)

pub index-none : (s p : Bytes) (j : ℕ) → index s p ≡ none → has_prefix (drop j s) p ≡ false
unfolding index
index-none [] [] j h = cc
index-none [] (c ∷ p) zero h = refl
index-none [] (c ∷ p) (suc j) h = refl
index-none (c ∷ s) p zero h = ground arith
index-none (c ∷ s) p (suc j) h = ground (arith, index-none s p j)

-- Behind a text that lacks the pattern's first byte the pattern is found where it stands.
pub index-append :
    (c : ℕ) (pre p rest : Bytes)
    → Lacks c pre
    → index (pre ++ (c ∷ (p ++ rest))) (c ∷ p) ≡ some (length pre)
unfolding index
index-append c [] p rest h = ground (arith, has_prefix-append p rest)
index-append c (x ∷ pre) p rest (hx, h) = ground (arith, index-append c pre p rest h)

-- So too behind a text that lacks the second byte, if that is another one.
pub index-append_second :
    (c d : ℕ) (pre p rest : Bytes)
    → c ≢ d
    → Lacks d pre
    → index (pre ++ (c ∷ d ∷ (p ++ rest))) (c ∷ d ∷ p) ≡ some (length pre)
unfolding index has_prefix
index-append_second c d [] p rest ne h = ground (arith, has_prefix-append p rest)
index-append_second c d (x ∷ []) p rest ne (hx, h) =
    ground (arith, index-append_second c d [] p rest ne tt)
index-append_second c d (x ∷ y ∷ pre) p rest ne (hx, (hy, h)) =
    ground (arith, index-append_second c d (y ∷ pre) p rest ne (hy, h))

-- A text without the pattern's first byte adds no occurrence in front.
pub index-none-append :
    (c : ℕ) (pre p s : Bytes)
    → Lacks c pre
    → index s (c ∷ p) ≡ none
    → index (pre ++ s) (c ∷ p) ≡ none
unfolding index
index-none-append c [] p s h n = n
index-none-append c (x ∷ pre) p s (hx, h) n = ground (arith, index-none-append c pre p s h n)

-- A text that lacks the pattern's first byte lacks the pattern.
pub index-Lacks : (c : ℕ) (s p : Bytes) → Lacks c s → index s (c ∷ p) ≡ none
unfolding index
index-Lacks c [] p h = refl
index-Lacks c (x ∷ s) p (hx, h) = ground (arith, index-Lacks c s p h)
