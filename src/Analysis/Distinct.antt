-- ===== src/Analysis/Distinct.antt =====
-- `uniq` of stat_analysis.go counts the distinct values of a map, whatever the order of iteration.
use ringpop_common.Common.{
  suc, ◌≡◌, refl, sym, ◌∙◌, ◌↔◌, inl, inr, Bool, true, false, not, ◌&&◌, ◌||◌, List, [], ◌∷◌, arith,
  if◌then◌else◌, Bool-cases, Bytes, bytes_eq, bytes_eq_iff, bytes_eq_refl, length,
}
use mathlib.Core.List.{Perm, Permᴰ}
use mathlib.Core.List.Permᴰ.{nil, cons, swap, trans}
use mathlib.Core.Logic.{∥∥₁_elim}
use native.Mathlib.Nat.{ℕ_set}
use ringpop_common.Analysis.{add_value, gather, uniq}

unfoldable pub elem : Bytes → List Bytes → Bool
elem c [] = false
elem c (v ∷ u) = bytes_eq v c || elem c u

abbrev pub Distinct : List Bytes → Type 0
Distinct [] = Unit
Distinct (v ∷ u) = (elem v u ≡ false) × Distinct u

-- is this one of the map's values?
unfoldable pub has_value : Bytes → List (Bytes × Bytes) → Bool
has_value c [] = false
has_value c ((host, v) ∷ m) = bytes_eq v c || has_value c m

elem-add_value :
    (c v : Bytes) (u : List Bytes) → elem c (add_value v u) ≡ (bytes_eq v c || elem c u)
unfolding elem add_value
elem-add_value c v [] = refl
elem-add_value c v (w ∷ u) =
    ground (arith, elem-add_value c v u, bytes_eq_iff w v, bytes_eq_iff v c, bytes_eq_iff w c)

add_value-Distinct : (v : Bytes) (u : List Bytes) → Distinct u → Distinct (add_value v u)
unfolding add_value
add_value-Distinct v [] h = (unfold elem in refl, tt)
add_value-Distinct v (w ∷ u) (hw, h) = elim (Bool-cases (bytes_eq w v)) [
  | inl e ↦ rw e (hw, h)
  | inr n ↦ rw n (
    ground (arith, elem-add_value w v u, bytes_eq_iff v w, bytes_eq_iff w v),
    add_value-Distinct v u h,
  )
]

pub gather-Distinct :
    (u : List Bytes) (m : List (Bytes × Bytes)) → Distinct u → Distinct (gather u m)
unfolding gather
gather-Distinct u [] h = h
gather-Distinct u ((host, v) ∷ m) h = gather-Distinct (add_value v u) m (add_value-Distinct v u h)

pub elem-gather :
    (c : Bytes) (u : List Bytes) (m : List (Bytes × Bytes))
    → elem c (gather u m) ≡ (elem c u || has_value c m)
unfolding gather has_value
elem-gather c u [] = ground arith
elem-gather c u ((host, v) ∷ m) =
    ground (arith, elem-gather c (add_value v u) m, elem-add_value c v u)

-- Two lists of distinct texts with the same texts have the same length.
remove : Bytes → List Bytes → List Bytes
remove c [] = []
remove c (v ∷ u) = if bytes_eq v c then u else v ∷ remove c u

length-remove :
    (c : Bytes) (u : List Bytes) → elem c u ≡ true → length u ≡ suc (length (remove c u))
unfolding remove elem
length-remove c [] h = cc
length-remove c (v ∷ u) h = ground (arith, length-remove c u)

elem-remove :
    (c d : Bytes) (u : List Bytes)
    → Distinct u
    → elem d (remove c u) ≡ (elem d u && not (bytes_eq c d))
unfolding remove elem
elem-remove c d [] h = refl
elem-remove c d (v ∷ u) (hv, h) =
    ground (arith, bytes_eq_iff v c, bytes_eq_iff c d, bytes_eq_iff v d, elem-remove c d u h)

remove-Distinct : (c : Bytes) (u : List Bytes) → Distinct u → Distinct (remove c u)
unfolding remove
remove-Distinct c [] h = tt
remove-Distinct c (v ∷ u) (hv, h) = elim (Bool-cases (bytes_eq v c)) [
  | inl e ↦ rw e h
  | inr n ↦ rw n (ground (arith, elem-remove c v u h), remove-Distinct c u h)
]

length-Distinct :
    (u w : List Bytes)
    → Distinct u
    → Distinct w
    → ((c : Bytes) → elem c u ≡ elem c w)
    → length u ≡ length w
length-Distinct [] [] hu hw same = refl
length-Distinct [] (v ∷ w) hu hw same =
    absurd (unfold elem in ground (arith, same v, bytes_eq_refl v))
length-Distinct (v ∷ u) w (hv, hu) hw same =
    let here : elem v w ≡ true = sym (same v) ∙ unfold elem in rw (bytes_eq_refl v) in
    let rest : length u ≡ length (remove v w) =
      length-Distinct u (remove v w) hu (remove-Distinct v w hw) (λ c. without c) in
    omega (arith, length-remove v w here)
  where
    without : (c : Bytes) → elem c u ≡ elem c (remove v w)
    without c = unfold elem in ground (arith, elem-remove v c w hw, same c, bytes_eq_iff v c)

-- Whatever list of distinct texts holds exactly the values of the map, `uniq` is its length.
pub uniq-length :
    (m : List (Bytes × Bytes)) (u : List Bytes)
    → Distinct u
    → ((c : Bytes) → elem c u ≡ has_value c m)
    → uniq m ≡ length u
unfolding uniq elem
uniq-length m u h same =
    length-Distinct (gather [] m) u (gather-Distinct [] m tt) h
      (λ c. elem-gather c [] m ∙ sym (same c))

-- `v` is the one value of the map.
abbrev pub IsOnly : Bytes → List (Bytes × Bytes) → Type 0
IsOnly v m = (c : Bytes) → has_value c m ≡ bytes_eq v c

-- One value is counted exactly where all hosts have the same.
pub uniq_one_iff : (m : List (Bytes × Bytes)) → (uniq m ≡ 1) ↔ ((v : Bytes) × IsOnly v m)
unfolding uniq elem
uniq_one_iff m = (
  (λ e. only (gather [] m) e (λ c. elem-gather c [] m)),
  (λ (v, h). uniq-length m (v ∷ []) (refl, tt) (λ c. ground (arith, h c))),
)
  where
    only :
        (u : List Bytes)
        → length u ≡ 1
        → ((c : Bytes) → elem c u ≡ has_value c m)
        → (v : Bytes) × IsOnly v m
    only [] e h = absurd (omega arith)
    only (v ∷ []) e h = (v, (λ c. ground (arith, h c)))
    only (v ∷ w ∷ u) e h = absurd (omega arith)

swap_or : (a b c : Bool) → (a || (b || c)) ≡ (b || (a || c))
swap_or a b c = ground arith

has_value-perm :
    {m m' : List (Bytes × Bytes)} (c : Bytes) → Permᴰ m m' → has_value c m ≡ has_value c m'
unfolding has_value
has_value-perm c nil = refl
has_value-perm c (cons {a} {b} e p) = rw e (rw (has_value-perm c p))
has_value-perm c (swap {a} {b} {a'} {b'} {l} e f) =
    rw (e, f) (swap_or (bytes_eq b'.1 c) (bytes_eq a'.1 c) (has_value c l))
has_value-perm c (trans p q) = has_value-perm c p ∙ has_value-perm c q

uniq-permᴰ : {m m' : List (Bytes × Bytes)} → Permᴰ m m' → uniq m ≡ uniq m'
unfolding uniq has_value elem
uniq-permᴰ {m} {m'} p =
    uniq-length m (gather [] m') (gather-Distinct [] m' tt)
      (λ c. elem-gather c [] m' ∙ sym (has_value-perm c p))

-- `uniq` gives the same count for two maps with the same entries, in whatever order: it does not
-- depend on the order in which Go walks the map.
pub uniq-perm : {m m' : List (Bytes × Bytes)} → Perm m m' → uniq m ≡ uniq m'
uniq-perm p = ∥∥₁_elim p (ℕ_set _ _) uniq-permᴰ
