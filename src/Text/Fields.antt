-- ===== src/Text/Fields.antt =====
-- `strings.Fields` takes apart what `strings.Join` with a blank puts together, and yields no empty
-- word.
use ringpop_common.Common.{
  ℕ, zero, suc, ◌≤◌, ◌≡◌, refl, sym, ap, ◌∙◌, ◌≢◌, inl, inr, List, [], ◌∷◌, ◌++◌, append-nil,
  append_assoc, arith, Bytes, ℕ_cases, All,
}
use ringpop_common.Text.{join, emit, fields_from, fields}
use ringpop_common.Text.Utf8.{space_width, space_width_visible}

-- A visible ASCII character.
abbrev pub Visible : ℕ → Type 0
Visible c = (33 ≤ c) × (c ≤ 126)

abbrev pub IsWord : Bytes → Type 0
IsWord w = (w ≢ []) × All Visible w

fields_from_step :
    (word s : Bytes) (c : ℕ)
    → space_width (c ∷ s) ≡ 0
    → fields_from 0 word (c ∷ s) ≡ fields_from 0 (word ++ c ∷ []) s
unfolding fields_from
fields_from_step word s c h = rw (h, fields_from)

fields_from-append :
    (word w s : Bytes) → All Visible w → fields_from 0 word (w ++ s) ≡ fields_from 0 (word ++ w) s
fields_from-append word [] s h = rw append-nil
fields_from-append word (c ∷ w) s (hc, h) =
    fields_from_step word (w ++ s) c (space_width_visible c (w ++ s) (ground arith))
    ∙ fields_from-append (word ++ c ∷ []) w s h
    ∙ rw append_assoc

fields_from_blank :
    (word s : Bytes) → word ≢ [] → fields_from 0 word (b' ' ∷ s) ≡ word ∷ fields_from 0 [] s
unfolding fields_from space_width
fields_from_blank [] s h = absurd (h refl)
fields_from_blank (c ∷ word) s h = refl

fields_from-nil : (word : Bytes) → word ≢ [] → fields_from 0 word [] ≡ word ∷ []
unfolding fields_from
fields_from-nil [] h = absurd (h refl)
fields_from-nil (c ∷ word) h = refl

-- A word in front of a blank is the first field.
pub fields-cons : (w s : Bytes) → IsWord w → fields (w ++ (b' ' ∷ s)) ≡ w ∷ fields s
unfolding fields
fields-cons w s (ne, vis) = fields_from-append [] w (b' ' ∷ s) vis ∙ fields_from_blank w s ne

-- Words joined by blanks are read back.
pub fields-join : (ws : List Bytes) → All IsWord ws → fields (join ws (b' ' ∷ [])) ≡ ws
unfolding fields join
fields-join [] h = unfold fields_from in refl
fields-join (w ∷ []) ((ne, vis), h) =
    ap (fields_from 0 []) (sym (append-nil w))
    ∙ fields_from-append [] w [] vis
    ∙ fields_from-nil w ne
fields-join (w ∷ v ∷ ws) ((ne, vis), h) =
    fields_from-append [] w (b' ' ∷ join (v ∷ ws) (b' ' ∷ [])) vis
    ∙ fields_from_blank w (join (v ∷ ws) (b' ' ∷ [])) ne
    ∙ ap (◌∷◌ w) (fields-join (v ∷ ws) h)

emit-All :
    (word : Bytes) (rest : List Bytes) → All (λ w. w ≢ []) rest → All (λ w. w ≢ []) (emit word rest)
emit-All [] rest h = h
emit-All (c ∷ word) rest h = (cc, h)

fields_from-All : (k : ℕ) (word s : Bytes) → All (λ w. w ≢ []) (fields_from k word s)
unfolding fields_from
fields_from-All zero word [] = emit-All word [] tt
fields_from-All (suc k) word [] = emit-All word [] tt
fields_from-All (suc k) word (c ∷ s) = fields_from-All k word s
fields_from-All zero word (c ∷ s) = elim (ℕ_cases (space_width (c ∷ s))) [
  | inl e ↦ rw (e, fields_from) (fields_from-All zero (word ++ c ∷ []) s)
  | inr (k, e) ↦ rw (e, fields_from) (emit-All word (fields_from k [] s) (fields_from-All k [] s))
]

-- No word is empty.
pub fields-All : (s : Bytes) → All (λ w. w ≢ []) (fields s)
unfolding fields
fields-All s = fields_from-All 0 [] s
