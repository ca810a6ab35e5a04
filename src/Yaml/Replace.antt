-- ===== src/Yaml/Replace.antt =====
-- `replace` of test_yaml_parser.go substitutes variables: one replacement after the other does what
-- looking up each variable once would do.
use ringpop_common.Common.{
  ◌≡◌, refl, ap, ◌∙◌, inl, inr, List, [], ◌∷◌, ◌++◌, map, append_assoc, arith, if◌then◌else◌,
  Bool-cases, Bytes, bytes_eq, bytes_eq_iff, length, All, All-append, Lacks,
}
use ringpop_common.Outcome.{ok}
use ringpop_common.Text.{has_prefix, replace_from, replace_all}
use ringpop_common.Text.Replace.{replace_from_hit, replace_from_miss, replace_from-Lacks}
use ringpop_common.Yaml.{replace}

-- The name of a variable holds no angle bracket.
abbrev pub IsName : Bytes → Type 0
IsName n = Lacks b'<' n × Lacks b'>' n

-- The variable as it stands in a test file.
abbrev pub angled : Bytes → Bytes
angled n = b'<' ∷ (n ++ (b'>' ∷ []))

-- A template is text and variables.
pub data Piece : Type 0 where
  lit : Bytes → Piece
  ref : Bytes → Piece

abbrev pub spell : List Piece → Bytes
spell [] = []
spell (lit l ∷ t) = l ++ spell t
spell (ref n ∷ t) = angled n ++ spell t

-- Text without a left bracket, and variables.
abbrev pub IsPiece : Piece → Type 0
IsPiece (lit l) = Lacks b'<' l
IsPiece (ref n) = IsName n

-- One variable gets its value.
abbrev pub assign : Bytes → Bytes → Piece → Piece
assign n r (lit l) = lit l
assign n r (ref m) = if bytes_eq m n then lit r else ref m

has_prefix-name :
    (m n s : Bytes)
    → Lacks b'>' m
    → Lacks b'>' n
    → has_prefix (m ++ (b'>' ∷ s)) (n ++ (b'>' ∷ [])) ≡ bytes_eq m n
unfolding has_prefix bytes_eq
has_prefix-name [] [] s hm hn = refl
has_prefix-name [] (y ∷ n) s hm (hy, hn) = ground arith
has_prefix-name (x ∷ m) [] s (hx, hm) hn = ground arith
has_prefix-name (x ∷ m) (y ∷ n) s (hx, hm) (hy, hn) = rw (has_prefix-name m n s hm hn)

has_prefix-angled :
    (m n s : Bytes) → IsName m → IsName n → has_prefix (angled m ++ s) (angled n) ≡ bytes_eq m n
has_prefix-angled m n s (ml, mr) (nl, nr) =
    rw (append_assoc m (b'>' ∷ []) s) (unfold has_prefix in has_prefix-name m n s mr nr)

-- the tail of `angled n`
abbrev tail_of : Bytes → Bytes
tail_of n = n ++ (b'>' ∷ [])

replace_from-spell :
    (n r : Bytes) (t : List Piece)
    → IsName n
    → All IsPiece t
    → replace_from (angled n) r 0 (spell t) ≡ spell (map (assign n r) t)
replace_from-spell n r [] hn h = unfold replace_from in refl
replace_from-spell n r (lit l ∷ t) hn (hl, h) =
    replace_from-Lacks b'<' (tail_of n) r l (spell t) hl
    ∙ ap (λ s. l ++ s) (replace_from-spell n r t hn h)
replace_from-spell n r (ref m ∷ t) hn (hm, h) = elim (Bool-cases (bytes_eq m n)) [
  | inl same ↦ rw same (
      rw ((bytes_eq_iff m n).0 same) (
        replace_from_hit b'<' (tail_of n) r (spell t)
        ∙ ap (λ s. r ++ s) (replace_from-spell n r t hn h)))
  | inr differ ↦ rw differ (
      replace_from_miss (angled n) r (tail_of m ++ spell t) b'<'
        (has_prefix-angled m n (spell t) hm hn ∙ differ)
      ∙ ap (◌∷◌ b'<') (
          replace_from-Lacks b'<' (tail_of n) r (tail_of m) (spell t)
            (All-append _ m (b'>' ∷ []) hm.0 (omega arith))
          ∙ ap (λ s. tail_of m ++ s) (replace_from-spell n r t hn h)))
]

-- The value of a variable in a run: that of the first variable of this name.
abbrev pub resolve : List Bytes → List Bytes → Piece → Piece
resolve ns rs (lit l) = lit l
resolve [] rs (ref m) = ref m
resolve (n ∷ ns) [] (ref m) = ref m
resolve (n ∷ ns) (r ∷ rs) (ref m) = if bytes_eq m n then lit r else resolve ns rs (ref m)

assign-IsPiece :
    (n r : Bytes) (t : List Piece) → Lacks b'<' r → All IsPiece t → All IsPiece (map (assign n r) t)
assign-IsPiece n r [] hr h = tt
assign-IsPiece n r (lit l ∷ t) hr (hl, h) = (hl, assign-IsPiece n r t hr h)
assign-IsPiece n r (ref m ∷ t) hr (hm, h) = elim (Bool-cases (bytes_eq m n)) [
  | inl same ↦ rw same (hr, assign-IsPiece n r t hr h)
  | inr differ ↦ rw differ (hm, assign-IsPiece n r t hr h)
]

resolve-assign :
    (n r : Bytes) (ns rs : List Bytes) (t : List Piece)
    → map (resolve ns rs) (map (assign n r) t) ≡ map (resolve (n ∷ ns) (r ∷ rs)) t
resolve-assign n r ns rs [] = refl
resolve-assign n r ns rs (lit l ∷ t) = ap (◌∷◌ (lit l)) (resolve-assign n r ns rs t)
resolve-assign n r ns rs (ref m ∷ t) = elim (Bool-cases (bytes_eq m n)) [
  | inl same ↦ rw same (ap (◌∷◌ (lit r)) (resolve-assign n r ns rs t))
  | inr differ ↦ rw differ (ap (◌∷◌ (resolve ns rs (ref m))) (resolve-assign n r ns rs t))
]

resolve-nil : (rs : List Bytes) (t : List Piece) → map (resolve [] rs) t ≡ t
resolve-nil rs [] = refl
resolve-nil rs (lit l ∷ t) = ap (◌∷◌ (lit l)) (resolve-nil rs t)
resolve-nil rs (ref m ∷ t) = ap (◌∷◌ (ref m)) (resolve-nil rs t)

-- For variables whose names hold no angle bracket, as many values without a left bracket, and a
-- template of text without a left bracket and of variables: `replace` succeeds, and its result is
-- the template with each variable that the run declares replaced by its value, the first of that
-- name, and with every other variable and all text as it was.
pub replace-spell :
    (ns rs : List Bytes) (t : List Piece)
    → All IsName ns
    → All (Lacks b'<') rs
    → length ns ≡ length rs
    → All IsPiece t
    → replace (spell t) (map angled ns) rs ≡ ok (spell (map (resolve ns rs) t))
unfolding replace replace_all
replace-spell [] rs t hn hr e h = rw (resolve-nil rs t)
replace-spell (n ∷ ns) [] t hn hr e h = absurd (omega arith)
replace-spell (n ∷ ns) (r ∷ rs) t (hn, hns) (hr, hrs) e h =
    ap (λ s. replace s (map angled ns) rs) (replace_from-spell n r t hn h)
    ∙ replace-spell ns rs (map (assign n r) t) hns hrs (omega arith) (assign-IsPiece n r t hr h)
    ∙ rw (resolve-assign n r ns rs t)
