-- ===== src/Text.antt =====
-- What the orchestrator uses of Go's package strings, over byte strings.
pub mod Utf8
pub mod Index
pub mod Replace
pub mod Fields
use ringpop_common.Common.{
  ℕ, zero, suc, Bool, true, false, ◌&&◌, Option, none, some, List, [], ◌∷◌, ◌++◌, ◌-◌, ◌==◌,
  if◌then◌else◌, is_some, Bytes, length,
}
use Utf8.{rune_width, space_width}

-- `strings.HasPrefix(s, prefix)`
unfoldable pub has_prefix : Bytes → Bytes → Bool
has_prefix s [] = true
has_prefix [] (c ∷ p) = false
has_prefix (x ∷ s) (c ∷ p) = x == c && has_prefix s p

abbrev pub one_further : Option ℕ → Option ℕ
one_further none = none
one_further (some i) = some (suc i)

-- `strings.Index(s, substr)`, with `none` for -1
unfoldable pub index : Bytes → Bytes → Option ℕ
unfolding has_prefix
index [] p = if has_prefix [] p then some 0 else none
index (c ∷ s) p = if has_prefix (c ∷ s) p then some 0 else one_further (index s p)

-- `strings.Contains(s, substr)`
unfoldable pub contains : Bytes → Bytes → Bool
unfolding index
contains s p = is_some (index s p)

-- The occurrences of `old`, a text that is not empty, from left to right; the number counts the
-- bytes of an occurrence that are still to be passed over.
unfoldable pub replace_from : Bytes → Bytes → ℕ → Bytes → Bytes
replace_from old new k [] = []
replace_from old new (suc k) (c ∷ s) = replace_from old new k s
replace_from old new zero (c ∷ s) = elim (has_prefix (c ∷ s) old) [
  | true ↦ new ++ replace_from old new (length old - 1) s
  | false ↦ c ∷ replace_from old new zero s
]

-- With an empty `old` the text `new` comes before each rune and at the end.
unfoldable pub replace_between : Bytes → ℕ → Bytes → Bytes
unfolding rune_width
replace_between new k [] = new
replace_between new (suc k) (c ∷ s) = c ∷ replace_between new k s
replace_between new zero (c ∷ s) = new ++ c ∷ replace_between new (rune_width (c ∷ s) - 1) s

-- `strings.Replace(s, old, new, -1)`
unfoldable pub replace_all : Bytes → Bytes → Bytes → Bytes
unfolding replace_from replace_between has_prefix
replace_all s [] new = replace_between new 0 s
replace_all s (o ∷ old) new = replace_from (o ∷ old) new 0 s

-- `strings.Join(parts, sep)`
unfoldable pub join : List Bytes → Bytes → Bytes
join [] sep = []
join (p ∷ []) sep = p
join (p ∷ q ∷ ps) sep = p ++ (sep ++ join (q ∷ ps) sep)

abbrev pub push_front : ℕ → List Bytes → List Bytes
push_front c [] = (c ∷ []) ∷ []
push_front c (p ∷ ps) = (c ∷ p) ∷ ps

-- `strings.Split(s, sep)` for a separator of one byte
unfoldable pub split : Bytes → ℕ → List Bytes
split [] sep = [] ∷ []
split (c ∷ s) sep = let rest = split s sep in if c == sep then [] ∷ rest else push_front c rest

-- The word read so far goes in front, if there is one.
abbrev pub emit : Bytes → List Bytes → List Bytes
emit [] rest = rest
emit (c ∷ word) rest = (c ∷ word) ∷ rest

-- The number counts the bytes of a white-space rune that are still to be passed over.
unfoldable pub fields_from : ℕ → Bytes → Bytes → List Bytes
fields_from k word [] = emit word []
fields_from (suc k) word (c ∷ s) = fields_from k word s
fields_from zero word (c ∷ s) = elim (space_width (c ∷ s)) [
  | zero ↦ fields_from zero (word ++ c ∷ []) s
  | suc k ↦ emit word (fields_from k [] s)
]

-- `strings.Fields(s)`
unfoldable pub fields : Bytes → List Bytes
unfolding fields_from space_width
fields = fields_from 0 []
