-- ===== src/Text/Utf8.antt =====
-- Runes of a byte string, as far as package strings looks at them: the width of the rune at the
-- front, and whether it is white space. A byte that begins no rune is a rune of width 1.
use ringpop_common.Common.{
  ℕ, Bool, true, false, ◌&&◌, ◌||◌, [], ◌∷◌, leb, ◌==◌, if◌then◌else◌, Bytes, ◌≡◌, arith,
}

abbrev between : ℕ → ℕ → ℕ → Bool
between lo hi c = leb lo c && leb c hi

-- a continuation byte in front
continues : Bytes → Bool
continues [] = false
continues (c ∷ s) = between 0x80 0xbf c

continues_twice : Bytes → Bool
unfolding continues
continues_twice [] = false
continues_twice (c ∷ s) = between 0x80 0xbf c && continues s

-- the range of the second byte depends on the first
second_in : ℕ → ℕ → Bytes → Bool
second_in lo hi [] = false
second_in lo hi (c ∷ s) = between lo hi c

rest : Bytes → Bytes
rest [] = []
rest (c ∷ s) = s

unfoldable pub rune_width : Bytes → ℕ
unfolding continues continues_twice second_in rest
rune_width [] = 0
rune_width (c ∷ s) =
    if between 0xc2 0xdf c && continues s
    then 2
    else if (c == 0xe0 && second_in 0xa0 0xbf s
          || between 0xe1 0xec c && continues s
          || c == 0xed && second_in 0x80 0x9f s
          || between 0xee 0xef c && continues s)
        && continues (rest s)
    then 3
    else if (c == 0xf0 && second_in 0x90 0xbf s
          || between 0xf1 0xf3 c && continues s
          || c == 0xf4 && second_in 0x80 0x8f s)
        && continues_twice (rest s)
    then 4
    else 1

-- the bytes of U+0085 and U+00A0 behind their first
space_after_c2 : Bytes → Bool
space_after_c2 [] = false
space_after_c2 (a ∷ s) = a == 0x85 || a == 0xa0

-- those of U+1680, of U+2000 to U+200A, U+2028, U+2029, U+202F, U+205F, and of U+3000
space_of_three : ℕ → Bytes → Bool
space_of_three c [] = false
space_of_three c (a ∷ []) = false
space_of_three c (a ∷ b ∷ s) =
    c == 0xe1 && a == 0x9a && b == 0x80
    || c == 0xe2 && a == 0x80 && (between 0x80 0x8a b || b == 0xa8 || b == 0xa9 || b == 0xaf)
    || c == 0xe2 && a == 0x81 && b == 0x9f
    || c == 0xe3 && a == 0x80 && b == 0x80

-- `unicode.IsSpace` of the rune in front: its width, or 0 if it is no white space. No byte of these
-- runes but the first begins one, so they are found without decoding what stands before.
unfoldable pub space_width : Bytes → ℕ
unfolding space_after_c2 space_of_three
space_width [] = 0
space_width (c ∷ s) =
    if between 9 13 c || c == 32
    then 1
    else if c == 0xc2 && space_after_c2 s
    then 2
    else if space_of_three c s
    then 3
    else 0

-- A visible ASCII character is no white space, whatever follows.
pub space_width_visible : (c : ℕ) (s : Bytes) → between 33 126 c ≡ true → space_width (c ∷ s) ≡ 0
unfolding space_width
space_width_visible c [] h = ground arith
space_width_visible c (a ∷ []) h = ground arith
space_width_visible c (a ∷ b ∷ s) h = ground arith
