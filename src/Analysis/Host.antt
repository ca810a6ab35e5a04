-- ===== src/Analysis/Host.antt =====
-- `hostportRegex` of stat_analysis.go, "[0-9]{1,3}_[0-9]{1,3}_[0-9]{1,3}_[0-9]{1,3}_[0-9]{1,6}", and
-- `FindString`: the leftmost match, each number as long as it can be. A number that stops short of
-- the longest one is followed by a digit, and so by no underscore: there is nothing to try again.
pub mod Regex
pub mod Front
use ringpop_common.Common.{
  ℕ, zero, suc, ◌≡◌, refl, Bool, ◌&&◌, Option, none, some, List, [], ◌∷◌, ◌++◌, leb, ◌==◌,
  if◌then◌else◌, Bytes, codes, bytes_eq, length, drop,
}

abbrev pub is_digit : ℕ → Bool
is_digit c = leb b'0' c && leb c b'9'

-- `[0-9]{1,max}` takes these digits, or none at all.
pub digits : ℕ → Bytes → Bytes
digits zero s = []
digits (suc m) [] = []
digits (suc m) (c ∷ s) = let more = c ∷ digits m s in if is_digit c then more else []

-- the underscore behind a number
pub underscore : Bytes → Option Bytes
underscore [] = none
underscore (c ∷ s) = if c == b'_' then some s else none

abbrev pub prepend : Bytes → Option Bytes → Option Bytes
prepend d none = none
prepend d (some w) = some (d ++ b'_' ∷ w)

abbrev pub on_rest : Option Bytes → (Bytes → Option Bytes) → Option Bytes
on_rest none f = none
on_rest (some r) f = f r

-- the match of numbers joined by underscores at the front of the text
pub match_numbers : List ℕ → Bytes → Option Bytes
unfolding digits underscore
match_numbers [] s = none
match_numbers (m ∷ []) s = if bytes_eq (digits m s) [] then none else some (digits m s)
match_numbers (m ∷ k ∷ ms) s =
    if bytes_eq (digits m s) []
    then none
    else prepend (digits m s)
        (on_rest (underscore (drop (length (digits m s)) s)) (match_numbers (k ∷ ms)))

abbrev pub hostport_regex : List ℕ
hostport_regex = 3 ∷ 3 ∷ 3 ∷ 3 ∷ 6 ∷ []

abbrev pub or_else : Option Bytes → Bytes → Bytes
or_else none w = w
or_else (some v) w = v

-- `r.FindString(line)`, empty if there is no match
unfoldable pub find_host : Bytes → Bytes
unfolding match_numbers
find_host [] = []
find_host (c ∷ s) = or_else (match_numbers hostport_regex (c ∷ s)) (find_host s)

example :
    find_host (codes "x1234_5_6|ringpop.172_18_24_192_30055.checksum:4321|g")
    ≡ codes "172_18_24_192_30055"
unfolding find_host bytes_eq
example = refl
