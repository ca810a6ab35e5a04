-- ===== src/Clock.antt =====
-- What stat_analysis.go uses of package time: `time.Parse` with the layout `time.RFC3339Nano`, as the
-- current releases of Go read it, and `Time.Sub`. A `Time` is its count of nanoseconds since the first
-- instant of the year 0, UTC; a `time.Duration` is an int64 count of nanoseconds.
pub mod Stamps
use ringpop_common.Common.{
  ℕ, zero, suc, ◌+◌, ◌-◌, ◌*◌, ◌/◌, ◌%◌, ◌^◌, ◌≡◌, refl, Bool, not, ◌&&◌, ◌||◌, Option, none, some,
  [], ◌∷◌, ltb, leb, ◌==◌, if◌then◌else◌, Bytes, codes,
}
use ringpop_common.Common.Int.{ℤ, pos, pos_part, neg_part, sub_ℕ, ◌-ℤ◌}

-- A part of the layout takes a number off the front of the text, or fails.
abbrev pub Part : Type 0
Part = Option (ℕ × Bytes)

abbrev pub and_then {ℓ} : {A : Type ℓ} → Part → (ℕ → Bytes → Option A) → Option A
and_then none f = none
and_then (some (n, s)) f = f n s

abbrev is_digit : ℕ → Bool
is_digit c = leb b'0' c && leb c b'9'

-- `getnum(s, true)`: two digits
pub two_digits : Bytes → Part
two_digits (c ∷ d ∷ s) =
    if is_digit c && is_digit d then some ((c - b'0') * 10 + (d - b'0'), s) else none
two_digits _ = none

-- `getnum(s, false)`: one digit or two
pub one_or_two : Bytes → Part
one_or_two [] = none
one_or_two (c ∷ []) = if is_digit c then some (c - b'0', []) else none
one_or_two (c ∷ d ∷ s) =
    if is_digit c
    then if is_digit d then some ((c - b'0') * 10 + (d - b'0'), s) else some (c - b'0', d ∷ s)
    else none

pub four_digits : Bytes → Part
four_digits s =
    and_then (two_digits s)
      λ century r. and_then (two_digits r) λ y r'. some (century * 100 + y, r')

-- a character of the layout
pub expect : ℕ → Bytes → Part
expect c [] = none
expect c (x ∷ s) = if x == c then some (c, s) else none

-- the digits of a fraction: its nanoseconds, from the first nine
fraction_digits : ℕ → ℕ → Bytes → ℕ × Bytes
fraction_digits place n [] = (n, [])
fraction_digits place n (c ∷ s) =
    let more = fraction_digits (place / 10) (n + (c - b'0') * place) s in
    if is_digit c then more else (n, c ∷ s)

-- The fraction may be absent.
pub fraction : Bytes → ℕ × Bytes
fraction (c ∷ d ∷ s) =
    if (c == b'.' || c == b',') && is_digit d
    then fraction_digits 100000000 0 (d ∷ s)
    else (0, c ∷ d ∷ s)
fraction s = (0, s)

-- seconds east and seconds west of UTC; nothing may follow
pub record Offset : Type 0 where
  pub east : ℕ
  pub west : ℕ

zone_end : Bytes → Offset → Option Offset
zone_end [] z = some z
zone_end (c ∷ s) z = none

zone_signed : ℕ → Bytes → Option Offset
unfolding two_digits expect zone_end
zone_signed sign s = and_then (two_digits s) λ h r. and_then (expect b':' r) λ _ r1.
    and_then (two_digits r1) λ m r2.
      let secs = (h * 60 + m) * 60 in
      if ltb 24 h || ltb 60 m
      then none
      else if sign == b'+'
      then zone_end r2 (record { east = secs; west = 0 })
      else if sign == b'-'
      then zone_end r2 (record { east = 0; west = secs })
      else none

pub zone : Bytes → Option Offset
unfolding zone_signed zone_end
zone [] = none
zone (c ∷ s) = if c == b'Z' then zone_end s (record { east = 0; west = 0 }) else zone_signed c s

is_leap : ℕ → Bool
is_leap y = y % 4 == 0 && (not (y % 100 == 0) || y % 400 == 0)

-- days of a month, for the months 1 to 12
unfoldable pub days_in : ℕ → ℕ → ℕ
unfolding is_leap
days_in m y =
    if m == 2
    then (if is_leap y then 29 else 28)
    else if m == 4 || m == 6 || m == 9 || m == 11
    then 30
    else 31

-- days before a month of the year
unfoldable pub days_before : ℕ → ℕ → ℕ
unfolding days_in
days_before zero y = 0
days_before (suc zero) y = 0
days_before (suc (suc m)) y = days_before (suc m) y + days_in (suc m) y

-- days before a year, counted from the first of January of the year 0
unfoldable pub days_of_years : ℕ → ℕ
days_of_years y = 365 * y + (y + 3) / 4 + (y + 399) / 400 - (y + 99) / 100

unfoldable pub second : ℕ
second = 1000000000

-- `time.Millisecond`
abbrev pub millisecond : ℕ
millisecond = 1000000

pub instant : ℕ → ℕ → ℕ → ℕ → ℕ → ℕ → ℕ → Offset → Option ℤ
instant y mo d h mi s nanos z =
    if leb 1 mo && leb mo 12 && leb 1 d && leb d (days_in mo y) && ltb h 24 && ltb mi 60 && ltb s 60
    then (let days = days_of_years y + days_before mo y + (d - 1) in
        let secs = ((days * 24 + h) * 60 + mi) * 60 + s in
        some (sub_ℕ ((secs + z.west) * second + nanos) (z.east * second)))
    else none

abbrev pub at_offset : ℕ → ℕ → ℕ → ℕ → ℕ → ℕ → ℕ → Option Offset → Option ℤ
at_offset y mo d h mi s nanos none = none
at_offset y mo d h mi s nanos (some z) = instant y mo d h mi s nanos z

abbrev pub with_fraction : ℕ → ℕ → ℕ → ℕ → ℕ → ℕ → ℕ × Bytes → Option ℤ
with_fraction y mo d h mi s (nanos, r) = at_offset y mo d h mi s nanos (zone r)

-- `time.Parse(time.RFC3339Nano, s)`; every error of it is `none`
unfoldable pub parse_time : Bytes → Option ℤ
parse_time s = and_then (four_digits s) λ y r0. and_then (expect b'-' r0) λ _ r1.
    and_then (two_digits r1) λ mo r2. and_then (expect b'-' r2) λ _ r3.
      and_then (two_digits r3) λ d r4. and_then (expect b'T' r4) λ _ r5.
        and_then (one_or_two r5) λ h r6. and_then (expect b':' r6) λ _ r7.
          and_then (two_digits r7) λ mi r8.
            and_then (expect b':' r8) λ _ r9.
              and_then (two_digits r9) λ sec r10. with_fraction y mo d h mi sec (fraction r10)

-- the largest int64, and the smallest, with its sign reversed
abbrev pub max_duration : ℕ
max_duration = 2 ^ 63 - 1

abbrev pub min_duration : ℕ
min_duration = 2 ^ 63

-- `t.Sub(u)`: a difference that is no int64 becomes the nearest one
unfoldable pub time_sub : ℤ → ℤ → ℤ
time_sub t u =
    let d = t -ℤ u in
    if ltb max_duration (pos_part d)
    then pos max_duration
    else if ltb min_duration (neg_part d)
    then sub_ℕ 0 min_duration
    else d

-- Instants of the tests.
pub parse_time_examples :
    (parse_time (codes "2016-06-17T11:29:18.0Z") ≡ some (pos 63633382158000000000))
    × (parse_time (codes "2016-06-17T11:29:26.0Z") ≡ some (pos 63633382166000000000))
    × (parse_time (codes "2016-06-17T11:29:26.25Z") ≡ some (pos 63633382166250000000))
    × (parse_time (codes "2016-02-30T11:29:26Z") ≡ none)
    × (parse_time (codes "2016-06-17T13:29:26.25+02:00")
        ≡ parse_time (codes "2016-06-17T11:29:26.25Z"))
unfolding parse_time four_digits two_digits one_or_two expect fraction fraction_digits zone
    zone_signed zone_end instant days_in is_leap days_before days_of_years second
parse_time_examples = (refl, refl, refl, refl, refl)
