-- ===== src/Clock/Stamps.antt =====
-- The time at the front of a stat, as the nodes print it, against `time.Parse` as stat_analysis.go
-- calls it: "2016-06-15T16:11:08.246816444Z".
use ringpop_common.Common.{
  ℕ, ◌+◌, ◌-◌, ◌*◌, ◌/◌, ◌%◌, ◌≤◌, ◌<◌, ◌≡◌, refl, ap, ◌∙◌, ◌≢◌, some, [], ◌∷◌, ◌++◌, arith, Bytes,
  All, All-append, Lacks,
}
use ringpop_common.Common.Int.{pos}
use ringpop_common.Clock.{second, parse_time}
use ringpop_common.Clock.{
  two_digits, one_or_two, four_digits, expect, fraction_digits, fraction, zone, zone_end, days_in,
  days_before, days_of_years, instant,
}

-- A date and a time of the day, UTC, with the digits of the fraction of a second.
pub record Stamp : Type 0 where
  pub year : ℕ
  pub month : ℕ
  pub day : ℕ
  pub hour : ℕ
  pub minute : ℕ
  pub sec : ℕ
  pub frac : Bytes

abbrev IsDigit : ℕ → Type 0
IsDigit c = (b'0' ≤ c) × (c ≤ b'9')

pub record IsStamp (t : Stamp) : Type 0 where
  pub year_in : t.year ≤ 9999
  pub month_in : (1 ≤ t.month) × (t.month ≤ 12)
  pub day_in : (1 ≤ t.day) × (t.day ≤ days_in t.month t.year)
  pub hour_in : t.hour < 24
  pub minute_in : t.minute < 60
  pub sec_in : t.sec < 60
  pub digits : All IsDigit t.frac
  pub some_digit : t.frac ≢ []

-- two decimal digits
abbrev two : ℕ → Bytes
two n = (b'0' + n / 10) ∷ (b'0' + n % 10) ∷ []

unfoldable pub stamp : Stamp → Bytes
stamp t =
    two (t.year / 100)
    ++ (two (t.year % 100)
        ++ (b'-'
            ∷ (two t.month
                ++ (b'-'
                    ∷ (two t.day
                        ++ (b'T'
                            ∷ (two t.hour
                                ++ (b':'
                                    ∷ (two t.minute
                                        ++ (b':'
                                            ∷ (two t.sec
                                                ++ (b'.' ∷ (t.frac ++ (b'Z' ∷ []))))))))))))))

-- the nanoseconds of a fraction whose first digit counts `place`
unfoldable pub frac_nanos : ℕ → Bytes → ℕ
frac_nanos place [] = 0
frac_nanos place (c ∷ s) = (c - b'0') * place + frac_nanos (place / 10) s

-- nanoseconds since the first instant of the year 0
unfoldable pub nanos : Stamp → ℕ
unfolding frac_nanos
nanos t =
    (((days_of_years t.year + days_before t.month t.year + (t.day - 1)) * 24 + t.hour) * 60
        + t.minute)
      * 60
      * second
    + (t.sec * second + frac_nanos 100000000 t.frac)

two_digits-two : (n : ℕ) (s : Bytes) → n < 100 → two_digits (two n ++ s) ≡ some (n, s)
unfolding two_digits
two_digits-two n s h = ground arith

one_or_two-two : (n : ℕ) (s : Bytes) → n < 100 → one_or_two (two n ++ s) ≡ some (n, s)
unfolding one_or_two
one_or_two-two n s h = ground arith

four_digits-two :
    (y : ℕ) (s : Bytes)
    → y ≤ 9999
    → four_digits (two (y / 100) ++ (two (y % 100) ++ s)) ≡ some (y, s)
unfolding four_digits
four_digits-two y s h =
    rw (two_digits-two (y / 100) (two (y % 100) ++ s) (omega arith))
      (rw (two_digits-two (y % 100) s (omega arith)) (ap (λ n. some (n, s)) (omega arith)))

fraction_digits-frac :
    (place n : ℕ) (s : Bytes)
    → All IsDigit s
    → fraction_digits place n (s ++ (b'Z' ∷ [])) ≡ (n + frac_nanos place s, b'Z' ∷ [])
unfolding fraction_digits frac_nanos
fraction_digits-frac place n [] h = ap (λ k. (k, b'Z' ∷ [])) (omega arith)
fraction_digits-frac place n (c ∷ s) (hc, h) =
    ground (arith, fraction_digits-frac (place / 10) (n + (c - b'0') * place) s h)

fraction-frac :
    (s : Bytes)
    → All IsDigit s
    → s ≢ []
    → fraction (b'.' ∷ (s ++ (b'Z' ∷ []))) ≡ (frac_nanos 100000000 s, b'Z' ∷ [])
unfolding fraction
fraction-frac [] h ne = absurd (ne refl)
fraction-frac (c ∷ s) (hc, h) ne =
    let read : fraction_digits 100000000 0 (c ∷ (s ++ (b'Z' ∷ [])))
        ≡ (frac_nanos 100000000 (c ∷ s), b'Z' ∷ []) =
      fraction_digits-frac 100000000 0 (c ∷ s) (hc, h) ∙ ap (λ k. (k, b'Z' ∷ [])) (omega arith) in
    rw (fraction, read) (ground arith)

expect_lem : (c : ℕ) (s : Bytes) → expect c (c ∷ s) ≡ some (c, s)
unfolding expect
expect_lem c s = ground arith

zone_utc : zone (b'Z' ∷ []) ≡ some (record { east = 0; west = 0 })
unfolding zone zone_end
zone_utc = refl

instant_utc :
    (y mo d h mi s n : ℕ)
    → (1 ≤ mo) × (mo ≤ 12)
    → (1 ≤ d) × (d ≤ days_in mo y)
    → h < 24
    → mi < 60
    → s < 60
    → instant y mo d h mi s n (record { east = 0; west = 0 })
      ≡ some (
          pos (
            (((days_of_years y + days_before mo y + (d - 1)) * 24 + h) * 60 + mi) * 60 * second
            + (s * second + n)))
unfolding instant second
instant_utc y mo d h mi s n hmo hd hh hmi hs = ground arith

days_in_small : (m y : ℕ) → days_in m y ≤ 31
unfolding days_in
days_in_small m y = ground arith

day_small : (t : Stamp) → IsStamp t → t.day < 100
day_small t h = omega (arith, days_in_small t.month t.year, h.day_in.1)

-- A stamp holds digits and the signs between them.
frac-Lacks : (c : ℕ) (s : Bytes) → All IsDigit s → b'9' < c → Lacks c s
frac-Lacks c [] h lt = tt
frac-Lacks c (d ∷ s) (hd, h) lt = ((λ e. omega arith), frac-Lacks c s h lt)

two-Lacks : (c n : ℕ) (s : Bytes) → n < 100 → b'Z' < c → Lacks c s → Lacks c (two n ++ s)
two-Lacks c n s h lt k = ((λ e. omega arith), ((λ e. omega arith), k))

-- two digits and the sign behind them
two_sign-Lacks :
    (c n d : ℕ) (s : Bytes) → n < 100 → d ≤ b'Z' → b'Z' < c → Lacks c s → Lacks c (two n ++ (d ∷ s))
two_sign-Lacks c n d s h hd lt k = two-Lacks c n (d ∷ s) h lt ((λ e. omega arith), k)

pub stamp-Lacks : (c : ℕ) (t : Stamp) → IsStamp t → b'Z' < c → Lacks c (stamp t)
unfolding stamp
stamp-Lacks c t h lt =
    let sign = two_sign-Lacks c in
    let frac : Lacks c (t.frac ++ (b'Z' ∷ [])) =
      All-append _ t.frac (b'Z' ∷ []) (frac-Lacks c t.frac h.digits (omega arith))
        ((λ e. omega arith), tt) in
    let from_frac : Bytes = t.frac ++ (b'Z' ∷ []) in
    let from_sec : Bytes = two t.sec ++ (b'.' ∷ from_frac) in
    let from_minute : Bytes = two t.minute ++ (b':' ∷ from_sec) in
    let from_hour : Bytes = two t.hour ++ (b':' ∷ from_minute) in
    let from_day : Bytes = two t.day ++ (b'T' ∷ from_hour) in
    let from_month : Bytes = two t.month ++ (b'-' ∷ from_day) in
    two-Lacks c (t.year / 100) (two (t.year % 100) ++ (b'-' ∷ from_month))
      (omega (arith, h.year_in)) lt
      (sign (t.year % 100) b'-' from_month (omega arith) (omega arith) lt (
        sign t.month b'-' from_day (omega (arith, h.month_in.1)) (omega arith) lt (
          sign t.day b'T' from_hour (day_small t h) (omega arith) lt (
            sign t.hour b':' from_minute (omega (arith, h.hour_in)) (omega arith) lt (
              sign t.minute b':' from_sec (omega (arith, h.minute_in)) (omega arith) lt
                (sign t.sec b'.' from_frac (omega (arith, h.sec_in)) (omega arith) lt frac))))))

-- `time.Parse` reads back what the nodes print.
pub parse_time-stamp : (t : Stamp) → IsStamp t → parse_time (stamp t) ≡ some (pos (nanos t))
unfolding parse_time stamp nanos
parse_time-stamp t h =
    rw (parse_time, four_digits-two t.year _ h.year_in)
      (rw expect_lem (
        rw (two_digits-two t.month _ (omega arith)) (
          rw expect_lem (
            rw (two_digits-two t.day _ (day_small t h)) (
              rw expect_lem (
                rw (one_or_two-two t.hour _ (omega arith)) (
                  rw expect_lem (
                    rw (two_digits-two t.minute _ (omega arith)) (
                      rw expect_lem (
                        rw (two_digits-two t.sec _ (omega arith)) (
                          rw (fraction-frac t.frac h.digits h.some_digit) (
                            rw zone_utc (
                              instant_utc t.year t.month t.day t.hour t.minute t.sec
                                (frac_nanos 100000000 t.frac) h.month_in h.day_in h.hour_in
                                h.minute_in h.sec_in)))))))))))))
