-- ===== src/Tests/Words.antt =====
-- The lines of a test file: commands, measurements and ranges.
use ringpop_common.Common.{
  ℕ, ◌≡◌, refl, inr, Bool, true, ◌&&◌, some, List, [], ◌∷◌, ◌++◌, arith, leb, if◌then◌else◌, Bytes,
  codes, bytes_eq, All,
}
use ringpop_common.Common.{lacks, lacks-Lacks}
use ringpop_common.Common.Int.{pos}
use ringpop_common.Outcome.{
  in_measure, in_range, Failure, types_differ, ok, panic, ◌>>=◌, wrap_panic,
}
use ringpop_common.Float.{whole, Whole}
use ringpop_common.Value.{Value, number, type_of, same_kind}
use ringpop_common.Text.{join}
use ringpop_common.Text.Fields.{Visible, IsWord}
use ringpop_common.Command.{Measurement}
use ringpop_common.Yaml
use ringpop_common.Yaml.Ranges.{enclosed, parse_range-enclosed}
use ringpop_common.Yaml.Printed.{IsPrinted, IsPlain, ReadsBack, parse_measurement-to_string}
use ringpop_common.Yaml.Words.{line_of, parse_measurement_keyword, parse_measurement_two_keywords}
use ringpop_common.Tests.Parse.{parse_expr, parse_duration}

abbrev is_visible : Bytes → Bool
is_visible [] = true
is_visible (c ∷ s) = leb 33 c && (leb c 126 && is_visible s)

is_visible-All : (s : Bytes) → is_visible s ≡ true → All Visible s
is_visible-All [] h = tt
is_visible-All (c ∷ s) h = ((ground arith, ground arith), is_visible-All s (ground arith))

word : (c : ℕ) (s : Bytes) → is_visible (c ∷ s) ≡ true → IsWord (c ∷ s)
word c s h = ((λ e. cc), is_visible-All (c ∷ s) h)

-- a measurement with the arguments and the assertion of this line
abbrev line : List Bytes → Bytes
line args = line_of whole parse_expr parse_duration (codes "t0") (codes "..") (codes "count") args

abbrev ping_is_two : List Bytes
ping_is_two = codes "ping" ∷ codes "is" ∷ codes "2" ∷ []

parse_measurement_keyword_example :
    Yaml.parse_measurement whole parse_expr parse_duration (line ping_is_two)
    ≡ wrap_panic (in_measure (line ping_is_two)) (
        Yaml.parse_assertion whole parse_expr parse_duration (codes "is") (join (codes "2" ∷ []) [])
        >>= λ b. ok (record {
          start = codes "t0";
          end = codes "..";
          quantity = codes "count";
          args = codes "ping" ∷ [];
          assertion = some b;
        }))
unfolding Yaml.is_keyword bytes_eq
parse_measurement_keyword_example =
    parse_measurement_keyword whole parse_expr parse_duration (codes "t0") (codes "..")
      (codes "count") (word b't' (codes "0") refl) (word b'.' (codes ".") refl)
      (word b'c' (codes "ount") refl) (codes "ping" ∷ []) (codes "2" ∷ []) (codes "is")
      (word b'p' (codes "ing") refl, (word b'i' (codes "s") refl, (word b'2' [] refl, tt)))
      (refl, tt) refl (refl, tt)

parse_measurement_two_keywords_example :
    (f : Failure) × (Yaml.parse_measurement whole parse_expr parse_duration
        (line (codes "is" ∷ codes "2" ∷ codes "in" ∷ []))
      ≡ panic f)
unfolding Yaml.is_keyword bytes_eq
parse_measurement_two_keywords_example =
    parse_measurement_two_keywords whole parse_expr parse_duration (codes "t0") (codes "..")
      (codes "count") (word b't' (codes "0") refl) (word b'.' (codes ".") refl)
      (word b'c' (codes "ount") refl) [] (codes "2" ∷ []) [] (codes "is") (codes "in")
      (word b'i' (codes "s") refl, (word b'2' [] refl, (word b'i' (codes "n") refl, tt))) tt refl
      (refl, tt) refl

-- two pings exactly, as a range
abbrev pings : Measurement Whole
pings = record {
  start = codes "t0";
  end = codes "..";
  quantity = codes "count";
  args = codes "ping" ∷ [];
  assertion =
      some (record { kind = codes "in"; v1 = number (some (pos 2)); v2 = number (some (pos 2)) });
}

abbrev format_two : Value Whole → Bytes
format_two v = codes "2"

two-IsPrinted : IsPrinted whole parse_expr parse_duration format_two (number (some (pos 2)))
unfolding Yaml.is_keyword bytes_eq lacks
two-IsPrinted = record {
  reads = (codes "2", refl, refl);
  one_word = word b'2' [] refl;
  no_comma_in = lacks-Lacks b',' (codes "2") refl;
  not_keyword = refl;
}

pings-IsPlain : IsPlain whole parse_expr parse_duration format_two pings
unfolding Yaml.is_keyword bytes_eq
pings-IsPlain = record {
  start_word = word b't' (codes "0") refl;
  end_word = word b'.' (codes ".") refl;
  quantity_word = word b'c' (codes "ount") refl;
  args_words = (word b'p' (codes "ing") refl, tt);
  no_keyword = (refl, tt);
  printable = inr (refl, two-IsPrinted, two-IsPrinted, refl);
}

parse_measurement-to_string_example : ReadsBack whole parse_expr parse_duration format_two pings
parse_measurement-to_string_example =
    parse_measurement-to_string whole parse_expr parse_duration format_two pings pings-IsPlain

parse_range-enclosed_example :
    Yaml.parse_range whole parse_expr parse_duration (enclosed (codes "90" ++ (b',' ∷ codes "110")))
    ≡ wrap_panic (in_range (enclosed (codes "90" ++ (b',' ∷ codes "110")))) (
        Yaml.parse_value whole parse_expr parse_duration (codes "90") >>= λ v1.
        Yaml.parse_value whole parse_expr parse_duration (codes "110") >>= λ v2.
        if same_kind (type_of v1) (type_of v2) then ok (v1, v2) else panic types_differ)
unfolding lacks
parse_range-enclosed_example =
    parse_range-enclosed whole parse_expr parse_duration (codes "90") (codes "110")
      (lacks-Lacks b',' (codes "90") refl) (lacks-Lacks b',' (codes "110") refl)
