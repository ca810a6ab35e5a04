-- ===== src/Yaml/Steps.antt =====
-- The loop of `parseMeasurement` over its arguments, a round at a time.
use ringpop_common.Common.{
  ℕ, ◌+◌, ◌<◌, ◌≡◌, true, false, Option, some, List, [], ◌∷◌, arith, ltb, Bytes, length, take, drop,
}
use ringpop_common.Common.Int.{ℤ}
use ringpop_common.Float.{Float64}
use ringpop_common.Outcome.{slice_out_of_range, panic, ◌>>=◌}
use ringpop_common.Calc.{Expr}
use ringpop_common.Assertion.{Assertion}
use ringpop_common.Text.{join}
use ringpop_common.Yaml.{is_keyword, parse_assertion, search_assertion}

module _ {F : Type 0} (fl : Float64 F) (parse_expr : Bytes → Option Expr)
    (parse_duration : Bytes → Option ℤ) where
  pub search_assertion_plain :
      (i : ℕ) (s : Bytes) (rest args : List Bytes) (a : Option (Assertion F))
      → is_keyword s ≡ false
      → search_assertion fl parse_expr parse_duration i (s ∷ rest) args a
        ≡ search_assertion fl parse_expr parse_duration (i + 1) rest args a
  unfolding search_assertion
  search_assertion_plain i s rest args a h = rw (h, search_assertion)

  -- Behind the end of the arguments that are left a keyword is out of range.
  pub search_assertion_outside :
      (i : ℕ) (s : Bytes) (rest args : List Bytes) (a : Option (Assertion F))
      → is_keyword s ≡ true
      → length args < i + 1
      → search_assertion fl parse_expr parse_duration i (s ∷ rest) args a ≡ panic slice_out_of_range
  unfolding search_assertion
  search_assertion_outside i s rest args a h lt =
      let out : ltb (length args) (i + 1) ≡ true = ground arith in rw (h, search_assertion) (rw out)

  pub search_assertion_keyword :
      (i : ℕ) (s : Bytes) (rest args : List Bytes) (a : Option (Assertion F))
      → is_keyword s ≡ true
      → i < length args
      → search_assertion fl parse_expr parse_duration i (s ∷ rest) args a ≡ (
          parse_assertion fl parse_expr parse_duration s (join (drop (i + 1) args) []) >>= λ b.
          search_assertion fl parse_expr parse_duration (i + 1) rest (take i args) (some b))
  unfolding search_assertion
  search_assertion_keyword i s rest args a h lt =
      let inside : ltb (length args) (i + 1) ≡ false = ground arith in
      rw (h, search_assertion) (rw inside)
