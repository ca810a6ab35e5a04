-- ===== src/Verdict/Counts.antt =====
-- The verdict on a count: the lines that stat_ingester.go writes to a file between two labels, counted by
-- measurement.go and checked against bounds by assertion.go.
use ringpop_common.Common.{
  ℕ, ◌^◌, ◌≤◌, ◌<◌, ◌≡◌, refl, ◌∙◌, ◌⊎◌, inl, inr, Bool, ◌||◌, Option, none, some, List, [], ◌∷◌,
  ◌++◌, map, arith, Bool-cases, Bytes, codes, bytes_eq, length,
}
use ringpop_common.Common.Int.{pos, ltb_ℤ}
use ringpop_common.Outcome.{not_in_range, ok, err}
use ringpop_common.Float.{Float64, IsExact}
use ringpop_common.Value.{number}
use ringpop_common.Assertion.{Assertion, in_type, range_assert, assert_value}
use ringpop_common.Command.{Measurement}
use ringpop_common.Scanner.Lines.{line_scanner, open_lines}
use ringpop_common.Analysis.Counting.{occurrences, counted}
use ringpop_common.Measurement.{wrap_measure, measure}
use ringpop_common.Measurement.Window.{occurrences_of, quantity_of}
use ringpop_common.Ingester.{StatIngester, new_stat_ingester}
use ringpop_common.Ingester.Session.{Action, label, action_line, perform}
use ringpop_common.Ingester.Session.File.{file, file_lines}
use ringpop_common.Ingester.Session.Measured.{scripted, IsScript, measure-scripted}

-- the range of counts of an assertion
abbrev pub counts_range : {F : Type 0} → Float64 F → ℕ → ℕ → Assertion F
counts_range fl lo hi = record {
  kind = in_type;
  v1 = number (fl.of_int (pos lo));
  v2 = number (fl.of_int (pos hi));
}

module _ {F : Type 0} (fl : Float64 F) (exact : IsExact fl)
    (match_string : Bytes → Bytes → Option Bool) where
  pub quantity_of-count :
      (m : Measurement F) (stat : Bytes) (ls : List Bytes)
      → m.quantity ≡ codes "count"
      → m.args ≡ stat ∷ []
      → quantity_of fl match_string m none ls
        ≡ ok (number (fl.of_int (pos (occurrences (match_string (stat ++ codes ":")) ls))))
  unfolding quantity_of occurrences_of counted bytes_eq wrap_measure
  quantity_of-count m stat ls q a = rw (q, a) refl

  pub assert_value-counts_range :
      (n lo hi : ℕ)
      → n ≤ 2 ^ 53
      → lo ≤ 2 ^ 53
      → hi ≤ 2 ^ 53
      → ((lo ≤ n)
          × (n ≤ hi)
          × (assert_value fl (some (counts_range fl lo hi)) (number (fl.of_int (pos n))) ≡ ok tt))
        ⊎ ((¬ ((lo ≤ n) × (n ≤ hi)))
            × (assert_value fl (some (counts_range fl lo hi)) (number (fl.of_int (pos n)))
                ≡ err not_in_range))
  unfolding assert_value range_assert
  assert_value-counts_range n lo hi hn hl hh =
      rw
        (
          exact.lt-of_int (pos n) (pos lo) (omega arith) (omega arith),
          exact.lt-of_int (pos hi) (pos n) (omega arith) (omega arith),
        )
        (elim (Bool-cases (ltb_ℤ (pos n) (pos lo) || ltb_ℤ (pos hi) (pos n))) [
          | inl e ↦ inr ((λ h. ground arith), rw e)
          | inr e ↦ inl (ground arith, ground arith, rw e)
        ])

  -- A count against its bounds. In a scenario of ingested stats and inserted labels that the
  -- measurement can be made of (`IsScript`), nothing fails, and a measurement of "count" of one stat
  -- over the stats file, with more fuel than lines, gives the number of lines between its two labels,
  -- whatever they are, that match the stat with a colon behind it. If that is at most 2^53, as are the bounds, the measurement's `in` assertion accepts it exactly
  -- if it is between them, both included; else the assertion fails with the error that it is not in
  -- range.
  measure_count :
      (m : Measurement F) (before between after : List Action) (cmd cmd2 : Bytes) (fuel : ℕ)
      (stat : Bytes) (lo hi : ℕ)
      → m.quantity ≡ codes "count"
      → m.args ≡ stat ∷ []
      → m.assertion ≡ some (counts_range fl lo hi)
      → IsScript m before between after cmd cmd2
      → length
          (map action_line (scripted before (label m.start cmd) between (label m.end cmd2) after))
        < fuel
      → occurrences (match_string (stat ++ codes ":")) (map action_line between) ≤ 2 ^ 53
      → lo ≤ 2 ^ 53
      → hi ≤ 2 ^ 53
      → (si : StatIngester Bytes) × (n : ℕ) × (n
          ≡ occurrences (match_string (stat ++ codes ":")) (map action_line between))
        × (perform file
              (new_stat_ingester [])
              (scripted before (label m.start cmd) between (label m.end cmd2) after)
            ≡ ok si)
        × (measure fl line_scanner match_string fuel m (open_lines (file_lines si.writer) none)
            ≡ ok (number (fl.of_int (pos n))))
        × (((lo ≤ n)
              × (n ≤ hi)
              × (assert_value fl m.assertion (number (fl.of_int (pos n))) ≡ ok tt))
            ⊎ ((¬ ((lo ≤ n) × (n ≤ hi)))
                × (assert_value fl m.assertion (number (fl.of_int (pos n))) ≡ err not_in_range)))
  measure_count m before between after cmd cmd2 fuel stat lo hi q args a h enough small sl sh =
      let (si, performed, found) =
        measure-scripted fl match_string m before between after cmd cmd2 fuel h enough in
      let n : ℕ = occurrences (match_string (stat ++ codes ":")) (map action_line between) in
      (
        si,
        n,
        refl,
        performed,
        found ∙ quantity_of-count m stat (map action_line between) q args,
        rw a (assert_value-counts_range n lo hi small sl sh),
      )
