-- ===== src/Verdict/Interleaved.antt =====
-- The verdict on a count where the stats file is written by the goroutines of stat_ingester.go.
use ringpop_common.Common.{
  ℕ, ◌^◌, ◌≤◌, ◌<◌, ◌≡◌, refl, ◌∙◌, ◌⊎◌, Bool, Option, none, some, List, [], ◌∷◌, ◌++◌, Bytes,
  codes, length,
}
use ringpop_common.Common.Int.{pos}
use ringpop_common.Outcome.{not_in_range, ok, err}
use ringpop_common.Float.{Float64, IsExact}
use ringpop_common.Value.{number}
use ringpop_common.Assertion.{assert_value}
use ringpop_common.Command.{Measurement}
use ringpop_common.Scanner.Lines.{line_scanner, open_lines}
use ringpop_common.Analysis.Counting.{occurrences}
use ringpop_common.Measurement.{measure}
use ringpop_common.Ingester.Session.File.{file, file_lines}
use ringpop_common.Ingester.Threads.{System, Event, Run, start, lines_of}
use ringpop_common.Ingester.Threads.Measured.{between_labels, IsMeasurable, measure-Run}
use ringpop_common.Verdict.Counts.{counts_range, quantity_of-count, assert_value-counts_range}

module _ {F : Type 0} (fl : Float64 F) (exact : IsExact fl)
    (match_string : Bytes → Bytes → Option Bool) where
  -- A count against its bounds, however the goroutines are interleaved that handle and write stats,
  -- insert labels and wait. From a new ingester with an empty file, by events that the measurement can
  -- be made of (`IsMeasurable`), a measurement of "count" of one stat over the stats file, with more
  -- fuel than lines, gives the number of lines written between its two labels that match the stat
  -- with a colon behind it. If that is at most 2^53, as are the bounds, the measurement's `in` assertion
  -- accepts it exactly if it is between them, both included; else the assertion fails with the error
  -- that it is not in range.
  pub measure-Run_count :
      (m : Measurement F) (before between after : List Event) (cmd cmd2 : Bytes) (u : System Bytes)
      (fuel : ℕ) (stat : Bytes) (lo hi : ℕ)
      → m.quantity ≡ codes "count"
      → m.args ≡ stat ∷ []
      → m.assertion ≡ some (counts_range fl lo hi)
      → IsMeasurable m before between after cmd cmd2
      → Run file (start []) (between_labels before m.start cmd between m.end cmd2 after) u
      → length (lines_of (between_labels before m.start cmd between m.end cmd2 after)) < fuel
      → occurrences (match_string (stat ++ codes ":")) (lines_of between) ≤ 2 ^ 53
      → lo ≤ 2 ^ 53
      → hi ≤ 2 ^ 53
      → (n : ℕ) × (n ≡ occurrences (match_string (stat ++ codes ":")) (lines_of between))
        × (measure fl line_scanner match_string fuel m
              (open_lines (file_lines u.ingester.writer) none)
            ≡ ok (number (fl.of_int (pos n))))
        × (((lo ≤ n)
              × (n ≤ hi)
              × (assert_value fl m.assertion (number (fl.of_int (pos n))) ≡ ok tt))
            ⊎ ((¬ ((lo ≤ n) × (n ≤ hi)))
                × (assert_value fl m.assertion (number (fl.of_int (pos n))) ≡ err not_in_range)))
  measure-Run_count m before between after cmd cmd2 u fuel stat lo hi q args a h r enough small sl
        sh =
      let n : ℕ = occurrences (match_string (stat ++ codes ":")) (lines_of between) in
      (
        n,
        refl,
        measure-Run fl match_string m before between after cmd cmd2 u fuel h r enough
            ∙ quantity_of-count fl exact match_string m stat (lines_of between) q args,
        rw a (assert_value-counts_range fl exact match_string n lo hi small sl sh),
      )
