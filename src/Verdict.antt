-- ===== src/Verdict.antt =====
-- The verdict on a scenario: the stats that stat_ingester.go writes to a file between two labels,
-- measured by measurement.go and checked by assertion.go.
pub mod Counts
pub mod Interleaved
use ringpop_common.Common.{
  ℕ, ◌+◌, ◌-◌, ◌^◌, ◌≤◌, ◌<◌, ◌≡◌, refl, ap, ◌∙◌, ◌≢◌, ◌⊎◌, inl, inr, Bool, Option, none, some,
  List, [], ◌∷◌, map, arith, ==_iff, Bool-cases, Bytes, codes, bytes_eq, length,
}
use ringpop_common.Common.Int.{ℤ, pos, ◌≤ℤ◌, eqb_ℤ}
use ringpop_common.Outcome.{not_expected, not_in_range, ok, err}
use ringpop_common.Float.{Float64, IsExact}
use ringpop_common.Value.{nil, number, duration, deep_equal}
use ringpop_common.Assertion.{Assertion, is_type, in_type, equals_assert, assert_value}
use ringpop_common.Assertion.Range.{IsShort, assert_value-duration}
use ringpop_common.Command.{Measurement}
use ringpop_common.Scanner.Lines.{line_scanner, open_lines}
use ringpop_common.Clock.{max_duration}
use ringpop_common.Clock.Stamps.{nanos}
use ringpop_common.Analysis.{uniq, check_err}
use ringpop_common.Analysis.Distinct.{IsOnly, uniq_one_iff}
use ringpop_common.Analysis.Checksums.{
  Entry, entry_line, last_checksums, for_lines-entries, checksums_of,
}
use ringpop_common.Analysis.Convergence.Stamped.{
  Line, line_text, Change, changes_of, last_change, time_between, convergence-changes_of,
}
use ringpop_common.Measurement.{wrap_measure, measure}
use ringpop_common.Measurement.Window.{quantity_of}
use ringpop_common.Ingester.{StatIngester, new_stat_ingester}
use ringpop_common.Ingester.Session.{Action, label, action_line, perform}
use ringpop_common.Ingester.Session.File.{file, file_lines}
use ringpop_common.Ingester.Session.Measured.{scripted, IsScript, measure-scripted}

-- the range of durations of an assertion
abbrev pub within_range : {F : Type 0} → ℤ → ℤ → Assertion F
within_range lo hi = record { kind = in_type; v1 = duration lo; v2 = duration hi }

-- the assertion that a count is this number
abbrev pub is_number : {F : Type 0} → Float64 F → ℕ → Assertion F
is_number fl n = record { kind = is_type; v1 = number (fl.of_int (pos n)); v2 = nil }

module _ {F : Type 0} (fl : Float64 F) (exact : IsExact fl)
    (match_string : Bytes → Bytes → Option Bool) where
  quantity_of-convtime :
      (m : Measurement F) (ls : List Line) (c : Change) (cs : List Change)
      → m.quantity ≡ codes "convtime"
      → changes_of ls ≡ c ∷ cs
      → nanos c.0 ≤ nanos (last_change c cs).0
      → nanos (last_change c cs).0 - nanos c.0 ≤ max_duration
      → quantity_of fl match_string m none (map line_text ls)
        ≡ ok (duration (pos (time_between c (last_change c cs))))
  unfolding quantity_of bytes_eq wrap_measure
  quantity_of-convtime m ls c cs q is order small =
      rw q (rw (convergence-changes_of ls c cs is order small) refl)

  quantity_of-checksums :
      (m : Measurement F) (es : List Entry)
      → m.quantity ≡ codes "checksums"
      → quantity_of fl match_string m none (map entry_line es)
        ≡ ok (number (fl.of_int (pos (uniq (last_checksums [] es)))))
  unfolding quantity_of checksums_of bytes_eq check_err wrap_measure
  quantity_of-checksums m es q = rw q (rw (for_lines-entries [] es) refl)

  assert_value-is_number :
      (n k : ℕ)
      → n ≤ 2 ^ 53
      → k ≤ 2 ^ 53
      → ((n ≡ k) × (assert_value fl (some (is_number fl k)) (number (fl.of_int (pos n))) ≡ ok tt))
        ⊎ ((n ≢ k)
            × (assert_value fl (some (is_number fl k)) (number (fl.of_int (pos n)))
                ≡ err not_expected))
  unfolding assert_value equals_assert deep_equal bytes_eq
  assert_value-is_number n k hn hk =
      rw (exact.eq-of_int (pos n) (pos k) (omega arith) (omega arith))
        (elim (Bool-cases (eqb_ℤ (pos n) (pos k))) [
          | inl e ↦ inl (ground (arith, ==_iff (n + 0) (k + 0)), rw e refl)
          | inr e ↦ inr ((λ h. ground (arith, ==_iff (n + 0) (k + 0))), rw e refl)
        ])

  -- A convergence time against its bounds. In a scenario of ingested stats and inserted labels that the
  -- measurement can be made of (`IsScript`), where the lines between the labels of a measurement of "convtime" are stats of membership changes with
  -- printed times, at least one, and others, and the last change is not before the first and by at
  -- most 2^53 nanoseconds behind it: nothing fails, `Measure` of the stats file, with more fuel than
  -- lines, gives the time between the two in whole milliseconds, and the measurement's `in` assertion,
  -- on bounds of at most 2^53 nanoseconds, accepts it exactly if it is between them, both included;
  -- else the assertion fails with the error that it is not in range.
  pub measure_convtime :
      (m : Measurement F) (before between after : List Action) (cmd cmd2 : Bytes) (fuel : ℕ)
      (ls : List Line) (c : Change) (cs : List Change) (lo hi : ℤ)
      → m.quantity ≡ codes "convtime"
      → m.assertion ≡ some (within_range lo hi)
      → IsScript m before between after cmd cmd2
      → length
          (map action_line (scripted before (label m.start cmd) between (label m.end cmd2) after))
        < fuel
      → map action_line between ≡ map line_text ls
      → changes_of ls ≡ c ∷ cs
      → nanos c.0 ≤ nanos (last_change c cs).0
      → nanos (last_change c cs).0 - nanos c.0 ≤ 2 ^ 53
      → IsShort lo
      → IsShort hi
      → (si : StatIngester Bytes) × (d : ℤ) × (d ≡ pos (time_between c (last_change c cs)))
        × (perform file
              (new_stat_ingester [])
              (scripted before (label m.start cmd) between (label m.end cmd2) after)
            ≡ ok si)
        × (measure fl line_scanner match_string fuel m (open_lines (file_lines si.writer) none)
            ≡ ok (duration d))
        × (((lo ≤ℤ d) × (d ≤ℤ hi) × (assert_value fl m.assertion (duration d) ≡ ok tt))
            ⊎ ((¬ ((lo ≤ℤ d) × (d ≤ℤ hi)))
                × (assert_value fl m.assertion (duration d) ≡ err not_in_range)))
  measure_convtime m before between after cmd cmd2 fuel ls c cs lo hi q a h enough same is order
        small sl sh =
      let (si, performed, found) =
        measure-scripted fl match_string m before between after cmd cmd2 fuel h enough in
      let d = pos (time_between c (last_change c cs)) in
      (
        si,
        d,
        refl,
        performed,
        found
            ∙ ap (quantity_of fl match_string m none) same
            ∙ quantity_of-convtime m ls c cs q is order (omega arith),
        rw a (assert_value-duration fl exact d lo hi (omega arith) sl sh),
      )

  -- The checksums of the nodes agree. In a scenario of ingested stats and inserted labels that the
  -- measurement can be made of (`IsScript`), where the lines between the labels of a measurement of "checksums" are stats of checksums and lines that
  -- are none, with at most 2^53 distinct checksums at the end: nothing fails, `Measure` of the stats
  -- file, with more fuel than lines, gives their number, and the assertion that it is 1 accepts it
  -- exactly if the last checksums of all hosts are one and the same; else it fails with the error that
  -- the value is not the expected one.
  pub measure_checksums :
      (m : Measurement F) (before between after : List Action) (cmd cmd2 : Bytes) (fuel : ℕ)
      (es : List Entry)
      → m.quantity ≡ codes "checksums"
      → m.assertion ≡ some (is_number fl 1)
      → IsScript m before between after cmd cmd2
      → length
          (map action_line (scripted before (label m.start cmd) between (label m.end cmd2) after))
        < fuel
      → map action_line between ≡ map entry_line es
      → uniq (last_checksums [] es) ≤ 2 ^ 53
      → (si : StatIngester Bytes) × (n : F) × (n ≡ fl.of_int (pos (uniq (last_checksums [] es))))
        × (perform file
              (new_stat_ingester [])
              (scripted before (label m.start cmd) between (label m.end cmd2) after)
            ≡ ok si)
        × (measure fl line_scanner match_string fuel m (open_lines (file_lines si.writer) none)
            ≡ ok (number n))
        × ((((v : Bytes) × IsOnly v (last_checksums [] es))
              × (assert_value fl m.assertion (number n) ≡ ok tt))
            ⊎ ((¬ ((v : Bytes) × IsOnly v (last_checksums [] es)))
                × (assert_value fl m.assertion (number n) ≡ err not_expected)))
  measure_checksums m before between after cmd cmd2 fuel es q a h enough same small =
      let (si, performed, found) =
        measure-scripted fl match_string m before between after cmd cmd2 fuel h enough in
      (
        si,
        fl.of_int (pos (uniq (last_checksums [] es))),
        refl,
        performed,
        found ∙ ap (quantity_of fl match_string m none) same ∙ quantity_of-checksums m es q,
        rw a (elim (assert_value-is_number (uniq (last_checksums [] es)) 1 small (omega arith)) [
          | inl (e, accepted) ↦ inl ((uniq_one_iff (last_checksums [] es)).0 e, accepted)
          | inr (ne, refused) ↦ inr ((λ h. ne ((uniq_one_iff (last_checksums [] es)).1 h)), refused)
        ]),
      )
