-- ===== src/Measurement.antt =====
-- cluster-test/test-orchestrator/measurement.go: one measurement over the stats of a scanner.
pub mod Window
pub mod Kinds
pub mod Ends
use ringpop_common.Common.{
  ◌≡◌, refl, ℕ, ◌+◌, Bool, Option, none, some, List, [], ◌∷◌, ◌++◌, if◌then◌else◌, Bytes, codes,
  bytes_eq,
}
use ringpop_common.Common.Int.{pos}
use ringpop_common.Float.{Float64}
use ringpop_common.Value.{Value, number, duration}
use ringpop_common.Outcome.{
  measuring, no_such_quantity, count_arguments, Outcome, ok, err, ◌>>=◌, ◌>>◌, exit, panic, timeout,
  within, Failure,
}
use ringpop_common.Command.{Measurement}
use ringpop_common.Text.{join}
use ringpop_common.Assertion
use ringpop_common.Scanner.{Scanner}
use ringpop_common.Scanner.Section.{SectionScanner, new_section_scanner, section_scanner}
use ringpop_common.Analysis.{count_analysis, checksums_analysis, convergence_time_analysis}

module _ {F : Type 0} (format_value : Value F → Bytes) where
  -- `String`: the quantity, the arguments and the assertion, if there is one
  unfoldable pub to_string : Measurement F → Outcome Bytes
  unfolding join Assertion.to_string
  to_string m = elim m.assertion [
    | none ↦ ok (join (m.quantity ∷ m.args) (b' ' ∷ []))
    | some a ↦ do
      text ← Assertion.to_string format_value (some a)
      ok (join (m.quantity ∷ (m.args ++ text ∷ [])) (b' ' ∷ []))
  ]

-- `errors.Wrapf(err, "measure %s\n", m)`: to print `m` is to call its `String`, and that of its assertion,
-- which ends the process for an assertion of unknown type. The text itself is left out.
unfoldable pub wrap_measure : {F A : Type 0} → Measurement F → Outcome A → Outcome A
unfolding Assertion.to_string
wrap_measure m (err e) = Assertion.to_string (λ v. []) m.assertion >> err (within measuring e)
wrap_measure m (ok a) = ok a
wrap_measure m (panic e) = panic e
wrap_measure m (exit e) = exit e
wrap_measure m timeout = timeout

err_behind :
    {A B C : Type 0} (x : Outcome C) (e : Failure) (f : A → Outcome B)
    → (x >> err e) >>= f ≡ x >> err e
err_behind (ok c) e f = refl
err_behind (err d) e f = refl
err_behind (panic d) e f = refl
err_behind (exit d) e f = refl
err_behind timeout e f = refl

pub wrap_measure-bind :
    {F A B : Type 0} (m : Measurement F) (e : Failure) (f : A → Outcome B)
    → wrap_measure m (err e) >>= f ≡ wrap_measure m (err e)
unfolding wrap_measure
wrap_measure-bind m e f =
    err_behind (Assertion.to_string (λ v. []) m.assertion) (within measuring e) f

module _ {F S : Type 0} (fl : Float64 F) (sc : Scanner S)
    (match_string : Bytes → Bytes → Option Bool) where
  -- `case "count"`
  count_case : ℕ → Measurement F → List Bytes → SectionScanner S → Outcome (Value F)
  count_case fuel m (statpath ∷ []) s = do
    count ← wrap_measure m (count_analysis (section_scanner sc) match_string fuel s statpath)
    ok (number (fl.of_int (pos count)))
  count_case fuel m args s = err (count_arguments args)

  -- the switch on the quantity, over the section
  unfoldable pub measure_section : ℕ → Measurement F → SectionScanner S → Outcome (Value F)
  unfolding count_case wrap_measure
  measure_section fuel m s =
      if bytes_eq m.quantity (codes "convtime")
      then (do
        convtime ← wrap_measure m (convergence_time_analysis (section_scanner sc) fuel s)
        ok (duration convtime))
      else if bytes_eq m.quantity (codes "checksums")
      then (do
        csums ← wrap_measure m (checksums_analysis (section_scanner sc) fuel s)
        ok (number (fl.of_int (pos csums))))
      else if bytes_eq m.quantity (codes "count")
      then count_case fuel m m.args s
      else err (no_such_quantity m.quantity)

  -- `Measure`
  unfoldable pub measure : ℕ → Measurement F → S → Outcome (Value F)
  measure fuel m s = do
    section ← wrap_measure m (new_section_scanner sc fuel s m.start m.end)
    measure_section fuel m section
