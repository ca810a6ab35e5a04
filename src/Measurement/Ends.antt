-- ===== src/Measurement/Ends.antt =====
-- How `Measure` of measurement.go can end.
use ringpop_common.Common.{
  ℕ, ◌+◌, ◌<◌, ◌≡◌, refl, ◌≢◌, inl, inr, Bool, Option, none, some, List, [], ◌∷◌, arith, ltb,
  Bool-cases, Option-cases, Bytes, codes, bytes_eq, bytes_eq_iff, length, take, drop,
}
use ringpop_common.Common.Int.{ℤ}
use ringpop_common.Float.{Float64}
use ringpop_common.Outcome.{
  Frame, measuring, checksumming, converging, Failure, slice_out_of_range, Outcome, ok, err, panic,
  exit, timeout, ◌>>=◌, ◌>>◌, wrap_err, within, assertion_kind, start_not_found,
}
use ringpop_common.Command.{Measurement}
use ringpop_common.Value.{Value}
use ringpop_common.Assertion.{Assertion, is_type, in_type}
use ringpop_common.Assertion
use ringpop_common.Clock.{parse_time}
use ringpop_common.Text.{index, contains}
use ringpop_common.Scanner.{Scanner, Yields}
use ringpop_common.Scanner.Loops.{for_lines}
use ringpop_common.Scanner.Section.{from_label, until_label, until_error}
use ringpop_common.Analysis.{checksum_path, check_err, store_checksum, checksum_line, time_diff}
use ringpop_common.Analysis.{timestamps, bars}
use ringpop_common.Analysis.Counting.{counted}
use ringpop_common.Analysis.Checksums.{checksums_of}
use ringpop_common.Analysis.Checksums.Cut.{IsCut, HasCut}
use ringpop_common.Analysis.Convergence.{changes, last_of, convergence}
use ringpop_common.Measurement.{wrap_measure, measure}
use ringpop_common.Measurement.Window.{occurrences_of, quantity_of, measured, measure-measured}

-- A value, an error, the end of the process by a failure for which `P` holds, or a panic for which
-- `Q` holds.
abbrev pub Ends : {A : Type 0} → (Failure → Type 0) → (Failure → Type 0) → Outcome A → Type 0
Ends P Q (ok a) = Unit
Ends P Q (err e) = Unit
Ends P Q (panic e) = Q e
Ends P Q (exit e) = P e
Ends P Q timeout = ⊥

-- What ends the process where a measurement is printed: an assertion of unknown type.
abbrev pub IsFatal : {F : Type 0} → Option (Assertion F) → Failure → Type 0
IsFatal none e = ⊥
IsFatal (some a) e = (a.kind ≢ is_type) × (a.kind ≢ in_type) × (e ≡ assertion_kind a.kind)

-- What makes a measurement panic on a file of these lines: checksums are counted, and the section of
-- the lines has one that is cut short.
abbrev pub IsPanic : {F : Type 0} → Measurement F → List Bytes → Failure → Type 0
IsPanic m ls e =
    (e ≡ slice_out_of_range)
    × (m.quantity ≡ codes "checksums")
    × ((xs : List Bytes) × (from_label m.start ls ≡ some xs) × HasCut (until_label m.end xs))

-- How a call of `String` ends.
abbrev IsPrinting : {F : Type 0} → Option (Assertion F) → Outcome Bytes → Type 0
IsPrinting a (ok text) = Unit
IsPrinting a (exit e) = IsFatal a e
IsPrinting a _ = ⊥

to_string-IsPrinting :
    {F : Type 0} (format_value : Value F → Bytes) (a : Option (Assertion F))
    → IsPrinting a (Assertion.to_string format_value a)
unfolding Assertion.to_string
to_string-IsPrinting format_value none = tt
to_string-IsPrinting format_value (some a) = elim (Bool-cases (bytes_eq a.kind is_type)) [
  | inl i ↦ rw i tt
  | inr ni ↦ elim (Bool-cases (bytes_eq a.kind in_type)) [
    | inl i ↦ rw ni (rw i tt)
    | inr nn ↦ rw ni (
        rw nn (
          (λ e. cc (ni, (bytes_eq_iff a.kind is_type).1 e)),
          (λ e. cc (nn, (bytes_eq_iff a.kind in_type).1 e)),
          refl,
        ))
  ]
]

module _ (P Q : Failure → Type 0) where
  bind-Ends :
      {A B : Type 0} (m : Outcome A) (f : A → Outcome B)
      → Ends P Q m
      → ((a : A) → Ends P Q (f a))
      → Ends P Q (m >>= f)
  bind-Ends (ok a) f h k = k a
  bind-Ends (err e) f h k = tt
  bind-Ends (panic e) f h k = h
  bind-Ends (exit e) f h k = h
  bind-Ends timeout f h k = h

  wrap_err-Ends : {A : Type 0} (fr : Frame) (m : Outcome A) → Ends P Q m → Ends P Q (wrap_err fr m)
  wrap_err-Ends fr (ok a) h = tt
  wrap_err-Ends fr (err e) h = tt
  wrap_err-Ends fr (panic e) h = h
  wrap_err-Ends fr (exit e) h = h
  wrap_err-Ends fr timeout h = h

  timestamps-Ends : (t1 t2 : Option ℤ) (a b : Bytes) → Ends P Q (timestamps t1 t2 a b)
  unfolding timestamps
  timestamps-Ends none t2 a b = tt
  timestamps-Ends (some t1) none a b = tt
  timestamps-Ends (some t1) (some t2) a b = tt

  bars-Ends : (i1 i2 : Option ℕ) (a b : Bytes) → Ends P Q (bars i1 i2 a b)
  unfolding bars
  bars-Ends none i2 a b = tt
  bars-Ends (some i1) none a b = tt
  bars-Ends (some i1) (some i2) a b =
      timestamps-Ends (parse_time (take i1 a)) (parse_time (take i2 b)) (take i1 a) (take i2 b)

  convergence-Ends : (e : Option Failure) (ls : List Bytes) → Ends P Q (convergence e ls)
  unfolding convergence time_diff
  convergence-Ends e [] = tt
  convergence-Ends (some f) (l ∷ ls) = tt
  convergence-Ends none (l ∷ ls) =
      bind-Ends _ _
        (wrap_err-Ends converging _
          (bars-Ends (index l (codes "|")) (index (last_of l ls) (codes "|")) l (last_of l ls)))
        (λ d. tt)

  store_checksum-Ends :
      (line csum : Bytes) (m : List (Bytes × Bytes))
      → (length csum < 2 → Q slice_out_of_range)
      → Ends P Q (store_checksum line csum m)
  unfolding store_checksum
  store_checksum-Ends line csum m h = elim (Bool-cases (ltb (length csum) 2)) [
    | inl e ↦ rw e (h (ground arith))
    | inr n ↦ rw n (ground arith)
  ]

  checksum_line-Ends :
      (m : List (Bytes × Bytes)) (line : Bytes)
      → (IsCut line → Q slice_out_of_range)
      → Ends P Q (checksum_line m line)
  unfolding checksum_line
  checksum_line-Ends m line h = elim (Option-cases (index line checksum_path)) [
    | inl n ↦ rw (checksum_line, n) tt
    | inr (i, f) ↦ elim (Bool-cases (contains line (codes "ring.checksum"))) [
      | inl c ↦ rw (checksum_line, f) (rw c tt)
      | inr c ↦
          rw (checksum_line, f)
            (rw c (
              store_checksum-Ends line (drop (i + length checksum_path) line) m
                (λ short. h (i, f, c, short))))
    ]
  ]

  for_lines-Ends :
      (m : List (Bytes × Bytes)) (ls : List Bytes)
      → (HasCut ls → Q slice_out_of_range)
      → Ends P Q (for_lines checksum_line m ls)
  unfolding for_lines
  for_lines-Ends m [] h = tt
  for_lines-Ends m (l ∷ ls) h =
      bind-Ends (checksum_line m l) _ (checksum_line-Ends m l (λ cut. h (inl cut)))
        (λ b. for_lines-Ends b ls (λ cut. h (inr cut)))

  check_err-Ends : (fr : Frame) (e : Option Failure) → Ends P Q (check_err fr e)
  unfolding check_err
  check_err-Ends fr none = tt
  check_err-Ends fr (some e) = tt

  checksums_of-Ends :
      (e : Option Failure) (ls : List Bytes)
      → (HasCut ls → Q slice_out_of_range)
      → Ends P Q (checksums_of e ls)
  unfolding checksums_of
  checksums_of-Ends e ls h =
      bind-Ends _ _ (for_lines-Ends [] ls h)
        (λ m. bind-Ends (check_err checksumming e) _ (check_err-Ends checksumming e) (λ u. tt))

  counted-Ends : (e : Option Failure) (n : ℕ) → Ends P Q (counted e n)
  unfolding counted
  counted-Ends none n = tt
  counted-Ends (some e) n = tt

wrap_measure-Ends :
    {F A : Type 0} (Q : Failure → Type 0) (m : Measurement F) (o : Outcome A)
    → Ends (IsFatal m.assertion) Q o
    → Ends (IsFatal m.assertion) Q (wrap_measure m o)
unfolding wrap_measure
wrap_measure-Ends {F} {A} Q m (err e) h =
    printed (Assertion.to_string (λ v. []) m.assertion) (to_string-IsPrinting (λ v. []) m.assertion)
  where
    printed :
        (o : Outcome Bytes)
        → IsPrinting m.assertion o
        → Ends (IsFatal m.assertion) Q (◌>>◌ {B = A} o (err (within measuring e)))
    printed (ok text) p = tt
    printed (exit f) p = p
    printed (err f) p = absurd p
    printed (panic f) p = absurd p
    printed timeout p = absurd p
wrap_measure-Ends Q m (ok a) h = tt
wrap_measure-Ends Q m (panic e) h = h
wrap_measure-Ends Q m (exit e) h = h
wrap_measure-Ends Q m timeout h = h

module _ {F : Type 0} (fl : Float64 F) (match_string : Bytes → Bytes → Option Bool) where
  module _ (Q : Failure → Type 0) where
    occurrences_of-Ends :
        (m : Measurement F) (args : List Bytes) (e : Option Failure) (ls : List Bytes)
        → Ends (IsFatal m.assertion) Q (occurrences_of fl match_string m args e ls)
    unfolding occurrences_of
    occurrences_of-Ends m [] e ls = tt
    occurrences_of-Ends m (x ∷ y ∷ args) e ls = tt
    occurrences_of-Ends m (stat ∷ []) e ls =
        bind-Ends (IsFatal m.assertion) Q _ _
          (wrap_measure-Ends Q m _ (counted-Ends (IsFatal m.assertion) Q e _)) (λ n. tt)

    quantity_of-Ends :
        (m : Measurement F) (e : Option Failure) (ls : List Bytes)
        → (m.quantity ≡ codes "checksums" → HasCut ls → Q slice_out_of_range)
        → Ends (IsFatal m.assertion) Q (quantity_of fl match_string m e ls)
    unfolding quantity_of
    quantity_of-Ends m e ls h = elim (Bool-cases (bytes_eq m.quantity (codes "convtime"))) [
      | inl c ↦ rw c (
          bind-Ends (IsFatal m.assertion) Q _ _
            (wrap_measure-Ends Q m _ (convergence-Ends (IsFatal m.assertion) Q e (changes ls)))
            (λ d. tt))
      | inr n1 ↦ elim (Bool-cases (bytes_eq m.quantity (codes "checksums"))) [
        | inl c ↦ rw n1 (
            rw c (
              bind-Ends (IsFatal m.assertion) Q _ _
                (wrap_measure-Ends Q m _ (
                  checksums_of-Ends (IsFatal m.assertion) Q e ls
                    (h ((bytes_eq_iff m.quantity (codes "checksums")).0 c))))
                (λ n. tt)))
        | inr n2 ↦ elim (Bool-cases (bytes_eq m.quantity (codes "count"))) [
          | inl c ↦ rw n1 (rw n2 (rw c (occurrences_of-Ends m m.args e ls)))
          | inr n3 ↦ rw n1 (rw n2 (rw n3 tt))
        ]
      ]
    ]

  measured-Ends :
      (m : Measurement F) (e : Option Failure) (ls : List Bytes)
      → Ends (IsFatal m.assertion) (IsPanic m ls) (measured fl match_string m e ls)
  unfolding measured
  measured-Ends m e ls = elim (Option-cases (from_label m.start ls)) [
    | inl n ↦
        rw (measured, n) (wrap_measure-Ends (IsPanic m ls) m (err (start_not_found m.start)) tt)
    | inr (xs, f) ↦
        rw (measured, f)
          (quantity_of-Ends (IsPanic m ls) m (until_error m.end xs e) (until_label m.end xs)
            (λ is cut. (refl, is, (xs, f, cut))))
  ]

  -- `Measure` over a scanner that stops, of whatever lines and with whatever error, comes to an end
  -- within one call of `Scan` more than there are lines, in one of four ways: with a value; with an
  -- error; by ending the process, and then the measurement has an assertion of a type other than "is"
  -- and "in", which is the failure; or with a panic, and then that of a slice out of range, the
  -- quantity is "checksums", and between the labels stands a line with a node's checksum path and less
  -- than two bytes behind it.
  pub measure-Ends :
      {S : Type 0} (sc : Scanner S) (ls : List Bytes) (fuel : ℕ) (m : Measurement F) (s : S)
      (e : Option Failure)
      → length ls < fuel
      → Yields sc s ls e
      → Ends (IsFatal m.assertion) (IsPanic m ls) (measure fl sc match_string fuel m s)
  measure-Ends sc ls fuel m s e h y =
      rw (measure-measured fl match_string sc ls fuel m s e h y) (measured-Ends m e ls)
