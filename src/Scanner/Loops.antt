-- ===== src/Scanner/Loops.antt =====
-- The loops over a scanner, as loops over the lines that it yields.
use ringpop_common.Common.{
  ℕ, zero, suc, ◌<◌, ◌≡◌, refl, inl, inr, Bool, true, false, Option, none, some, List, [], ◌∷◌,
  arith, if◌then◌else◌, Bool-cases, Bytes, length,
}
use ringpop_common.Outcome.{Failure, Outcome, ok, err, panic, exit, timeout, ◌>>=◌}
use ringpop_common.Scanner.{Scanner, Yields, for_scan, scan_until}

module _ {ℓ} {A : Type ℓ} (body : A → Bytes → Outcome A) where
  unfoldable pub for_lines : A → List Bytes → Outcome A
  for_lines a [] = ok a
  for_lines a (l ∷ ls) = do b ← body a l; for_lines b ls

-- what stands behind the first line that passes the test, with that line
unfoldable pub find_line : (Bytes → Bool) → List Bytes → Option (Bytes × List Bytes)
find_line test [] = none
find_line test (l ∷ ls) = if test l then some (l, ls) else find_line test ls

module _ {S : Type 0} (sc : Scanner S) where
  module _ {ℓ} {A : Type ℓ} (body : A → Bytes → Outcome A) where
    -- The loop ends as the loop over the lines does: with its value, and then the scanner has stopped
    -- with its error; or with the same failure.
    abbrev pub Agrees : Option Failure → Outcome A → Outcome (A × S) → Type ℓ
    Agrees e (ok a) r = (t : S) × (r ≡ ok (a, t)) × (sc.err_of t ≡ e)
    Agrees e (err f) r = r ≡ err f
    Agrees e (panic f) r = r ≡ panic f
    Agrees e (exit f) r = r ≡ exit f
    Agrees e timeout r = r ≡ timeout

    for_scan_step :
        (n : ℕ) (a : A) (s t : S)
        → sc.scan s ≡ (true, t)
        → for_scan sc body (suc n) a s ≡ (body a (sc.text t) >>= λ b. for_scan sc body n b t)
    unfolding for_scan
    for_scan_step n a s t h = rw h

    Agrees-step :
        (n : ℕ) (l : Bytes) (ls : List Bytes) (e : Option Failure) (t : S) (m : Outcome A)
        → ((a : A) → Agrees e (for_lines body a ls) (for_scan sc body n a t))
        → Agrees e (m >>= λ b. for_lines body b ls) (m >>= λ b. for_scan sc body n b t)
    Agrees-step n l ls e t (ok b) k = k b
    Agrees-step n l ls e t (err f) k = refl
    Agrees-step n l ls e t (panic f) k = refl
    Agrees-step n l ls e t (exit f) k = refl
    Agrees-step n l ls e t timeout k = refl

    pub for_scan-Agrees :
        (ls : List Bytes) (fuel : ℕ) (a : A) (s : S) (e : Option Failure)
        → length ls < fuel
        → Yields sc s ls e
        → Agrees e (for_lines body a ls) (for_scan sc body fuel a s)
    unfolding for_lines
    for_scan-Agrees ls zero a s e h y = elim h [ ]
    for_scan-Agrees [] (suc n) a s e h (t, stop, er) = (t, unfold for_scan in rw stop, er)
    for_scan-Agrees (l ∷ ls) (suc n) a s e h (t, step, tx, no_err, y) =
        rw (for_scan_step n a s t step, tx)
          (Agrees-step n l ls e t (body a l) (λ b. for_scan-Agrees ls n b t e (omega arith) y))

  module _ (test : Bytes → Bool) where
    -- The search ends at the first line that passes, or, if there is none, where the scanner stops.
    abbrev pub Finds : Option Failure → Option (Bytes × List Bytes) → Outcome (Bool × S) → Type 0
    Finds e none r = (t : S) × (r ≡ ok (false, t)) × (sc.err_of t ≡ e)
    Finds e (some (l, rest)) r =
        (t : S) × (r ≡ ok (true, t)) × (sc.text t ≡ l) × (sc.err_of t ≡ none) × Yields sc t rest e

    scan_until_step :
        (n : ℕ) (s t : S)
        → sc.scan s ≡ (true, t)
        → scan_until sc test (suc n) s
          ≡ (if test (sc.text t) then ok (true, t) else scan_until sc test n t)
    unfolding scan_until
    scan_until_step n s t h = rw h

    pub scan_until-Finds :
        (ls : List Bytes) (fuel : ℕ) (s : S) (e : Option Failure)
        → length ls < fuel
        → Yields sc s ls e
        → Finds e (find_line test ls) (scan_until sc test fuel s)
    unfolding find_line
    scan_until-Finds ls zero s e h y = elim h [ ]
    scan_until-Finds [] (suc n) s e h (t, stop, er) = (t, unfold scan_until in rw stop, er)
    scan_until-Finds (l ∷ ls) (suc n) s e h (t, step, tx, no_err, y) =
        rw (scan_until_step n s t step, tx)
          (elim (Bool-cases (test l)) [
            | inl yes_ ↦ rw yes_ (t, refl, tx, no_err, y)
            | inr no_ ↦ rw no_ (scan_until-Finds ls n t e (omega arith) y)
          ])
