-- ===== src/Scanner.antt =====
-- cluster-test/test-orchestrator/section_scanner.go, the interface `Scanner`: its three methods as a
-- record over the type of the scanner's state, what a run of a scanner yields, and the two kinds of
-- `for s.Scan()` loops. A loop takes fuel, one unit for each call of `Scan`; a scanner that yields a
-- list of lines needs one more than its length.
pub mod Loops
pub mod Lines
pub mod Section
pub mod Udp
use ringpop_common.Common.{
  ℕ, zero, suc, ◌≡◌, Bool, true, false, Option, none, List, [], ◌∷◌, if◌then◌else◌, Bytes,
}
use ringpop_common.Outcome.{Failure, Outcome, ok, timeout, ◌>>=◌, ◌>>◌}

pub record Scanner (S : Type 0) : Type 0 where
  pub scan : S → Bool × S
  pub text : S → Bytes
  pub err_of : S → Option Failure

module _ {S : Type 0} (sc : Scanner S) where
  -- From state `s` the scanner yields these lines and stops with the error `e`. Until it stops there
  -- is no error.
  abbrev pub Yields : S → List Bytes → Option Failure → Type 0
  Yields s [] e = (t : S) × (sc.scan s ≡ (false, t)) × (sc.err_of t ≡ e)
  Yields s (l ∷ ls) e =
      (t : S) × (sc.scan s ≡ (true, t)) × (sc.text t ≡ l) × (sc.err_of t ≡ none) × Yields t ls e

  module _ {ℓ} {A : Type ℓ} (body : A → Bytes → Outcome A) where
    pub next_round : (A → S → Outcome (A × S)) → A → Bool × S → Outcome (A × S)
    next_round loop a (false, t) = ok (a, t)
    next_round loop a (true, t) = do b ← body a (sc.text t); loop b t

    -- `for s.Scan() { … }` over the variables `A` of the loop
    unfoldable pub for_scan : ℕ → A → S → Outcome (A × S)
    unfolding next_round
    for_scan zero a s = timeout
    for_scan (suc n) a s = next_round (for_scan n) a (sc.scan s)

  module _ (test : Bytes → Bool) where
    pub next_try : (S → Outcome (Bool × S)) → Bool × S → Outcome (Bool × S)
    next_try loop (false, t) = ok (false, t)
    next_try loop (true, t) = let rest = loop t in if test (sc.text t) then ok (true, t) else rest

    -- `for s.Scan() { if test(s.Text()) { break } }`: whether there was such a line
    unfoldable pub scan_until : ℕ → S → Outcome (Bool × S)
    unfolding next_try
    scan_until zero s = timeout
    scan_until (suc n) s = next_try (scan_until n) (sc.scan s)
