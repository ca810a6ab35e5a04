-- ===== src/Outcome.antt =====
-- How a Go call of the orchestrator ends. A function with results `(T, error)` and a function that
-- panics are both functions into `Outcome`: the error result, a panic and `log.Fatal` are kept
-- apart, since `recover`, `errors.Wrap` and the callers treat them differently. `timeout` is no Go
-- outcome: it says that the fuel of a loop is used up.
-- A message is a constructor of `Failure` with the texts that it quotes; the values that a message
-- prints with `%v` are left out. `errors.Wrap` and `wrapPanicf` put a `Frame` round a failure.
use ringpop_common.Common.{ℕ, ◌≡◌, refl, List, Bytes}

pub data Frame : Type 0 where
  measuring counting checksumming converging ingesting : Frame
  first_timestamp second_timestamp : Frame
  udp_scanner udp_scan : Frame
  in_scenario : Bytes → Frame
  in_run : ℕ → Frame
  in_script : Frame
  in_command : Bytes → Bytes → Frame
  in_measure : Bytes → Frame
  in_assertion : Bytes → Bytes → Frame
  in_range : Bytes → Frame
  in_value : Bytes → Frame

pub data Failure : Type 0 where
  within : Frame → Failure → Failure
  -- the runtime's own panics
  index_out_of_range slice_out_of_range type_assertion nil_pointer : Failure
  -- what comes from outside: a scanner, a writer, a connection
  io_error : Bytes → Failure
  -- calc.go
  eval_error bad_literal unhandled_expression unsupported_operator : Bytes → Failure
  -- assertion.go
  assertion_kind : Bytes → Failure
  not_expected type_mismatch not_in_range : Failure
  -- section_scanner.go, measurement.go, stat_analysis.go, stat_ingester.go
  start_not_found no_such_quantity : Bytes → Failure
  count_arguments : List Bytes → Failure
  not_a_gauge no_host no_first_timestamp no_second_timestamp bad_time no_hostport : Bytes → Failure
  no_first_change : Failure
  -- test_yaml_parser.go
  not_yaml too_many_entries empty_command too_few_fields : Failure
  bad_assertion_type no_parentheses no_comma types_differ not_a_value var_count : Failure
  not_a_variable size_convert : Bytes → Failure

pub data Outcome {ℓ} (A : Type ℓ) : Type ℓ where
  ok : A → Outcome A
  err : Failure → Outcome A
  panic : Failure → Outcome A
  exit : Failure → Outcome A
  timeout : Outcome A

infixl 5 ◌>>=◌ ◌>>◌
abbrev pub ◌>>=◌ {ℓ κ} : {A : Type ℓ} {B : Type κ} → Outcome A → (A → Outcome B) → Outcome B
ok a >>= f = f a
err e >>= f = err e
panic e >>= f = panic e
exit e >>= f = exit e
timeout >>= f = timeout

abbrev pub ◌>>◌ {ℓ κ} : {A : Type ℓ} {B : Type κ} → Outcome A → Outcome B → Outcome B
m >> k = m >>= λ _. k

-- `errors.Wrap` of an error result
abbrev pub wrap_err {ℓ} : {A : Type ℓ} → Frame → Outcome A → Outcome A
wrap_err fr (err e) = err (within fr e)
wrap_err fr (ok a) = ok a
wrap_err fr (panic e) = panic e
wrap_err fr (exit e) = exit e
wrap_err fr timeout = timeout

-- a deferred `recover` that turns a panic into an error result
abbrev pub recovered {ℓ} : {A : Type ℓ} → Outcome A → Outcome A
recovered (panic e) = err e
recovered (ok a) = ok a
recovered (err e) = err e
recovered (exit e) = exit e
recovered timeout = timeout

-- `defer wrapPanicf(…)`: a panic goes on with a longer message
unfoldable pub wrap_panic {ℓ} : {A : Type ℓ} → Frame → Outcome A → Outcome A
wrap_panic fr (panic e) = panic (within fr e)
wrap_panic fr (ok a) = ok a
wrap_panic fr (err e) = err e
wrap_panic fr (exit e) = exit e
wrap_panic fr timeout = timeout

-- Inversion of a successful bind.
pub bind-eq-ok {ℓ κ} :
    {A : Type ℓ} {B : Type κ} (first : Outcome A) (next : A → Outcome B) {y : B}
    → first >>= next ≡ ok y
    → (x : A) × (first ≡ ok x) × (next x ≡ ok y)
bind-eq-ok (ok x) next same = (x, refl, same)
bind-eq-ok (err e) next same = cc
bind-eq-ok (panic e) next same = cc
bind-eq-ok (exit e) next same = cc
bind-eq-ok timeout next same = cc

pub wrap_panic-eq-ok {ℓ} :
    {A : Type ℓ} (fr : Frame) (m : Outcome A) {a : A} → wrap_panic fr m ≡ ok a → m ≡ ok a
unfolding wrap_panic
wrap_panic-eq-ok fr (ok a) h = h
wrap_panic-eq-ok fr (err e) h = cc
wrap_panic-eq-ok fr (panic e) h = cc
wrap_panic-eq-ok fr (exit e) h = cc
wrap_panic-eq-ok fr timeout h = cc

-- A function that reports trouble by a panic only: it returns a value or panics.
abbrev pub ReturnsOrPanics {ℓ} : {A : Type ℓ} → Outcome A → Type 0
ReturnsOrPanics (ok a) = Unit
ReturnsOrPanics (panic e) = Unit
ReturnsOrPanics _ = ⊥

pub bind-ReturnsOrPanics {ℓ κ} :
    {A : Type ℓ} {B : Type κ} (m : Outcome A) (f : A → Outcome B)
    → ReturnsOrPanics m
    → ((a : A) → ReturnsOrPanics (f a))
    → ReturnsOrPanics (m >>= f)
bind-ReturnsOrPanics (ok a) f h k = k a
bind-ReturnsOrPanics (panic e) f h k = tt
bind-ReturnsOrPanics (err e) f h k = h
bind-ReturnsOrPanics (exit e) f h k = h
bind-ReturnsOrPanics timeout f h k = h

pub wrap_panic-ReturnsOrPanics {ℓ} :
    {A : Type ℓ} (fr : Frame) (m : Outcome A)
    → ReturnsOrPanics m
    → ReturnsOrPanics (wrap_panic fr m)
unfolding wrap_panic
wrap_panic-ReturnsOrPanics fr (ok a) h = h
wrap_panic-ReturnsOrPanics fr (panic e) h = h
wrap_panic-ReturnsOrPanics fr (err e) h = h
wrap_panic-ReturnsOrPanics fr (exit e) h = h
wrap_panic-ReturnsOrPanics fr timeout h = h

-- A function that reports trouble by an error only.
abbrev pub IsResult {ℓ} : {A : Type ℓ} → Outcome A → Type 0
IsResult (ok a) = Unit
IsResult (err e) = Unit
IsResult _ = ⊥

pub recovered-IsResult {ℓ} :
    {A : Type ℓ} (m : Outcome A) → ReturnsOrPanics m → IsResult (recovered m)
recovered-IsResult (ok a) h = tt
recovered-IsResult (panic e) h = tt
recovered-IsResult (err e) h = tt
recovered-IsResult (exit e) h = h
recovered-IsResult timeout h = h

pub recovered-eq-ok {ℓ} : {A : Type ℓ} (m : Outcome A) {a : A} → recovered m ≡ ok a → m ≡ ok a
recovered-eq-ok (ok a) h = h
recovered-eq-ok (panic e) h = cc
recovered-eq-ok (err e) h = cc
recovered-eq-ok (exit e) h = cc
recovered-eq-ok timeout h = cc
