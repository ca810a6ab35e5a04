-- ===== src/Yaml/Ensures.antt =====
-- What a function of test_yaml_parser.go ensures of its result, if it returns one.
use ringpop_common.Common.{◌≡◌, refl}
use ringpop_common.Outcome.{Frame, Outcome, ok, err, panic, exit, timeout, ◌>>=◌, wrap_panic}

-- If there is a value, it has the property.
abbrev pub Ensures {ℓ} : {A : Type ℓ} → (A → Type 0) → Outcome A → Type 0
Ensures P (ok a) = P a
Ensures P _ = Unit

pub Ensures-bind {ℓ κ} :
    {A : Type ℓ} {B : Type κ} (Q : A → Type 0) (P : B → Type 0) (m : Outcome A) (f : A → Outcome B)
    → Ensures Q m
    → ((a : A) → Q a → Ensures P (f a))
    → Ensures P (m >>= f)
Ensures-bind Q P (ok a) f h k = k a h
Ensures-bind Q P (err e) f h k = tt
Ensures-bind Q P (panic e) f h k = tt
Ensures-bind Q P (exit e) f h k = tt
Ensures-bind Q P timeout f h k = tt

pub Ensures-any {ℓ} : {A : Type ℓ} (m : Outcome A) → Ensures (λ a. Unit) m
Ensures-any (ok a) = tt
Ensures-any (err e) = tt
Ensures-any (panic e) = tt
Ensures-any (exit e) = tt
Ensures-any timeout = tt

pub Ensures-wrap_panic {ℓ} :
    {A : Type ℓ} (P : A → Type 0) (fr : Frame) (m : Outcome A)
    → Ensures P m
    → Ensures P (wrap_panic fr m)
unfolding wrap_panic
Ensures-wrap_panic P fr (ok a) h = h
Ensures-wrap_panic P fr (err e) h = tt
Ensures-wrap_panic P fr (panic e) h = tt
Ensures-wrap_panic P fr (exit e) h = tt
Ensures-wrap_panic P fr timeout h = tt

pub Ensures-eq_ok {ℓ} :
    {A : Type ℓ} (P : A → Type 0) (m : Outcome A) {a : A} → Ensures P m → m ≡ ok a → P a
Ensures-eq_ok P m h e = rw e at h

-- What it returns is what it returns.
pub Ensures-self : {A : Type 0} (m : Outcome A) → Ensures (λ a. m ≡ ok a) m
Ensures-self (ok a) = refl
Ensures-self (err e) = tt
Ensures-self (panic e) = tt
Ensures-self (exit e) = tt
Ensures-self timeout = tt

pub Ensures-map {ℓ} :
    {A : Type ℓ} (P Q : A → Type 0) (m : Outcome A)
    → ((a : A) → P a → Q a)
    → Ensures P m
    → Ensures Q m
Ensures-map P Q (ok a) f h = f a h
Ensures-map P Q (err e) f h = tt
Ensures-map P Q (panic e) f h = tt
Ensures-map P Q (exit e) f h = tt
Ensures-map P Q timeout f h = tt
