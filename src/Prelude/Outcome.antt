-- ===== src/Prelude/Outcome.antt =====
-- What a call of the program comes to: it returns, it has to wait for another thread, or it does
-- what C leaves undefined, fails an assertion or ends the process.
use mathlib.Core.Path.{◌≡◌, refl, subst}
use native.Mathlib.Omega.{arith}

pub data Fault : Type 0 where
  null_pointer out_of_bounds division_by_zero assertion exit unending : Fault

pub data Outcome {ℓ} (A : Type ℓ) : Type ℓ where
  ok : A → Outcome A
  waits : Outcome A
  fault : Fault → Outcome A

infixl 5 ◌>>=◌
abbrev pub ◌>>=◌ {κ μ} : {C : Type κ} {D : Type μ} → Outcome C → (C → Outcome D) → Outcome D
waits >>= next = waits
fault e >>= next = fault e
ok value >>= next = next value

-- Every value that is returned has the property.
abbrev pub Always {ℓ κ} : {A : Type ℓ} → (A → Type κ) → Outcome A → Type κ
Always P (ok a) = P a
Always P waits = Unit
Always P (fault e) = Unit

pub Always-bind {ℓ κ μ ν} :
    {A : Type ℓ} {B : Type κ} (P : A → Type μ) (Q : B → Type ν) (m : Outcome A) (f : A → Outcome B)
    → Always P m
    → ((a : A) → P a → Always Q (f a))
    → Always Q (m >>= f)
Always-bind P Q (ok a) f h k = k a h
Always-bind P Q waits f h k = tt
Always-bind P Q (fault e) f h k = tt

pub Always-ok {ℓ κ} :
    {A : Type ℓ} (P : A → Type κ) (m : Outcome A) {a : A} → Always P m → m ≡ ok a → P a
Always-ok P (ok b) h e = subst (λ m. Always P m) e h
Always-ok P waits h e = ground arith
Always-ok P (fault x) h e = ground arith

pub Always-Unit {ℓ} : {A : Type ℓ} (m : Outcome A) → Always (λ _. Unit {0}) m
Always-Unit (ok a) = tt
Always-Unit waits = tt
Always-Unit (fault e) = tt

pub bind_ext {ℓ κ} :
    {A : Type ℓ} {B : Type κ} (m : Outcome A) {f g : A → Outcome B}
    → ((a : A) → f a ≡ g a)
    → (m >>= f) ≡ (m >>= g)
bind_ext (ok a) h = h a
bind_ext waits h = refl
bind_ext (fault e) h = refl

-- Two properties of every value that is returned, taken together.
pub Always-both {ℓ κ μ ν} :
    {A : Type ℓ} (P : A → Type κ) (Q : A → Type μ) (R : A → Type ν) (m : Outcome A)
    → Always P m
    → Always Q m
    → ((a : A) → P a → Q a → R a)
    → Always R m
Always-both P Q R (ok a) h k f = f a h k
Always-both P Q R waits h k f = tt
Always-both P Q R (fault e) h k f = tt

pub Always-map {ℓ κ μ} :
    {A : Type ℓ} (P : A → Type κ) (Q : A → Type μ) (m : Outcome A)
    → ((a : A) → P a → Q a)
    → Always P m
    → Always Q m
Always-map P Q (ok a) f h = f a h
Always-map P Q waits f h = tt
Always-map P Q (fault e) f h = tt

-- The rest of a call may use what the first part returned.
pub Always-bind_eq {ℓ κ ν} :
    {A : Type ℓ} {B : Type κ} (Q : B → Type ν) (m : Outcome A) (f : A → Outcome B)
    → ((a : A) → m ≡ ok a → Always Q (f a))
    → Always Q (m >>= f)
Always-bind_eq Q (ok a) f h = h a refl
Always-bind_eq Q waits f h = tt
Always-bind_eq Q (fault e) f h = tt
