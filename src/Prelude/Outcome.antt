-- ===== src/Prelude/Outcome.antt =====
-- Python calls that may raise.
use mathlib.Core.Bool.{Bool, true, false}
use mathlib.Core.Option.{Option, none, some}
use mathlib.Core.Path.{◌≡◌, refl, subst}
use mathlib.Core.Logic.{◌⊎◌, inl, inr}

-- The exception classes that the modelled code raises or catches by name.
pub data Exception : Type 0 where
  value_error type_error key_error index_error runtime_error file_not_found eof_error : Exception
  zero_division_error system_exit prepare_error service_error struct_error : Exception
  attribute_error : Exception

pub data Outcome {ℓ} (A : Type ℓ) : Type ℓ where
  return : A → Outcome A
  raise : Exception → Outcome A

infixl 5 ◌>>=◌ ◌>>◌
abbrev pub ◌>>=◌ {ℓ κ} : {A : Type ℓ} {B : Type κ} → Outcome A → (A → Outcome B) → Outcome B
return a >>= f = f a
raise e >>= f = raise e

abbrev pub ◌>>◌ {ℓ} : {B : Type ℓ} → Outcome (Unit {0}) → Outcome B → Outcome B
m >> k = m >>= λ _. k

-- `if not test: raise e`
abbrev pub require : Bool → Exception → Outcome (Unit {0})
require true e = return tt
require false e = raise e

-- `d[key]` on the answer of a lookup.
abbrev pub or_raise {ℓ} : {A : Type ℓ} → Option A → Exception → Outcome A
or_raise (some a) e = return a
or_raise none e = raise e

abbrev pub Returns {ℓ} : {A : Type ℓ} → (A → Type 0) → Outcome A → Type 0
Returns P (return a) = P a
Returns P (raise e) = ⊥

-- What holds of the value where one is returned.
abbrev pub Ensures {ℓ} : {A : Type ℓ} → (A → Type 0) → Outcome A → Type 0
Ensures P (return a) = P a
Ensures P (raise e) = Unit

pub Ensures-bind {ℓ κ} :
    {A : Type ℓ} {B : Type κ} (Q : A → Type 0) (P : B → Type 0) (m : Outcome A) (f : A → Outcome B)
    → Ensures Q m
    → ((a : A) → Q a → Ensures P (f a))
    → Ensures P (m >>= f)
Ensures-bind Q P (return a) f q h = h a q
Ensures-bind Q P (raise e) f q h = tt

pub Ensures-any {ℓ} : {A : Type ℓ} (m : Outcome A) → Ensures (λ a. Unit) m
Ensures-any (return a) = tt
Ensures-any (raise e) = tt

pub ensured {ℓ} :
    {A : Type ℓ} (P : A → Type 0) (m : Outcome A) (a : A) → Ensures P m → m ≡ return a → P a
ensured P m a h e = subst (Ensures P) e h

pub Ensures-map {ℓ} :
    {A : Type ℓ} (Q P : A → Type 0) (m : Outcome A)
    → ((a : A) → Q a → P a)
    → Ensures Q m
    → Ensures P m
Ensures-map Q P (return a) h q = h a q
Ensures-map Q P (raise e) h q = tt

-- To split on a call and keep the equation.
pub Outcome-cases {ℓ} :
    {A : Type ℓ} (m : Outcome A) → ((a : A) × (m ≡ return a)) ⊎ ((e : Exception) × (m ≡ raise e))
Outcome-cases (return a) = inl (a, refl)
Outcome-cases (raise e) = inr (e, refl)

-- What a call that returns returns.
pub returned {ℓ} :
    {A : Type ℓ} (P : A → Type 0) (m : Outcome A) → Returns P m → (a : A) × (m ≡ return a) × P a
returned P (return a) h = (a, refl, h)
returned P (raise e) h = absurd h

-- A chain that returns has returned at each call.
pub bound {ℓ κ} :
    {A : Type ℓ} {B : Type κ} (m : Outcome A) (f : A → Outcome B) (b : B)
    → (m >>= f) ≡ return b
    → (a : A) × (m ≡ return a) × (f a ≡ return b)
bound (return a) f b h = (a, refl, h)
bound (raise e) f b h = cc h
