-- ===== src/Base/Answers.antt =====
-- The answer of an operation that may throw one of the HTTP exceptions.
use mathlib.Core.Path.{◌≡◌, refl}
use mathlib.Core.Bool.{Bool, true, false}
use mathlib.Core.Option.{Option, none, some}

-- An operation's result, or the exception that it throws.
pub data Refusal : Type 0 where
  not_found : Refusal
  bad_request : Refusal
  unauthorized : Refusal
  forbidden : Refusal

pub data Answer {ℓ} (A : Type ℓ) : Type ℓ where
  given : A → Answer A
  refused : Refusal → Answer A

infixl 5 ◌>>=◌ ◌>>◌
abbrev pub ◌>>=◌ {ℓ κ} : {A : Type ℓ} {B : Type κ} → Answer A → (A → Answer B) → Answer B
given a >>= f = f a
refused e >>= f = refused e

abbrev pub ◌>>◌ {ℓ} : {B : Type ℓ} → Answer (Unit {0}) → Answer B → Answer B
m >> k = m >>= λ _. k

-- The value, if it is there; else the exception.
abbrev pub or_refuse {ℓ} : {A : Type ℓ} → Option A → Refusal → Answer A
or_refuse none e = refused e
or_refuse (some a) e = given a

abbrev pub guard : Bool → Refusal → Answer (Unit {0})
guard true e = given tt
guard false e = refused e

-- Inversion of what succeeds.
pub >>=-eq-given {ℓ κ} :
    {A : Type ℓ} {B : Type κ} (m : Answer A) (f : A → Answer B) {b : B}
    → (m >>= f) ≡ given b
    → (a : A) × (m ≡ given a) × (f a ≡ given b)
>>=-eq-given (given a) f h = (a, refl, h)
>>=-eq-given (refused e) f h = cc

pub or_refuse-eq-given {ℓ κ} :
    {A : Type ℓ} {B : Type κ} (o : Option A) (e : Refusal) (f : A → Answer B) {b : B}
    → (or_refuse o e >>= f) ≡ given b
    → (a : A) × (o ≡ some a) × (f a ≡ given b)
or_refuse-eq-given none e f h = cc
or_refuse-eq-given (some a) e f h = (a, refl, h)

pub guard-eq-given {ℓ} :
    {A : Type ℓ} (t : Bool) (e : Refusal) (m : Answer A) {a : A}
    → (guard t e >> m) ≡ given a
    → (t ≡ true) × (m ≡ given a)
guard-eq-given true e m h = (refl, h)
guard-eq-given false e m h = cc

pub given_inj {ℓ} : {A : Type ℓ} {a b : A} → given a ≡ given b → a ≡ b
given_inj e = cc
