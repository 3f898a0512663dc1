-- ===== src/Base/Outcome.antt =====
-- What a call returns or throws. NestJS exceptions are the constructors of `Error`; a plain
-- `throw new Error` is `thrown`, and the RangeError of BigInt is `range_error`.
use mathlib.Core.Path.{◌≡◌, refl}
use mathlib.Core.Logic.{◌⊎◌, inl, inr}
use mathlib.Core.Bool.{Bool, true, false}
use mathlib.Core.Option.{Option, none, some}

pub data Error : Type 0 where
  not_found bad_request conflict forbidden thrown range_error too_many_requests : Error

pub data Result {ℓ} (A : Type ℓ) : Type ℓ where
  err : Error → Result A
  ok : A → Result A

infixl 5 ◌>>=◌
abbrev pub ◌>>=◌ {ℓ} : {A B : Type ℓ} → Result A → (A → Result B) → Result B
◌>>=◌ call next = elim call [ ok a ↦ next a | err e ↦ err e ]

-- `if (!row) throw e`
abbrev pub or_throw {ℓ} : {A : Type ℓ} → Option A → Error → Result A
or_throw none e = err e
or_throw (some a) e = ok a

-- `if (c) throw e`
abbrev pub throw_if : Bool → Error → Result (Unit {0})
throw_if true e = err e
throw_if false e = ok tt

-- To split on what a call returned, and keep the equation.
pub outcome_cases {ℓ} :
    {A : Type ℓ} (r : Result A) → ((a : A) × (r ≡ ok a)) ⊎ ((e : Error) × (r ≡ err e))
outcome_cases (ok a) = inl (a, refl)
outcome_cases (err e) = inr (e, refl)

-- What a chain of calls returned, it returned through each.
pub bind_inv {ℓ} :
    {A B : Type ℓ} (call : Result A) (next : A → Result B) (b : B)
    → (call >>= next) ≡ ok b
    → (a : A) × (call ≡ ok a) × (next a ≡ ok b)
bind_inv (ok a) next b h = (a, refl, h)
bind_inv (err e) next b h = cc

pub or_throw_inv {ℓ} :
    {A : Type ℓ} (o : Option A) (e : Error) (a : A) → or_throw o e ≡ ok a → o ≡ some a
or_throw_inv none e a h = cc
or_throw_inv (some b) e a h = cc

pub throw_if_inv : (c : Bool) (e : Error) (a : Unit {0}) → throw_if c e ≡ ok a → c ≡ false
throw_if_inv true e a h = cc
throw_if_inv false e a h = refl
