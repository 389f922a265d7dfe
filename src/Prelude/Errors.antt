-- ===== src/Prelude/Errors.antt =====
-- The exceptions of the services as values. Messages are not modelled, only the class.
use mathlib.Core.Path.{◌≡◌, refl, ap}
use native.Mathlib.Omega.{arith}
use mathlib.Core.Logic.{◌⊎◌, inl, inr}
use mathlib.Core.Bool.{Bool, true, false}
use mathlib.Core.Option.{Option, none, some}

pub data Error : Type 0 where
  value_error type_error runtime_error integrity_error : Error
  not_found invalid_update conflict unavailable : Error
  trigger_error session_error lease_error rate_limit_error worker_error artifact_rejected : Error

-- What a call that may raise comes to.
pub data Result {ℓ} (Value : Type ℓ) : Type ℓ where
  err : Error → Result Value
  ok : Value → Result Value

-- The rest of a call, unless it has raised before.
infixl 5 ◌>>=◌ ◌>>◌
abbrev pub ◌>>=◌ {ℓ κ} :
    {Value : Type ℓ} {Next : Type κ} → Result Value → (Value → Result Next) → Result Next
err e >>= rest = err e
ok v >>= rest = rest v

abbrev pub ◌>>◌ {κ} : {Next : Type κ} → Result (Unit {0}) → Result Next → Result Next
err e >> rest = err e
ok _ >> rest = rest

-- `if test: raise error`
abbrev pub raise_if : Bool → Error → Result (Unit {0})
raise_if true e = err e
raise_if false e = ok tt

-- `if value is None: raise error`
abbrev pub or_raise {ℓ} : {A : Type ℓ} → Option A → Error → Result A
or_raise none e = err e
or_raise (some a) _ = ok a

-- A transaction that raises is rolled back.
abbrev pub after {ℓ κ} : {S : Type ℓ} {A : Type κ} → S → Result (S × A) → S
after s (ok (s', _)) = s'
after s (err _) = s

pub Result-cases {ℓ} :
    {A : Type ℓ} (m : Result A) → ((e : Error) × (m ≡ err e)) ⊎ ((a : A) × (m ≡ ok a))
Result-cases (ok a) = inr (a, refl)
Result-cases (err e) = inl (e, refl)

-- What a call that succeeds has passed.
pub bind-ok {ℓ κ} :
    {Value : Type ℓ} {Next : Type κ} (call : Result Value) (rest : Value → Result Next) (n : Next)
    → (call >>= rest) ≡ ok n
    → (v : Value) × (call ≡ ok v) × (rest v ≡ ok n)
bind-ok (ok v) rest n h = (v, refl, h)
bind-ok (err e) rest n h = absurd (ground arith)

pub guard-ok {ℓ} :
    {B : Type ℓ} (test : Bool) (e : Error) (rest : Result B) (b : B)
    → (raise_if test e >> rest) ≡ ok b
    → (test ≡ false) × (rest ≡ ok b)
guard-ok true e rest b h = absurd (ground arith)
guard-ok false e rest b h = (refl, h)

pub found-ok {ℓ κ} :
    {A : Type ℓ} {B : Type κ} (o : Option A) (e : Error) (f : A → Result B) (b : B)
    → (or_raise o e >>= f) ≡ ok b
    → (a : A) × (o ≡ some a) × (f a ≡ ok b)
found-ok (some a) e f b h = (a, refl, h)
found-ok none e f b h = absurd (ground arith)

pub ok-injective {ℓ} : {A : Type ℓ} (a b : A) → ok a ≡ ok b → a ≡ b
ok-injective a b h = ap (λ m. elim m [ ok x ↦ x | err e ↦ a ]) h
