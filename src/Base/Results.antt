-- ===== src/Base/Results.antt =====
-- Rust's `Result<A, E>`, with the `?` operator as `>>=`.
use mathlib.Core.Path.{◌≡◌, refl}
use mathlib.Core.Logic.{◌⊎◌, inl, inr}
use mathlib.Core.Bool.{Bool, true, false}
use mathlib.Core.Option.{Option, none, some}

pub data Result {ℓ κ} (A : Type ℓ) (E : Type κ) : Type (ℓ ⊔ κ) where
  ok : A → Result A E
  err : E → Result A E

-- `if test { return Err(e) }`
abbrev pub fail_if {μ} : {E : Type μ} → Bool → E → Result (Unit {0}) E
fail_if true e = err e
fail_if false e = ok tt

-- `Option::ok_or`
abbrev pub ok_or {ℓ μ} : {A : Type ℓ} {E : Type μ} → Option A → E → Result A E
ok_or none e = err e
ok_or (some a) e = ok a

infixl 5 ◌>>=◌ ◌>>◌
-- The `?` operator: the first error is the result.
abbrev pub ◌>>=◌ {ℓ κ μ} :
    {A : Type ℓ} {B : Type κ} {E : Type μ} → Result A E → (A → Result B E) → Result B E
err e >>= next = err e
ok a >>= next = next a

-- The same for a step without a value
abbrev pub ◌>>◌ {ℓ μ} : {B : Type ℓ} {E : Type μ} → Result (Unit {0}) E → Result B E → Result B E
step >> next = step >>= λ _. next

pub Result-cases {ℓ μ} :
    {A : Type ℓ} {E : Type μ} (r : Result A E) → ((a : A) × (r ≡ ok a)) ⊎ ((e : E) × (r ≡ err e))
Result-cases (ok a) = inl (a, refl)
Result-cases (err e) = inr (e, refl)

-- A successful chain: its first step succeeded, and so did the rest.
pub >>=-eq-ok {ℓ κ μ} :
    {A : Type ℓ} {B : Type κ} {E : Type μ} (step : Result A E) (next : A → Result B E) {v : B}
    → (step >>= next) ≡ ok v
    → (u : A) × (step ≡ ok u) × (next u ≡ ok v)
>>=-eq-ok (err e) next failed = cc
>>=-eq-ok (ok u) next done = (u, refl, done)
