-- ===== src/Prelude/Results.antt =====
-- `Result<A, E>`, and methods on `&mut self`: the state after the call, on errors too, beside the
-- result.
use mathlib.Core.Path.{◌≡◌, refl}
use mathlib.Core.Logic.{◌⊎◌, inl, inr}
use mathlib.Core.Bool.{Bool, true, false}
use mathlib.Core.Option.{Option, none, some}

pub data Result {ℓ κ} (E : Type ℓ) (A : Type κ) : Type (ℓ ⊔ κ) where
  ok : A → Result E A
  err : E → Result E A

infixl 5 ◌>>=◌ ◌>>◌
abbrev pub ◌>>=◌ {ℓ κ μ} :
    {E : Type ℓ} {A : Type κ} {B : Type μ} → Result E A → (A → Result E B) → Result E B
ok a >>= f = f a
err e >>= f = err e

abbrev pub ◌>>◌ {ℓ κ μ} :
    {E : Type ℓ} {A : Type κ} {B : Type μ} → Result E A → Result E B → Result E B
m >> k = m >>= λ _. k

-- An early `return Err(e)` if the test holds.
abbrev pub fail_if {ℓ} : {E : Type ℓ} → Bool → E → Result E (Unit {0})
fail_if true e = err e
fail_if false e = ok tt

abbrev pub ok_or {ℓ κ} : {E : Type ℓ} {A : Type κ} → Option A → E → Result E A
ok_or (some a) e = ok a
ok_or none e = err e

-- What a method on `&mut self` leaves and returns.
abbrev pub Outcome {ℓ κ μ} : (S : Type ℓ) (E : Type κ) (A : Type μ) → Type (ℓ ⊔ (κ ⊔ μ))
Outcome S E A = S × Result E A

-- `self.first()?; self.second()`
abbrev pub and_then {ℓ κ μ ν} :
    {S : Type ℓ} {E : Type κ} {A : Type μ} {B : Type ν}
    → Outcome S E A
    → (S → A → Outcome S E B)
    → Outcome S E B
and_then (s, ok a) f = f s a
and_then (s, err e) f = (s, err e)

-- A fallible computation that reads the state only: `let a = check(self)?;`
abbrev pub check {ℓ κ μ ν} :
    {S : Type ℓ} {E : Type κ} {A : Type μ} {B : Type ν}
    → S
    → Result E A
    → (A → Outcome S E B)
    → Outcome S E B
check s (ok a) f = f a
check s (err e) f = (s, err e)

-- Inversion of a successful bind, for proofs where the parts stay shut.
pub >>=-eq-ok {ℓ κ μ} :
    {E : Type ℓ} {A : Type κ} {B : Type μ} (first : Result E A) (next : A → Result E B) {value : B}
    → (first >>= next) ≡ ok value
    → (a : A) × (first ≡ ok a) × (next a ≡ ok value)
>>=-eq-ok (ok a) next done = (a, refl, done)
>>=-eq-ok (err e) next done = cc

pub Result-cases {ℓ κ} :
    {E : Type ℓ} {A : Type κ} (r : Result E A) → ((a : A) × (r ≡ ok a)) ⊎ ((e : E) × (r ≡ err e))
Result-cases (ok a) = inl (a, refl)
Result-cases (err e) = inr (e, refl)

pub ok_inj {ℓ κ} : {E : Type ℓ} {A : Type κ} (a b : A) → ◌≡◌ {A = Result E A} (ok a) (ok b) → a ≡ b
ok_inj a b h = cc

-- Inversion of a successful `and_then` and of a successful `check`.
module _ {ℓ κ μ ν} {S : Type ℓ} {E : Type κ} {A : Type μ} {B : Type ν} where
  pub and_then-eq-ok :
      (first : Outcome S E A) (next : S → A → Outcome S E B) {s' : S} {value : B}
      → and_then first next ≡ (s', ok value)
      → (s : S) × (a : A) × (first ≡ (s, ok a)) × (next s a ≡ (s', ok value))
  and_then-eq-ok (s, ok a) next done = (s, a, refl, done)
  and_then-eq-ok (s, err e) next done = cc

  pub check-eq-ok :
      (s : S) (first : Result E A) (next : A → Outcome S E B) {s' : S} {value : B}
      → check s first next ≡ (s', ok value)
      → (a : A) × (first ≡ ok a) × (next a ≡ (s', ok value))
  check-eq-ok s (ok a) next done = (a, refl, done)
  check-eq-ok s (err e) next done = cc
