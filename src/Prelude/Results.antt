-- ===== src/Prelude/Results.antt =====
-- Go's `(value, error)` results: a value or an error, never both. `reject` is the early return
-- `if condition { return ..., err }`.
use mathlib.Core.Path.{◌≡◌, refl}
use mathlib.Core.Bool.{Bool, true, false}
use mathlib.Core.Logic.{◌≢◌, ◌⊎◌, inl, inr}

pub data Result {ℓ κ} (E : Type ℓ) (A : Type κ) : Type (ℓ ⊔ κ) where
  ok : A → Result E A
  err : E → Result E A

infixl 5 ◌>>=◌ ◌>>◌
abbrev pub ◌>>=◌ {ℓ κ μ} :
    {E : Type ℓ} {A : Type κ} {B : Type μ} → Result E A → (A → Result E B) → Result E B
ok a >>= f = f a
err e >>= f = err e

abbrev pub ◌>>◌ {ℓ κ} : {E : Type ℓ} {B : Type κ} → Result E (Unit {0}) → Result E B → Result E B
m >> k = m >>= λ _. k

abbrev pub reject {ℓ} : {E : Type ℓ} → Bool → E → Result E (Unit {0})
reject true e = err e
reject false e = ok tt

-- `x, err := call(); if err != nil { return ..., other }`
abbrev pub or_else {ℓ κ} : {E : Type ℓ} {A : Type κ} → Result E A → E → Result E A
or_else (ok a) e = ok a
or_else (err _) e = err e

abbrev pub is_ok {ℓ κ} : {E : Type ℓ} {A : Type κ} → Result E A → Bool
is_ok (ok a) = true
is_ok (err e) = false

pub Result-cases {ℓ κ} :
    {E : Type ℓ} {A : Type κ} (m : Result E A) → ((a : A) × (m ≡ ok a)) ⊎ ((e : E) × (m ≡ err e))
Result-cases (ok a) = inl (a, refl)
Result-cases (err e) = inr (e, refl)

pub ok-inj {ℓ κ} :
    {E : Type ℓ} {A : Type κ} (m : Result E A) {a b : A} → m ≡ ok a → m ≡ ok b → a ≡ b
ok-inj m h k = cc

module _ {ℓ κ μ} {E : Type ℓ} {A : Type κ} {B : Type μ} where
  -- What a call and its continuation returned, if together they returned a value.
  pub >>=-eq-ok :
      (call : Result E A) (next : A → Result E B) {value : B}
      → (call >>= next) ≡ ok value
      → (found : A) × (call ≡ ok found) × (next found ≡ ok value)
  >>=-eq-ok (err failure) next returned = cc
  >>=-eq-ok (ok found) next returned = (found, refl, returned)

module _ {ℓ κ} {E : Type ℓ} {B : Type κ} where
  -- What a passed guard leaves.
  pub reject-eq-ok :
      (c : Bool) (e : E) {m : Result E B} {b : B}
      → (reject c e >> m) ≡ ok b
      → (c ≡ false) × (m ≡ ok b)
  reject-eq-ok true e h = cc
  reject-eq-ok false e h = (refl, h)

-- A result that is no error.
pub is_ok-ok {ℓ κ} :
    {E : Type ℓ} {A : Type κ} (m : Result E A) → ((e : E) → m ≢ err e) → (a : A) × (m ≡ ok a)
is_ok-ok (ok a) h = (a, refl)
is_ok-ok (err e) h = absurd (h e refl)
