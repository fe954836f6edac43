-- ===== src/Prelude/Outcome.antt =====
-- Go's `(T, error)` results: a value, or the error that was returned instead.
use mathlib.Core.Path.{◌≡◌, refl}
use mathlib.Core.Bool.{Bool, true, false, ◌&&◌}
use mathlib.Core.Logic.{◌⊎◌, inl, inr}
use native.Mathlib.Omega.{arith}

pub data Result {ℓ κ} (E : Type ℓ) (A : Type κ) : Type (ℓ ⊔ κ) where
  ok : A → Result E A
  err : E → Result E A

-- `abbrev`, so that `ok a >>= f` computes wherever it stands.
infixl 5 ◌>>=◌ ◌>>◌
abbrev pub ◌>>=◌ {ℓ κ μ} :
    {E : Type ℓ} {A : Type κ} {B : Type μ} → Result E A → (A → Result E B) → Result E B
ok a >>= f = f a
err e >>= f = err e

abbrev pub ◌>>◌ {ℓ κ} : {E : Type ℓ} {B : Type κ} → Result E (Unit {0}) → Result E B → Result E B
m >> k = m >>= λ _. k

-- `if bad { return err }`
abbrev pub fail_if {ℓ} : {E : Type ℓ} → Bool → E → Result E (Unit {0})
fail_if true e = err e
fail_if false e = ok tt

-- `fmt.Errorf("...: %w", err)`
abbrev pub wrap {ℓ κ μ} : {E : Type ℓ} {F : Type κ} {A : Type μ} → (E → F) → Result E A → Result F A
wrap f (ok a) = ok a
wrap f (err e) = err (f e)

pub Result-cases {ℓ κ} :
    {E : Type ℓ} {A : Type κ} (r : Result E A) → ((a : A) × (r ≡ ok a)) ⊎ ((e : E) × (r ≡ err e))
Result-cases (ok a) = inl (a, refl)
Result-cases (err e) = inr (e, refl)

-- What a successful result of a chain comes from.
pub bind-ok_inv {ℓ κ μ} :
    {E : Type ℓ} {A : Type κ} {B : Type μ} (m : Result E A) (f : A → Result E B) (b : B)
    → (m >>= f) ≡ ok b
    → (a : A) × (m ≡ ok a) × (f a ≡ ok b)
bind-ok_inv (ok a) f b h = (a, refl, h)
bind-ok_inv (err e) f b h = ground arith

pub wrap-ok_inv {ℓ κ μ} :
    {E : Type ℓ} {F : Type κ} {A : Type μ} (f : E → F) (r : Result E A) (a : A)
    → wrap f r ≡ ok a
    → r ≡ ok a
wrap-ok_inv f (ok a) b h = ground arith
wrap-ok_inv f (err e) b h = ground arith

pub ok-inj {ℓ κ} : {E : Type ℓ} {A : Type κ} {a b : A} → Path (Result E A) (ok a) (ok b) → a ≡ b
ok-inj h = ground arith

abbrev pub is_ok {ℓ κ} : {E : Type ℓ} {A : Type κ} → Result E A → Bool
is_ok (ok a) = true
is_ok (err e) = false

pub is_ok-wrap {ℓ κ μ} :
    {E : Type ℓ} {F : Type κ} {A : Type μ} (f : E → F) (r : Result E A) → is_ok (wrap f r) ≡ is_ok r
is_ok-wrap f (ok a) = refl
is_ok-wrap f (err e) = refl

-- A chain succeeds if both parts do, where the second does so or not whatever the first gives.
module _ {ℓ κ μ} {E : Type ℓ} {A : Type κ} {B : Type μ} where
  pub is_ok-bind :
      (m : Result E A) (f : A → Result E B) {b c : Bool}
      → is_ok m ≡ b
      → ((a : A) → m ≡ ok a → is_ok (f a) ≡ c)
      → is_ok (m >>= f) ≡ (b && c)
  is_ok-bind (ok a) f h k = ground (arith, h, k a refl)
  is_ok-bind (err e) f h k = ground (arith, h)

  pub is_ok-last :
      (m : Result E A) (f : A → Result E B) {b : Bool}
      → is_ok m ≡ b
      → ((a : A) → m ≡ ok a → is_ok (f a) ≡ true)
      → is_ok (m >>= f) ≡ b
  is_ok-last (ok a) f h k = ground (arith, h, k a refl)
  is_ok-last (err e) f h k = h
