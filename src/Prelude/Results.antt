-- ===== src/Prelude/Results.antt =====
-- Go's pair of a value and an error, where the caller reads the value only if the error is nil.
use mathlib.Core.Path.{◌≡◌, refl}
use mathlib.Core.Logic.{◌⊎◌, inl, inr}

pub data Result {ℓ κ} (E : Type κ) (A : Type ℓ) : Type (ℓ ⊔ κ) where
  ok : A → Result E A
  err : E → Result E A

module _ {ℓ κ μ} {E : Type κ} {A : Type ℓ} {B : Type μ} where
  infixl 5 ◌>>=◌
  abbrev pub ◌>>=◌ : Result E A → (A → Result E B) → Result E B
  ok a >>= f = f a
  err e >>= f = err e

module _ {ℓ κ} {E : Type κ} {A : Type ℓ} where
  pub Result-cases : (r : Result E A) → ((a : A) × (r ≡ ok a)) ⊎ ((e : E) × (r ≡ err e))
  Result-cases (ok a) = inl (a, refl)
  Result-cases (err e) = inr (e, refl)

module _ {ℓ κ μ} {E : Type κ} {A : Type ℓ} {B : Type μ} where
  -- Where a chain returns, its first part returned, and the rest did from there.
  pub >>=-eq-ok :
      (first : Result E A) (rest : A → Result E B) {done : B}
      → (first >>= rest) ≡ ok done
      → (found : A) × (first ≡ ok found) × (rest found ≡ ok done)
  >>=-eq-ok (err fault) rest returned = cc
  >>=-eq-ok (ok found) rest returned = (found, refl, returned)
