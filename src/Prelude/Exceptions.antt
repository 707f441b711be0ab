-- ===== src/Prelude/Exceptions.antt =====
-- What a call returns or raises, where the exception is a value.
use mathlib.Core.Path.{◌≡◌, refl}
use mathlib.Core.Logic.{◌⊎◌, inl, inr}

pub data Except {ℓ κ} (E : Type ℓ) (A : Type κ) : Type (ℓ ⊔ κ) where
  returned : A → Except E A
  thrown : E → Except E A

pub Except-cases {ℓ κ} :
    {E : Type ℓ} {A : Type κ} (r : Except E A)
    → ((a : A) × (r ≡ returned a)) ⊎ ((e : E) × (r ≡ thrown e))
Except-cases (returned a) = inl (a, refl)
Except-cases (thrown e) = inr (e, refl)
