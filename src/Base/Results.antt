-- ===== src/Base/Results.antt =====
-- A call that may throw: its value or its error.
use mathlib.Core.Path.{◌≡◌, refl}

pub data Result {ℓ κ} (E : Type ℓ) (A : Type κ) : Type (ℓ ⊔ κ) where
  returned : A → Result E A
  thrown : E → Result E A

infixl 5 ◌>>=◌ ◌>>◌
abbrev pub ◌>>=◌ : {E A B : Type 0} → Result E A → (A → Result E B) → Result E B
returned a >>= k = k a
thrown e >>= k = thrown e

abbrev pub ◌>>◌ : {E B : Type 0} → Result E (Unit {0}) → Result E B → Result E B
m >> k = m >>= λ _. k

-- A chain that returns has a first call that returns.
pub bind-eq-returned :
    {E A B : Type 0} (m : Result E A) (k : A → Result E B) (b : B)
    → (m >>= k) ≡ returned b
    → (a : A) × (m ≡ returned a) × (k a ≡ returned b)
bind-eq-returned (returned a) k b e = (a, refl, e)
bind-eq-returned (thrown f) k b e = cc
