-- ===== src/Prelude/Failure.antt =====
-- Results of fallible operations, over an error type of each component.
use mathlib.Core.Path.{◌≡◌, refl}
use mathlib.Core.Bool.{Bool, true, false}

pub data Result {ℓ κ} (E : Type κ) (A : Type ℓ) : Type (ℓ ⊔ κ) where
  ok : A → Result E A
  err : E → Result E A

infixl 5 ◌>>=◌ ◌>>◌
abbrev pub ◌>>=◌ {ℓ κ ι} :
    {E : Type κ} {A : Type ℓ} {B : Type ι} → Result E A → (A → Result E B) → Result E B
ok a >>= f = f a
err e >>= f = err e

abbrev pub ◌>>◌ {ℓ κ} : {E : Type κ} {B : Type ℓ} → Result E (Unit {0}) → Result E B → Result E B
m >> k = m >>= λ _. k

-- `if bad { return err }`.
abbrev pub refuse {κ} : {E : Type κ} → Bool → E → Result E (Unit {0})
refuse true e = err e
refuse false e = ok tt

-- What an accepted sequence of guards says.
pub refuse-ok {ℓ κ} :
    {E : Type κ} {A : Type ℓ} {a : A} (b : Bool) (e : E) (k : Result E A)
    → (refuse b e >> k) ≡ ok a
    → (b ≡ false) × (k ≡ ok a)
refuse-ok true e k h = cc
refuse-ok false e k h = (refl, h)
