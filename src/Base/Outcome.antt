-- ===== src/Base/Outcome.antt =====
-- What a piece of C code does: it ends with a value, or it reaches undefined behaviour (an access
-- out of the bounds of an array, or an overflow of a buffer or of an `int`).
use mathlib.Core.Path.{◌≡◌, refl}

pub data Outcome {ℓ} (A : Type ℓ) : Type ℓ where
  ok : A → Outcome A
  fault : Outcome A

infixl 5 ◌>>=◌
abbrev pub ◌>>=◌ {ℓ κ} : {A : Type ℓ} {B : Type κ} → Outcome A → (A → Outcome B) → Outcome B
ok a >>= f = f a
fault >>= f = fault

-- The code ends, without undefined behaviour, in a result with the property.
abbrev pub Ensures {ℓ} : {A : Type ℓ} → (A → Type 0) → Outcome A → Type 0
Ensures P (ok a) = P a
Ensures P fault = ⊥

module _ {ℓ} {A : Type ℓ} where
  pub Ensures-mono :
      (P Q : A → Type 0) (r : Outcome A) → Ensures P r → ((a : A) → P a → Q a) → Ensures Q r
  Ensures-mono P Q (ok a) h f = f a h
  Ensures-mono P Q fault h f = elim h [ ]

  pub Ensures-bind {κ} :
      {B : Type κ} (P : A → Type 0) (Q : B → Type 0) (r : Outcome A) (k : A → Outcome B)
      → Ensures P r
      → ((a : A) → P a → Ensures Q (k a))
      → Ensures Q (r >>= k)
  Ensures-bind P Q (ok a) k h f = f a h
  Ensures-bind P Q fault k h f = elim h [ ]

  pub Ensures-ok : (P : A → Type 0) (r : Outcome A) → Ensures P r → (a : A) × (r ≡ ok a) × P a
  Ensures-ok P (ok a) h = (a, refl, h)
  Ensures-ok P fault h = elim h [ ]
