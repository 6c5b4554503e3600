-- ===== src/Prelude/Results.antt =====
-- What a fallible function returns, over the errors of its component.
use mathlib.Core.Path.{◌≡◌, refl}

pub data Result {ℓ} (E A : Type ℓ) : Type ℓ where
  ok : A → Result E A
  err : E → Result E A

module _ {ℓ} {E A B : Type ℓ} where
  infixl 5 ◌>>=◌
  abbrev pub ◌>>=◌ : Result E A → (A → Result E B) → Result E B
  ok a >>= f = f a
  err e >>= f = err e

  infixl 5 ◌>>◌
  abbrev pub ◌>>◌ : Result E A → Result E B → Result E B
  m >> n = m >>= λ _. n

  -- Inversion of a successful bind.
  pub >>=-eq-ok :
      (first : Result E A) (next : A → Result E B) {result : B}
      → (first >>= next) ≡ ok result
      → (x : A) × (first ≡ ok x) × (next x ≡ ok result)
  >>=-eq-ok (err cause) next h = cc
  >>=-eq-ok (ok x) next h = (x, refl, h)
