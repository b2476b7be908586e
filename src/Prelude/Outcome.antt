-- ===== src/Prelude/Outcome.antt =====
-- std::expected<T, E>, with its monadic operations.
use mathlib.Core.Path.{◌≡◌, refl}
use mathlib.Core.Logic.{◌⊎◌, inl, inr}

pub data Expected {ℓ κ} (E : Type ℓ) (A : Type κ) : Type (ℓ ⊔ κ) where
  ok : A → Expected E A
  err : E → Expected E A

module _ {ℓ κ ν} {E : Type ℓ} {A : Type κ} {B : Type ν} where
  infixl 5 ◌>>=◌
  -- `and_then`.
  abbrev pub ◌>>=◌ : Expected E A → (A → Expected E B) → Expected E B
  ok a >>= f = f a
  err e >>= f = err e

  abbrev pub transform : (A → B) → Expected E A → Expected E B
  transform f (ok a) = ok (f a)
  transform f (err e) = err e

pub Expected-cases {ℓ κ} :
    {E : Type ℓ} {A : Type κ} (r : Expected E A) → ((a : A) × (r ≡ ok a)) ⊎ ((e : E) × (r ≡ err e))
Expected-cases (ok a) = inl (a, refl)
Expected-cases (err e) = inr (e, refl)
