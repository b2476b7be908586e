-- ===== src/Prelude/Shuffles.antt =====
-- Lists with the same elements in another order, as data: a step swaps two neighbours.
use mathlib.Core.Path.{◌≡◌, refl}
use mathlib.Core.List.{List, [], ◌∷◌}

pub data Shuffle {ℓ} {A : Type ℓ} : List A → List A → Type ℓ where
  none_left : Shuffle [] []
  same_head : {xs ys : List A} (a : A) → Shuffle xs ys → Shuffle (a ∷ xs) (a ∷ ys)
  swapped_heads : (a b : A) (xs : List A) → Shuffle (a ∷ b ∷ xs) (b ∷ a ∷ xs)
  in_turn : {xs ys zs : List A} → Shuffle xs ys → Shuffle ys zs → Shuffle xs zs

module _ {ℓ} {A : Type ℓ} where
  pub Shuffle-none : {xs ys : List A} → Shuffle xs ys → xs ≡ [] → ys ≡ []
  Shuffle-none none_left h = refl
  Shuffle-none (same_head a d) h = absurd (cc h)
  Shuffle-none (swapped_heads a b xs) h = absurd (cc h)
  Shuffle-none (in_turn d₁ d₂) h = Shuffle-none d₂ (Shuffle-none d₁ h)

  pub unshuffled : (xs : List A) → Shuffle xs xs
  unshuffled [] = none_left
  unshuffled (a ∷ xs) = same_head a (unshuffled xs)
