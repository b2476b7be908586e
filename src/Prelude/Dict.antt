-- ===== src/Prelude/Dict.antt =====
-- Dictionaries as association lists with one entry for a key: what the program uses of std::map
-- and std::unordered_map. Their order of iteration is not modelled: no theorem depends on it.
use mathlib.Core.Path.{◌≡◌, refl, subst}
use mathlib.Core.Option.{Option, none, some}
use mathlib.Core.List.{List, [], ◌∷◌}
use native.Mathlib.Omega.{arith}
use liquid_pet_project.Prelude.Tests.{if◌then◌else◌, Bool-cases}
use mathlib.Core.Logic.{inl, inr}
use liquid_pet_project.Prelude.Keys.{Eq, ◌==◌}

abbrev pub Dict {ℓ κ} : Type ℓ → Type κ → Type (ℓ ⊔ κ)
Dict K V = List (K × V)

module _ {ℓ κ} {K : Type ℓ} {V : Type κ} ⦃e : Eq K⦄ where
  -- find
  unfoldable pub lookup : K → Dict K V → Option V
  lookup k [] = none
  lookup k ((j, v) ∷ m) = if j == k then some v else lookup k m

  -- insert_or_assign
  unfoldable pub insert : K → V → Dict K V → Dict K V
  insert k v [] = (k, v) ∷ []
  insert k v ((j, w) ∷ m) = if j == k then (j, v) ∷ m else (j, w) ∷ insert k v m

  -- erase; a key has one entry, and a second one would be erased too
  unfoldable pub erase : K → Dict K V → Dict K V
  erase k [] = []
  erase k ((j, w) ∷ m) = let rest = erase k m in if j == k then rest else (j, w) ∷ rest

  pub lookup-insert :
      (key asked : K) (value : V) (m : Dict K V)
      → lookup asked (insert key value m) ≡ (if key == asked then some value else lookup asked m)
  unfolding insert lookup
  lookup-insert key asked value [] = refl
  lookup-insert key asked value ((i, w) ∷ rest) = ground (
    arith,
    e.same_iff i key,
    e.same_iff i asked,
    e.same_iff key asked,
    lookup-insert key asked value rest,
  )

  pub lookup-erase :
      (k j : K) (m : Dict K V) → lookup j (erase k m) ≡ (if k == j then none else lookup j m)
  unfolding lookup erase
  lookup-erase k j [] = ground arith
  lookup-erase k j ((i, w) ∷ m) =
      ground (arith, e.same_iff k j, e.same_iff i k, e.same_iff i j, lookup-erase k j m)

  -- Every value satisfies the predicate.
  abbrev pub Values {ν} : (V → Type ν) → Dict K V → Type ν
  Values P [] = Unit
  Values P ((k, v) ∷ m) = P v × Values P m

  -- No key has two entries.
  abbrev pub Distinct : Dict K V → Type κ
  Distinct [] = Unit
  Distinct ((k, v) ∷ m) = (lookup k m ≡ none) × Distinct m

  module _ {ν} (P : V → Type ν) where
    pub Values-insert : (k : K) (v : V) (m : Dict K V) → P v → Values P m → Values P (insert k v m)
    unfolding insert
    Values-insert k v [] p h = (p, tt)
    Values-insert k v ((j, w) ∷ m) p h = elim (Bool-cases (j == k)) [
      | inl same ↦ rw same (p, h.1)
      | inr other ↦ rw other (h.0, Values-insert k v m p h.1)
    ]

    pub Values-erase : (k : K) (m : Dict K V) → Values P m → Values P (erase k m)
    unfolding erase
    Values-erase k [] h = tt
    Values-erase k ((j, w) ∷ m) h = elim (Bool-cases (j == k)) [
      | inl same ↦ rw same (Values-erase k m h.1)
      | inr other ↦ rw other (h.0, Values-erase k m h.1)
    ]

    pub Values-lookup : (k : K) (m : Dict K V) (v : V) → Values P m → lookup k m ≡ some v → P v
    unfolding lookup
    Values-lookup k [] v h at = cc
    Values-lookup k ((j, w) ∷ m) v h at = elim (Bool-cases (j == k)) [
      | inl same ↦ let q : w ≡ v = ground arith in subst P q h.0
      | inr other ↦ Values-lookup k m v h.1 (rw (other, lookup) at at)
    ]

  pub Distinct-insert : (k : K) (v : V) (m : Dict K V) → Distinct m → Distinct (insert k v m)
  unfolding insert
  Distinct-insert k v [] h = (lookup_nil, tt)
    where
      lookup_nil : lookup k [] ≡ none
      lookup_nil = unfold lookup in refl
  Distinct-insert k v ((j, w) ∷ m) h = elim (Bool-cases (j == k)) [
    | inl same ↦ rw same h
    | inr other ↦ rw other (
      ground (arith, lookup-insert k j v m, e.same_iff j k, e.same_iff k j),
      Distinct-insert k v m h.1,
    )
  ]

  pub Distinct-erase : (k : K) (m : Dict K V) → Distinct m → Distinct (erase k m)
  unfolding erase
  Distinct-erase k [] h = tt
  Distinct-erase k ((j, w) ∷ m) h = elim (Bool-cases (j == k)) [
    | inl same ↦ rw same (Distinct-erase k m h.1)
    | inr other ↦ rw other (ground (arith, lookup-erase k j m), Distinct-erase k m h.1)
  ]
