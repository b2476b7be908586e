-- ===== src/Messaging/OffsetTracker/Entries/Watermark.antt =====
-- The position that an ascending deque allows to commit (shared/messaging/OffsetTracker.h).
use liquid_pet_project.Messaging.OffsetTracker.Entries.{Above, Under, Covered, done_prefix}
use liquid_pet_project.Prelude.{
  ℕ, zero, suc, ◌+◌, ◌≤◌, ◌<◌, ◌≡◌, inl, inr, refl, Option, none, some, List, [], ◌∷◌, arith,
  if◌then◌else◌, get_elem?, Option-cases,
}
use liquid_pet_project.Messaging.OffsetTracker.{Entry}

-- The position after the last entry of the finished prefix, by recursion on the entries.
unfoldable pub watermark : List Entry → Option ℕ
watermark [] = none
watermark (e ∷ es) =
    if e.done then some (elim (watermark es) [ none ↦ e.offset + 1 | some w ↦ w ]) else none

pub watermark-none : (es : List Entry) → done_prefix es ≡ 0 → watermark es ≡ none
unfolding done_prefix watermark
watermark-none [] h = refl
watermark-none (e ∷ es) h = ground arith

pub watermark-some :
    (n : ℕ) (es : List Entry)
    → done_prefix es ≡ suc n
    → (e : Entry) × (get_elem? es n ≡ some e) × (watermark es ≡ some (e.offset + 1))
unfolding done_prefix watermark
watermark-some n [] h = absurd (omega arith)
watermark-some zero (e ∷ es) h = (e, refl, ground (arith, watermark-none es))
watermark-some (suc n) (e ∷ es) h =
    let (x, at, w) = watermark-some n es (ground arith) in (x, at, ground arith)

pub watermark-Above : (b w : ℕ) (es : List Entry) → Above b es → watermark es ≡ some w → b < w
unfolding watermark
watermark-Above b w [] a h = cc
watermark-Above b w (e ∷ es) a h = elim (Option-cases (watermark es)) [
  | inl q ↦ ground arith
  | inr (v, q) ↦ ground (arith, watermark-Above (suc e.offset) v es a.1 q)
]

pub watermark-Under : (n w : ℕ) (es : List Entry) → Under n es → watermark es ≡ some w → w ≤ n
unfolding watermark
watermark-Under n w [] u h = cc
watermark-Under n w (e ∷ es) u h = elim (Option-cases (watermark es)) [
  | inl q ↦ ground arith
  | inr (v, q) ↦ ground (arith, watermark-Under n v es u.1 q)
]

Covered-low : (b position : ℕ) (es : List Entry) → Above b es → position ≤ b → Covered position es
Covered-low b position [] a h = tt
Covered-low b position (e ∷ es) a h =
    (λ l. absurd (omega arith), Covered-low (suc e.offset) position es a.1 (omega arith))

-- No entry under the watermark is unfinished.
pub watermark-Covered :
    (b w position : ℕ) (es : List Entry)
    → Above b es
    → watermark es ≡ some w
    → position ≤ w
    → Covered position es
unfolding watermark
watermark-Covered b w position [] a h k = tt
watermark-Covered b w position (e ∷ es) a h k = elim (Option-cases (watermark es)) [
  | inl q ↦ (λ l. ground arith, Covered-low (suc e.offset) position es a.1 (ground arith))
  | inr (v, q) ↦
      (λ l. ground arith, watermark-Covered (suc e.offset) v position es a.1 q (ground arith))
]
