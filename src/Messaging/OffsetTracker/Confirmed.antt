-- ===== src/Messaging/OffsetTracker/Confirmed.antt =====
-- A tracker whose offered position is confirmed offers none (shared/messaging/OffsetTracker.h).
use mathlib.Core.Path.{subst}
use liquid_pet_project.Prelude.{
  ℕ, suc, ◌+◌, ◌≡◌, ◌∙◌, sym, ap, inl, inr, refl, none, some, List, [], ◌∷◌, arith, lt→ltb,
  Option-cases,
}
use liquid_pet_project.Messaging.OffsetTracker.{
  Entry, OffsetTracker, pop_committed, decrement, commit_candidate, confirm_commit,
}
use liquid_pet_project.Messaging.OffsetTracker.Entries.{Above}
use liquid_pet_project.Messaging.OffsetTracker.Entries.Watermark.{watermark, watermark-Above}
use liquid_pet_project.Messaging.OffsetTracker.Invariant.{
  IsValid, floor, commit_candidate-eq-watermark, confirm_commit-IsValid,
}
use liquid_pet_project.Messaging.OffsetTracker.Drain.{confirm_entries, above_floor}

-- The loop stops at once at entries that are not under the position.
pop-stop :
    (position n : ℕ) (es : List Entry) → Above position es → (pop_committed es position n).0 ≡ es
unfolding pop_committed
pop-stop position n [] a = refl
pop-stop position n (e ∷ es) a = ground arith

watermark-pop :
    (b w n : ℕ) (es : List Entry)
    → Above b es
    → watermark es ≡ some w
    → watermark (pop_committed es w n).0 ≡ none
unfolding watermark pop_committed
watermark-pop b w n [] a h = cc
watermark-pop b w n (e ∷ es) a h = elim (Option-cases (watermark es)) [
  | inl nothing ↦
      let at : e.offset + 1 ≡ w = ground arith in
      let stop =
        pop-stop w (decrement n) es (subst (λ p. Above p es) (suc-add e.offset w at) a.1) in
      rw (lt→ltb e.offset w (omega arith)) (ap watermark stop ∙ nothing)
  | inr (v, some_offset) ↦
      let at : v ≡ w = ground arith in
      let low = watermark-Above (suc e.offset) v es a.1 some_offset in
      rw (lt→ltb e.offset w (omega arith))
        (watermark-pop (suc e.offset) w (decrement n) es a.1 (some_offset ∙ ap some at))
]
  where
    suc-add : (a c : ℕ) → a + 1 ≡ c → suc a ≡ c
    suc-add a c h = omega arith

-- Once the position that a tracker offers is confirmed, it offers none.
pub candidate-confirmed :
    (t : OffsetTracker) (w : ℕ)
    → IsValid t
    → commit_candidate t ≡ some w
    → commit_candidate (confirm_commit t w).1 ≡ none
candidate-confirmed t w v e =
    let at = sym (commit_candidate-eq-watermark t v) ∙ e in
    let later =
      above_floor w t.committed (watermark-Above (floor t.committed) w t.entries v.ascending at) in
    commit_candidate-eq-watermark (confirm_commit t w).1 (confirm_commit-IsValid t w v)
    ∙ (ap watermark (confirm_entries t w later e)
        ∙ watermark-pop (floor t.committed) w t.prefix_done t.entries v.ascending at)
