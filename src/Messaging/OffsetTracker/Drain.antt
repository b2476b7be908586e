-- ===== src/Messaging/OffsetTracker/Drain.antt =====
-- A tracker whose records are all finished commits everything that it holds; and the positions that
-- it offers stay in the range of the offsets.
use liquid_pet_project.Prelude.{
  ℕ, suc, ◌+◌, ◌≤◌, ◌<◌, ◌≡◌, refl, sym, ap, ◌∙◌, false, Option, none, some, List, [], ◌∷◌, arith,
  ltb, length, lt→ltb,
}
use liquid_pet_project.Messaging.OffsetTracker.{
  Entry, OffsetTracker, decrement, at_most, commit_candidate, pop_committed, confirm_at,
  confirm_commit, uncommitted_count, in_flight_count,
}
use liquid_pet_project.Messaging.OffsetTracker.Entries.{Above, Under, undone}
use liquid_pet_project.Messaging.OffsetTracker.Entries.Watermark.{
  watermark, watermark-Above, watermark-Under,
}
use liquid_pet_project.Messaging.OffsetTracker.Invariant.{
  IsValid, floor, top, commit_candidate-eq-watermark,
}

-- With nothing unfinished the watermark lies above every entry.
finished-Under :
    (b : ℕ) (es : List Entry)
    → Above b es
    → undone es ≡ 0
    → 0 < length es
    → (w : ℕ) × (watermark es ≡ some w) × Under w es
unfolding watermark undone
finished-Under b [] a u l = absurd (omega arith)
finished-Under b (e ∷ []) a u l = (e.offset + 1, ground arith, (omega arith, tt))
finished-Under b (e ∷ x ∷ es) a u l =
    let (w, at, under) = finished-Under (suc e.offset) (x ∷ es) a.1 (ground arith) (omega arith) in
    (w, ground arith, (omega arith, under))

pop-all :
    (position n : ℕ) (es : List Entry) → Under position es → (pop_committed es position n).0 ≡ []
unfolding pop_committed
pop-all position n [] u = refl
pop-all position n (e ∷ es) u = rw (lt→ltb _ _ u.0) (pop-all position (decrement n) es u.1)

confirm_at_entries :
    (t : OffsetTracker) (w : ℕ)
    → (confirm_at t w (some w)).1.entries ≡ (pop_committed t.entries w t.prefix_done).0
unfolding confirm_at
confirm_at_entries t w = rw (eq_false w)
  where
    eq_false : (n : ℕ) → ltb n n ≡ false
    eq_false n = ground arith

pub confirm_entries :
    (t : OffsetTracker) (w : ℕ)
    → at_most w t.committed ≡ false
    → commit_candidate t ≡ some w
    → (confirm_commit t w).1.entries ≡ (pop_committed t.entries w t.prefix_done).0
unfolding confirm_commit
confirm_entries t w later e = rw (later, e) (confirm_at_entries t w)

pub above_floor : (w : ℕ) (c : Option ℕ) → floor c < w → at_most w c ≡ false
unfolding at_most
above_floor w none h = refl
above_floor w (some c) h = ground arith

-- When no record is in flight and some are not committed, the tracker offers a position, and
-- confirming it leaves nothing uncommitted.
pub all_finished_commit :
    (t : OffsetTracker)
    → IsValid t
    → in_flight_count t ≡ 0
    → 0 < uncommitted_count t
    → (w : ℕ) × (commit_candidate t ≡ some w) × (uncommitted_count (confirm_commit t w).1 ≡ 0)
unfolding in_flight_count uncommitted_count
all_finished_commit t v idle some_left =
    let (w, at, under) =
      finished-Under (floor t.committed) t.entries v.ascending (omega (arith, v.flight_exact))
        some_left in
    let e = commit_candidate-eq-watermark t v ∙ at in
    let later =
      above_floor w t.committed (watermark-Above (floor t.committed) w t.entries v.ascending at) in
    (w, e, ap length (confirm_entries t w later e ∙ pop-all w t.prefix_done t.entries under))

-- An offset that may be registered is at least every position that is offered: while the accepted
-- offsets stay under `limit`, `offset + 1` does not pass it.
pub commit_candidate_bound :
    (t : OffsetTracker) (w limit : ℕ)
    → IsValid t
    → top t.last_registered ≤ limit
    → commit_candidate t ≡ some w
    → (floor t.committed < w) × (w ≤ limit)
commit_candidate_bound t w limit v h e =
    let q = sym (commit_candidate-eq-watermark t v) ∙ e in
    (
      watermark-Above (floor t.committed) w t.entries v.ascending q,
      omega (arith, watermark-Under (top t.last_registered) w t.entries v.under q),
    )
