-- ===== src/Messaging/OffsetTracker/Entries/Popping.antt =====
-- The loop of `confirmCommit` in shared/messaging/OffsetTracker.h.
use liquid_pet_project.Messaging.OffsetTracker.Entries.{
  Above, Under, Covered, done_prefix, undone, Holds,
}
use liquid_pet_project.Prelude.{
  ℕ, suc, ◌≡◌, inl, inr, refl, false, List, [], ◌∷◌, arith, ltb, Bool-cases, ltb→lt,
}
use liquid_pet_project.Messaging.OffsetTracker.{Entry, pop_committed, decrement}

-- The loop of `confirmCommit` drops what is under the position, and keeps the counter exact.
pop-done_prefix :
    (position : ℕ) (es : List Entry)
    → Covered position es
    → (pop_committed es position (done_prefix es)).1
      ≡ done_prefix (pop_committed es position (done_prefix es)).0
unfolding pop_committed done_prefix decrement
pop-done_prefix position [] c = refl
pop-done_prefix position (e ∷ es) c = elim (Bool-cases (ltb e.offset position)) [
  | inl under ↦ ground (arith, pop-done_prefix position es c.1, c.0 (ltb→lt _ _ under))
  | inr over ↦ ground arith
]

pub pop-prefix :
    (position n : ℕ) (es : List Entry)
    → n ≡ done_prefix es
    → Covered position es
    → (pop_committed es position n).1 ≡ done_prefix (pop_committed es position n).0
pop-prefix position n es e c = rw e (pop-done_prefix position es c)

module _ (position : ℕ) where
  pub pop-undone :
      (n : ℕ) (es : List Entry)
      → Covered position es
      → undone (pop_committed es position n).0 ≡ undone es
  unfolding pop_committed undone
  pop-undone n [] c = refl
  pop-undone n (e ∷ es) c = elim (Bool-cases (ltb e.offset position)) [
    | inl under ↦ ground (arith, pop-undone (decrement n) es c.1, c.0 (ltb→lt _ _ under))
    | inr over ↦ ground arith
  ]

  pub pop-Above :
      (b n : ℕ) (es : List Entry) → Above b es → Above position (pop_committed es position n).0
  unfolding pop_committed
  pop-Above b n [] a = tt
  pop-Above b n (e ∷ es) a = elim (Bool-cases (ltb e.offset position)) [
    | inl under ↦ rw under (pop-Above (suc e.offset) (decrement n) es a.1)
    | inr over ↦ rw over (ground arith, a.1)
  ]

  pub pop-Under : (m n : ℕ) (es : List Entry) → Under m es → Under m (pop_committed es position n).0
  unfolding pop_committed
  pop-Under m n [] u = tt
  pop-Under m n (e ∷ es) u = elim (Bool-cases (ltb e.offset position)) [
    | inl under ↦ rw under (pop-Under m (decrement n) es u.1)
    | inr over ↦ rw over u
  ]

  -- An entry that is not done is not dropped.
  pub pop-Holds :
      (n offset : ℕ) (es : List Entry)
      → Covered position es
      → Holds offset false es
      → Holds offset false (pop_committed es position n).0
  unfolding pop_committed
  pop-Holds n offset [] c h = h
  pop-Holds n offset (e ∷ es) c h = elim (Bool-cases (ltb e.offset position)) [
    | inl under ↦ rw under (elim h [
      | inl here ↦ cc (c.0 (ltb→lt _ _ under))
      | inr later ↦ pop-Holds (decrement n) offset es c.1 later
    ])
    | inr over ↦ rw over h
  ]
