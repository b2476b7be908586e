-- ===== src/Messaging/PartitionRegistry/Positions.antt =====
-- The positions that a registry offers for a commit: exactly those of the trackers.
use liquid_pet_project.Prelude.{
  ◌≡◌, ◌↔◌, ◌⊎◌, inl, inr, ap, ◌∙◌, some, List, [], ◌∷◌, ◌++◌, arith, Option-cases, Bool-cases, Any,
  ◌==◌, eq_nat, eq_string, beq→eq,
}
use liquid_pet_project.Prelude.Dict.{Dict, lookup, Distinct}
use liquid_pet_project.Messaging.OffsetTracker
use liquid_pet_project.Messaging.OffsetTracker.{OffsetTracker}
use liquid_pet_project.Messaging.PartitionRegistry.{
  PartitionKey, eq_key, CommitPosition, PartitionState, PartitionRegistry, position_of,
  candidates_of, commit_candidates,
}
use liquid_pet_project.Messaging.PartitionRegistry.Invariant.{IsValid}

abbrev pub Offered : CommitPosition → List CommitPosition → Type 0
Offered p = Any (λ q. q ≡ p)

-- The partition is owned under the position's generation, and its tracker offers the offset.
abbrev pub IsReady : Dict PartitionKey PartitionState → CommitPosition → Type 0
IsReady m p =
    (s : PartitionState) × (lookup p.partition m ≡ some s)
    × (s.generation ≡ p.generation)
    × (OffsetTracker.commit_candidate s.tracker ≡ some p.offset)

position_of-Offered :
    (k : PartitionKey) (s : PartitionState) (p : CommitPosition) (rest : List CommitPosition)
    → Offered p (position_of k s ++ rest)
    → ((k ≡ p.partition)
        × (s.generation ≡ p.generation)
        × (OffsetTracker.commit_candidate s.tracker ≡ some p.offset))
      ⊎ Offered p rest
unfolding position_of
position_of-Offered k s p rest h = elim (Option-cases (OffsetTracker.commit_candidate s.tracker)) [
  | inl nothing ↦ inr (rw (nothing, position_of) at h)
  | inr (o, some_offset) ↦ elim (rw (some_offset, position_of) at h) [
    | inl here ↦ inl (
      ap (λ (q : CommitPosition). q.partition) here,
      ap (λ (q : CommitPosition). q.generation) here,
      some_offset ∙ ap (λ (q : CommitPosition). some q.offset) here,
    )
    | inr later ↦ inr later
  ]
]

Offered-later :
    (k : PartitionKey) (s : PartitionState) (p : CommitPosition) (rest : List CommitPosition)
    → Offered p rest
    → Offered p (position_of k s ++ rest)
unfolding position_of
Offered-later k s p rest h = elim (Option-cases (OffsetTracker.commit_candidate s.tracker)) [
  | inl nothing ↦ rw (nothing, position_of) h
  | inr (o, some_offset) ↦ rw (some_offset, position_of) (inr h)
]

Offered-here :
    (k : PartitionKey) (s : PartitionState) (p : CommitPosition) (rest : List CommitPosition)
    → k ≡ p.partition
    → s.generation ≡ p.generation
    → OffsetTracker.commit_candidate s.tracker ≡ some p.offset
    → Offered p (position_of k s ++ rest)
unfolding position_of
Offered-here k s p rest e g c = rw (c, position_of) (inl (ground arith))

candidates_sound :
    (m : Dict PartitionKey PartitionState) (p : CommitPosition)
    → Distinct m
    → Offered p (candidates_of m)
    → IsReady m p
unfolding candidates_of lookup
candidates_sound [] p d h = elim h [ ]
candidates_sound ((k, s) ∷ m) p d h = elim (position_of-Offered k s p (candidates_of m) h) [
  | inl (same, g, c) ↦ (s, rw ((eq_key.same_iff _ _).1 same), g, c)
  | inr later ↦
      let (x, found, g, c) = candidates_sound m p d.1 later in
      (x, ground (arith, d.0, eq_key.same_iff k p.partition), g, c)
]

candidates_complete :
    (m : Dict PartitionKey PartitionState) (p : CommitPosition)
    → IsReady m p
    → Offered p (candidates_of m)
unfolding candidates_of lookup
candidates_complete [] p (s, found, g, c) = cc
candidates_complete ((k, s) ∷ m) p (x, found, g, c) = elim (Bool-cases (k == p.partition)) [
  | inl same ↦ Offered-here k s p (candidates_of m) (beq→eq _ _ same) (ground arith) (ground arith)
  | inr other ↦
      Offered-later k s p (candidates_of m)
        (candidates_complete m p (x, rw (other, lookup) at found, g, c))
]

-- A position is offered exactly when its partition is owned under that generation and the
-- partition's tracker offers the offset.
pub commit_candidates_exact :
    (r : PartitionRegistry) (p : CommitPosition)
    → IsValid r
    → Offered p (commit_candidates r) ↔ IsReady r.partitions p
unfolding commit_candidates
commit_candidates_exact r p v =
    (candidates_sound r.partitions p v.distinct, candidates_complete r.partitions p)
