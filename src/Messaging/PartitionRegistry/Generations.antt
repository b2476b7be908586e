-- ===== src/Messaging/PartitionRegistry/Generations.antt =====
-- Periods of ownership: a ticket of a partition that was taken away or assigned anew is never
-- current again.
use liquid_pet_project.Prelude.{
  ℕ, ◌+◌, ◌%◌, ◌^◌, ◌≤◌, ◌<◌, ◌≡◌, ◌≢◌, inl, inr, true, Option, none, some, List, [], ◌∷◌, arith,
  if◌then◌else◌, length, Option-cases, Bool-cases, ◌==◌, eq_nat, eq_string, beq_self, beq→eq,
  contains,
}
use liquid_pet_project.Prelude.Dict.{lookup, lookup-insert, lookup-erase}
use liquid_pet_project.Messaging.OffsetTracker
use liquid_pet_project.Messaging.OffsetTracker.{OffsetTracker}
use liquid_pet_project.Messaging.PartitionRegistry.{
  PartitionKey, eq_key, PartitionState, PartitionRegistry, assign_one, assign, revoke_one, revoke,
  put_tracker,
}
use liquid_pet_project.Messaging.PartitionRegistry.Cases.{revoke_missing, revoke_found}

-- The generation under which a partition is owned.
abbrev pub owner : PartitionRegistry → PartitionKey → Option ℕ
owner r k = elim (lookup k r.partitions) [ none ↦ none | some s ↦ some s.generation ]

pub owner-put_tracker :
    (r : PartitionRegistry) (k j : PartitionKey) (s : PartitionState) (t : OffsetTracker)
    → lookup k r.partitions ≡ some s
    → owner (put_tracker r k s t) j ≡ owner r j
unfolding put_tracker
owner-put_tracker r k j s t found =
    ground (arith, lookup-insert k j (record s { tracker = t }) r.partitions, eq_key.same_iff k j)

pub owner-assign_one :
    (r : PartitionRegistry) (k j : PartitionKey)
    → owner (assign_one r k) j
      ≡ (if k == j then some ((r.last_generation + 1) % 2 ^ 64) else owner r j)
unfolding assign_one
owner-assign_one r k j = ground (
  arith,
  lookup-insert k j
      (record { generation = (r.last_generation + 1) % 2 ^ 64; tracker = OffsetTracker.new })
      r.partitions,
)

pub owner-revoke_one :
    (r : PartitionRegistry) (k j : PartitionKey)
    → owner (revoke_one r k).1 j ≡ (if k == j then none else owner r j)
owner-revoke_one r k j = elim (Option-cases (lookup k r.partitions)) [
  | inl missing ↦ rw (revoke_missing r k missing) (ground (arith, eq_key.same_iff k j))
  | inr (s, found) ↦ rw (revoke_found r k s found) (ground (arith, lookup-erase k j r.partitions))
]

pub revoke_one-last :
    (r : PartitionRegistry) (k : PartitionKey)
    → (revoke_one r k).1.last_generation ≡ r.last_generation
revoke_one-last r k = elim (Option-cases (lookup k r.partitions)) [
  | inl missing ↦ rw (revoke_missing r k missing)
  | inr (s, found) ↦ rw (revoke_found r k s found)
]

-- A partition is not owned under generation `g`, and will not be: `g` is past.
pub record Lost (r : PartitionRegistry) (k : PartitionKey) (g : ℕ) : Type 0 where
  pub past : g ≤ r.last_generation
  pub gone : owner r k ≢ some g

module _ (k : PartitionKey) (g : ℕ) where
  assign_one-Lost :
      (r : PartitionRegistry) (j : PartitionKey)
      → r.last_generation + 1 < 2 ^ 64
      → Lost r k g
      → Lost (assign_one r j) k g
  unfolding assign_one
  assign_one-Lost r j room l = record {
    past = omega (arith, l.past);
    gone = λ e. elim (Bool-cases (j == k)) [
      | inl same ↦ ground (arith, owner-assign_one r j k, l.past)
      | inr other ↦ l.gone (rw (owner-assign_one r j k, other) at e)
    ];
  }

  assign_one-takes :
      (r : PartitionRegistry)
      → r.last_generation + 1 < 2 ^ 64
      → g ≤ r.last_generation
      → Lost (assign_one r k) k g
  unfolding assign_one
  assign_one-takes r room h = record {
    past = omega arith;
    gone = λ e. ground (arith, owner-assign_one r k k, beq_self k);
  }

  pub assign-Lost :
      (r : PartitionRegistry) (ks : List PartitionKey)
      → r.last_generation + length ks < 2 ^ 64
      → Lost r k g
      → Lost (assign r ks) k g
  unfolding assign assign_one
  assign-Lost r [] room l = l
  assign-Lost r (j ∷ ks) room l =
      assign-Lost (assign_one r j) ks (omega arith) (assign_one-Lost r j (omega arith) l)

  pub assign-takes :
      (r : PartitionRegistry) (ks : List PartitionKey)
      → r.last_generation + length ks < 2 ^ 64
      → g ≤ r.last_generation
      → contains ks k ≡ true
      → Lost (assign r ks) k g
  unfolding assign assign_one
  assign-takes r [] room h c = cc
  assign-takes r (j ∷ ks) room h c = elim (Bool-cases (j == k)) [
    | inl same ↦
        assign-Lost (assign_one r j) ks (omega arith)
          (rw (beq→eq j k same) (assign_one-takes r (omega arith) h))
    | inr other ↦
        assign-takes (assign_one r j) ks (omega arith) (omega arith) (rw (other, contains) at c)
  ]

  revoke_one-Lost :
      (r : PartitionRegistry) (j : PartitionKey) → Lost r k g → Lost (revoke_one r j).1 k g
  revoke_one-Lost r j l = record {
    past = rw (revoke_one-last r j) l.past;
    gone = λ e. elim (Bool-cases (j == k)) [
      | inl same ↦ cc (rw (owner-revoke_one r j k, same) at e)
      | inr other ↦ l.gone (rw (owner-revoke_one r j k, other) at e)
    ];
  }

  revoke_one-takes : (r : PartitionRegistry) → g ≤ r.last_generation → Lost (revoke_one r k).1 k g
  revoke_one-takes r h = record {
    past = rw (revoke_one-last r k) h;
    gone = λ e. cc (rw (owner-revoke_one r k k, beq_self k) at e);
  }

  pub revoke-Lost :
      (r : PartitionRegistry) (ks : List PartitionKey) → Lost r k g → Lost (revoke r ks).1 k g
  unfolding revoke
  revoke-Lost r [] l = l
  revoke-Lost r (j ∷ ks) l = revoke-Lost (revoke_one r j).1 ks (revoke_one-Lost r j l)

  pub revoke-takes :
      (r : PartitionRegistry) (ks : List PartitionKey)
      → g ≤ r.last_generation
      → contains ks k ≡ true
      → Lost (revoke r ks).1 k g
  unfolding revoke
  revoke-takes r [] h c = cc
  revoke-takes r (j ∷ ks) h c = elim (Bool-cases (j == k)) [
    | inl same ↦ revoke-Lost (revoke_one r j).1 ks (rw (beq→eq j k same) (revoke_one-takes r h))
    | inr other ↦
        revoke-takes (revoke_one r j).1 ks (rw (revoke_one-last r j) h) (rw (other, contains) at c)
  ]
