-- ===== src/Messaging/PartitionRegistry/Owners.antt =====
-- Which calls change the generation that a partition is owned under
-- (shared/messaging/PartitionRegistry.h).
use liquid_pet_project.Prelude.{
  ℕ, ◌≡◌, inl, inr, refl, sym, ap, ◌∙◌, false, none, some, List, [], ◌∷◌, arith, Option-cases,
  Bool-cases, eqb_iff, All, Expected, ok, err, transform, ◌==◌, eq_nat, eq_string, beq→eq, contains,
}
use mathlib.Core.Path.{subst}
use liquid_pet_project.Prelude.Dict.{lookup}
use liquid_pet_project.Errors.{ErrorCode}
use liquid_pet_project.Messaging.PartitionRegistry
use liquid_pet_project.Messaging.PartitionRegistry.{
  PartitionKey, eq_key, PartitionRegistry, RecordTicket, CommitPosition, is_assigned, is_current,
  put_tracker,
}
use liquid_pet_project.Messaging.PartitionRegistry.Generations.{
  owner, owner-put_tracker, owner-assign_one, owner-revoke_one,
}
use liquid_pet_project.Messaging.PartitionRegistry.Cases.{
  register_missing, register_found, complete_stale, complete_current, current_state,
  confirm_missing, confirm_stale, confirm_current,
}

abbrev pub SameOwners : PartitionRegistry → PartitionRegistry → Type 0
SameOwners r r' = (k : PartitionKey) → owner r' k ≡ owner r k

pub register-SameOwners :
    (r : PartitionRegistry) (k : PartitionKey) (offset : ℕ)
    → SameOwners r (PartitionRegistry.register_record r k offset).1
register-SameOwners r k offset j = elim (Option-cases (lookup k r.partitions)) [
  | inl missing ↦ rw (register_missing r k offset missing)
  | inr (s, found) ↦ rw (register_found r k s found offset) (owner-put_tracker r k j s _ found)
]

pub complete-SameOwners :
    (r : PartitionRegistry) (ticket : RecordTicket)
    → SameOwners r (PartitionRegistry.complete r ticket).1
complete-SameOwners r ticket j = elim (Bool-cases (is_current r ticket)) [
  | inr old ↦ rw (complete_stale r ticket old)
  | inl current ↦
      let (s, found, same) = current_state r ticket current in
      rw (complete_current r ticket s found same) (owner-put_tracker r ticket.partition j s _ found)
]

pub confirm-SameOwners :
    (r : PartitionRegistry) (position : CommitPosition)
    → SameOwners r (PartitionRegistry.confirm_commit r position).1
confirm-SameOwners r position j = elim (Option-cases (lookup position.partition r.partitions)) [
  | inl missing ↦ rw (confirm_missing r position missing)
  | inr (s, found) ↦ elim (Bool-cases (s.generation == position.generation)) [
    | inr old ↦ rw (confirm_stale r position s found old)
    | inl same ↦
        rw (confirm_current r position s found ((eqb_iff _ _).0 same))
          (owner-put_tracker r position.partition j s _ found)
  ]
]

transform_ok :
    (t t' : RecordTicket) (result : Expected ErrorCode (Unit {0}))
    → transform (λ _. t) result ≡ ok t'
    → t ≡ t'
transform_ok t t' (ok _) h = ground arith
transform_ok t t' (err e) h = cc

pub register-owner :
    (r : PartitionRegistry) (k : PartitionKey) (offset : ℕ) (ticket : RecordTicket)
    → (PartitionRegistry.register_record r k offset).0 ≡ ok ticket
    → owner r ticket.partition ≡ some ticket.generation
register-owner r k offset ticket h = elim (Option-cases (lookup k r.partitions)) [
  | inl missing ↦ cc (rw (register_missing r k offset missing) at h)
  | inr (s, found) ↦
      subst (λ t. owner r t.partition ≡ some t.generation)
        (transform_ok _ _ _ (rw (register_found r k s found offset) at h))
        (ap (λ o. elim o [ none ↦ none | some x ↦ some x.generation ]) found)
]

pub owner-assign :
    (r : PartitionRegistry) (ks : List PartitionKey) (j : PartitionKey)
    → contains ks j ≡ false
    → owner (PartitionRegistry.assign r ks) j ≡ owner r j
unfolding PartitionRegistry.assign
owner-assign r [] j h = refl
owner-assign r (k ∷ ks) j h = elim (Bool-cases (k == j)) [
  | inl same ↦ cc (rw (same, contains) at h)
  | inr other ↦
      owner-assign (PartitionRegistry.assign_one r k) ks j (rw (other, contains) at h)
      ∙ rw (owner-assign_one r k j, other)
]

pub owner-revoke :
    (r : PartitionRegistry) (ks : List PartitionKey) (j : PartitionKey)
    → contains ks j ≡ false
    → owner (PartitionRegistry.revoke r ks).1 j ≡ owner r j
unfolding PartitionRegistry.revoke
owner-revoke r [] j h = refl
owner-revoke r (k ∷ ks) j h = elim (Bool-cases (k == j)) [
  | inl same ↦ cc (rw (same, contains) at h)
  | inr other ↦
      owner-revoke (PartitionRegistry.revoke_one r k).1 ks j (rw (other, contains) at h)
      ∙ rw (owner-revoke_one r k j, other)
]

pub unowned :
    (r : PartitionRegistry) (ks : List PartitionKey) (j : PartitionKey) (g : ℕ)
    → All (λ k. is_assigned r k ≡ false) ks
    → owner r j ≡ some g
    → contains ks j ≡ false
unfolding is_assigned
unowned r [] j g fair h = refl
unowned r (k ∷ ks) j g fair h = elim (Bool-cases (k == j)) [
  | inl same ↦
      let h' : owner r k ≡ some g = subst (λ x. owner r x ≡ some g) (sym (beq→eq k j same)) h in
      let assigned_too = fair.0 in
      elim (Option-cases (lookup k r.partitions)) [
        | inl missing ↦ absurd (cc (rw (missing, owner) at h'))
        | inr (s, found) ↦ absurd (cc (rw (found, is_assigned) at assigned_too))
      ]
  | inr other ↦ rw (other, contains) (unowned r ks j g fair.1 h)
]
