-- ===== src/Messaging/PartitionRegistry/Cases.antt =====
-- One equation for each branch of the methods that look a partition up.
use liquid_pet_project.Prelude.{
  ℕ, ◌≡◌, inl, inr, true, false, none, some, [], Option-cases, eqb_iff, ok, err, transform, ◌==◌,
  eq_nat, eq_string,
}
use liquid_pet_project.Prelude.Dict.{lookup, erase}
use liquid_pet_project.Errors.{make_error_code, partition_registry_enum, partition_not_assigned}
use liquid_pet_project.Messaging.OffsetTracker
use liquid_pet_project.Messaging.PartitionRegistry.{
  PartitionKey, eq_key, RecordTicket, CommitPosition, PartitionState, PartitionRegistry, revoke_one,
  position_of, put_tracker, register_record, complete, confirm_commit, applied, stale, is_current,
}

module _ (r : PartitionRegistry) (k : PartitionKey) where
  pub revoke_missing : lookup k r.partitions ≡ none → revoke_one r k ≡ ([], r)
  unfolding revoke_one
  revoke_missing e = rw (e, revoke_one)

  pub register_missing :
      (offset : ℕ)
      → lookup k r.partitions ≡ none
      → register_record r k offset ≡ (err (make_error_code partition_not_assigned), r)
  unfolding register_record
  register_missing offset e = rw (e, register_record)

  module _ (s : PartitionState) (found : lookup k r.partitions ≡ some s) where
    pub revoke_found :
        revoke_one r k ≡ (position_of k s, record r { partitions = erase k r.partitions })
    unfolding revoke_one
    revoke_found = rw (found, revoke_one)

    pub register_found :
        (offset : ℕ)
        → register_record r k offset ≡ (
          transform
              (λ _. record { partition = k; offset = offset; generation = s.generation })
              (OffsetTracker.register_record s.tracker offset).0,
          put_tracker r k s (OffsetTracker.register_record s.tracker offset).1,
        )
    unfolding register_record
    register_found offset = rw (found, register_record)

-- A ticket of an earlier period changes nothing; one of the current period reaches its tracker.
module _ (r : PartitionRegistry) (ticket : RecordTicket) where
  pub complete_stale : is_current r ticket ≡ false → complete r ticket ≡ (ok stale, r)
  unfolding is_current complete
  complete_stale e = elim (Option-cases (lookup ticket.partition r.partitions)) [
    | inl missing ↦ rw (missing, complete)
    | inr (s, found) ↦ rw (found, complete) (rw (rw (found, is_current) at e))
  ]

  pub complete_current :
      (s : PartitionState)
      → lookup ticket.partition r.partitions ≡ some s
      → s.generation ≡ ticket.generation
      → complete r ticket ≡ (
        transform (λ _. applied) (OffsetTracker.complete s.tracker ticket.offset).0,
        put_tracker r ticket.partition s (OffsetTracker.complete s.tracker ticket.offset).1,
      )
  unfolding complete
  complete_current s found same = rw (found, complete) (rw ((eqb_iff _ _).1 same))

pub current_state :
    (r : PartitionRegistry) (ticket : RecordTicket)
    → is_current r ticket ≡ true
    → (s : PartitionState) × (lookup ticket.partition r.partitions ≡ some s)
      × (s.generation ≡ ticket.generation)
unfolding is_current
current_state r ticket e = elim (Option-cases (lookup ticket.partition r.partitions)) [
  | inl missing ↦ cc (rw (missing, is_current) at e)
  | inr (s, found) ↦ (s, found, (eqb_iff _ _).0 (rw (found, is_current) at e))
]

module _ (r : PartitionRegistry) (position : CommitPosition) where
  pub confirm_missing :
      lookup position.partition r.partitions ≡ none → confirm_commit r position ≡ (ok tt, r)
  unfolding confirm_commit
  confirm_missing e = rw (e, confirm_commit)

  module _ (s : PartitionState) (found : lookup position.partition r.partitions ≡ some s) where
    pub confirm_stale :
        (s.generation == position.generation) ≡ false → confirm_commit r position ≡ (ok tt, r)
    unfolding confirm_commit
    confirm_stale old = rw (found, confirm_commit) (rw old)

    pub confirm_current :
        s.generation ≡ position.generation
        → confirm_commit r position ≡ (
          (OffsetTracker.confirm_commit s.tracker position.offset).0,
          put_tracker r position.partition s
              (OffsetTracker.confirm_commit s.tracker position.offset).1,
        )
    unfolding confirm_commit
    confirm_current same = rw (found, confirm_commit) (rw ((eqb_iff _ _).1 same))
