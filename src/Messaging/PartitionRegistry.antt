-- ===== src/Messaging/PartitionRegistry.antt =====
-- shared/messaging/PartitionRegistry.h: the trackers of all assigned partitions. Every method runs
-- under one mutex, so it is one step on the registry. A generation is a uint64_t and wraps.
pub mod Cases
pub mod Invariant
pub mod Generations
pub mod Owners
pub mod Stale
pub mod Positions
pub mod Confirmed
use liquid_pet_project.Prelude.{
  ℕ, suc, ◌+◌, ◌%◌, ◌^◌, ◌≡◌, ◌↔◌, refl, String, Bool, true, false, ◌&&◌, Option, none, some, List,
  [], ◌∷◌, ◌++◌, arith, if◌then◌else◌, Eq, ◌==◌, eq_nat, eq_string, Expected, ok, err, transform,
  eqb, beq_self,
}
use liquid_pet_project.Prelude.Int.{ℤ, eq_int}
use liquid_pet_project.Prelude.Dict.{Dict, lookup, insert, erase}
use liquid_pet_project.Errors.{
  ErrorCode, make_error_code, partition_registry_enum, partition_not_assigned,
}
use liquid_pet_project.Messaging.OffsetTracker
use liquid_pet_project.Messaging.OffsetTracker.{OffsetTracker}

pub record PartitionKey : Type 0 where
  pub topic : String
  pub partition : ℤ

unfoldable pub key_beq : PartitionKey → PartitionKey → Bool
key_beq a b = (a.topic == b.topic) && (a.partition == b.partition)

pub key_beq_iff : (a b : PartitionKey) → (key_beq a b ≡ true) ↔ (a ≡ b)
unfolding key_beq
key_beq_iff a b =
    ground (arith, eq_string.same_iff a.topic b.topic, eq_int.same_iff a.partition b.partition)

instance abbrev pub eq_key : Eq PartitionKey
eq_key = record { same = key_beq; same_iff = key_beq_iff }

-- The proof that a record was handed out, tied to one period of ownership.
pub record RecordTicket : Type 0 where
  pub partition : PartitionKey
  pub offset : ℕ
  pub generation : ℕ

pub record CommitPosition : Type 0 where
  pub partition : PartitionKey
  pub offset : ℕ
  pub generation : ℕ

pub data CompletionResult : Type 0 where
  applied stale : CompletionResult

pub record PartitionState : Type 0 where
  pub generation : ℕ
  pub tracker : OffsetTracker

pub record PartitionRegistry : Type 0 where
  pub partitions : Dict PartitionKey PartitionState
  pub last_generation : ℕ

unfoldable pub new : PartitionRegistry
new = record { partitions = []; last_generation = 0 }

-- One round of the loop in `assign`: `++_lastGeneration` on uint64_t, and a fresh tracker.
unfoldable pub assign_one : PartitionRegistry → PartitionKey → PartitionRegistry
assign_one r k =
    let generation = (r.last_generation + 1) % 2 ^ 64 in
    record {
      partitions =
          insert k (record { generation = generation; tracker = OffsetTracker.new }) r.partitions;
      last_generation = generation;
    }

unfoldable pub assign : PartitionRegistry → List PartitionKey → PartitionRegistry
unfolding assign_one
assign r [] = r
assign r (k ∷ ks) = assign (assign_one r k) ks

-- The position of a partition, if its tracker offers one.
unfoldable pub position_of : PartitionKey → PartitionState → List CommitPosition
position_of k s = elim (OffsetTracker.commit_candidate s.tracker) [
  | none ↦ []
  | some o ↦ record { partition = k; offset = o; generation = s.generation } ∷ []
]

-- One round of the loop in `revoke`: the final position, and the registry without the partition.
unfoldable pub revoke_one :
    PartitionRegistry → PartitionKey → List CommitPosition × PartitionRegistry
unfolding position_of
revoke_one r k = elim (lookup k r.partitions) [
  | none ↦ ([], r)
  | some s ↦ (position_of k s, record r { partitions = erase k r.partitions })
]

unfoldable pub revoke :
    PartitionRegistry → List PartitionKey → List CommitPosition × PartitionRegistry
unfolding revoke_one
revoke r [] = ([], r)
revoke r (k ∷ ks) =
    let (position, r') = revoke_one r k in
    let (positions, r'') = revoke r' ks in (position ++ positions, r'')

-- A tracker changed in place.
unfoldable pub put_tracker :
    PartitionRegistry → PartitionKey → PartitionState → OffsetTracker → PartitionRegistry
put_tracker r k s t = record r { partitions = insert k (record s { tracker = t }) r.partitions }

unfoldable pub register_record :
    PartitionRegistry → PartitionKey → ℕ → Expected ErrorCode RecordTicket × PartitionRegistry
unfolding put_tracker
register_record r k offset = elim (lookup k r.partitions) [
  | none ↦ (err (make_error_code partition_not_assigned), r)
  | some s ↦
      let (result, t) = OffsetTracker.register_record s.tracker offset in
      let ticket : RecordTicket = record {
        partition = k;
        offset = offset;
        generation = s.generation;
      } in
      (transform (λ _. ticket) result, put_tracker r k s t)
]

unfoldable pub complete :
    PartitionRegistry → RecordTicket → Expected ErrorCode CompletionResult × PartitionRegistry
unfolding put_tracker
complete r ticket = elim (lookup ticket.partition r.partitions) [
  | none ↦ (ok stale, r)
  | some s ↦
      let (result, t) = OffsetTracker.complete s.tracker ticket.offset in
      if s.generation == ticket.generation
      then (transform (λ _. applied) result, put_tracker r ticket.partition s t)
      else (ok stale, r)
]

unfoldable pub candidates_of : Dict PartitionKey PartitionState → List CommitPosition
unfolding position_of
candidates_of [] = []
candidates_of ((k, s) ∷ m) = position_of k s ++ candidates_of m

unfoldable pub commit_candidates : PartitionRegistry → List CommitPosition
unfolding candidates_of
commit_candidates r = candidates_of r.partitions

unfoldable pub confirm_commit :
    PartitionRegistry → CommitPosition → Expected ErrorCode (Unit {0}) × PartitionRegistry
unfolding put_tracker
confirm_commit r position = elim (lookup position.partition r.partitions) [
  | none ↦ (ok tt, r)
  | some s ↦
      let (result, t) = OffsetTracker.confirm_commit s.tracker position.offset in
      if s.generation == position.generation
      then (result, put_tracker r position.partition s t)
      else (ok tt, r)
]

unfoldable pub is_assigned : PartitionRegistry → PartitionKey → Bool
is_assigned r k = elim (lookup k r.partitions) [ none ↦ false | some s ↦ true ]

unfoldable pub is_current : PartitionRegistry → RecordTicket → Bool
is_current r ticket = elim (lookup ticket.partition r.partitions) [
  | none ↦ false
  | some s ↦ s.generation == ticket.generation
]
