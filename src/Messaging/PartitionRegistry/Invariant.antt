-- ===== src/Messaging/PartitionRegistry/Invariant.antt =====
-- A registry whose trackers are well formed and whose partitions are distinct, and that every
-- method keeps it so.
use liquid_pet_project.Prelude.{
  ℕ, ◌≡◌, inl, inr, some, List, [], ◌∷◌, Option-cases, Bool-cases, eqb_iff, ◌==◌, eq_nat, eq_string,
}
use liquid_pet_project.Prelude.Dict.{
  lookup, Values, Distinct, Values-insert, Values-erase, Values-lookup, Distinct-insert,
  Distinct-erase,
}
use liquid_pet_project.Messaging.OffsetTracker.{OffsetTracker}
use liquid_pet_project.Messaging.OffsetTracker.Invariant.{
  register_record-IsValid, complete-IsValid, confirm_commit-IsValid,
}
use liquid_pet_project.Messaging.OffsetTracker.Invariant
use liquid_pet_project.Messaging.PartitionRegistry.Cases.{
  revoke_missing, revoke_found, register_missing, register_found, complete_stale, complete_current,
  current_state, confirm_missing, confirm_stale, confirm_current,
}
use liquid_pet_project.Messaging.PartitionRegistry.{
  is_current, PartitionKey, eq_key, RecordTicket, CommitPosition, PartitionState, PartitionRegistry,
  new, assign_one, assign, revoke_one, revoke, put_tracker, register_record, complete,
  confirm_commit,
}

pub data Call : Type 0 where
  assigns revokes : List PartitionKey → Call
  registers : PartitionKey → ℕ → Call
  completes : RecordTicket → Call
  confirms : CommitPosition → Call

unfoldable pub step : PartitionRegistry → Call → PartitionRegistry
step r (assigns ks) = assign r ks
step r (revokes ks) = (revoke r ks).1
step r (registers k offset) = (register_record r k offset).1
step r (completes ticket) = (complete r ticket).1
step r (confirms position) = (confirm_commit r position).1

unfoldable pub run : PartitionRegistry → List Call → PartitionRegistry
unfolding step
run r [] = r
run r (c ∷ cs) = run (step r c) cs

abbrev pub HasValidTracker : PartitionState → Type 0
HasValidTracker s = Invariant.IsValid s.tracker

pub record IsValid (r : PartitionRegistry) : Type 0 where
  pub trackers : Values HasValidTracker r.partitions
  pub distinct : Distinct r.partitions

pub new-IsValid : IsValid new
unfolding new
new-IsValid = record { trackers = tt; distinct = tt }

assign-IsValid :
    (r : PartitionRegistry) (ks : List PartitionKey) → IsValid r → IsValid (assign r ks)
unfolding assign
assign-IsValid r [] v = v
assign-IsValid r (k ∷ ks) v = assign-IsValid (assign_one r k) ks (record {
  trackers = Values-insert HasValidTracker k _ r.partitions Invariant.new-IsValid v.trackers;
  distinct = Distinct-insert k _ r.partitions v.distinct;
})

revoke_one-IsValid :
    (r : PartitionRegistry) (k : PartitionKey) → IsValid r → IsValid (revoke_one r k).1
revoke_one-IsValid r k v = elim (Option-cases (lookup k r.partitions)) [
  | inl missing ↦ rw (revoke_missing r k missing) v
  | inr (s, found) ↦ rw (revoke_found r k s found) (record {
    trackers = Values-erase HasValidTracker k r.partitions v.trackers;
    distinct = Distinct-erase k r.partitions v.distinct;
  })
]

revoke-IsValid :
    (r : PartitionRegistry) (ks : List PartitionKey) → IsValid r → IsValid (revoke r ks).1
unfolding revoke
revoke-IsValid r [] v = v
revoke-IsValid r (k ∷ ks) v = revoke-IsValid (revoke_one r k).1 ks (revoke_one-IsValid r k v)

put_tracker-IsValid :
    (r : PartitionRegistry) (k : PartitionKey) (s : PartitionState) (t : OffsetTracker)
    → Invariant.IsValid t
    → IsValid r
    → IsValid (put_tracker r k s t)
unfolding put_tracker
put_tracker-IsValid r k s t w v = record {
  trackers = Values-insert HasValidTracker k _ r.partitions w v.trackers;
  distinct = Distinct-insert k _ r.partitions v.distinct;
}

pub tracker_at :
    (r : PartitionRegistry) (k : PartitionKey) (s : PartitionState)
    → IsValid r
    → lookup k r.partitions ≡ some s
    → Invariant.IsValid s.tracker
tracker_at r k s v found = Values-lookup HasValidTracker k r.partitions s v.trackers found

register-IsValid :
    (r : PartitionRegistry) (k : PartitionKey) (offset : ℕ)
    → IsValid r
    → IsValid (register_record r k offset).1
register-IsValid r k offset v = elim (Option-cases (lookup k r.partitions)) [
  | inl missing ↦ rw (register_missing r k offset missing) v
  | inr (s, found) ↦ rw (register_found r k s found offset) (
      put_tracker-IsValid r k s _
        (register_record-IsValid s.tracker offset (tracker_at r k s v found)) v)
]

completes-IsValid :
    (r : PartitionRegistry) (ticket : RecordTicket) → IsValid r → IsValid (complete r ticket).1
completes-IsValid r ticket v = elim (Bool-cases (is_current r ticket)) [
  | inr old ↦ rw (complete_stale r ticket old) v
  | inl current ↦
      let (s, found, same) = current_state r ticket current in
      rw (complete_current r ticket s found same) (
        put_tracker-IsValid r ticket.partition s _
          (complete-IsValid s.tracker ticket.offset (tracker_at r _ s v found)) v)
]

confirms-IsValid :
    (r : PartitionRegistry) (position : CommitPosition)
    → IsValid r
    → IsValid (confirm_commit r position).1
confirms-IsValid r position v = elim (Option-cases (lookup position.partition r.partitions)) [
  | inl missing ↦ rw (confirm_missing r position missing) v
  | inr (s, found) ↦ elim (Bool-cases (s.generation == position.generation)) [
    | inr old ↦ rw (confirm_stale r position s found old) v
    | inl same ↦ rw (confirm_current r position s found ((eqb_iff _ _).0 same)) (
        put_tracker-IsValid r position.partition s _
          (confirm_commit-IsValid s.tracker position.offset (tracker_at r _ s v found)) v)
  ]
]

-- Every call of every method keeps the trackers well formed and the partitions distinct.
pub step-IsValid : (r : PartitionRegistry) (c : Call) → IsValid r → IsValid (step r c)
unfolding step
step-IsValid r (assigns ks) v = assign-IsValid r ks v
step-IsValid r (revokes ks) v = revoke-IsValid r ks v
step-IsValid r (registers k offset) v = register-IsValid r k offset v
step-IsValid r (completes ticket) v = completes-IsValid r ticket v
step-IsValid r (confirms position) v = confirms-IsValid r position v

pub run-IsValid : (r : PartitionRegistry) (cs : List Call) → IsValid r → IsValid (run r cs)
unfolding run
run-IsValid r [] v = v
run-IsValid r (c ∷ cs) v = run-IsValid (step r c) cs (step-IsValid r c v)
