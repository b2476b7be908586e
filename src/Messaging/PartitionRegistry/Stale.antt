-- ===== src/Messaging/PartitionRegistry/Stale.antt =====
-- Tickets of a partition that was taken away or assigned anew, over any later calls.
use liquid_pet_project.Prelude.{
  ℕ, ◌+◌, ◌^◌, ◌≤◌, ◌<◌, ◌≡◌, inl, inr, refl, ap, ◌∙◌, Bool, true, false, some, List, [], ◌∷◌,
  arith, length, Option-cases, Bool-cases, eqb_iff, ok, ◌==◌, eq_nat, eq_string, contains,
}
use liquid_pet_project.Prelude.Dict.{lookup}
use liquid_pet_project.Messaging.OffsetTracker.{OffsetTracker}
use liquid_pet_project.Messaging.PartitionRegistry.{
  PartitionKey, eq_key, RecordTicket, CommitPosition, PartitionState, PartitionRegistry, assign_one,
  assign, revoke_one, revoke, put_tracker, register_record, complete, confirm_commit, is_current,
  stale,
}
use liquid_pet_project.Messaging.PartitionRegistry.Cases.{
  register_missing, register_found, complete_stale, complete_current, current_state,
  confirm_missing, confirm_stale, confirm_current,
}
use liquid_pet_project.Messaging.PartitionRegistry.Invariant.{
  Call, assigns, revokes, registers, completes, confirms, run,
}
use liquid_pet_project.Messaging.PartitionRegistry.Generations.{
  owner, Lost, assign-Lost, assign-takes, revoke-Lost, revoke-takes, owner-put_tracker,
  revoke_one-last,
}

-- How many times a sequence of calls assigns a partition.
abbrev pub assignments : List Call → ℕ
assignments [] = 0
assignments (assigns ks ∷ cs) = length ks + assignments cs
assignments (_ ∷ cs) = assignments cs

abbrev pub takes_away : Call → PartitionKey → Bool
takes_away (assigns ks) k = contains ks k
takes_away (revokes ks) k = contains ks k
takes_away _ k = false

put_tracker-Lost :
    (r : PartitionRegistry) (k j : PartitionKey) (g : ℕ) (s : PartitionState) (t : OffsetTracker)
    → lookup j r.partitions ≡ some s
    → Lost r k g
    → Lost (put_tracker r j s t) k g
put_tracker-Lost r k j g s t found l = record {
  past = unfold put_tracker in l.past;
  gone = λ e. l.gone (rw (owner-put_tracker r j k s t found) at e);
}

-- How far a call may move the last generation.
assign-last :
    (r : PartitionRegistry) (ks : List PartitionKey)
    → r.last_generation + length ks < 2 ^ 64
    → (assign r ks).last_generation ≡ r.last_generation + length ks
unfolding assign assign_one
assign-last r [] room = omega arith
assign-last r (k ∷ ks) room = omega (arith, assign-last (assign_one r k) ks (omega arith))

revoke-last :
    (r : PartitionRegistry) (ks : List PartitionKey)
    → (revoke r ks).1.last_generation ≡ r.last_generation
unfolding revoke
revoke-last r [] = refl
revoke-last r (k ∷ ks) = revoke-last (revoke_one r k).1 ks ∙ revoke_one-last r k

abbrev Keeps : PartitionRegistry → PartitionRegistry → Type 0
Keeps r r' =
    (r'.last_generation ≡ r.last_generation)
    × ((k : PartitionKey) (g : ℕ) → Lost r k g → Lost r' k g)

Keeps-refl : (r : PartitionRegistry) → Keeps r r
Keeps-refl r = (refl, λ k g l. l)

Keeps-put :
    (r : PartitionRegistry) (j : PartitionKey) (s : PartitionState) (t : OffsetTracker)
    → lookup j r.partitions ≡ some s
    → Keeps r (put_tracker r j s t)
Keeps-put r j s t found =
    (unfold put_tracker in refl, λ k g l. put_tracker-Lost r k j g s t found l)

register-Keeps :
    (r : PartitionRegistry) (k : PartitionKey) (offset : ℕ) → Keeps r (register_record r k offset).1
register-Keeps r k offset = elim (Option-cases (lookup k r.partitions)) [
  | inl missing ↦ rw (register_missing r k offset missing) (Keeps-refl r)
  | inr (s, found) ↦ rw (register_found r k s found offset) (Keeps-put r k s _ found)
]

complete-Keeps : (r : PartitionRegistry) (ticket : RecordTicket) → Keeps r (complete r ticket).1
complete-Keeps r ticket = elim (Bool-cases (is_current r ticket)) [
  | inr old ↦ rw (complete_stale r ticket old) (Keeps-refl r)
  | inl current ↦
      let (s, found, same) = current_state r ticket current in
      rw (complete_current r ticket s found same) (Keeps-put r ticket.partition s _ found)
]

confirm-Keeps :
    (r : PartitionRegistry) (position : CommitPosition) → Keeps r (confirm_commit r position).1
confirm-Keeps r position = elim (Option-cases (lookup position.partition r.partitions)) [
  | inl missing ↦ rw (confirm_missing r position missing) (Keeps-refl r)
  | inr (s, found) ↦ elim (Bool-cases (s.generation == position.generation)) [
    | inr old ↦ rw (confirm_stale r position s found old) (Keeps-refl r)
    | inl same ↦
        rw (confirm_current r position s found ((eqb_iff _ _).0 same))
          (Keeps-put r position.partition s _ found)
  ]
]

run-Lost :
    (r : PartitionRegistry) (cs : List Call) (k : PartitionKey) (g : ℕ)
    → r.last_generation + assignments cs < 2 ^ 64
    → Lost r k g
    → Lost (run r cs) k g
unfolding run
run-Lost r [] k g room l = l
run-Lost r (assigns ks ∷ cs) k g room l =
    run-Lost (assign r ks) cs k g (omega (arith, assign-last r ks (omega arith)))
      (assign-Lost k g r ks (omega arith) l)
run-Lost r (revokes ks ∷ cs) k g room l =
    run-Lost (revoke r ks).1 cs k g (omega (arith, revoke-last r ks)) (revoke-Lost k g r ks l)
run-Lost r (registers j offset ∷ cs) k g room l =
    let (same, keeps) = register-Keeps r j offset in
    run-Lost (register_record r j offset).1 cs k g (omega arith) (keeps k g l)
run-Lost r (completes ticket ∷ cs) k g room l =
    let (same, keeps) = complete-Keeps r ticket in
    run-Lost (complete r ticket).1 cs k g (omega arith) (keeps k g l)
run-Lost r (confirms position ∷ cs) k g room l =
    let (same, keeps) = confirm-Keeps r position in
    run-Lost (confirm_commit r position).1 cs k g (omega arith) (keeps k g l)

Lost-not_current :
    (r : PartitionRegistry) (t : RecordTicket)
    → Lost r t.partition t.generation
    → is_current r t ≡ false
Lost-not_current r t l = elim (Bool-cases (is_current r t)) [
  | inr old ↦ old
  | inl current ↦
      let (s, found, same) = current_state r t current in
      absurd (l.gone (rw (found, owner) (ap some same)))
]

takes_away-Lost :
    (r : PartitionRegistry) (c : Call) (cs : List Call) (k : PartitionKey) (g : ℕ)
    → takes_away c k ≡ true
    → g ≤ r.last_generation
    → r.last_generation + assignments (c ∷ cs) < 2 ^ 64
    → Lost (run r (c ∷ cs)) k g
unfolding run
takes_away-Lost r (assigns ks) cs k g takes h room =
    run-Lost (assign r ks) cs k g (omega (arith, assign-last r ks (omega arith)))
      (assign-takes k g r ks (omega arith) h takes)
takes_away-Lost r (revokes ks) cs k g takes h room =
    run-Lost (revoke r ks).1 cs k g (omega (arith, revoke-last r ks))
      (revoke-takes k g r ks h takes)
takes_away-Lost r (registers j offset) cs k g takes h room = cc
takes_away-Lost r (completes ticket) cs k g takes h room = cc
takes_away-Lost r (confirms position) cs k g takes h room = cc

-- Once its partition has been revoked or assigned anew, a ticket handed out before never counts
-- again: after that call and any others, completing it answers `Stale` and leaves the registry as
-- it is, as long as fewer than 2^64 generations have been given out.
pub complete_after_loss :
    (r : PartitionRegistry) (c : Call) (cs : List Call) (t : RecordTicket)
    → takes_away c t.partition ≡ true
    → t.generation ≤ r.last_generation
    → r.last_generation + assignments (c ∷ cs) < 2 ^ 64
    → complete (run r (c ∷ cs)) t ≡ (ok stale, run r (c ∷ cs))
complete_after_loss r c cs t takes h room = complete_stale (run r (c ∷ cs)) t (
    Lost-not_current (run r (c ∷ cs)) t
      (takes_away-Lost r c cs t.partition t.generation takes h room))
