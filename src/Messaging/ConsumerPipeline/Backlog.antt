-- ===== src/Messaging/ConsumerPipeline/Backlog.antt =====
-- The backlog of the reader (shared/messaging/ConsumerPipeline.h) holds only records whose tickets
-- are of the present period of ownership.
use liquid_pet_project.Prelude.{
  ℕ, ◌≡◌, inl, inr, refl, sym, ◌∙◌, true, false, some, List, [], ◌∷◌, ◌++◌, arith, All, All-append,
  All-map, Bool-cases, Option-cases, Expected, ok, err, contains, eq_string, eq_nat,
}
use mathlib.Core.Path.{subst}
use liquid_pet_project.Models.StrongId.{StrongId, outbox_event_id}
use liquid_pet_project.Prelude.Dict.{lookup}
use liquid_pet_project.Errors.{ErrorCode}
use liquid_pet_project.Messaging.PartitionRegistry
use liquid_pet_project.Messaging.PartitionRegistry.{
  PartitionKey, eq_key, PartitionRegistry, RecordTicket, CommitPosition, is_assigned, is_current,
  put_tracker,
}
use liquid_pet_project.Messaging.PartitionRegistry.Generations.{owner}
use liquid_pet_project.Messaging.RecordExecutor.{WorkItem}
use liquid_pet_project.Messaging.WorkerPool.{WorkerPool}
use liquid_pet_project.Messaging.ConsumerPipeline.{
  ConsumerPipeline, IncomingRecord, new, on_partitions_assigned, on_partitions_revoked, without,
  ingest, ingest_registered, enqueue, pump, confirm_commit, stop,
}
use liquid_pet_project.Messaging.ConsumerPipeline.Pumping.{AreThreads, pump_in_order}
use liquid_pet_project.Messaging.PartitionRegistry.Owners.{
  SameOwners, register-SameOwners, complete-SameOwners, confirm-SameOwners, register-owner,
  owner-assign, owner-revoke, unowned,
}

-- The partition of a record is owned under the generation of its ticket.
abbrev pub Held : PartitionRegistry → WorkItem → Type 0
Held r item = owner r item.ticket.partition ≡ some item.ticket.generation

-- The calls that meet at the pipeline: those of the reader, and the completions of the workers.
pub data Turn : Type 0 where
  assigned revoked : List PartitionKey → Turn
  ingested : IncomingRecord → Turn
  pumped : (threads : ℕ → WorkerPool WorkItem → WorkerPool WorkItem) → AreThreads threads → Turn
  confirmed : CommitPosition → Turn
  completed : RecordTicket → Turn
  stopped : Turn

unfoldable pub step : ConsumerPipeline → Turn → ConsumerPipeline
step p (assigned ks) = on_partitions_assigned p ks
step p (revoked ks) = (on_partitions_revoked p ks).1
step p (ingested record_in) = ingest p record_in
step p (pumped threads _) = (pump threads p).1
step p (confirmed position) = confirm_commit p position
step p (completed ticket) = record p { registry = (PartitionRegistry.complete p.registry ticket).1 }
step p stopped = stop p

unfoldable pub run : ConsumerPipeline → List Turn → ConsumerPipeline
unfolding step
run p [] = p
run p (t ∷ ts) = run (step p t) ts

-- The broker assigns only partitions that are not assigned.
abbrev pub Fair : ConsumerPipeline → Turn → Type 0
Fair p (assigned ks) = All (λ k. is_assigned p.registry k ≡ false) ks
Fair p _ = Unit

abbrev pub AllFair : ConsumerPipeline → List Turn → Type 0
AllFair p [] = Unit
AllFair p (t ∷ ts) = Fair p t × AllFair (step p t) ts

keeps_Held :
    (r r' : PartitionRegistry) (items : List WorkItem)
    → SameOwners r r'
    → All (Held r) items
    → All (Held r') items
keeps_Held r r' items same h =
    All-map (Held r) (Held r') (λ i. λ k. same i.ticket.partition ∙ k) items h

without-Held :
    (r r' : PartitionRegistry) (ks : List PartitionKey) (items : List WorkItem)
    → ((k : PartitionKey) → contains ks k ≡ false → owner r' k ≡ owner r k)
    → All (Held r) items
    → All (Held r') (without ks items)
unfolding without
without-Held r r' ks [] same h = tt
without-Held r r' ks (item ∷ items) same h = elim (Bool-cases (contains ks item.ticket.partition)) [
  | inl gone ↦ rw gone (without-Held r r' ks items same h.1)
  | inr kept ↦ rw kept (same item.ticket.partition kept ∙ h.0, without-Held r r' ks items same h.1)
]

assign-Held :
    (r : PartitionRegistry) (ks : List PartitionKey) (items : List WorkItem)
    → All (λ k. is_assigned r k ≡ false) ks
    → All (Held r) items
    → All (Held (PartitionRegistry.assign r ks)) items
assign-Held r ks items fair h =
    All-map (Held r) (Held (PartitionRegistry.assign r ks))
      (λ i. λ k.
        owner-assign r ks i.ticket.partition
          (unowned r ks i.ticket.partition i.ticket.generation fair k)
        ∙ k)
      items h

All-suffix :
    (P : WorkItem → Type 0) (xs ys zs : List WorkItem) → xs ++ ys ≡ zs → All P zs → All P ys
All-suffix P [] ys zs q h = subst (All P) (sym q) h
All-suffix P (x ∷ xs) ys [] q h = cc
All-suffix P (x ∷ xs) ys (z ∷ zs) q h = All-suffix P xs ys zs (ground arith) h.1

AllHeld : ConsumerPipeline → Type 0
AllHeld p = All (Held p.registry) p.backlog

enqueue-Held :
    (p : ConsumerPipeline) (record_in : IncomingRecord) (ticket : RecordTicket)
    (id : Expected ErrorCode (StrongId outbox_event_id))
    → owner p.registry ticket.partition ≡ some ticket.generation
    → AllHeld p
    → AllHeld (enqueue p record_in ticket id)
unfolding enqueue AllHeld
enqueue-Held p record_in ticket (err e) owned h =
    keeps_Held p.registry (PartitionRegistry.complete p.registry ticket).1 p.backlog
      (complete-SameOwners p.registry ticket) h
enqueue-Held p record_in ticket (ok id) owned h =
    All-append (Held p.registry) p.backlog _ h (owned, tt)

registered-Held :
    (p : ConsumerPipeline) (record_in : IncomingRecord) (result : Expected ErrorCode RecordTicket)
    → ((t : RecordTicket) → result ≡ ok t → owner p.registry t.partition ≡ some t.generation)
    → AllHeld p
    → AllHeld (ingest_registered p record_in result)
unfolding ingest_registered
registered-Held p record_in (err e) owned h = h
registered-Held p record_in (ok ticket) owned h =
    enqueue-Held p record_in ticket _ (owned ticket refl) h

ingest-Held :
    (p : ConsumerPipeline) (record_in : IncomingRecord) → AllHeld p → AllHeld (ingest p record_in)
unfolding ingest AllHeld
ingest-Held p record_in h =
    let r = (PartitionRegistry.register_record p.registry record_in.partition record_in.offset).1 in
    let same = register-SameOwners p.registry record_in.partition record_in.offset in
    registered-Held (record p { registry = r }) record_in
      (PartitionRegistry.register_record p.registry record_in.partition record_in.offset).0
      (λ t q. same t.partition ∙ register-owner p.registry record_in.partition record_in.offset t q)
      (keeps_Held p.registry r p.backlog same h)

Held-current :
    (r : PartitionRegistry) (item : WorkItem) → Held r item → is_current r item.ticket ≡ true
unfolding is_current
Held-current r item h = elim (Option-cases (lookup item.ticket.partition r.partitions)) [
  | inl missing ↦ absurd (cc (rw (missing, owner) at h))
  | inr (s, found) ↦ rw (found, is_current) (let h' = rw (found, owner) at h in ground arith)
]

-- Every call leaves in the backlog only records whose tickets are of the present ownership of their
-- partitions, if partitions are assigned only while they are not.
pub step-Held :
    (p : ConsumerPipeline) (t : Turn)
    → Fair p t
    → All (Held p.registry) p.backlog
    → All (Held (step p t).registry) (step p t).backlog
unfolding AllHeld step on_partitions_assigned on_partitions_revoked confirm_commit stop
step-Held p (assigned ks) fair h = assign-Held p.registry ks p.backlog fair h
step-Held p (revoked ks) fair h =
    without-Held p.registry (PartitionRegistry.revoke p.registry ks).1 ks p.backlog
      (owner-revoke p.registry ks) h
step-Held p (ingested record_in) fair h = ingest-Held p record_in h
step-Held p (pumped threads ok_threads) fair h =
    let (pumped_to, same) = pump_in_order threads ok_threads p in
    subst (λ r. All (Held r) (pump threads p).1.backlog) (sym same)
      (All-suffix (Held p.registry) _ (pump threads p).1.backlog p.backlog pumped_to.in_order h)
step-Held p (confirmed position) fair h =
    keeps_Held p.registry (PartitionRegistry.confirm_commit p.registry position).1 p.backlog
      (confirm-SameOwners p.registry position) h
step-Held p (completed ticket) fair h =
    keeps_Held p.registry (PartitionRegistry.complete p.registry ticket).1 p.backlog
      (complete-SameOwners p.registry ticket) h
step-Held p stopped fair h = tt

run-Held :
    (p : ConsumerPipeline) (ts : List Turn)
    → AllFair p ts
    → All (Held p.registry) p.backlog
    → All (Held (run p ts).registry) (run p ts).backlog
unfolding run
run-Held p [] fair h = h
run-Held p (t ∷ ts) fair h = run-Held (step p t) ts fair.1 (step-Held p t fair.0 h)

-- In every history of a new pipeline, if partitions are assigned only while they are not, each
-- record in the backlog carries a ticket of the present ownership of its partition.
pub backlog_current :
    (worker_threads queue_capacity : ℕ) (ts : List Turn)
    → AllFair (new worker_threads queue_capacity) ts
    → All
        (λ item.
          is_current (run (new worker_threads queue_capacity) ts).registry item.ticket ≡ true)
        (run (new worker_threads queue_capacity) ts).backlog
unfolding new
backlog_current n c ts fair =
    let p = run (new n c) ts in
    All-map (Held p.registry) (λ item. is_current p.registry item.ticket ≡ true)
      (Held-current p.registry) p.backlog (run-Held (new n c) ts fair tt)
