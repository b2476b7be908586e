-- ===== src/Messaging/ConsumerPipeline.antt =====
-- shared/messaging/ConsumerPipeline.h: what the reader thread does with the registry, the backlog
-- and the pool. A task of the pool is the call of `execute` on an item, which the item stands for.
pub mod Pumping
pub mod Backlog
use liquid_pet_project.Prelude.{
  ℕ, suc, Bool, true, false, Option, none, some, List, [], ◌∷◌, ◌++◌, String, if◌then◌else◌, length,
  contains, Expected, ok, err,
}
use liquid_pet_project.Errors.{ErrorCode}
use liquid_pet_project.Models.StrongId
use liquid_pet_project.Models.StrongId.{StrongId, outbox_event_id}
use liquid_pet_project.Messaging.PartitionRegistry
use liquid_pet_project.Messaging.PartitionRegistry.{
  PartitionKey, eq_key, PartitionRegistry, RecordTicket, CommitPosition,
}
use liquid_pet_project.Messaging.RecordExecutor.{WorkItem}
use liquid_pet_project.Messaging.WorkerPool
use liquid_pet_project.Messaging.WorkerPool.{WorkerPool, try_submit, close, request_stop}

pub record IncomingRecord : Type 0 where
  pub partition : PartitionKey
  pub offset : ℕ
  pub payload : String
  pub event_id : Option String
  pub event_type : String

pub record ConsumerPipeline : Type 0 where
  pub registry : PartitionRegistry
  pub backlog : List WorkItem
  pub pool : WorkerPool WorkItem

unfoldable pub new : ℕ → ℕ → ConsumerPipeline
unfolding PartitionRegistry.new WorkerPool.start
new worker_threads queue_capacity = record {
  registry = PartitionRegistry.new;
  backlog = [];
  pool = WorkerPool.start worker_threads queue_capacity;
}

unfoldable pub on_partitions_assigned : ConsumerPipeline → List PartitionKey → ConsumerPipeline
unfolding PartitionRegistry.assign
on_partitions_assigned p ks = record p { registry = PartitionRegistry.assign p.registry ks }

-- std::erase_if on the backlog.
unfoldable pub without : List PartitionKey → List WorkItem → List WorkItem
without ks [] = []
without ks (item ∷ items) =
    let rest = without ks items in if contains ks item.ticket.partition then rest else item ∷ rest

unfoldable pub on_partitions_revoked :
    ConsumerPipeline → List PartitionKey → List CommitPosition × ConsumerPipeline
unfolding PartitionRegistry.revoke without
on_partitions_revoked p ks =
    let (positions, r) = PartitionRegistry.revoke p.registry ks in
    (positions, record p { registry = r; backlog = without ks p.backlog })

-- `value_or("")`
unfoldable pub value_or_empty : Option String → String
value_or_empty none = ""
value_or_empty (some text) = text

-- What `ingest` does with a registered record.
unfoldable pub enqueue :
    ConsumerPipeline
    → IncomingRecord
    → RecordTicket
    → Expected ErrorCode (StrongId outbox_event_id)
    → ConsumerPipeline
unfolding PartitionRegistry.complete
enqueue p record_in ticket (err e) = record p {
  registry = (PartitionRegistry.complete p.registry ticket).1;
}
enqueue p record_in ticket (ok id) = record p {
  backlog =
      p.backlog
      ++ record {
        ticket = ticket;
        payload = record_in.payload;
        metadata = record { event_id = id; event_type = record_in.event_type };
      }
        ∷ [];
}

unfoldable pub ingest_registered :
    ConsumerPipeline → IncomingRecord → Expected ErrorCode RecordTicket → ConsumerPipeline
unfolding enqueue value_or_empty StrongId.create
ingest_registered p record_in (err e) = p
ingest_registered p record_in (ok ticket) =
    enqueue p record_in ticket (StrongId.create outbox_event_id (value_or_empty record_in.event_id))

unfoldable pub ingest : ConsumerPipeline → IncomingRecord → ConsumerPipeline
unfolding PartitionRegistry.register_record ingest_registered
ingest p record_in =
    let (ticket, r) =
      PartitionRegistry.register_record p.registry record_in.partition record_in.offset in
    ingest_registered (record p { registry = r }) record_in ticket

-- The loop of `pump`. `threads n` is what the threads of the pool do to it before the submission
-- number n.
unfoldable pub pump_items :
    (ℕ → WorkerPool WorkItem → WorkerPool WorkItem)
    → ℕ
    → List WorkItem
    → WorkerPool WorkItem
    → Bool × (List WorkItem × WorkerPool WorkItem)
unfolding try_submit
pump_items threads n [] pool = (true, ([], pool))
pump_items threads n (item ∷ items) pool =
    let (accepted, pool') = try_submit (threads n pool) item in
    let rest = pump_items threads (suc n) items pool' in
    if accepted then rest else (false, (item ∷ items, pool'))

unfoldable pub pump :
    (ℕ → WorkerPool WorkItem → WorkerPool WorkItem) → ConsumerPipeline → Bool × ConsumerPipeline
unfolding pump_items
pump threads p =
    let (emptied, (backlog, pool)) = pump_items threads 0 p.backlog p.pool in
    (emptied, record p { backlog = backlog; pool = pool })

unfoldable pub commit_candidates : ConsumerPipeline → List CommitPosition
unfolding PartitionRegistry.commit_candidates
commit_candidates p = PartitionRegistry.commit_candidates p.registry

-- The result is only logged.
unfoldable pub confirm_commit : ConsumerPipeline → CommitPosition → ConsumerPipeline
unfolding PartitionRegistry.confirm_commit
confirm_commit p position = record p {
  registry = (PartitionRegistry.confirm_commit p.registry position).1;
}

unfoldable pub backlog_size : ConsumerPipeline → ℕ
backlog_size p = length p.backlog

unfoldable pub stop : ConsumerPipeline → ConsumerPipeline
unfolding close request_stop
stop p = record p { pool = request_stop (close p.pool); backlog = [] }
