-- ===== src/Examples/Consumer.antt =====
-- The worker pool, the executor and the pipeline (shared/messaging) on a few records.
use liquid_pet_project.Prelude.{
  ℕ, zero, suc, ◌≡◌, refl, some, List, [], ◌∷◌, arith, Bool, true, false, ok, err, length, All,
}
use liquid_pet_project.Prelude.Int.{ℤ, pos}
use liquid_pet_project.Prelude.{if◌then◌else◌}
use liquid_pet_project.Prelude.Int.{pos_part, ◌*ℤ◌, ltb_ℤ}
use liquid_pet_project.Errors.{event_publisher}
use liquid_pet_project.Prelude.Dict.{lookup, insert}
use liquid_pet_project.Messaging.ConsumerPipeline.{
  ConsumerPipeline, IncomingRecord, new, on_partitions_assigned, ingest, pump,
}
use liquid_pet_project.Messaging.ConsumerPipeline.Pumping.{AreThreads, Pumped, pump_in_order}
use liquid_pet_project.Messaging.ConsumerPipeline.Backlog.{
  Turn, assigned, ingested, pumped, run, AllFair, backlog_current,
}
use liquid_pet_project.Messaging.Handling.{returned}
use liquid_pet_project.Messaging.RetryPolicy.{Doubles, RetryPolicy, effective_max_attempts}
use liquid_pet_project.Messaging.OffsetTracker
use liquid_pet_project.Messaging.PartitionRegistry
use liquid_pet_project.Messaging.PartitionRegistry.{
  PartitionKey, PartitionRegistry, assign, register_record,
}
use liquid_pet_project.Messaging.RecordExecutor.{
  WorkItem, RecordOutcome, dead_lettered, Surroundings, State, execute, attempts, one_attempt,
  after_attempts, dead_letter, should_abandon,
}
use liquid_pet_project.Messaging.RecordExecutor.Outcomes.{
  Justified, max_calls, execute-Justified, execute_returns,
}
use liquid_pet_project.Messaging.WorkerPool.{
  WorkerPool, start, try_submit, close, Run, here, later, submit_accepted, submit_rejected, take,
  stop_closes, accepts, rejects, starts, drops, take_front,
}
use liquid_pet_project.Messaging.WorkerPool.Reachable.{Inv, run-Inv}

-- One thread and room for one task: the third task is refused, and a stop drops the second.
abbrev one_slot : WorkerPool ℕ
one_slot = start 1 1

abbrev took : WorkerPool ℕ
took = take_front (try_submit one_slot 10).1 10 []

abbrev waiting : WorkerPool ℕ
waiting = (try_submit took 11).1

busy_run :
    Run one_slot
      (drops (11 ∷ []) ∷ rejects 12 ∷ accepts 11 ∷ starts 10 ∷ accepts 10 ∷ [])
      (close waiting)
unfolding start try_submit take_front
busy_run =
    later
      (later
        (later
          (later (later here (submit_accepted 10 (try_submit one_slot 10).1 refl))
            (take 10 [] refl refl (omega arith)))
          (submit_accepted 11 waiting refl))
        (submit_rejected 12 waiting refl))
      (stop_closes (11 ∷ []) refl)

run-Inv_example :
    Inv (close waiting) (drops (11 ∷ []) ∷ rejects 12 ∷ accepts 11 ∷ starts 10 ∷ accepts 10 ∷ [])
run-Inv_example = run-Inv 1 1 busy_run

-- Whole numbers in place of `double`, and a pause that is always slept.
abbrev whole_power : ℤ → ℕ → ℤ
whole_power b zero = pos 1
whole_power b (suc n) = b *ℤ whole_power b n

abbrev whole_numbers : Doubles
whole_numbers = record {
  Double = ℤ;
  of_int = λ v. v;
  times = ◌*ℤ◌;
  power = λ b e. whole_power b (pos_part e);
  less = ltb_ℤ;
  truncate = λ v. v;
}

-- The handler and the sink answer from a script; nothing else happens.
abbrev next_reply : List Bool → Bool × List Bool
next_reply [] = (true, [])
next_reply (b ∷ bs) = (b, bs)

abbrev script : Surroundings
script = record {
  World = List Bool;
  stop_requested = λ w. (false, w);
  handle = λ w payload metadata. (returned (next_reply w).0, (next_reply w).1);
  send = λ w letter. (
    if (next_reply w).0 then ok tt else err (record { value = 2; category = event_publisher }),
    (next_reply w).1,
  );
  sleep = λ w duration. (true, w);
  others = λ w r. (r, w);
}

abbrev policy : RetryPolicy whole_numbers
policy = record {
  max_attempts = pos 2;
  initial_backoff = pos 100;
  multiplier = pos 2;
  max_backoff = pos 1000;
}

abbrev key : PartitionKey
key = record { topic = "orders"; partition = pos 0 }

abbrev registered : PartitionRegistry
registered = (register_record (assign PartitionRegistry.new (key ∷ [])) key 4).1

abbrev item : WorkItem
item = record {
  ticket = record { partition = key; offset = 4; generation = 1 };
  payload = "{}";
  metadata = record { event_id = record { value = "e" }; event_type = "OrderCreated" };
}

-- The handler fails twice, the sink refuses once.
abbrev before : State whole_numbers script
before = record { registry = registered; world = false ∷ false ∷ false ∷ true ∷ []; actions = [] }

execute-Justified_example :
    Justified
      (max_calls whole_numbers script policy item)
      dead_lettered
      (execute whole_numbers script 5 policy item before).1.actions
unfolding execute attempts one_attempt after_attempts dead_letter should_abandon
    effective_max_attempts PartitionRegistry.is_current lookup register_record assign insert
    PartitionRegistry.new PartitionRegistry.key_beq
execute-Justified_example =
    execute-Justified whole_numbers script policy item 5 before refl dead_lettered refl

execute_returns_example :
    (o : RecordOutcome) × ((execute whole_numbers script 5 policy item before).0 ≡ some o)
unfolding execute attempts one_attempt after_attempts dead_letter should_abandon
    effective_max_attempts PartitionRegistry.is_current lookup register_record assign insert
    PartitionRegistry.new PartitionRegistry.key_beq
execute_returns_example =
    execute_returns whole_numbers script policy item 5 before refl (omega arith)

-- Two records arrive at a pool with one place; the first goes to the pool.
abbrev incoming : ℕ → IncomingRecord
incoming offset = record {
  partition = key;
  offset = offset;
  payload = "{}";
  event_id = some "0a1b2c3d-0000-4444-8888-0123456789ab";
  event_type = "OrderCreated";
}

abbrev idle : ℕ → WorkerPool WorkItem → WorkerPool WorkItem
idle n pool = pool

idle-AreThreads : AreThreads idle
idle-AreThreads n pool = ([], (here, refl))

abbrev turns : List Turn
turns =
    assigned (key ∷ [])
    ∷ ingested (incoming 4)
    ∷ ingested (incoming 5)
    ∷ pumped idle idle-AreThreads
    ∷ []

turns-AllFair : AllFair (new 1 1) turns
unfolding new PartitionRegistry.is_assigned lookup PartitionRegistry.new
turns-AllFair = ((refl, tt), (tt, (tt, (tt, tt))))

backlog_current_example :
    All
      (λ i. PartitionRegistry.is_current (run (new 1 1) turns).registry i.ticket ≡ true)
      (run (new 1 1) turns).backlog
backlog_current_example = backlog_current 1 1 turns turns-AllFair

abbrev two_waiting : ConsumerPipeline
two_waiting =
    ingest (ingest (on_partitions_assigned (new 1 1) (key ∷ [])) (incoming 4)) (incoming 5)

pump_in_order_example :
    Pumped two_waiting.pool two_waiting.backlog
      (pump idle two_waiting).0
      (pump idle two_waiting).1.backlog
      (pump idle two_waiting).1.pool
    × ((pump idle two_waiting).1.registry ≡ two_waiting.registry)
pump_in_order_example = pump_in_order idle idle-AreThreads two_waiting

-- The pool takes the first record only.
one_left : length (pump idle two_waiting).1.backlog ≡ 1
unfolding new pump PartitionRegistry.new ingest on_partitions_assigned lookup insert
    PartitionRegistry.key_beq OffsetTracker.register_record OffsetTracker.new
one_left = refl
