-- ===== src/Messaging/KafkaConsumer.antt =====
-- shared/messaging/consumer/KafkaEventConsumer.cpp: the thread that reads from the broker. The client
-- library, the clock, the stop token and what the threads of the pool do meanwhile are a parameter.
-- An offset is the broker's number plus 2^63, as in the tracker; times are in nanoseconds.
pub mod Headers
pub mod Positions
pub mod Trace
pub mod Commits
pub mod Life
pub mod Starting
pub mod Stopping
use mathlib.Core.Option.{map as map_option}
use liquid_pet_project.Prelude.{
  ℕ, zero, suc, ◌-◌, Bool, true, false, ◌&&◌, not, Option, none, some, List, [], ◌∷◌, String, ltb,
  if◌then◌else◌, Expected, ok, err, ◌==◌, eq_string,
}
use liquid_pet_project.Prelude.Int.{ℤ}
use liquid_pet_project.Prelude.Dict.{Dict, insert}
use liquid_pet_project.Errors.{
  ErrorCode, make_error_code, errc_enum, operation_in_progress, event_consumer_enum,
  EventConsumerError,
}
use liquid_pet_project.Messaging.PartitionRegistry
use liquid_pet_project.Messaging.PartitionRegistry.{
  PartitionKey, eq_key, PartitionRegistry, RecordTicket, CommitPosition,
}
use liquid_pet_project.Messaging.RecordExecutor.{WorkItem}
use liquid_pet_project.Messaging.WorkerPool.{WorkerPool}
use liquid_pet_project.Messaging.ConsumerPipeline
use liquid_pet_project.Messaging.ConsumerPipeline.{ConsumerPipeline, IncomingRecord}

pub data RebalanceEventType : Type 0 where
  partitions_assigned partitions_revoked : RebalanceEventType

-- One call of the rebalance callback.
pub record Rebalance : Type 0 where
  pub event_type : RebalanceEventType
  pub partitions : List (String × ℤ)

-- A record of the client library; `failed` is that `error()` holds.
pub record ConsumerRecord : Type 0 where
  pub failed : Bool
  pub topic : String
  pub partition : ℤ
  pub offset : ℕ
  pub value : String
  pub headers : List (String × String)

-- A call of the client returns or throws a KafkaException.
pub data Called : Type 0 where
  returned threw : Called

pub data Polled : Type 0 where
  polled : List ConsumerRecord → Polled
  poll_threw : Polled

pub record KafkaClient : Type 1 where
  pub World : Type 0
  -- `subscribe` and `poll`: the calls of the rebalance callback first, then what they come to
  pub subscribe_rebalances : World → String → List Rebalance × World
  pub subscribe : World → String → Called × World
  pub poll_rebalances : World → List Rebalance × World
  pub poll : World → Polled × World
  pub pause : World → Called × World
  pub resume : World → Called × World
  pub commit_sync : World → Dict PartitionKey ℕ → Called × World
  -- steady_clock::now, stop_requested and the delays
  pub now : World → ℕ × World
  pub stop_requested : World → Bool × World
  pub delay : World → World
  -- the tickets that threads of the pool complete up to here, and what they do to the pool
  pub completions : World → List RecordTicket × World
  pub threads : World → ℕ → WorkerPool WorkItem → WorkerPool WorkItem

-- The calls with an effect outside, each with whether it returned.
pub data Action : Type 0 where
  subscribes : Bool → Action
  delays : Action
  commits : Dict PartitionKey ℕ → Bool → Action
  confirms : CommitPosition → Action
  pauses resumes : Action

unfoldable pub to_keys : List (String × ℤ) → List PartitionKey
to_keys [] = []
to_keys ((topic, partition) ∷ rest) = record { topic = topic; partition = partition } ∷ to_keys rest

-- One header.
unfoldable pub read_header : IncomingRecord → String → String → IncomingRecord
read_header incoming key value =
    if key == "eventId"
    then record incoming { event_id = some value }
    else (if key == "eventType" then record incoming { event_type = value } else incoming)

-- The loop over the headers: a later header of the same key wins.
unfoldable pub read_headers : IncomingRecord → List (String × String) → IncomingRecord
unfolding read_header
read_headers incoming [] = incoming
read_headers incoming ((key, value) ∷ rest) = read_headers (read_header incoming key value) rest

unfoldable pub incoming_of : ConsumerRecord → IncomingRecord
unfolding read_headers
incoming_of r =
    read_headers
      (record {
        partition = record { topic = r.topic; partition = r.partition };
        offset = r.offset;
        payload = r.value;
        event_id = none;
        event_type = "";
      })
      r.headers

-- The map that `commitOffsets` fills.
unfoldable pub offsets_from : Dict PartitionKey ℕ → List CommitPosition → Dict PartitionKey ℕ
offsets_from offsets [] = offsets
offsets_from offsets (p ∷ ps) = offsets_from (insert p.partition p.offset offsets) ps

abbrev pub commit_interval : ℕ
commit_interval = 500000000

abbrev pub subscribe_attempts : ℕ
subscribe_attempts = 10

-- What threads of the pool complete, on the registry.
unfoldable pub complete_all : List RecordTicket → ConsumerPipeline → ConsumerPipeline
unfolding PartitionRegistry.complete
complete_all [] p = p
complete_all (ticket ∷ rest) p =
    complete_all rest (record p { registry = (PartitionRegistry.complete p.registry ticket).1 })

unfoldable pub confirm_all : List CommitPosition → ConsumerPipeline → ConsumerPipeline
unfolding ConsumerPipeline.confirm_commit
confirm_all [] p = p
confirm_all (position ∷ rest) p = confirm_all rest (ConsumerPipeline.confirm_commit p position)

-- A method on a pipeline that is not there does not occur while the thread runs; it changes nothing.
unfoldable pub candidates_of : Option ConsumerPipeline → List CommitPosition
unfolding ConsumerPipeline.commit_candidates
candidates_of none = []
candidates_of (some p) = ConsumerPipeline.commit_candidates p

unfoldable pub log_confirms : List CommitPosition → List Action → List Action
log_confirms [] actions = actions
log_confirms (position ∷ rest) actions = log_confirms rest (confirms position ∷ actions)

module _ (k : KafkaClient) where
  open k use {
    World, subscribe_rebalances, subscribe, poll_rebalances, poll, pause, resume, commit_sync, now,
    stop_requested, delay, completions, threads,
  }

  -- The members of `Impl`, with the surroundings and the calls made so far, the newest first.
  pub record Consumer : Type 0 where
    pub topic : String
    pub worker_threads : ℕ
    pub queue_capacity : ℕ
    pub pipeline : Option ConsumerPipeline
    pub paused : Bool
    pub last_commit : ℕ
    pub running : Bool
    pub world : World
    pub actions : List Action

  -- Threads of the pool complete records between two calls of the reader.
  unfoldable pub meanwhile : Consumer → Consumer
  unfolding complete_all
  meanwhile s =
      let (tickets, w) = completions s.world in
      record s { pipeline = map_option (complete_all tickets) s.pipeline; world = w }

  unfoldable pub after_pause : Consumer → Called × World → Bool × Consumer
  after_pause s (returned, w) =
      (true, record s { paused = true; world = w; actions = pauses ∷ s.actions })
  after_pause s (threw, w) = (false, record s { world = w })

  unfoldable pub after_resume : Consumer → Called × World → Bool × Consumer
  after_resume s (returned, w) =
      (true, record s { paused = false; world = w; actions = resumes ∷ s.actions })
  after_resume s (threw, w) = (false, record s { world = w })

  -- `false` is that an exception leaves the method.
  unfoldable pub apply_backpressure : Bool → Consumer → Bool × Consumer
  unfolding after_pause after_resume
  apply_backpressure false s = after_pause s (pause s.world)
  apply_backpressure true s = if s.paused then after_resume s (resume s.world) else (true, s)

  unfoldable pub after_commit : Consumer → Dict PartitionKey ℕ → Called × World → Bool × Consumer
  after_commit s offsets (returned, w) =
      (true, record s { world = w; actions = commits offsets true ∷ s.actions })
  after_commit s offsets (threw, w) =
      (false, record s { world = w; actions = commits offsets false ∷ s.actions })

  unfoldable pub commit_offsets : List CommitPosition → Consumer → Bool × Consumer
  unfolding after_commit offsets_from
  commit_offsets [] s = (true, s)
  commit_offsets (p ∷ ps) s =
      let offsets = offsets_from [] (p ∷ ps) in after_commit s offsets (commit_sync s.world offsets)

  -- The last loop of `commitReady`, after a commit that returned.
  unfoldable pub confirmed : List CommitPosition → Consumer → Consumer
  unfolding confirm_all log_confirms
  confirmed positions s = record s {
    pipeline = map_option (confirm_all positions) s.pipeline;
    actions = log_confirms positions s.actions;
  }

  unfoldable pub after_commit_offsets : List CommitPosition → Bool × Consumer → Consumer
  unfolding confirmed meanwhile
  after_commit_offsets positions (true, s) = confirmed positions (meanwhile s)
  after_commit_offsets positions (false, s) = s

  unfoldable pub commit_positions : List CommitPosition → ℕ → Consumer → Consumer
  unfolding commit_offsets after_commit_offsets
  commit_positions [] time s = s
  commit_positions (p ∷ ps) time s =
      after_commit_offsets (p ∷ ps) (commit_offsets (p ∷ ps) (record s { last_commit = time }))

  unfoldable pub commit_ready : Bool → Consumer → Consumer
  unfolding commit_positions candidates_of meanwhile
  commit_ready force s =
      let (time, w) = now s.world in
      let s' = meanwhile (record s { world = w }) in
      if not force && ltb (time - s.last_commit) commit_interval
      then record s { world = w }
      else commit_positions (candidates_of s'.pipeline) time s'

  unfoldable pub rebalanced :
      RebalanceEventType → List PartitionKey → ConsumerPipeline → Consumer → Consumer
  unfolding commit_offsets ConsumerPipeline.on_partitions_assigned
      ConsumerPipeline.on_partitions_revoked
  rebalanced partitions_assigned keys p s = record s {
    pipeline = some (ConsumerPipeline.on_partitions_assigned p keys);
  }
  rebalanced partitions_revoked keys p s =
      let (positions, p') = ConsumerPipeline.on_partitions_revoked p keys in
      (commit_offsets positions (record s { pipeline = some p' })).1

  unfoldable pub on_rebalance : Rebalance → Consumer → Consumer
  unfolding rebalanced to_keys
  on_rebalance event s = elim s.pipeline [
    | none ↦ s
    | some p ↦ rebalanced event.event_type (to_keys event.partitions) p s
  ]

  unfoldable pub on_rebalances : List Rebalance → Consumer → Consumer
  unfolding on_rebalance meanwhile
  on_rebalances [] s = s
  on_rebalances (event ∷ rest) s = on_rebalances rest (on_rebalance event (meanwhile s))

  -- `ingest`, and the loop over the records.
  unfoldable pub ingest : ConsumerRecord → Consumer → Consumer
  unfolding incoming_of ConsumerPipeline.ingest
  ingest r s = if r.failed then s else record s {
    pipeline = map_option (λ p. ConsumerPipeline.ingest p (incoming_of r)) s.pipeline;
  }

  unfoldable pub ingest_all : List ConsumerRecord → Consumer → Consumer
  unfolding ingest meanwhile
  ingest_all [] s = s
  ingest_all (r ∷ rs) s = ingest_all rs (ingest r (meanwhile s))

  unfoldable pub pump_pipeline :
      (ℕ → WorkerPool WorkItem → WorkerPool WorkItem)
      → Option ConsumerPipeline
      → Bool × Option ConsumerPipeline
  unfolding ConsumerPipeline.pump
  pump_pipeline act none = (true, none)
  pump_pipeline act (some p) = let (drained, p') = ConsumerPipeline.pump act p in (drained, some p')

  unfoldable pub after_pump : Bool × Consumer → Bool × Consumer
  unfolding commit_ready
  after_pump (false, s) = (false, s)
  after_pump (true, s) = (true, commit_ready false s)

  unfoldable pub after_poll : Polled → Consumer → Bool × Consumer
  unfolding ingest_all pump_pipeline apply_backpressure after_pump
  after_poll poll_threw s = (false, s)
  after_poll (polled records) s =
      let s1 = meanwhile (ingest_all records s) in
      let (drained, p) = pump_pipeline (threads s1.world) s1.pipeline in
      after_pump (apply_backpressure drained (record s1 { pipeline = p }))

  -- The body of the loop in `run`: `false` is that a KafkaException ended it.
  unfoldable pub round : Consumer → Bool × Consumer
  unfolding on_rebalances after_poll
  round s =
      let (events, w) = poll_rebalances s.world in
      let s1 = on_rebalances events (record s { world = w }) in
      let (records, w1) = poll s1.world in after_poll records (record s1 { world = w1 })

  unfoldable pub delayed : Consumer → Consumer
  delayed s = record s { world = delay s.world; actions = delays ∷ s.actions }

  -- `run`: until a stop is requested, here for at most as many rounds as there is fuel.
  unfoldable pub run : ℕ → Consumer → Consumer
  unfolding round delayed
  run zero s = s
  run (suc fuel) s =
      let (stop, w) = stop_requested s.world in
      let (completed, s') = round (record s { world = w }) in
      let rest = run fuel (if completed then s' else delayed s') in
      if stop then record s { world = w } else rest

  unfoldable pub subscribed : Called × World → Consumer → Bool × Consumer
  subscribed (returned, w) s = (true, record s { world = w; actions = subscribes true ∷ s.actions })
  subscribed (threw, w) s = (false, record s { world = w; actions = subscribes false ∷ s.actions })

  unfoldable pub subscribe_once : Consumer → Bool × Consumer
  unfolding subscribed on_rebalances
  subscribe_once s =
      let (events, w) = subscribe_rebalances s.world s.topic in
      let s1 = on_rebalances events (record s { world = w }) in
      subscribed (subscribe s1.world s1.topic) s1

  -- The delay after a failed attempt, with the attempts that are left: none after the last one.
  unfoldable pub delay_if_left : ℕ → Consumer → Consumer
  unfolding delayed
  delay_if_left zero s = s
  delay_if_left (suc left) s = delayed s

  -- `subscribeWithRetry`, with the attempts that are left.
  unfoldable pub subscribe_with_retry : ℕ → Consumer → Bool × Consumer
  unfolding subscribe_once delay_if_left
  subscribe_with_retry zero s = (false, s)
  subscribe_with_retry (suc left) s =
      let (done, s') = subscribe_once s in
      let rest = subscribe_with_retry left (delay_if_left left s') in
      if done then (true, s') else rest

  unfoldable pub after_subscribe : Bool × Consumer → Expected ErrorCode (Unit {0}) × Consumer
  after_subscribe (true, s) = (ok tt, record s { running = true })
  after_subscribe (false, s) =
      (err (make_error_code EventConsumerError.connection_failure), record s { pipeline = none })

  -- `start`, on the pipeline that is there.
  unfoldable pub start_with :
      Option ConsumerPipeline → Consumer → Expected ErrorCode (Unit {0}) × Consumer
  unfolding subscribe_with_retry after_subscribe ConsumerPipeline.new
  start_with (some p) s = (err (make_error_code operation_in_progress), s)
  start_with none s = after_subscribe (
      subscribe_with_retry subscribe_attempts
        (record s { pipeline = some (ConsumerPipeline.new s.worker_threads s.queue_capacity) }))

  unfoldable pub start : Consumer → Expected ErrorCode (Unit {0}) × Consumer
  unfolding start_with
  start s = start_with s.pipeline s

  -- `stop`: what the thread does until it has ended is a run, and the workers end before the commit.
  unfoldable pub stop : Consumer → Consumer
  unfolding commit_ready ConsumerPipeline.stop meanwhile
  stop s =
      let s' = meanwhile s in
      if s.running
      then commit_ready true
          (record s' { running = false; pipeline = map_option ConsumerPipeline.stop s'.pipeline })
      else s

  -- The constructor: no pipeline, not paused, the clock's epoch.
  unfoldable pub construct : String → ℕ → ℕ → World → Consumer
  construct topic worker_threads queue_capacity w = record {
    topic = topic;
    worker_threads = worker_threads;
    queue_capacity = queue_capacity;
    pipeline = none;
    paused = false;
    last_commit = 0;
    running = false;
    world = w;
    actions = [];
  }

  unfoldable pub wait_if_left : ℕ → World → World
  wait_if_left zero w = w
  wait_if_left (suc left) w = delay w

  -- `createWithRetry`, with the attempts that are left; `attempt` is whether the client could be
  -- made.
  unfoldable pub create_with_retry :
      (World → Bool × World) → String → ℕ → ℕ → ℕ → World → Expected ErrorCode Consumer × World
  unfolding construct wait_if_left
  create_with_retry attempt topic worker_threads queue_capacity zero w =
      (err (make_error_code EventConsumerError.connection_failure), w)
  create_with_retry attempt topic worker_threads queue_capacity (suc left) w =
      let (made, w1) = attempt w in
      let rest =
        create_with_retry attempt topic worker_threads queue_capacity left (wait_if_left left w1) in
      if made then (ok (construct topic worker_threads queue_capacity w1), w1) else rest
