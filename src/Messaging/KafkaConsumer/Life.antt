-- ===== src/Messaging/KafkaConsumer/Life.antt =====
-- The consumer (shared/messaging/consumer/KafkaEventConsumer.cpp) over its whole life: rebalances,
-- rounds of the loop, the start and the stop.
use mathlib.Core.Option.{map as map_option}
use liquid_pet_project.Prelude.{
  ℕ, zero, suc, refl, Bool, true, false, Option, none, some, List, [], ◌∷◌, String, if◌then◌else◌,
}
use liquid_pet_project.Messaging.PartitionRegistry.{PartitionKey}
use liquid_pet_project.Messaging.PartitionRegistry.Invariant
use liquid_pet_project.Messaging.PartitionRegistry.Invariant.{
  IsValid, step-IsValid, assigns, revokes, registers, completes, confirms as confirms_call,
  new-IsValid,
}
use liquid_pet_project.Messaging.ConsumerPipeline
use liquid_pet_project.Messaging.ConsumerPipeline.{
  ConsumerPipeline, IncomingRecord, enqueue, ingest_registered,
}
use liquid_pet_project.Errors.{errc_enum}
use liquid_pet_project.Messaging.WorkerPool.{WorkerPool}
use liquid_pet_project.Messaging.RecordExecutor.{WorkItem}
use liquid_pet_project.Messaging.KafkaConsumer.{
  KafkaClient, Consumer, Called, returned, threw, Polled, polled, RebalanceEventType,
  subscribe_attempts, poll_threw, Rebalance, partitions_assigned, partitions_revoked,
  ConsumerRecord, meanwhile, commit_ready, rebalanced, on_rebalance, on_rebalances, ingest,
  ingest_all, pump_pipeline, after_pump, after_poll, round, delayed, delay_if_left, delay_if_left,
  run, subscribed, subscribe_once, subscribe_with_retry, after_subscribe, start, start_with, stop,
  construct, to_keys, incoming_of,
}
use liquid_pet_project.Messaging.KafkaConsumer.Trace.{
  HasValidRegistry, ingest-IsValid, map-HasValidRegistry,
}
use liquid_pet_project.Messaging.KafkaConsumer.Commits.{
  Sound, meanwhile-Sound, backpressure-Sound, choice-Sound, if-Sound, commit_offsets-Sound,
  commit_ready-Sound,
}

module _ (k : KafkaClient) where
  open k use {
    World, pause, resume, commit_sync, completions, now, poll, subscribe, threads, stop_requested,
    poll_rebalances, subscribe_rebalances,
  }

  rebalanced-Sound :
      (t : RebalanceEventType) (keys : List PartitionKey) (p : ConsumerPipeline) (s : Consumer k)
      → IsValid p.registry
      → Sound k s
      → Sound k (rebalanced k t keys p s)
  unfolding rebalanced ConsumerPipeline.on_partitions_assigned
      ConsumerPipeline.on_partitions_revoked Invariant.step
  rebalanced-Sound partitions_assigned keys p s v h =
      (step-IsValid p.registry (assigns keys) v, h.1, h.2)
  rebalanced-Sound partitions_revoked keys p s v h =
      commit_offsets-Sound k _ _ (step-IsValid p.registry (revokes keys) v, h.1, h.2)

  on_rebalance-Sound :
      (event : Rebalance) (s : Consumer k) → Sound k s → Sound k (on_rebalance k event s)
  unfolding on_rebalance
  on_rebalance-Sound event s h = with_pipeline s.pipeline h.0
    where
      with_pipeline :
          (o : Option ConsumerPipeline)
          → HasValidRegistry o
          → Sound k (elim o [
            | none ↦ s
            | some p ↦ rebalanced k event.event_type (to_keys event.partitions) p s
          ])
      with_pipeline none v = h
      with_pipeline (some p) v =
          rebalanced-Sound event.event_type (to_keys event.partitions) p s v h

  on_rebalances-Sound :
      (events : List Rebalance) (s : Consumer k) → Sound k s → Sound k (on_rebalances k events s)
  unfolding on_rebalances
  on_rebalances-Sound [] s h = h
  on_rebalances-Sound (event ∷ rest) s h =
      on_rebalances-Sound rest (on_rebalance k event (meanwhile k s))
        (on_rebalance-Sound event (meanwhile k s) (meanwhile-Sound k s h))

  ingest-Sound : (r : ConsumerRecord) (s : Consumer k) → Sound k s → Sound k (ingest k r s)
  unfolding ingest
  ingest-Sound r s h = choice-Sound k r.failed _ _ h (
    map-HasValidRegistry (λ p. ConsumerPipeline.ingest p (incoming_of r)) s.pipeline
        (λ p v. ingest-IsValid p (incoming_of r) v) h.0,
    h.1,
    h.2,
  )

  ingest_all-Sound :
      (rs : List ConsumerRecord) (s : Consumer k) → Sound k s → Sound k (ingest_all k rs s)
  unfolding ingest_all
  ingest_all-Sound [] s h = h
  ingest_all-Sound (r ∷ rs) s h =
      ingest_all-Sound rs (ingest k r (meanwhile k s))
        (ingest-Sound r (meanwhile k s) (meanwhile-Sound k s h))

  pumped-HasValidRegistry :
      (act : ℕ → WorkerPool WorkItem → WorkerPool WorkItem) (o : Option ConsumerPipeline)
      → HasValidRegistry o
      → HasValidRegistry (pump_pipeline k act o).1
  unfolding pump_pipeline ConsumerPipeline.pump
  pumped-HasValidRegistry act none v = tt
  pumped-HasValidRegistry act (some p) v = v

  after_pump-Sound : (r : Bool × Consumer k) → Sound k r.1 → Sound k (after_pump k r).1
  unfolding after_pump
  after_pump-Sound (false, s) h = h
  after_pump-Sound (true, s) h = commit_ready-Sound k false s h

  after_poll-Sound : (r : Polled) (s : Consumer k) → Sound k s → Sound k (after_poll k r s).1
  unfolding after_poll
  after_poll-Sound poll_threw s h = h
  after_poll-Sound (polled rs) s h =
      let s1 : Consumer k = meanwhile k (ingest_all k rs s) in
      let h1 : Sound k s1 = meanwhile-Sound k (ingest_all k rs s) (ingest_all-Sound rs s h) in
      after_pump-Sound _ (
        backpressure-Sound k _ _
          (pumped-HasValidRegistry (threads s1.world) s1.pipeline h1.0, h1.1, h1.2))

  round-Sound : (s : Consumer k) → Sound k s → Sound k (round k s).1
  unfolding round
  round-Sound s h =
      let s0 : Consumer k = record s { world = (poll_rebalances s.world).1 } in
      let events = (poll_rebalances s.world).0 in
      let s1 : Consumer k = on_rebalances k events s0 in
      after_poll-Sound (poll s1.world).0 (record s1 { world = (poll s1.world).1 })
        (on_rebalances-Sound events s0 h)

  run-Sound : (fuel : ℕ) (s : Consumer k) → Sound k s → Sound k (run k fuel s)
  unfolding run delayed
  run-Sound zero s h = h
  run-Sound (suc fuel) s h =
      let s0 : Consumer k = record s { world = (stop_requested s.world).1 } in
      let s1 : Consumer k = (round k s0).1 in
      let h1 : Sound k s1 = round-Sound s0 h in
      let next : Consumer k = if (round k s0).0 then s1 else delayed k s1 in
      let next_sound : Sound k next = choice-Sound k (round k s0).0 s1 (delayed k s1) h1 h1 in
      choice-Sound k (stop_requested s.world).0 s0 (run k fuel next) h
        (run-Sound fuel next next_sound)

  subscribed-Sound :
      (r : Called × World) (s : Consumer k) → Sound k s → Sound k (subscribed k r s).1
  unfolding subscribed
  subscribed-Sound (returned, w) s h = h
  subscribed-Sound (threw, w) s h = h

  subscribe_once-Sound : (s : Consumer k) → Sound k s → Sound k (subscribe_once k s).1
  unfolding subscribe_once
  subscribe_once-Sound s h =
      let s0 : Consumer k = record s { world = (subscribe_rebalances s.world s.topic).1 } in
      let events = (subscribe_rebalances s.world s.topic).0 in
      let s1 : Consumer k = on_rebalances k events s0 in
      subscribed-Sound (subscribe s1.world s1.topic) s1 (on_rebalances-Sound events s0 h)

  delay_if_left-Sound : (left : ℕ) (s : Consumer k) → Sound k s → Sound k (delay_if_left k left s)
  unfolding delay_if_left delayed
  delay_if_left-Sound zero s h = h
  delay_if_left-Sound (suc left) s h = h

  subscribe_with_retry-Sound :
      (left : ℕ) (s : Consumer k) → Sound k s → Sound k (subscribe_with_retry k left s).1
  unfolding subscribe_with_retry
  subscribe_with_retry-Sound zero s h = h
  subscribe_with_retry-Sound (suc left) s h =
      let s' : Consumer k = (subscribe_once k s).1 in
      let h' : Sound k s' = subscribe_once-Sound s h in
      if-Sound k (subscribe_once k s).0 (true, s')
        (subscribe_with_retry k left (delay_if_left k left s')) h'
        (subscribe_with_retry-Sound left (delay_if_left k left s') (delay_if_left-Sound left s' h'))

  after_subscribe-Sound : (r : Bool × Consumer k) → Sound k r.1 → Sound k (after_subscribe k r).1
  unfolding after_subscribe
  after_subscribe-Sound (true, s) h = h
  after_subscribe-Sound (false, s) h = (tt, h.1, h.2)

  start_with-Sound :
      (o : Option ConsumerPipeline) (s : Consumer k) → Sound k s → Sound k (start_with k o s).1
  unfolding start_with ConsumerPipeline.new
  start_with-Sound (some p) s h = h
  start_with-Sound none s h = after_subscribe-Sound _ (
      subscribe_with_retry-Sound subscribe_attempts
        (record s { pipeline = some (ConsumerPipeline.new s.worker_threads s.queue_capacity) })
        (new-IsValid, h.1, h.2))

  stop-Sound : (s : Consumer k) → Sound k s → Sound k (stop k s)
  unfolding stop
  stop-Sound s h =
      let s' : Consumer k = meanwhile k s in
      let h' : Sound k s' = meanwhile-Sound k s h in
      let ended : Consumer k = record s' {
        running = false;
        pipeline = map_option ConsumerPipeline.stop s'.pipeline;
      } in
      choice-Sound k s.running (commit_ready k true ended) s
        (commit_ready-Sound k true ended (
          map-HasValidRegistry ConsumerPipeline.stop s'.pipeline
              (λ p v. unfold ConsumerPipeline.stop in v) h'.0,
          h'.1,
          h'.2,
        ))
        h

  -- At every moment of its life, from its construction to its stop and through every rebalance, the
  -- consumer has a well-formed registry if it has one, has confirmed only positions that an earlier
  -- commit which the broker accepted held with the same offset for the same partition, and has its
  -- pause flag set exactly if the last call of pause or resume that returned was a pause.
  pub consumer_Sound :
      (topic : String) (worker_threads queue_capacity fuel : ℕ) (w : World)
      → Sound k (run k fuel (start k (construct k topic worker_threads queue_capacity w)).1)
        × Sound k
            (stop k (run k fuel (start k (construct k topic worker_threads queue_capacity w)).1))
  unfolding start construct
  consumer_Sound topic n c fuel w =
      let s : Consumer k = construct k topic n c w in
      let started : Sound k (start_with k none s).1 = start_with-Sound none s (tt, tt, refl) in
      let ran = run-Sound fuel (start_with k none s).1 started in
      (ran, stop-Sound (run k fuel (start_with k none s).1) ran)
