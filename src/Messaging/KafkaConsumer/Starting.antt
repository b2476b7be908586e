-- ===== src/Messaging/KafkaConsumer/Starting.antt =====
-- How a start ends (shared/messaging/consumer/KafkaEventConsumer.cpp: `start`, `subscribeWithRetry`).
use mathlib.Core.Path.{subst}
use mathlib.Core.Option.{map as map_option}
use liquid_pet_project.Prelude.{
  ℕ, zero, suc, ◌≡◌, ◌⊎◌, ◌≤◌, ◌<◌, refl, ap, inl, inr, Bool, true, false, Option, none, some, List,
  [], ◌∷◌, arith, Bool-cases, Expected, ok, err,
}
use liquid_pet_project.Prelude.Dict.{Dict}
use liquid_pet_project.Errors.{
  ErrorCode, make_error_code, errc_enum, operation_in_progress, event_consumer_enum,
  EventConsumerError,
}
use liquid_pet_project.Messaging.PartitionRegistry.{PartitionKey, CommitPosition}
use liquid_pet_project.Messaging.ConsumerPipeline
use liquid_pet_project.Messaging.ConsumerPipeline.{ConsumerPipeline}
use liquid_pet_project.Messaging.KafkaConsumer.{
  KafkaClient, Action, subscribes, delays, commits, confirms, pauses, resumes, Consumer, Called,
  returned, threw, Rebalance, RebalanceEventType, partitions_assigned, partitions_revoked, to_keys,
  complete_all, meanwhile, after_commit, commit_offsets, rebalanced, on_rebalance, on_rebalances,
  delayed, delay_if_left, subscribed, subscribe_once, subscribe_with_retry, after_subscribe, start,
  start_with, offsets_from,
}

-- The attempts to subscribe and the delays among the calls.
abbrev pub tries : List Action → List Action
tries [] = []
tries (subscribes b ∷ rest) = subscribes b ∷ tries rest
tries (delays ∷ rest) = delays ∷ tries rest
tries (commits offsets b ∷ rest) = tries rest
tries (confirms q ∷ rest) = tries rest
tries (pauses ∷ rest) = tries rest
tries (resumes ∷ rest) = tries rest

-- So many failed attempts, each with a delay after it.
abbrev pub failed_tries : ℕ → List Action → List Action
failed_tries zero before = before
failed_tries (suc n) before = failed_tries n (delays ∷ subscribes false ∷ before)

abbrev pub IsThere : Option ConsumerPipeline → Type 0
IsThere none = ⊥
IsThere (some p) = Unit

module _ (k : KafkaClient) where
  open k use {World, completions, commit_sync, subscribe_rebalances, subscribe}

  -- What rebalances leave alone: the attempts, the flag of the thread, and that there is a pipeline.
  abbrev Kept : List Action → Bool → Consumer k → Type 0
  Kept made running s = (tries s.actions ≡ made) × (s.running ≡ running) × IsThere s.pipeline

  module _ (made : List Action) (running : Bool) where
    map-IsThere :
        (f : ConsumerPipeline → ConsumerPipeline) (o : Option ConsumerPipeline)
        → IsThere o
        → IsThere (map_option f o)
    map-IsThere f none h = h
    map-IsThere f (some p) h = tt

    meanwhile-Kept : (s : Consumer k) → Kept made running s → Kept made running (meanwhile k s)
    unfolding meanwhile
    meanwhile-Kept s h =
        (h.0, h.1, map-IsThere (complete_all (completions s.world).0) s.pipeline h.2)

    after_commit-Kept :
        (s : Consumer k) (offsets : Dict PartitionKey ℕ) (r : Called × World)
        → Kept made running s
        → Kept made running (after_commit k s offsets r).1
    unfolding after_commit
    after_commit-Kept s offsets (returned, w) h = h
    after_commit-Kept s offsets (threw, w) h = h

    commit_offsets-Kept :
        (ps : List CommitPosition) (s : Consumer k)
        → Kept made running s
        → Kept made running (commit_offsets k ps s).1
    unfolding commit_offsets
    commit_offsets-Kept [] s h = h
    commit_offsets-Kept (p ∷ ps) s h =
        after_commit-Kept s (offsets_from [] (p ∷ ps))
          (commit_sync s.world (offsets_from [] (p ∷ ps))) h

    rebalanced-Kept :
        (t : RebalanceEventType) (keys : List PartitionKey) (p : ConsumerPipeline) (s : Consumer k)
        → Kept made running s
        → Kept made running (rebalanced k t keys p s)
    unfolding rebalanced
    rebalanced-Kept partitions_assigned keys p s h = (h.0, h.1, tt)
    rebalanced-Kept partitions_revoked keys p s h =
        let (positions, p') = ConsumerPipeline.on_partitions_revoked p keys in
        commit_offsets-Kept positions (record s { pipeline = some p' }) (h.0, h.1, tt)

    on_rebalance-Kept :
        (event : Rebalance) (s : Consumer k)
        → Kept made running s
        → Kept made running (on_rebalance k event s)
    unfolding on_rebalance
    on_rebalance-Kept event s h = with_pipeline s.pipeline
      where
        with_pipeline :
            (o : Option ConsumerPipeline)
            → Kept made running (elim o [
              | none ↦ s
              | some p ↦ rebalanced k event.event_type (to_keys event.partitions) p s
            ])
        with_pipeline none = h
        with_pipeline (some p) = rebalanced-Kept event.event_type (to_keys event.partitions) p s h

    on_rebalances-Kept :
        (events : List Rebalance) (s : Consumer k)
        → Kept made running s
        → Kept made running (on_rebalances k events s)
    unfolding on_rebalances
    on_rebalances-Kept [] s h = h
    on_rebalances-Kept (event ∷ rest) s h =
        on_rebalances-Kept rest (on_rebalance k event (meanwhile k s))
          (on_rebalance-Kept event (meanwhile k s) (meanwhile-Kept s h))

    subscribed-Kept :
        (r : Called × World) (s : Consumer k)
        → Kept made running s
        → (tries (subscribed k r s).1.actions ≡ subscribes (subscribed k r s).0 ∷ made)
          × ((subscribed k r s).1.running ≡ running)
          × IsThere (subscribed k r s).1.pipeline
    unfolding subscribed
    subscribed-Kept (returned, w) s h = (ap (λ l. subscribes true ∷ l) h.0, h.1, h.2)
    subscribed-Kept (threw, w) s h = (ap (λ l. subscribes false ∷ l) h.0, h.1, h.2)

    subscribe_once-Kept :
        (s : Consumer k)
        → Kept made running s
        → Kept (subscribes (subscribe_once k s).0 ∷ made) running (subscribe_once k s).1
    unfolding subscribe_once
    subscribe_once-Kept s h =
        let (events, w) = subscribe_rebalances s.world s.topic in
        let s1 : Consumer k = on_rebalances k events (record s { world = w }) in
        subscribed-Kept (subscribe s1.world s1.topic) s1
          (on_rebalances-Kept events (record s { world = w }) h)

  -- How the attempts end: with one that succeeds, or after the last one.
  abbrev Retried : ℕ → List Action → Bool → Bool × Consumer k → Type 0
  Retried left made running r =
      ((r.0 ≡ true)
        × ((n : ℕ) × (n ≤ left) × Kept (subscribes true ∷ failed_tries n made) running r.1))
      ⊎ ((r.0 ≡ false) × Kept (subscribes false ∷ failed_tries left made) running r.1)

  abbrev pub Started : List Action → Expected ErrorCode (Unit {0}) × Consumer k → Type 0
  Started made r =
      (r.0 ≡ ok tt)
      × (r.1.running ≡ true)
      × IsThere r.1.pipeline
      × ((n : ℕ) × (n < 10) × (tries r.1.actions ≡ subscribes true ∷ failed_tries n made))

  abbrev pub Refused : List Action → Bool → Expected ErrorCode (Unit {0}) × Consumer k → Type 0
  Refused made running r =
      (r.0 ≡ err (make_error_code EventConsumerError.connection_failure))
      × (r.1.pipeline ≡ none)
      × (r.1.running ≡ running)
      × (tries r.1.actions ≡ subscribes false ∷ failed_tries 9 made)

  Retried-later :
      (left : ℕ) (made : List Action) (running : Bool) (r : Bool × Consumer k)
      → Retried left (delays ∷ subscribes false ∷ made) running r
      → Retried (suc left) made running r
  Retried-later left made running r (inl h) = inl (h.0, (suc h.1.0, omega arith, h.1.2))
  Retried-later left made running r (inr h) = inr h

  retry-Retried :
      (left : ℕ) (made : List Action) (running : Bool) (s : Consumer k)
      → Kept made running s
      → Retried left made running (subscribe_with_retry k (suc left) s)
  unfolding subscribe_with_retry delay_if_left
  retry-Retried zero made running s h = elim (Bool-cases (subscribe_once k s).0) [
    | inl done ↦ rw done (inl (refl, (0, omega arith, first true done)))
    | inr failed ↦ rw failed (inr (refl, first false failed))
  ]
    where
      first :
          (b : Bool)
          → (subscribe_once k s).0 ≡ b
          → Kept (subscribes b ∷ made) running (subscribe_once k s).1
      first b e =
          subst (λ c. Kept (subscribes c ∷ made) running (subscribe_once k s).1) e
            (subscribe_once-Kept made running s h)
  retry-Retried (suc left) made running s h = elim (Bool-cases (subscribe_once k s).0) [
    | inl done ↦ rw done (inl (refl, (0, omega arith, first true done)))
    | inr failed ↦ rw failed (
        Retried-later left made running
          (subscribe_with_retry k (suc left) (delayed k (subscribe_once k s).1))
          (retry-Retried left (delays ∷ subscribes false ∷ made) running
            (delayed k (subscribe_once k s).1) (again (first false failed))))
  ]
    where
      first :
          (b : Bool)
          → (subscribe_once k s).0 ≡ b
          → Kept (subscribes b ∷ made) running (subscribe_once k s).1
      first b e =
          subst (λ c. Kept (subscribes c ∷ made) running (subscribe_once k s).1) e
            (subscribe_once-Kept made running s h)

      again :
          Kept (subscribes false ∷ made) running (subscribe_once k s).1
          → Kept (delays ∷ subscribes false ∷ made) running (delayed k (subscribe_once k s).1)
      again g = unfold delayed in (ap (λ l. delays ∷ l) g.0, g.1, g.2)

  after_subscribe-Outcome :
      (made : List Action) (running : Bool) (r : Bool × Consumer k)
      → Retried 9 made running r
      → Started made (after_subscribe k r) ⊎ Refused made running (after_subscribe k r)
  unfolding after_subscribe
  after_subscribe-Outcome made running (true, s) (inl (e, (n, le, kept))) =
      inl (refl, refl, kept.2, (n, omega arith, kept.0))
  after_subscribe-Outcome made running (true, s) (inr h) = cc h.0
  after_subscribe-Outcome made running (false, s) (inl h) = cc h.0
  after_subscribe-Outcome made running (false, s) (inr h) = inr (refl, refl, h.1.1, h.1.0)

  start_with-Outcome :
      (o : Option ConsumerPipeline) (s : Consumer k)
      → ((p : ConsumerPipeline) × (o ≡ some p)
          × (start_with k o s ≡ (err (make_error_code operation_in_progress), s)))
        ⊎ ((o ≡ none)
            × (Started (tries s.actions) (start_with k o s)
                ⊎ Refused (tries s.actions) s.running (start_with k o s)))
  unfolding start_with
  start_with-Outcome (some p) s = inl (p, refl, refl)
  start_with-Outcome none s = inr (
    refl,
    after_subscribe-Outcome (tries s.actions) s.running _ (
        retry-Retried 9 (tries s.actions) s.running
          (record s { pipeline = some (ConsumerPipeline.new s.worker_threads s.queue_capacity) })
          (refl, refl, tt)),
  )

  -- A start has one of three outcomes. With a pipeline it fails with operation_in_progress and
  -- changes nothing. Without one it succeeds after fewer than ten failed attempts to subscribe, each
  -- followed by a delay, and one that succeeds, and then the thread runs on a pipeline. Or ten
  -- attempts fail, with a delay between each two of them: then it fails with connection_failure, and
  -- no pipeline is left and the thread does not run if it did not before.
  pub start_outcome :
      (s : Consumer k)
      → ((p : ConsumerPipeline) × (s.pipeline ≡ some p)
          × (start k s ≡ (err (make_error_code operation_in_progress), s)))
        ⊎ ((s.pipeline ≡ none)
            × (Started (tries s.actions) (start k s)
                ⊎ Refused (tries s.actions) s.running (start k s)))
  unfolding start
  start_outcome s = start_with-Outcome s.pipeline s
