-- ===== src/Outbox.antt =====
-- shared/outbox/OutboxPublisher.h and .cpp: rows of the outbox go to the broker and are marked. The
-- repository, the broker and the stop token are a parameter; `Action` records the calls made.
pub mod Marking
pub mod Repository
use liquid_pet_project.Prelude.{
  ℕ, zero, suc, Bool, true, false, ◌&&◌, List, [], ◌∷◌, ◌++◌, String, ltb, if◌then◌else◌, length,
  Expected, ok, err,
}
use liquid_pet_project.Prelude.Int.{ℤ, pos, leb_ℤ}
use liquid_pet_project.Errors.{ErrorCode}
use liquid_pet_project.Models.StrongId.{StrongId, outbox_event_id}
use liquid_pet_project.Messaging.Handling.{MessageMetadata}

pub record OutboxEntry : Type 0 where
  pub id : StrongId outbox_event_id
  pub aggregate_id : String
  pub event_type : String
  pub payload : String

pub record PublishRequest : Type 0 where
  pub topic : String
  pub key : String
  pub payload : String
  pub metadata : MessageMetadata

-- What waiting for the future of a publication gives.
pub data Waited : Type 0 where
  timed_out : Waited
  ready : Expected ErrorCode (Unit {0}) → Waited

pub record Surroundings : Type 1 where
  pub World : Type 0
  pub Future : Type 0
  -- IOutboxRepository
  pub fetch_unpublished : World → ℤ → Expected ErrorCode (List OutboxEntry) × World
  pub mark_as_published : World → StrongId outbox_event_id → Expected ErrorCode (Unit {0}) × World
  -- IEventPublisher
  pub publish : World → PublishRequest → Future × World
  -- wait_for with the publish timeout, and get
  pub wait : World → Future → Waited × World
  -- stop_token::stop_requested and sleepUnlessStopped
  pub stop_requested : World → Bool × World
  pub sleep : World → World

pub data Action : Type 0 where
  publishes : PublishRequest → Action
  waits : StrongId outbox_event_id → Waited → Action
  marks : StrongId outbox_event_id → Bool → Action

pub record BatchResult : Type 0 where
  pub fetched : ℕ
  pub published : ℕ

-- std::cmp_greater_equal on a size_t and an int.
unfoldable pub has_more_work : BatchResult → ℤ → Bool
has_more_work r batch_size = ltb 0 r.published && leb_ℤ batch_size (pos r.fetched)

unfoldable pub request_of : String → OutboxEntry → PublishRequest
request_of topic entry = record {
  topic = topic;
  key = entry.aggregate_id;
  payload = entry.payload;
  metadata = record { event_id = entry.id; event_type = entry.event_type };
}

module _ (x : Surroundings) where
  open x use {
    World, Future, fetch_unpublished, mark_as_published, publish, wait, stop_requested, sleep,
  }

  pub record PendingPublish : Type 0 where
    pub entry : OutboxEntry
    pub result : Future

  -- The first loop of `processBatch`, with its calls in order.
  unfoldable pub publish_all :
      String → List OutboxEntry → World → List PendingPublish × (World × List Action)
  unfolding request_of
  publish_all topic [] w = ([], (w, []))
  publish_all topic (entry ∷ entries) w =
      let (future, w1) = publish w (request_of topic entry) in
      let (pending, (w2, actions)) = publish_all topic entries w1 in
      (
        record { entry = entry; result = future } ∷ pending,
        (w2, publishes (request_of topic entry) ∷ actions),
      )

  abbrev pub marked_ok : Expected ErrorCode (Unit {0}) → Bool
  marked_ok (ok _) = true
  marked_ok (err e) = false

  -- One round of the second loop, on what the wait gave: whether the entry counts as published.
  unfoldable pub settle_waited : OutboxEntry → Waited → World → Bool × (World × List Action)
  settle_waited entry timed_out w = (false, (w, waits entry.id timed_out ∷ []))
  settle_waited entry (ready (err e)) w = (false, (w, waits entry.id (ready (err e)) ∷ []))
  settle_waited entry (ready (ok _)) w =
      let (marked, w') = mark_as_published w entry.id in
      (
        marked_ok marked,
        (w', waits entry.id (ready (ok tt)) ∷ marks entry.id (marked_ok marked) ∷ []),
      )

  -- The second loop of `processBatch`, from the count so far.
  unfoldable pub settle_all : ℕ → List PendingPublish → World → ℕ × (World × List Action)
  unfolding settle_waited
  settle_all published [] w = (published, (w, []))
  settle_all published (p ∷ pending) w =
      let (waited, w1) = wait w p.result in
      let (counts, (w2, actions)) = settle_waited p.entry waited w1 in
      let (total, (w3, more)) =
        settle_all (if counts then suc published else published) pending w2 in
      (total, (w3, actions ++ more))

  unfoldable pub process_entries :
      String → Expected ErrorCode (List OutboxEntry) → World → BatchResult × (World × List Action)
  unfolding publish_all settle_all
  process_entries topic (err e) w = (record { fetched = 0; published = 0 }, (w, []))
  process_entries topic (ok entries) w =
      let (pending, (w1, sends)) = publish_all topic entries w in
      let (published, (w2, settles)) = settle_all 0 pending w1 in
      (record { fetched = length entries; published = published }, (w2, sends ++ settles))

  unfoldable pub process_batch : String → ℤ → World → BatchResult × (World × List Action)
  unfolding process_entries
  process_batch topic batch_size w =
      let (entries, w1) = fetch_unpublished w batch_size in process_entries topic entries w1

  -- `run`: it goes on until a stop is requested, here for at most as many rounds as there is fuel.
  unfoldable pub run : ℕ → String → ℤ → World → World × List Action
  unfolding process_batch has_more_work
  run zero topic batch_size w = (w, [])
  run (suc fuel) topic batch_size w =
      let (stop, w1) = stop_requested w in
      let (result, (w2, actions)) = process_batch topic batch_size w1 in
      let next = if has_more_work result batch_size then w2 else sleep w2 in
      let (last, more) = run fuel topic batch_size next in
      if stop then (w1, []) else (last, actions ++ more)
