-- ===== src/Examples/Reading.antt =====
-- The Kafka consumer, the dead-letter sink and what crosses the broker (shared/messaging) on a client
-- whose first subscription fails.
use liquid_pet_project.Prelude.{
  ℕ, ◌+◌, ◌*◌, ◌≡◌, ◌↔◌, ◌⊎◌, refl, true, false, none, some, [], ◌∷◌, ltb, eqb, if◌then◌else◌, ok,
  err,
}
use Prim.Native.String.{◌++◌ as append}
use liquid_pet_project.Prelude.Int.{pos}
use liquid_pet_project.Errors.{make_error_code, errc_enum, operation_in_progress}
use liquid_pet_project.Messaging.PartitionRegistry.{RecordTicket}
use liquid_pet_project.Messaging.ConsumerPipeline.{ConsumerPipeline}
use liquid_pet_project.Messaging.ConsumerPipeline
use liquid_pet_project.Messaging.Handling.{DeadLetterRecord}
use liquid_pet_project.Messaging.KafkaConsumer.{
  KafkaClient, Consumer, returned, threw, polled, partitions_assigned, ConsumerRecord, construct,
  start, run, stop, incoming_of, subscribes, delays,
}
use liquid_pet_project.Messaging.KafkaConsumer.Commits.{Sound}
use liquid_pet_project.Messaging.KafkaConsumer.Life.{consumer_Sound}
use liquid_pet_project.Messaging.KafkaConsumer.Starting.{Started, Refused, tries, start_outcome}
use liquid_pet_project.Messaging.KafkaConsumer.Stopping.{Settled, stop_settles}
use liquid_pet_project.Messaging.PartitionRegistry.Invariant.{new-IsValid}
use liquid_pet_project.Outbox.{Waited, ready}
use liquid_pet_project.Delivery.{producer_record, dead_letter_request, default_suffix, send}
use liquid_pet_project.Delivery.Received.{Carries, dead_letter_received}

abbrev ticket : RecordTicket
ticket = record {
  partition = record { topic = "orders"; partition = pos 0 };
  offset = 4;
  generation = 2;
}

abbrev four : ConsumerRecord
four = record {
  failed = false;
  topic = "orders";
  partition = pos 0;
  offset = 4;
  value = "{}";
  headers =
      ("eventId", "0a1b2c3d-0000-4444-8888-0123456789ab") ∷ ("eventType", "OrderCreated") ∷ [];
}

-- A world is the number of calls so far. The partition is assigned by each attempt to subscribe, the
-- second of which succeeds; every poll gives the same record.
abbrev client : KafkaClient
client = record {
  World = ℕ;
  subscribe_rebalances = λ w topic.
      (record { event_type = partitions_assigned; partitions = (topic, pos 0) ∷ [] } ∷ [], w);
  subscribe = λ w topic. (if eqb w 0 then threw else returned, w + 1);
  poll_rebalances = λ w. ([], w);
  poll = λ w. (polled (four ∷ []), w + 1);
  pause = λ w. (returned, w + 1);
  resume = λ w. (returned, w + 1);
  commit_sync = λ w offsets. (returned, w + 1);
  now = λ w. (w * 1000000000, w + 1);
  stop_requested = λ w. (ltb 20 w, w + 1);
  delay = λ w. w + 1;
  completions = λ w. (if ltb 5 w then ticket ∷ [] else [], w);
  threads = λ w n pool. pool;
}

consumer_Sound_example :
    Sound client (run client 3 (start client (construct client "orders" 1 8 0)).1)
    × Sound client (stop client (run client 3 (start client (construct client "orders" 1 8 0)).1))
consumer_Sound_example = consumer_Sound client "orders" 1 8 3 0

start_outcome_example :
    ((p : ConsumerPipeline) × ((construct client "orders" 1 8 0).pipeline ≡ some p)
      × (start client (construct client "orders" 1 8 0)
          ≡ (err (make_error_code operation_in_progress), construct client "orders" 1 8 0)))
    ⊎ (((construct client "orders" 1 8 0).pipeline ≡ none)
        × (Started client
              (tries (construct client "orders" 1 8 0).actions)
              (start client (construct client "orders" 1 8 0))
            ⊎ Refused client
                (tries (construct client "orders" 1 8 0).actions)
                (construct client "orders" 1 8 0).running
                (start client (construct client "orders" 1 8 0))))
start_outcome_example = start_outcome client (construct client "orders" 1 8 0)

-- One failed attempt, a delay, and one that succeeds.
two_attempts :
    tries (start client (construct client "orders" 1 8 0)).1.actions
    ≡ subscribes true ∷ delays ∷ subscribes false ∷ []
unfolding start construct
two_attempts = refl

abbrev quiet_client : KafkaClient
quiet_client = record client { completions = λ w. ([], w) }

abbrev running : Consumer quiet_client
running = record (construct quiet_client "orders" 1 8 3) {
  pipeline = some (ConsumerPipeline.new 1 8);
  running = true;
}

stop_settles_example : Settled quiet_client (λ w. refl) running.actions (stop quiet_client running)
unfolding ConsumerPipeline.new
stop_settles_example = stop_settles quiet_client (λ w. refl) running new-IsValid refl

abbrev letter : DeadLetterRecord
letter = record {
  source = record { topic = "orders"; partition = pos 0 };
  offset = 4;
  attempts = pos 3;
  payload = "{}";
  metadata = record {
    event_id = record { value = "0a1b2c3d-0000-4444-8888-0123456789ab" };
    event_type = "OrderCreated";
  };
}

abbrev stored_letter : ConsumerRecord
stored_letter = record four { topic = "orders.dlq"; offset = 0 }

stored_letter-Carries :
    Carries (producer_record (dead_letter_request default_suffix letter)) stored_letter
unfolding producer_record dead_letter_request
stored_letter-Carries = record { same_topic = refl; same_value = refl; same_headers = refl }

dead_letter_received_example :
    ((incoming_of stored_letter).partition.topic ≡ append letter.source.topic default_suffix)
    × ((incoming_of stored_letter).payload ≡ letter.payload)
    × ((incoming_of stored_letter).event_id ≡ some letter.metadata.event_id.value)
    × ((incoming_of stored_letter).event_type ≡ letter.metadata.event_type)
    × ((send (λ r. ready (ok tt)) default_suffix letter ≡ ok tt)
        ↔ (◌≡◌ {A = Waited} (ready (ok tt)) (ready (ok tt))))
dead_letter_received_example =
    dead_letter_received default_suffix letter stored_letter (λ r. ready (ok tt))
      stored_letter-Carries
