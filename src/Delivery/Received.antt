-- ===== src/Delivery/Received.antt =====
-- What is published (shared/messaging/producer/KafkaEventPublisher.cpp) against what the consumer
-- reads (consumer/KafkaEventConsumer.cpp), and what the dead-letter sink answers.
use liquid_pet_project.Prelude.{◌≡◌, ◌↔◌, ◌∙◌, ap, none, some, String, ok}
use Prim.Native.String.{◌++◌ as append}
use liquid_pet_project.Errors.{event_publisher_enum}
use liquid_pet_project.Messaging.Handling.{DeadLetterRecord}
use liquid_pet_project.Messaging.KafkaConsumer.{ConsumerRecord, incoming_of}
use liquid_pet_project.Messaging.KafkaConsumer.Headers.{incoming_exact, last_value}
use liquid_pet_project.Messaging.ConsumerPipeline.{value_or_empty}
use liquid_pet_project.Outbox.{PublishRequest, Waited, timed_out, ready}
use liquid_pet_project.Delivery.{
  ProducerRecord, producer_record, dead_letter_request, send, after_wait,
}

-- The broker hands a record on as it was sent.
pub record Carries (sent : ProducerRecord) (r : ConsumerRecord) : Type 0 where
  pub same_topic : r.topic ≡ sent.topic
  pub same_value : r.value ≡ sent.value
  pub same_headers : r.headers ≡ sent.headers

-- A request that is published and handed on as it was sent is read by the consumer with the topic,
-- the payload, the event identifier and the event type of the request.
pub published_received :
    (request : PublishRequest) (r : ConsumerRecord)
    → Carries (producer_record request) r
    → ((incoming_of r).partition.topic ≡ request.topic)
      × ((incoming_of r).payload ≡ request.payload)
      × ((incoming_of r).event_id ≡ some request.metadata.event_id.value)
      × ((incoming_of r).event_type ≡ request.metadata.event_type)
unfolding producer_record last_value value_or_empty
published_received request r c =
    let (partition, offset, payload, event_id, event_type) = incoming_exact r in
    (
      ap (λ k. k.topic) partition ∙ c.same_topic,
      payload ∙ c.same_value,
      event_id ∙ ap (last_value "eventId" none) c.same_headers,
      event_type ∙ ap (λ h. value_or_empty (last_value "eventType" none h)) c.same_headers,
    )

-- A dead letter that is published and handed on as it was sent is read by a consumer of the dead
-- letters from the topic of the record with the suffix, and with the payload, the event identifier
-- and the event type of the record; and the sink reports it as stored exactly if the future of the
-- publication was ready in time and held a success.
pub dead_letter_received :
    (suffix : String) (letter : DeadLetterRecord) (r : ConsumerRecord)
    (wait : PublishRequest → Waited)
    → Carries (producer_record (dead_letter_request suffix letter)) r
    → ((incoming_of r).partition.topic ≡ append letter.source.topic suffix)
      × ((incoming_of r).payload ≡ letter.payload)
      × ((incoming_of r).event_id ≡ some letter.metadata.event_id.value)
      × ((incoming_of r).event_type ≡ letter.metadata.event_type)
      × ((send wait suffix letter ≡ ok tt)
          ↔ (wait (dead_letter_request suffix letter) ≡ ready (ok tt)))
unfolding dead_letter_request send
dead_letter_received suffix letter r wait c =
    let (topic, payload, event_id, event_type) =
      published_received (dead_letter_request suffix letter) r c in
    (topic, payload, event_id, event_type, stored (wait (dead_letter_request suffix letter)))
  where
    stored : (w : Waited) → (after_wait w ≡ ok tt) ↔ (w ≡ ready (ok tt))
    stored timed_out = unfold after_wait in (λ h. cc, λ h. cc)
    stored (ready result) = unfold after_wait in (λ h. ap ready h, λ h. cc)
