-- ===== src/Delivery.antt =====
-- shared/messaging/producer/KafkaEventPublisher.cpp and PublisherDeadLetterSink.h: what is put on the
-- broker, and what the sender learns of it. The client library is a parameter.
pub mod Received
use liquid_pet_project.Prelude.{Option, none, some, List, [], ◌∷◌, String, Expected, ok, err}
use Prim.Native.String.{◌++◌ as append}
use liquid_pet_project.Errors.{
  ErrorCode, make_error_code, event_publisher_enum, EventPublisherError,
}
use liquid_pet_project.Messaging.Handling.{MessageMetadata, DeadLetterRecord}
use liquid_pet_project.Outbox.{PublishRequest, Waited, timed_out, ready}

-- The error values of librdkafka that `mapError` names, and all the others.
pub data KafkaError : Type 0 where
  msg_timed_out topic_authorization_failed cluster_authorization_failed unknown_topic_or_part
        invalid_arg other_error :
      KafkaError

unfoldable pub map_error : KafkaError → ErrorCode
map_error msg_timed_out = make_error_code EventPublisherError.timeout
map_error topic_authorization_failed = make_error_code EventPublisherError.broker_rejected
map_error cluster_authorization_failed = make_error_code EventPublisherError.broker_rejected
map_error unknown_topic_or_part = make_error_code EventPublisherError.broker_rejected
map_error invalid_arg = make_error_code EventPublisherError.serialization_failure
map_error other_error = make_error_code EventPublisherError.connection_failure

-- The record that `publish` sends.
pub record ProducerRecord : Type 0 where
  pub topic : String
  pub key : String
  pub value : String
  pub headers : List (String × String)

unfoldable pub producer_record : PublishRequest → ProducerRecord
producer_record request = record {
  topic = request.topic;
  key = request.key;
  value = request.payload;
  headers =
      ("eventId", request.metadata.event_id.value)
      ∷ ("eventType", request.metadata.event_type)
      ∷ [];
}

-- The delivery callback.
unfoldable pub delivered : Option KafkaError → Expected ErrorCode (Unit {0})
unfolding map_error
delivered none = ok tt
delivered (some e) = err (map_error e)

-- What `send` does: it throws, or takes the record and calls back later, if ever.
pub data Sent : Type 0 where
  send_threw : KafkaError → Sent
  taken : Option (Option KafkaError) → Sent

-- `publish`: the value that its future comes to hold; none is that no callback has come.
unfoldable pub publish :
    (ProducerRecord → Sent) → PublishRequest → Option (Expected ErrorCode (Unit {0}))
unfolding producer_record map_error delivered
publish send request = elim (send (producer_record request)) [
  | send_threw e ↦ some (err (map_error e))
  | taken none ↦ none
  | taken (some outcome) ↦ some (delivered outcome)
]

abbrev pub default_suffix : String
default_suffix = ".dlq"

unfoldable pub dead_letter_request : String → DeadLetterRecord → PublishRequest
dead_letter_request topic_suffix letter = record {
  topic = append letter.source.topic topic_suffix;
  key = letter.metadata.event_id.value;
  payload = letter.payload;
  metadata = letter.metadata;
}

unfoldable pub after_wait : Waited → Expected ErrorCode (Unit {0})
after_wait timed_out = err (make_error_code EventPublisherError.timeout)
after_wait (ready result) = result

-- `send`, over the publisher: what the wait for its future gives.
unfoldable pub send :
    (PublishRequest → Waited) → String → DeadLetterRecord → Expected ErrorCode (Unit {0})
unfolding dead_letter_request after_wait
send publish_and_wait topic_suffix letter =
    after_wait (publish_and_wait (dead_letter_request topic_suffix letter))
