-- ===== src/Worker/Reservation.antt =====
-- worker-service/handlers/OrderReservationHandler.cpp, over parameters for JSON, the order processor
-- (IOrderProcessor.h) and the repository (IWorkerRepository.h).
pub mod Once
pub mod Understood
use liquid_pet_project.Prelude.{
  Bool, true, false, Option, none, some, List, [], ◌∷◌, String, Expected, ok, err,
}
use liquid_pet_project.Errors.{ErrorCode}
use liquid_pet_project.Models.StrongId.{StrongId, order_id, outbox_event_id}
use liquid_pet_project.Json.{JsonLibrary, Parse, json_value, parse_error, number_overflow}
use liquid_pet_project.Messaging.Handling.{MessageMetadata, HandlerReply, returned, threw}
use liquid_pet_project.Worker.Events.{OrderCreatedEvent, OrderReservedEvent, from_json, to_json}

pub record ReservationRecord : Type 0 where
  pub event_id : StrongId outbox_event_id
  pub aggregate_id : StrongId order_id
  pub event_type : String
  pub payload : String

pub record Surroundings : Type 1 where
  pub World : Type 0
  -- IOrderProcessor::process
  pub process : World → OrderCreatedEvent → Expected ErrorCode (Unit {0}) × World
  -- IWorkerRepository::recordReservationIfNew
  pub record_if_new : World → ReservationRecord → Expected ErrorCode Bool × World

-- The answer of the repository: a duplicate is acknowledged too.
unfoldable pub recorded_reply : Expected ErrorCode Bool → Bool
recorded_reply (err e) = false
recorded_reply (ok written) = true

unfoldable pub reservation_of :
    JsonLibrary → OrderCreatedEvent → MessageMetadata → ReservationRecord
unfolding to_json
reservation_of j event metadata = record {
  event_id = metadata.event_id;
  aggregate_id = event.order;
  event_type = "OrderReserved";
  payload = j.dump (to_json j (record { order = event.order }));
}

module _ (j : JsonLibrary) (x : Surroundings) where
  open j use {parse}
  open x use {World, process, record_if_new}

  -- After `process`.
  unfoldable pub processed :
      OrderCreatedEvent → MessageMetadata → Expected ErrorCode (Unit {0}) → World → Bool × World
  unfolding reservation_of recorded_reply
  processed event metadata (err e) w = (false, w)
  processed event metadata (ok _) w =
      let (result, w') = record_if_new w (reservation_of j event metadata) in
      (recorded_reply result, w')

  -- After `fromJson`.
  unfoldable pub parsed :
      MessageMetadata → Expected ErrorCode OrderCreatedEvent → World → Bool × World
  unfolding processed
  parsed metadata (err e) w = (true, w)
  parsed metadata (ok event) w =
      let (result, w') = process w event in processed event metadata result w'

  abbrev pub replied : Bool × World → HandlerReply × World
  replied (b, w) = (returned b, w)

  -- After the parsing: a parse_error is caught, any other exception is not.
  unfoldable pub payload_read : MessageMetadata → Parse j.Json → World → HandlerReply × World
  unfolding parsed from_json
  payload_read metadata parse_error w = (returned true, w)
  payload_read metadata number_overflow w = (threw, w)
  payload_read metadata (json_value json) w = replied (parsed metadata (from_json j json) w)

  unfoldable pub handle : String → MessageMetadata → World → HandlerReply × World
  unfolding payload_read
  handle payload metadata w = payload_read metadata (parse payload) w
