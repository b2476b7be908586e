-- ===== src/Messaging/Handling.antt =====
-- The interfaces between the consumer and its surroundings: shared/messaging/MessageMetadata.h,
-- consumer/IEventHandler.h and IDeadLetterSink.h.
use liquid_pet_project.Prelude.{ℕ, Bool, String}
use liquid_pet_project.Prelude.Int.{ℤ}
use liquid_pet_project.Models.StrongId.{StrongId, outbox_event_id}
use liquid_pet_project.Messaging.PartitionRegistry.{PartitionKey}

pub record MessageMetadata : Type 0 where
  pub event_id : StrongId outbox_event_id
  pub event_type : String

pub record DeadLetterRecord : Type 0 where
  pub source : PartitionKey
  pub offset : ℕ
  pub attempts : ℤ
  pub payload : String
  pub metadata : MessageMetadata

-- What a call of `IEventHandler::handle` does: it returns or throws.
pub data HandlerReply : Type 0 where
  returned : Bool → HandlerReply
  threw : HandlerReply
