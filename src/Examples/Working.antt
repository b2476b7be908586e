-- ===== src/Examples/Working.antt =====
-- The worker service (worker-service) on one message.
use liquid_pet_project.Prelude.{◌≡◌, refl, some, List, [], ◌∷◌, String, ok, All, length}
use liquid_pet_project.Prelude.Int.{pos}
use liquid_pet_project.Models.StrongId
use liquid_pet_project.Models.StrongId.{StrongId, order_id, user_id, product_id}
use liquid_pet_project.Json.{JsonLibrary, json_value, found, get_value}
use liquid_pet_project.Messaging.Handling.{MessageMetadata}
use liquid_pet_project.Worker.Events.{OrderCreatedEvent, from_json}
use liquid_pet_project.Worker.Events.Checked.{IsChecked, from_json-checked}
use liquid_pet_project.Worker.Reservation.{handle}
use liquid_pet_project.Worker.Reservation.Once.{store, redelivered_once}

abbrev uuid : String
uuid = "0a1b2c3d-0000-4444-8888-0123456789ab"

-- Values that are one text, which every key holds; the array has the value itself as its element.
abbrev one_text : JsonLibrary
one_text = record {
  Json = String;
  parse = λ text. json_value text;
  string_at = λ json field. found json;
  int_at = λ json field. found (pos 2);
  json_at = λ json field. found json;
  elements = λ json. some (json ∷ []);
  null_json = "";
  set_string = λ json field text. text;
  dump = λ json. json;
}

abbrev event : OrderCreatedEvent
event = record {
  order = record { value = uuid };
  user = record { value = uuid };
  items = record { product = record { value = uuid }; quantity = pos 2 } ∷ [];
}

abbrev metadata : MessageMetadata
metadata = record { event_id = record { value = "first" }; event_type = "OrderCreated" }

reads_event : from_json one_text uuid ≡ ok event
unfolding from_json
reads_event = refl

redelivered_once_example :
    handle one_text
      (store (λ e. ok tt))
      uuid
      metadata
      (handle one_text (store (λ e. ok tt)) uuid metadata []).1
    ≡ handle one_text (store (λ e. ok tt)) uuid metadata []
redelivered_once_example = redelivered_once one_text (λ e. ok tt) uuid metadata []

-- The reservation is recorded.
recorded_once : length (handle one_text (store (λ e. ok tt)) uuid metadata []).1 ≡ 1
unfolding handle
recorded_once = refl

from_json-checked_example :
    (StrongId.create order_id uuid ≡ ok event.order)
    × ((StrongId.create user_id uuid ≡ ok event.user)
        × ((array : String) × ((jsons : List String) × ((get_value (one_text.json_at uuid "items")
                  ≡ ok array)
                × ((one_text.elements array ≡ some jsons)
                    × (All IsChecked event.items × (length event.items ≡ length jsons)))))))
from_json-checked_example = from_json-checked one_text uuid event reads_event
