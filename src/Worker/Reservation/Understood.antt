-- ===== src/Worker/Reservation/Understood.antt =====
-- What the worker service writes about a reservation, received by the order service's handler:
-- worker-service/events2json-mapper and order-service/event-handlers.
use liquid_pet_project.Prelude.{
  ℕ, ◌≡◌, inl, inr, Bool-cases, refl, Bool, true, false, ◌&&◌, List, [], ◌∷◌, String, ok, arith,
  leb, ltb, eqb, not, if◌then◌else◌, characters, ◌==◌, eq_string,
}
use liquid_pet_project.Prelude.Dict.{lookup}
use liquid_pet_project.Json.{JsonLibrary, json_value, found, get_value}
use liquid_pet_project.Messaging.Handling.{MessageMetadata, returned}
use liquid_pet_project.Models.StrongId
use liquid_pet_project.Models.StrongId.{
  StrongId, order_id, Place, hex, dash, fits, is_hex_digit, matches, is_valid_uuid, uuid_pattern,
}
use liquid_pet_project.Orders.ReservedHandler
use liquid_pet_project.Orders.ReservedHandler.Table.{
  Table, orders_table, reserved_row, handle_reserves,
}
use liquid_pet_project.Worker.Events.{OrderCreatedEvent, from_json, to_json}
use liquid_pet_project.Worker.Events.Checked.{from_json-checked}
use liquid_pet_project.Worker.Reservation.{reservation_of}

-- Characters that stand for themselves in a JSON text: printable ASCII without quote and backslash.
abbrev pub is_plain_character : ℕ → Bool
is_plain_character c = leb 32 c && (ltb c 127 && (not (eqb c b'"') && not (eqb c b'\\')))

abbrev pub is_plain : List ℕ → Bool
is_plain [] = true
is_plain (c ∷ cs) = is_plain_character c && is_plain cs

and_both : (a b : Bool) → a && b ≡ true → (a ≡ true) × (b ≡ true)
and_both true b h = (refl, h)
and_both false b h = absurd (cc h)

place_plain : (p : Place) (c : ℕ) → fits p c ≡ true → is_plain_character c ≡ true
unfolding fits is_hex_digit
place_plain hex c h = ground arith
place_plain dash c h = ground arith

matches_plain : (ps : List Place) (cs : List ℕ) → matches ps cs ≡ true → is_plain cs ≡ true
unfolding matches
matches_plain [] [] h = refl
matches_plain [] (c ∷ cs) h = absurd (cc h)
matches_plain (p ∷ ps) [] h = absurd (cc h)
matches_plain (p ∷ ps) (c ∷ cs) h =
    let (fit, rest) = and_both (fits p c) (matches ps cs) h in
    rw (place_plain p c fit) (matches_plain ps cs rest)

-- An identifier is a plain text.
id_plain :
    (id : StrongId order_id)
    → StrongId.create order_id id.value ≡ ok id
    → is_plain (characters id.value) ≡ true
unfolding StrongId.create is_valid_uuid
id_plain id accepted = elim (Bool-cases (matches uuid_pattern (characters id.value))) [
  | inl good ↦ matches_plain uuid_pattern (characters id.value) good
  | inr bad ↦ absurd (ground (arith, bad, accepted))
]

module _ (j : JsonLibrary) where
  -- An object with one plain text is parsed, of what it is dumped as, as a value with that text.
  abbrev pub Transmits : Type 0
  Transmits =
      (key text : String)
      → is_plain (characters key) ≡ true
      → is_plain (characters text) ≡ true
      → (json : j.Json) × (j.parse (j.dump (j.set_string j.null_json key text)) ≡ json_value json)
        × (j.string_at json key ≡ found text)

  event_read :
      (json : j.Json) (id : StrongId order_id)
      → j.string_at json "orderId" ≡ found id.value
      → StrongId.create order_id id.value ≡ ok id
      → ReservedHandler.from_json j orders_table json ≡ ok (record { order = id })
  unfolding ReservedHandler.from_json get_value
  event_read json id there accepted = rw (there, accepted) refl

  -- The payload that the worker service records for an event that it read makes the handler of the
  -- order service acknowledge it and change the row of the same order, and no other, and that only
  -- from created to reserved, on a table that keeps the contract of the repositories; if the JSON
  -- library transmits an object with one plain text.
  pub reservation_understood :
      (json : j.Json) (event : OrderCreatedEvent) (metadata : MessageMetadata) (m : Table)
      → Transmits
      → from_json j json ≡ ok event
      → let after =
          ReservedHandler.handle j orders_table (reservation_of j event metadata).payload m in
        (after.0 ≡ returned true)
        × ((k : String)
            → lookup k after.1.0
              ≡ (if event.order.value == k then reserved_row (lookup k m) else lookup k m))
  unfolding reservation_of to_json
  reservation_understood json event metadata m transmits h =
      let accepted = (from_json-checked j json event h).0 in
      let (sent, parsed, there) =
        transmits "orderId" event.order.value refl (id_plain event.order accepted) in
      handle_reserves j (reservation_of j event metadata).payload sent
        (record { order = event.order }) m parsed (event_read sent event.order there accepted)
