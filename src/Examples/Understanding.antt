-- ===== src/Examples/Understanding.antt =====
-- The message of the worker service about a reservation (worker-service/handlers) at the handler of the
-- order service (order-service/event-handlers), with JSON values as trees.
use Prim.Native.String.{◌++◌ as append}
use Prim.Native.String.append
use Prim.Native.Char.{code}
use liquid_pet_project.Prelude.{
  ◌==◌, beq_self, eqb, false, if◌then◌else◌, characters, true, ◌≡◌, ◌∙◌, refl, ap, none, some,
  Option, [], ◌∷◌, ok, String, arith, eq_string,
}
use liquid_pet_project.Prelude.Dict.{lookup}
use liquid_pet_project.Prelude.Int.{pos}
use liquid_pet_project.Json.{JsonLibrary, Parse, json_value, parse_error}
use liquid_pet_project.Worker.Events
use liquid_pet_project.Worker.Reservation.Understood.{is_plain, Transmits, reservation_understood}
use liquid_pet_project.Worker.Reservation.{reservation_of}
use liquid_pet_project.Orders.ReservedHandler
use liquid_pet_project.Orders.ReservedHandler.Table.{Table, orders_table, reserved_row}
use liquid_pet_project.Messaging.Handling.{MessageMetadata, returned}
use liquid_pet_project.Examples.Trees.{
  Tree, empty, text_of, number_of, array_of, object_of, entry, trees, user_text, given, placed,
}

-- An object with one text is dumped as its key, a quote and its text, and only such texts are parsed.
abbrev split : String → String × Option String
split String.[] = ("", none)
split (String.◌∷◌ first text) =
    let (key, rest) = split text in
    if eqb (code first) b'"' then ("", some text) else (String.◌∷◌ first key, rest)

abbrev parse_split : String × Option String → Parse Tree
parse_split (key, none) = parse_error
parse_split (key, some text) = json_value (object_of (entry key (text_of text) empty))

abbrev dump_field : Tree → String
dump_field (object_of (entry key (text_of text) rest)) = append key (append "\"" text)
dump_field _ = ""

abbrev fields_only : JsonLibrary
fields_only = record (trees empty) { parse = λ text. parse_split (split text); dump = dump_field }

split-append :
    (key text : String)
    → is_plain (characters key) ≡ true
    → split (append key (append "\"" text)) ≡ (key, some text)
split-append String.[] text plain =
    ap split (append.nil (append "\"" text))
    ∙ ap split (append.cons _ String.[] text)
    ∙ ap (λ t. ("", some t)) (append.nil text)
split-append (String.◌∷◌ first key) text plain =
    let other : eqb (code first) b'"' ≡ false = ground (arith, plain) in
    let rest : is_plain (characters key) ≡ true = ground (arith, plain) in
    ap split (append.cons first key (append "\"" text))
    ∙ rw other (ap (λ p. (String.◌∷◌ first p.0, p.1)) (split-append key text rest))

transmits_fields : Transmits fields_only
unfolding lookup
transmits_fields key text plain_key plain_text = (
  object_of (entry key (text_of text) empty),
  ap parse_split (split-append key text plain_key),
  rw (beq_self key) refl,
)

abbrev created_event : Tree
created_event = object_of (
    entry "orderId" (text_of given) (
      entry "userId" (text_of user_text) (
        entry "items"
          (array_of (
            entry ""
              (object_of (
                entry "productId" (text_of user_text) (entry "quantity" (number_of (pos 3)) empty)))
              empty))
          empty)))

abbrev event : Events.OrderCreatedEvent
event = record {
  order = record { value = given };
  user = record { value = user_text };
  items = record { product = record { value = user_text }; quantity = pos 3 } ∷ [];
}

abbrev metadata : MessageMetadata
metadata = record { event_id = record { value = user_text }; event_type = "OrderCreated" }

event_read : Events.from_json fields_only created_event ≡ ok event
unfolding Events.from_json lookup
event_read = refl

abbrev waiting : Table
waiting = (given, placed) ∷ []

reservation_understood_example :
    let after =
      ReservedHandler.handle fields_only orders_table
        (reservation_of fields_only event metadata).payload
        waiting in
    (after.0 ≡ returned true)
    × ((k : String)
        → lookup k after.1.0
          ≡ (if given == k then reserved_row (lookup k waiting) else lookup k waiting))
reservation_understood_example =
    reservation_understood fields_only created_event event metadata waiting transmits_fields
      event_read
