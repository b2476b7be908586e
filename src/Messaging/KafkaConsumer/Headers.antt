-- ===== src/Messaging/KafkaConsumer/Headers.antt =====
-- The headers of a record (shared/messaging/consumer/KafkaEventConsumer.cpp, `ingest`).
use liquid_pet_project.Prelude.{
  ◌≡◌, ◌∙◌, refl, ap, true, false, Option, none, some, List, [], ◌∷◌, String, arith, if◌then◌else◌,
  ◌==◌, eq_string, beq→eq,
}
use liquid_pet_project.Messaging.ConsumerPipeline.{IncomingRecord, value_or_empty}
use liquid_pet_project.Messaging.KafkaConsumer.{
  ConsumerRecord, read_header, read_headers, incoming_of,
}

-- The value under the last header with a key, or what there was before.
unfoldable pub last_value : String → Option String → List (String × String) → Option String
last_value asked before [] = before
last_value asked before ((key, value) ∷ rest) =
    last_value asked (if key == asked then some value else before) rest

not_both : (key : String) → (key == "eventId") ≡ true → (key == "eventType") ≡ false
not_both key h = ap (λ k. k == "eventType") (beq→eq key "eventId" h)

header-event_id :
    (before : IncomingRecord) (key value : String)
    → (read_header before key value).event_id
      ≡ (if key == "eventId" then some value else before.event_id)
unfolding read_header
header-event_id before key value = ground arith

header-event_type :
    (before : IncomingRecord) (o : Option String) (key value : String)
    → before.event_type ≡ value_or_empty o
    → (read_header before key value).event_type
      ≡ value_or_empty (if key == "eventType" then some value else o)
unfolding read_header value_or_empty
header-event_type before o key value h = ground (arith, not_both key)

headers-event_id :
    (before : IncomingRecord) (o : Option String) (headers : List (String × String))
    → before.event_id ≡ o
    → (read_headers before headers).event_id ≡ last_value "eventId" o headers
unfolding read_headers last_value
headers-event_id before o [] h = h
headers-event_id before o ((key, value) ∷ rest) h =
    headers-event_id (read_header before key value) (if key == "eventId" then some value else o)
      rest
      (header-event_id before key value ∙ ap (λ x. if key == "eventId" then some value else x) h)

headers-event_type :
    (before : IncomingRecord) (o : Option String) (headers : List (String × String))
    → before.event_type ≡ value_or_empty o
    → (read_headers before headers).event_type ≡ value_or_empty (last_value "eventType" o headers)
unfolding read_headers last_value
headers-event_type before o [] h = h
headers-event_type before o ((key, value) ∷ rest) h =
    headers-event_type (read_header before key value) (if key == "eventType" then some value else o)
      rest (header-event_type before o key value h)

-- What the headers leave alone.
abbrev SameRest : IncomingRecord → IncomingRecord → Type 0
SameRest a b = (a.partition ≡ b.partition) × (a.offset ≡ b.offset) × (a.payload ≡ b.payload)

header-SameRest :
    (before : IncomingRecord) (key value : String) → SameRest (read_header before key value) before
unfolding read_header
header-SameRest before key value = (ground arith, ground arith, ground arith)

headers-SameRest :
    (before : IncomingRecord) (headers : List (String × String))
    → SameRest (read_headers before headers) before
unfolding read_headers
headers-SameRest before [] = (refl, refl, refl)
headers-SameRest before ((key, value) ∷ rest) =
    let (a, b, c) = headers-SameRest (read_header before key value) rest in
    let (a', b', c') = header-SameRest before key value in (a ∙ a', b ∙ b', c ∙ c')

-- What is handed to the pipeline has the partition, the offset and the value of the record, the value
-- of its last header eventId as the identifier, if it has one, and that of its last header eventType
-- as the type, or the empty text.
pub incoming_exact :
    (r : ConsumerRecord)
    → ((incoming_of r).partition ≡ record { topic = r.topic; partition = r.partition })
      × ((incoming_of r).offset ≡ r.offset)
      × ((incoming_of r).payload ≡ r.value)
      × ((incoming_of r).event_id ≡ last_value "eventId" none r.headers)
      × ((incoming_of r).event_type ≡ value_or_empty (last_value "eventType" none r.headers))
unfolding incoming_of
incoming_exact r =
    let start : IncomingRecord = record {
      partition = record { topic = r.topic; partition = r.partition };
      offset = r.offset;
      payload = r.value;
      event_id = none;
      event_type = "";
    } in
    let (partition, offset, payload) = headers-SameRest start r.headers in
    (
      partition,
      offset,
      payload,
      headers-event_id start none r.headers refl,
      headers-event_type start none r.headers (unfold value_or_empty in refl),
    )
