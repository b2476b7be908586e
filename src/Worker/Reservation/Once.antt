-- ===== src/Worker/Reservation/Once.antt =====
-- The reservation handler (worker-service/handlers) on a store that keeps the contract of
-- IWorkerRepository.h: an event that was recorded is recorded no second time.
use liquid_pet_project.Prelude.{
  ◌≡◌, inl, inr, refl, sym, ap, ◌∙◌, Bool, true, false, ◌||◌, List, [], ◌∷◌, String, arith,
  if◌then◌else◌, Expected, ok, err, Expected-cases, Bool-cases, ◌==◌, eq_string, beq_self,
}
use liquid_pet_project.Errors.{ErrorCode}
use liquid_pet_project.Json.{JsonLibrary, json_value, parse_error, number_overflow, Parse-cases}
use liquid_pet_project.Messaging.Handling.{MessageMetadata, returned, threw}
use liquid_pet_project.Worker.Events.{OrderCreatedEvent, from_json}
use liquid_pet_project.Worker.Reservation.{
  ReservationRecord, Surroundings, reservation_of, recorded_reply, processed, parsed, replied,
  payload_read, handle,
}

-- Whether an event was recorded.
abbrev pub is_recorded : List ReservationRecord → String → Bool
is_recorded [] id = false
is_recorded (r ∷ rs) id = (r.event_id.value == id) || is_recorded rs id

abbrev pub record_if_new :
    List ReservationRecord → ReservationRecord → Expected ErrorCode Bool × List ReservationRecord
record_if_new rs r = if is_recorded rs r.event_id.value then (ok false, rs) else (ok true, r ∷ rs)

-- The processor answers by the event alone.
abbrev pub store : (OrderCreatedEvent → Expected ErrorCode (Unit {0})) → Surroundings
store process = record {
  World = List ReservationRecord;
  process = λ rs event. (process event, rs);
  record_if_new = record_if_new;
}

known :
    (rs : List ReservationRecord) (r : ReservationRecord)
    → is_recorded rs r.event_id.value ≡ true
    → record_if_new rs r ≡ (ok false, rs)
known rs r h = rw (h, record_if_new)

recorded_after :
    (rs : List ReservationRecord) (r : ReservationRecord)
    → is_recorded (record_if_new rs r).1 r.event_id.value ≡ true
recorded_after rs r = elim (Bool-cases (is_recorded rs r.event_id.value)) [
  | inl old ↦ rw (old, record_if_new) old
  | inr fresh ↦ rw (fresh, record_if_new) (ground (arith, beq_self r.event_id.value))
]

record_acknowledged :
    (rs : List ReservationRecord) (r : ReservationRecord)
    → recorded_reply (record_if_new rs r).0 ≡ true
unfolding recorded_reply
record_acknowledged rs r = elim (Bool-cases (is_recorded rs r.event_id.value)) [
  | inl old ↦ rw (old, record_if_new) refl
  | inr fresh ↦ rw (fresh, record_if_new) refl
]

module _ (j : JsonLibrary) (process : OrderCreatedEvent → Expected ErrorCode (Unit {0})) where
  abbrev Records : Type 0
  Records = List ReservationRecord

  -- The answer and the store of a message about an event.
  abbrev after : OrderCreatedEvent → MessageMetadata → Records → Bool × Records
  after event metadata rs = processed j (store process) event metadata (process event) rs

  after_recorded :
      (event : OrderCreatedEvent) (metadata : MessageMetadata) (u : Unit {0}) (rs : Records)
      → process event ≡ ok u
      → after event metadata rs ≡ (true, (record_if_new rs (reservation_of j event metadata)).1)
  unfolding processed
  after_recorded event metadata u rs q =
      ap (λ result. processed j (store process) event metadata result rs) q
      ∙ ap (λ b. (b, (record_if_new rs (reservation_of j event metadata)).1))
          (record_acknowledged rs (reservation_of j event metadata))

  after_refused :
      (event : OrderCreatedEvent) (metadata : MessageMetadata) (e : ErrorCode) (rs : Records)
      → process event ≡ err e
      → after event metadata rs ≡ (false, rs)
  unfolding processed
  after_refused event metadata e rs q =
      ap (λ result. processed j (store process) event metadata result rs) q

  after-after :
      (event : OrderCreatedEvent) (metadata : MessageMetadata) (rs : Records)
      → after event metadata (after event metadata rs).1 ≡ after event metadata rs
  after-after event metadata rs =
      let r = reservation_of j event metadata in
      elim (Expected-cases (process event)) [
        | inr (e, q) ↦ ap (λ p. after event metadata p.1) (after_refused event metadata e rs q)
        | inl (u, q) ↦
            let once = after_recorded event metadata u rs q in
            ap (λ p. after event metadata p.1) once
            ∙ after_recorded event metadata u (record_if_new rs r).1 q
            ∙ ap (λ p. (true, p.1)) (known (record_if_new rs r).1 r (recorded_after rs r))
            ∙ sym once
      ]

  handle_event :
      (payload : String) (metadata : MessageMetadata) (json : j.Json) (event : OrderCreatedEvent)
      (rs : Records)
      → j.parse payload ≡ json_value json
      → from_json j json ≡ ok event
      → handle j (store process) payload metadata rs
        ≡ replied j (store process) (after event metadata rs)
  unfolding handle payload_read parsed
  handle_event payload metadata json event rs q f = rw (q, handle) (rw f)

  handle_other :
      (payload : String) (metadata : MessageMetadata) (json : j.Json) (e : ErrorCode) (rs : Records)
      → j.parse payload ≡ json_value json
      → from_json j json ≡ err e
      → handle j (store process) payload metadata rs ≡ (returned true, rs)
  unfolding handle payload_read parsed
  handle_other payload metadata json e rs q f = rw (q, handle) (rw f)

  handle_malformed :
      (payload : String) (metadata : MessageMetadata) (rs : Records)
      → j.parse payload ≡ parse_error
      → handle j (store process) payload metadata rs ≡ (returned true, rs)
  unfolding handle payload_read
  handle_malformed payload metadata rs q = rw (q, handle)

  handle_overflow :
      (payload : String) (metadata : MessageMetadata) (rs : Records)
      → j.parse payload ≡ number_overflow
      → handle j (store process) payload metadata rs ≡ (threw, rs)
  unfolding handle payload_read
  handle_overflow payload metadata rs q = rw (q, handle)

  -- A message delivered twice in a row gets the same answer and leaves the same records as one that
  -- is delivered once, if the processor answers by the event alone.
  pub redelivered_once :
      (payload : String) (metadata : MessageMetadata) (rs : Records)
      → handle j (store process) payload metadata (handle j (store process) payload metadata rs).1
        ≡ handle j (store process) payload metadata rs
  redelivered_once payload metadata rs = elim (Parse-cases (j.parse payload)) [
    | inr (inl q) ↦
        ap (λ p. handle j (store process) payload metadata p.1)
          (handle_malformed payload metadata rs q)
    | inr (inr q) ↦
        ap (λ p. handle j (store process) payload metadata p.1)
          (handle_overflow payload metadata rs q)
    | inl (json, q) ↦ elim (Expected-cases (from_json j json)) [
      | inr (e, f) ↦
          ap (λ p. handle j (store process) payload metadata p.1)
            (handle_other payload metadata json e rs q f)
      | inl (event, f) ↦
          ap (λ p. handle j (store process) payload metadata p.1)
            (handle_event payload metadata json event rs q f)
          ∙ handle_event payload metadata json event (after event metadata rs).1 q f
          ∙ ap (replied j (store process)) (after-after event metadata rs)
          ∙ sym (handle_event payload metadata json event rs q f)
    ]
  ]
