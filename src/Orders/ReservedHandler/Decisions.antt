-- ===== src/Orders/ReservedHandler/Decisions.antt =====
-- Every way through OrderReservedHandler::handle (order-service/event-handlers).
use liquid_pet_project.Prelude.{
  ◌≡◌, ◌≢◌, ◌⊎◌, inl, inr, refl, Bool, true, [], ◌∷◌, String, arith, Expected, ok, err,
}
use liquid_pet_project.Errors.{ErrorCode}
use liquid_pet_project.Models.StrongId.{StrongId, order_id}
use liquid_pet_project.Json.{JsonLibrary, json_value, parse_error, number_overflow, Parse-cases}
use liquid_pet_project.Messaging.Handling.{returned, threw}
use liquid_pet_project.Orders.Order.{
  Order, OrderStatus, created, reserved, shipped, cancelled, mark_reserved,
}
use liquid_pet_project.Orders.ReservedHandler.{
  Repositories, OrderReservedEvent, changes, is_not_found, from_json, Replied, replied,
  payload_read, changed_reply, reserve, loaded, parsed, handle,
}

module _ (j : JsonLibrary) (db : Repositories) where
  open j use {Json, parse, string_at}
  open db use {World, find_by_id, change_status}

  -- Why a message was answered the way it was.
  pub data Decision (payload : String) (w : World) : Replied j db → Type 0 where
    malformed : parse payload ≡ parse_error → Decision payload w (returned true, (w, []))
    overflowed : parse payload ≡ number_overflow → Decision payload w (threw, (w, []))
    not_an_event :
        (json : Json) (e : ErrorCode)
        → parse payload ≡ json_value json
        → from_json j db json ≡ err e
        → Decision payload w (returned true, (w, []))
    not_loaded :
        (json : Json) (event : OrderReservedEvent) (e : ErrorCode) (w' : World)
        → parse payload ≡ json_value json
        → from_json j db json ≡ ok event
        → find_by_id w event.order ≡ (err e, w')
        → Decision payload w (returned (is_not_found e), (w', []))
    past_reservation :
        (json : Json) (event : OrderReservedEvent) (o : Order) (w' : World)
        → parse payload ≡ json_value json
        → from_json j db json ≡ ok event
        → find_by_id w event.order ≡ (ok o, w')
        → o.status ≢ created
        → Decision payload w (returned true, (w', []))
    asked :
        (json : Json) (event : OrderReservedEvent) (o : Order) (w' w'' : World)
        → (changed : Expected ErrorCode Bool) → parse payload ≡ json_value json
        → from_json j db json ≡ ok event
        → find_by_id w event.order ≡ (ok o, w')
        → o.status ≡ created
        → change_status w' event.order created reserved ≡ (changed, w'')
        → Decision payload w
            (returned (changed_reply changed), (w'', changes event.order created reserved ∷ []))

  -- What `reserve` comes to, by the status found.
  pub reserve_created :
      (id : StrongId order_id) (o : Order) (w : World)
      → o.status ≡ created
      → reserve j db id o w ≡ (
        changed_reply (change_status w id created reserved).0,
        ((change_status w id created reserved).1, changes id created reserved ∷ []),
      )
  unfolding reserve mark_reserved
  reserve_created id o w h = ground arith

  pub reserve_other :
      (id : StrongId order_id) (o : Order) (w : World)
      → o.status ≢ created
      → reserve j db id o w ≡ (true, (w, []))
  unfolding reserve mark_reserved
  reserve_other id o w h = ground arith

  pub created_dec : (s : OrderStatus) → (s ≡ created) ⊎ (s ≢ created)
  created_dec created = inl refl
  created_dec reserved = inr (λ h. cc)
  created_dec shipped = inr (λ h. cc)
  created_dec cancelled = inr (λ h. cc)

  module _ (payload : String) (w : World) (json : Json) (q : parse payload ≡ json_value json) where
    loaded-Decision :
        (event : OrderReservedEvent) (result : Expected ErrorCode Order) (w' : World)
        → from_json j db json ≡ ok event
        → find_by_id w event.order ≡ (result, w')
        → Decision payload w (replied j db (loaded j db event.order result w'))
    unfolding loaded
    loaded-Decision event (err e) w' fj h = not_loaded json event e w' q fj h
    loaded-Decision event (ok o) w' fj h = elim (created_dec o.status) [
      | inl fresh ↦ rw (reserve_created event.order o w' fresh) (
          asked json event o w' (change_status w' event.order created reserved).1
            (change_status w' event.order created reserved).0 q fj h fresh refl)
      | inr past ↦
          rw (reserve_other event.order o w' past) (past_reservation json event o w' q fj h past)
    ]

    parsed-Decision :
        (result : Expected ErrorCode OrderReservedEvent)
        → from_json j db json ≡ result
        → Decision payload w (replied j db (parsed j db result w))
    unfolding parsed
    parsed-Decision (err e) h = not_an_event json e q h
    parsed-Decision (ok event) h =
        loaded-Decision event (find_by_id w event.order).0 (find_by_id w event.order).1 h refl

  -- The handler acknowledges what is no event, an order that does not exist and an order past its
  -- creation, asks to try again when the order cannot be loaded, and asks for exactly one change of
  -- status, from created to reserved, of an order found as created; then its answer is whether the
  -- change was made. A number that is too large makes it throw.
  pub handle-Decision : (payload : String) (w : World) → Decision payload w (handle j db payload w)
  unfolding handle payload_read
  handle-Decision payload w = elim (Parse-cases (parse payload)) [
    | inr (inl q) ↦ rw (q, handle) (malformed q)
    | inr (inr q) ↦ rw (q, handle) (overflowed q)
    | inl (json, q) ↦ rw (q, handle) (parsed-Decision payload w json q (from_json j db json) refl)
  ]
