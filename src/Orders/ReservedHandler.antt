-- ===== src/Orders/ReservedHandler.antt =====
-- order-service/event-handlers: OrderReservedHandler.cpp and OrderReservedEventJsonMapper.h. The
-- repositories are a parameter; `actions` records the writes that the handler asks for.
pub mod Decisions
pub mod Table
use liquid_pet_project.Prelude.{
  Bool, true, false, Option, none, some, List, [], ◌∷◌, String, if◌then◌else◌, Expected, ok, err,
  ◌>>=◌, transform, ◌==◌, ◌&&◌, eq_nat,
}
use liquid_pet_project.Errors.{ErrorCode, Category}
use liquid_pet_project.Models.StrongId
use liquid_pet_project.Models.StrongId.{StrongId, order_id}
use liquid_pet_project.Json.{
  JsonLibrary, Parse, json_value, parse_error, number_overflow, get_value,
}
use liquid_pet_project.Messaging.Handling.{HandlerReply, returned, threw}
use liquid_pet_project.Orders.Order.{Order, OrderStatus, reserved, created, mark_reserved}

pub record OrderReservedEvent : Type 0 where
  pub order : StrongId order_id

-- IOrderRepository::findById and IOrderStatusRepository::changeStatus
pub record Repositories : Type 1 where
  pub World : Type 0
  pub find_by_id : World → StrongId order_id → Expected ErrorCode Order × World
  pub change_status :
      World → StrongId order_id → OrderStatus → OrderStatus → Expected ErrorCode Bool × World

pub data Action : Type 0 where
  changes : StrongId order_id → OrderStatus → OrderStatus → Action

-- error == RepositoryError::NotFound
unfoldable pub is_not_found : ErrorCode → Bool
is_not_found e = elim e.category [ Category.repository ↦ e.value == 1 | _ ↦ false ]

-- After `changeStatus`: an error or a lost race is tried again.
abbrev pub changed_reply : Expected ErrorCode Bool → Bool
changed_reply (err e) = false
changed_reply (ok changed) = changed

module _ (j : JsonLibrary) (db : Repositories) where
  open j use {Json, parse, string_at}
  open db use {World, find_by_id, change_status}

  -- OrderReservedEventJsonMapper::fromJson
  unfoldable pub from_json : Json → Expected ErrorCode OrderReservedEvent
  unfolding get_value StrongId.create
  from_json json =
      get_value (string_at json "orderId")
      >>= (λ text. transform (λ id. record { order = id }) (StrongId.create order_id text))

  abbrev pub Handled : Type 0
  Handled = Bool × (World × List Action)

  -- After `findById` returned an order.
  unfoldable pub reserve : StrongId order_id → Order → World → Handled
  unfolding mark_reserved
  reserve id o w =
      let (transition, o') = mark_reserved o in
      let (changed, w') = change_status w id o.status o'.status in
      elim o.status [
        | reserved ↦ (true, (w, []))
        | _ ↦ elim transition [
          | err e ↦ (true, (w, []))
          | ok _ ↦ (changed_reply changed, (w', changes id o.status o'.status ∷ []))
        ]
      ]

  -- After `findById`.
  unfoldable pub loaded : StrongId order_id → Expected ErrorCode Order → World → Handled
  unfolding reserve is_not_found
  loaded id (err e) w = (is_not_found e, (w, []))
  loaded id (ok o) w = reserve id o w

  -- After `fromJson`.
  unfoldable pub parsed : Expected ErrorCode OrderReservedEvent → World → Handled
  unfolding loaded
  parsed (err e) w = (true, (w, []))
  parsed (ok event) w = let (order, w') = find_by_id w event.order in loaded event.order order w'

  abbrev pub Replied : Type 0
  Replied = HandlerReply × (World × List Action)

  abbrev pub replied : Handled → Replied
  replied (b, rest) = (returned b, rest)

  -- After the parsing: a parse_error is caught, any other exception is not.
  unfoldable pub payload_read : Parse Json → World → Replied
  unfolding parsed from_json
  payload_read parse_error w = (returned true, (w, []))
  payload_read number_overflow w = (threw, (w, []))
  payload_read (json_value json) w = replied (parsed (from_json json) w)

  unfoldable pub handle : String → World → Replied
  unfolding payload_read
  handle payload w = payload_read (parse payload) w
