-- ===== src/Orders/Handlers.antt =====
-- order-service/handlers/CQRS: CreateOrderHandler.h, GetOrderHandler.h and HealthHandler.h, with the
-- paths of RoutePaths.h. JSON, the repository and the messages of std::errc are parameters.
pub mod Placing
use liquid_pet_project.Prelude.{
  ℕ, zero, suc, Option, none, some, [], String, if◌then◌else◌, Expected, ok, err, eq_string,
}
use liquid_pet_project.Prelude.Dict.{insert}
use liquid_pet_project.Errors.{ErrorCode}
use liquid_pet_project.Errors.Messages.{message}
use liquid_pet_project.Models.StrongId
use liquid_pet_project.Models.StrongId.{StrongId, order_id}
use liquid_pet_project.Json.{
  JsonLibrary, JsonValues, Parse, json_value, parse_error, number_overflow,
}
use liquid_pet_project.Http.{
  Request, Response, Status, Handled, answers, throws, not_found, internal_server_error,
}
use liquid_pet_project.Orders.Order.{Order}
use liquid_pet_project.Orders.Json.{from_json, to_json}
use liquid_pet_project.Orders.ReservedHandler.{is_not_found}

abbrev pub status_ok : Status
status_ok = 200

abbrev pub status_created : Status
status_created = 201

abbrev pub bad_request : Status
bad_request = 400

-- paths::ORDERS_PREFIX, and its length
abbrev pub orders_prefix : String
orders_prefix = "/orders/"

abbrev pub orders_prefix_size : ℕ
orders_prefix_size = 8

-- std::string::substr to the end, which throws out of range.
unfoldable pub substr : ℕ → String → Option String
substr zero text = some text
substr (suc n) String.[] = none
substr (suc n) (String.◌∷◌ first text) = substr n text

-- IOrderRepository
pub record OrderRepository : Type 1 where
  pub World : Type 0
  pub save : World → Order → Expected ErrorCode (StrongId order_id) × World
  pub find_by_id : World → StrongId order_id → Expected ErrorCode Order × World

-- HealthHandler::handle
unfoldable pub health : Request → Response
health request = record { status = status_ok; body = "OK" }

module _ (errc_message : ℕ → String) (j : JsonLibrary) (v : JsonValues j)
    (db : OrderRepository) where
  open j use {Json, parse, dump, null_json}
  open v use {object, text}
  open db use {World, save, find_by_id}

  abbrev pub refused : Status → ErrorCode → Response
  refused status e = record { status = status; body = message errc_message e }

  -- After `save`.
  unfoldable pub saved : Expected ErrorCode (StrongId order_id) × World → Response × World
  unfolding insert message
  saved (err e, w) = (refused internal_server_error e, w)
  saved (ok id, w) = (
    record { status = status_created; body = dump (object (insert "orderId" (text id.value) [])) },
    w,
  )

  -- After `OrderJsonMapper::fromJson`.
  unfoldable pub order_read : Expected ErrorCode Order → World → Response × World
  unfolding saved message
  order_read (err e) w = (refused bad_request e, w)
  order_read (ok order) w = saved (save w order)

  abbrev pub answered : Response × World → Handled × World
  answered (response, w) = (answers response, w)

  -- After the parsing: a body that is no JSON is answered with a null; any exception other than a
  -- parse_error is not caught.
  unfoldable pub body_read : Parse Json → World → Handled × World
  unfolding order_read from_json
  body_read parse_error w = (answers (record { status = bad_request; body = dump null_json }), w)
  body_read number_overflow w = (throws, w)
  body_read (json_value json) w = answered (order_read (from_json j v json) w)

  -- CreateOrderHandler::handle
  unfoldable pub create_order : Request → World → Handled × World
  unfolding body_read
  create_order request w = body_read (parse request.body) w

  -- After `findById`.
  unfoldable pub found_order : Expected ErrorCode Order × World → Response × World
  unfolding is_not_found to_json message
  found_order (err e, w) =
      (refused (if is_not_found e then not_found else internal_server_error) e, w)
  found_order (ok order, w) = (record { status = status_ok; body = dump (to_json j v order) }, w)

  -- After `OrderId::create`.
  unfoldable pub id_read : Expected ErrorCode (StrongId order_id) → World → Response × World
  unfolding found_order message
  id_read (err e) w = (refused bad_request e, w)
  id_read (ok id) w = found_order (find_by_id w id)

  unfoldable pub path_read : Option String → World → Handled × World
  unfolding id_read StrongId.create
  path_read none w = (throws, w)
  path_read (some id) w = answered (id_read (StrongId.create order_id id) w)

  -- GetOrderHandler::handle
  unfoldable pub get_order : Request → World → Handled × World
  unfolding path_read substr
  get_order request w = path_read (substr orders_prefix_size request.path) w
