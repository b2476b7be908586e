-- ===== src/Orders/Service.antt =====
-- The routes of order-service/main.cpp, with the handlers that they lead to.
pub mod Routed
use liquid_pet_project.Prelude.{ℕ, List, [], ◌∷◌, String}
use liquid_pet_project.Json.{JsonLibrary, JsonValues}
use liquid_pet_project.Http.{get, post, Request, Route, Handled, answers}
use liquid_pet_project.Orders.Handlers.{
  OrderRepository, orders_prefix, health, create_order, get_order,
}

-- paths::ORDERS and paths::HEALTH
abbrev pub orders : String
orders = "/orders"

abbrev pub health_path : String
health_path = "/health"

-- The subclasses of IRequestHandler.
pub data RequestHandler : Type 0 where
  create_order_handler get_order_handler health_handler : RequestHandler

unfoldable pub build_routes : List (Route RequestHandler)
build_routes =
    record { method = post; path_prefix = orders; handler = create_order_handler }
    ∷ record { method = get; path_prefix = orders_prefix; handler = get_order_handler }
    ∷ record { method = get; path_prefix = health_path; handler = health_handler }
    ∷ []

module _ (errc_message : ℕ → String) (j : JsonLibrary) (v : JsonValues j)
    (db : OrderRepository) where
  -- IRequestHandler::handle
  unfoldable pub handle : RequestHandler → Request → db.World → Handled × db.World
  unfolding create_order get_order health
  handle create_order_handler request w = create_order errc_message j v db request w
  handle get_order_handler request w = get_order errc_message j v db request w
  handle health_handler request w = (answers (health request), w)
