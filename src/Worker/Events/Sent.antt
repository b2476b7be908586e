-- ===== src/Worker/Events/Sent.antt =====
-- The worker service (worker-service/events2json-mapper) reads the event that the order service
-- writes to its outbox (order-service/models2json-mapper, PostgresOrderRepository.cpp).
use liquid_pet_project.Prelude.{◌≡◌, refl, List, [], ◌∷◌, ok, map, All, Bool-cases, inl, inr}
use liquid_pet_project.Prelude.Dict.{lookup, insert}
use liquid_pet_project.Prelude.Int.{pos, leb_ℤ}
use liquid_pet_project.Models.StrongId
use liquid_pet_project.Models.StrongId.{StrongId, order_id, user_id, product_id}
use liquid_pet_project.Json.{JsonLibrary, JsonValues, Keeps, get_value}
use liquid_pet_project.Orders.Order.{Order, OrderItem, create_item, assign_id}
use liquid_pet_project.Orders.Json.{item_fields, item_to_json, order_fields, to_json}
use liquid_pet_project.Orders.Json.Written.{Sendable, user_written, items_written, id_kept}
use liquid_pet_project.Worker.Events.{
  OrderCreatedItem, checked_item, parse_item, parse_all, parse_items, from_json,
}

-- What the event keeps of the items of an order.
abbrev pub ordered : OrderItem → OrderCreatedItem
ordered item = record { product = item.product_id; quantity = item.quantity }

checked-create :
    (item : OrderItem)
    → create_item item.product_id item.quantity item.price_at_order_time ≡ ok item
    → checked_item item.product_id item.quantity ≡ ok (ordered item)
unfolding checked_item create_item
checked-create item made = elim (Bool-cases (leb_ℤ item.quantity (pos 0))) [
  | inl small ↦ absurd (cc (rw small at made))
  | inr large ↦ rw large
]

module _ (j : JsonLibrary) (v : JsonValues j) (kept : Keeps j v) where
  item_read :
      (item : OrderItem) → Sendable item → parse_item j (item_to_json j v item) ≡ ok (ordered item)
  unfolding parse_item item_to_json item_fields get_value insert lookup
  item_read item (product, currency, price, made, digits, units, quantity) = rw (
    kept.string_kept (item_fields j v item) "productId" item.product_id.value refl,
    kept.int_kept (item_fields j v item) "quantity" item.quantity refl quantity,
    product,
    checked-create item made,
  )

  parse_all-more :
      (json : j.Json) (rest : List j.Json) (item : OrderCreatedItem) (items : List OrderCreatedItem)
      → parse_item j json ≡ ok item
      → parse_all j rest ≡ ok items
      → parse_all j (json ∷ rest) ≡ ok (item ∷ items)
  unfolding parse_all
  parse_all-more json rest item items one more = rw (one, more, parse_all)

  items_read :
      (items : List OrderItem)
      → All Sendable items
      → parse_all j (map (item_to_json j v) items) ≡ ok (map ordered items)
  unfolding parse_all
  items_read [] sendable = refl
  items_read (item ∷ items) sendable =
      parse_all-more (item_to_json j v item) (map (item_to_json j v) items) (ordered item)
        (map ordered items) (item_read item sendable.0) (items_read items sendable.1)

  -- The JSON of an order with an identifier is read by the worker service as the event of that order:
  -- with its identifier, its user, and each of its items with product and quantity; the identifiers,
  -- the items and their numbers are such as the order service accepts and the types hold.
  pub from_json-order :
      (order : Order) (id : StrongId order_id)
      → StrongId.create order_id id.value ≡ ok id
      → StrongId.create user_id order.user_id.value ≡ ok order.user_id
      → All Sendable order.items
      → from_json j (to_json j v (assign_id order id))
        ≡ ok (record { order = id; user = order.user_id; items = map ordered order.items })
  unfolding from_json parse_items get_value assign_id to_json
  from_json-order order id accepted user sendable = rw (
    kept.string_kept (order_fields j v (assign_id order id)) "orderId" id.value
        (id_kept j v kept id order),
    accepted,
    user_written j v kept (assign_id order id),
    user,
    (items_written j v kept (assign_id order id)).0,
    (items_written j v kept (assign_id order id)).1,
    items_read order.items sendable,
  )
