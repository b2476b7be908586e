-- ===== src/Orders/Json/Written.antt =====
-- What the mappers of orders (order-service/models2json-mapper) write is read as what it was.
use liquid_pet_project.Prelude.{
  ◌≡◌, refl, Option, none, some, List, [], ◌∷◌, ◌-◌, ◌^◌, String, ok, map, All, eq_string,
}
use liquid_pet_project.Prelude.Dict.{Dict, lookup, insert}
use liquid_pet_project.Models.StrongId
use liquid_pet_project.Models.StrongId.{StrongId, order_id, user_id, product_id}
use liquid_pet_project.Json.{JsonLibrary, JsonValues, Keeps, Fits, get_value, found}
use liquid_pet_project.Orders.Money
use liquid_pet_project.Orders.Money.{Currency, Money, create_currency}
use liquid_pet_project.Orders.Order.{Order, OrderItem, create_item, create}
use liquid_pet_project.Orders.Json.{
  currency_from_json, currency_fields, currency_to_json, money_from_json, money_fields,
  money_to_json, item_from_json, item_fields, item_to_json, parse_all, parse_items, from_json,
  id_fields, order_fields, to_json,
}

-- An item that its constructors accept, with numbers that fit the types of the program.
abbrev pub Sendable : OrderItem → Type 0
Sendable item =
    let price = item.price_at_order_time in
    (StrongId.create product_id item.product_id.value ≡ ok item.product_id)
    × (create_currency price.currency.code price.currency.minor_digits ≡ ok price.currency)
    × (Money.create price.minor_units price.currency ≡ ok price)
    × (create_item item.product_id item.quantity price ≡ ok item)
    × Fits 127 price.currency.minor_digits
    × Fits (2 ^ 63 - 1) price.minor_units
    × Fits (2 ^ 31 - 1) item.quantity

module _ (j : JsonLibrary) (v : JsonValues j) (kept : Keeps j v) where
  currency_read :
      (c : Currency)
      → Fits 127 c.minor_digits
      → currency_from_json j v (currency_to_json j v c) ≡ create_currency c.code c.minor_digits
  unfolding currency_from_json currency_to_json currency_fields get_value insert lookup
  currency_read c fits = rw (
    kept.string_kept (currency_fields j v c) "code" c.code refl,
    kept.int8_kept (currency_fields j v c) "minorDigits" c.minor_digits refl fits,
  )

  money_read :
      (m : Money)
      → Fits 127 m.currency.minor_digits
      → Fits (2 ^ 63 - 1) m.minor_units
      → create_currency m.currency.code m.currency.minor_digits ≡ ok m.currency
      → Money.create m.minor_units m.currency ≡ ok m
      → money_from_json j v (money_to_json j v m) ≡ ok m
  unfolding money_from_json money_to_json money_fields get_value insert lookup
  money_read m digits units currency made = rw (
    kept.int64_kept (money_fields j v m) "minorUnits" m.minor_units refl units,
    kept.json_kept (money_fields j v m) "currency" (currency_to_json j v m.currency) refl,
    currency_read m.currency digits,
    currency,
    made,
  )

  item_read :
      (item : OrderItem) → Sendable item → item_from_json j v (item_to_json j v item) ≡ ok item
  unfolding item_from_json item_to_json item_fields get_value insert lookup
  item_read item (product, currency, price, made, digits, units, quantity) =
      let amount = item.price_at_order_time in
      rw (
        kept.string_kept (item_fields j v item) "productId" item.product_id.value refl,
        kept.json_kept (item_fields j v item) "priceAtOrderTime" (money_to_json j v amount) refl,
        kept.int_kept (item_fields j v item) "quantity" item.quantity refl quantity,
        product,
        money_read amount digits units currency price,
        made,
      )

  parse_all-more :
      (json : j.Json) (rest : List j.Json) (item : OrderItem) (items : List OrderItem)
      → item_from_json j v json ≡ ok item
      → parse_all j v rest ≡ ok items
      → parse_all j v (json ∷ rest) ≡ ok (item ∷ items)
  unfolding parse_all
  parse_all-more json rest item items one more = rw (one, more, parse_all)

  items_read :
      (items : List OrderItem)
      → All Sendable items
      → parse_all j v (map (item_to_json j v) items) ≡ ok items
  unfolding parse_all
  items_read [] sendable = refl
  items_read (item ∷ items) sendable =
      parse_all-more (item_to_json j v item) (map (item_to_json j v) items) item items
        (item_read item sendable.0) (items_read items sendable.1)

  -- The fields of an order, with or without an identifier.
  abbrev fields_with : Option (StrongId order_id) → Order → Dict String j.Json
  fields_with id order = order_fields j v (record order { order_id = id })

  user_kept :
      (id : Option (StrongId order_id)) (order : Order)
      → lookup "userId" (fields_with id order) ≡ some (v.text order.user_id.value)
  unfolding order_fields id_fields insert lookup
  user_kept none order = refl
  user_kept (some id) order = refl

  items_kept :
      (id : Option (StrongId order_id)) (order : Order)
      → lookup "items" (fields_with id order) ≡ some (v.array (map (item_to_json j v) order.items))
  unfolding order_fields id_fields insert lookup
  items_kept none order = refl
  items_kept (some id) order = refl

  pub id_kept :
      (id : StrongId order_id) (order : Order)
      → lookup "orderId" (order_fields j v (record order { order_id = some id }))
        ≡ some (v.text id.value)
  unfolding order_fields id_fields insert lookup
  id_kept id order = refl

  module _ (order : Order) where
    pub user_written : j.string_at (to_json j v order) "userId" ≡ found order.user_id.value
    unfolding to_json
    user_written =
        kept.string_kept (order_fields j v order) "userId" order.user_id.value
          (user_kept order.order_id order)

    pub items_written :
        (j.json_at (to_json j v order) "items"
          ≡ found (v.array (map (item_to_json j v) order.items)))
        × (j.elements (v.array (map (item_to_json j v) order.items))
            ≡ some (map (item_to_json j v) order.items))
    unfolding to_json
    items_written = (
      kept.json_kept (order_fields j v order) "items" _ (items_kept order.order_id order),
      kept.elements_kept (map (item_to_json j v) order.items),
    )

  -- An order that is written as JSON and read again is the order that is created of its user and its
  -- items, if they are such as their constructors accept and their numbers fit the types of the
  -- program.
  pub from_json-to_json :
      (order : Order)
      → StrongId.create user_id order.user_id.value ≡ ok order.user_id
      → All Sendable order.items
      → from_json j v (to_json j v order) ≡ create order.user_id order.items
  unfolding from_json parse_items get_value
  from_json-to_json order user sendable = rw (
    user_written order,
    user,
    (items_written order).0,
    (items_written order).1,
    items_read order.items sendable,
  )
