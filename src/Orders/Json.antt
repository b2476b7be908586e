-- ===== src/Orders/Json.antt =====
-- order-service/models2json-mapper/mapper: CurrencyJsonMapper.h, MoneyJsonMapper.h and
-- OrderJsonMapper.h. An object is built by assignments to its keys.
pub mod Written
use liquid_pet_project.Prelude.{
  Option, none, some, List, [], ◌∷◌, String, Expected, ok, err, ◌>>=◌, transform, map, eq_string,
}
use liquid_pet_project.Prelude.Dict.{Dict, insert}
use liquid_pet_project.Errors.{ErrorCode, make_error_code, order_enum, OrderError}
use liquid_pet_project.Models.StrongId
use liquid_pet_project.Models.StrongId.{StrongId, order_id, user_id, product_id}
use liquid_pet_project.Json.{JsonLibrary, JsonValues, get_value}
use liquid_pet_project.Orders.Money
use liquid_pet_project.Orders.Money.{Currency, Money, create_currency}
use liquid_pet_project.Orders.Order.{Order, OrderItem, create_item, create, to_string}

module _ (j : JsonLibrary) (v : JsonValues j) where
  open j use {Json, string_at, int_at, json_at, elements}
  open v use {int8_at, int64_at, text, number, array, object}

  unfoldable pub currency_from_json : Json → Expected ErrorCode Currency
  unfolding get_value create_currency
  currency_from_json json = get_value (string_at json "code") >>= (λ code.
      get_value (int8_at json "minorDigits")
      >>= (λ minor_digits. create_currency code minor_digits))

  unfoldable pub currency_fields : Currency → Dict String Json
  unfolding insert
  currency_fields currency =
      insert "minorDigits" (number currency.minor_digits) (insert "code" (text currency.code) [])

  unfoldable pub currency_to_json : Currency → Json
  unfolding currency_fields
  currency_to_json currency = object (currency_fields currency)

  unfoldable pub money_from_json : Json → Expected ErrorCode Money
  unfolding get_value currency_from_json Money.create
  money_from_json json = get_value (int64_at json "minorUnits") >>= (λ minor_units.
      get_value (json_at json "currency") >>= (λ currency_json.
        currency_from_json currency_json >>= (λ currency. Money.create minor_units currency)))

  unfoldable pub money_fields : Money → Dict String Json
  unfolding insert currency_to_json
  money_fields money =
      insert "currency" (currency_to_json money.currency)
        (insert "minorUnits" (number money.minor_units) [])

  unfoldable pub money_to_json : Money → Json
  unfolding money_fields
  money_to_json money = object (money_fields money)

  -- OrderItemJsonMapper::fromJson
  unfoldable pub item_from_json : Json → Expected ErrorCode OrderItem
  unfolding get_value StrongId.create money_from_json create_item
  item_from_json json = get_value (string_at json "productId") >>= (λ product_text.
      StrongId.create product_id product_text >>= (λ product.
        get_value (json_at json "priceAtOrderTime") >>= (λ price_json.
          money_from_json price_json >>= (λ price.
            get_value (int_at json "quantity")
            >>= (λ quantity. create_item product quantity price)))))

  unfoldable pub item_fields : OrderItem → Dict String Json
  unfolding insert money_to_json
  item_fields item = insert "priceAtOrderTime" (money_to_json item.price_at_order_time) (
      insert "quantity" (number item.quantity) (insert "productId" (text item.product_id.value) []))

  -- OrderItemJsonMapper::toJson
  unfoldable pub item_to_json : OrderItem → Json
  unfolding item_fields
  item_to_json item = object (item_fields item)

  -- The loop of `parseItems`, which stops at the first item that is refused.
  unfoldable pub parse_all : List Json → Expected ErrorCode (List OrderItem)
  unfolding item_from_json
  parse_all [] = ok []
  parse_all (json ∷ rest) = elim (item_from_json json) [
    | err e ↦ err e
    | ok item ↦ transform (λ items. item ∷ items) (parse_all rest)
  ]

  abbrev pub parse_elements : Option (List Json) → Expected ErrorCode (List OrderItem)
  parse_elements none = err (make_error_code OrderError.invalid_items)
  parse_elements (some jsons) = parse_all jsons

  unfoldable pub parse_items : Json → Expected ErrorCode (List OrderItem)
  unfolding get_value parse_all
  parse_items json =
      get_value (json_at json "items") >>= (λ items_json. parse_elements (elements items_json))

  -- OrderJsonMapper::fromJson
  unfoldable pub from_json : Json → Expected ErrorCode Order
  unfolding get_value StrongId.create parse_items create
  from_json json = get_value (string_at json "userId") >>= (λ user_text.
      StrongId.create user_id user_text
      >>= (λ user. parse_items json >>= (λ items. create user items)))

  -- The identifier is written if there is one.
  unfoldable pub id_fields : Option (StrongId order_id) → Dict String Json → Dict String Json
  unfolding insert
  id_fields none fields = fields
  id_fields (some id) fields = insert "orderId" (text id.value) fields

  unfoldable pub order_fields : Order → Dict String Json
  unfolding insert id_fields item_to_json to_string
  order_fields order = insert "status" (text (to_string order.status)) (
      insert "items" (array (map item_to_json order.items))
        (id_fields order.order_id (insert "userId" (text order.user_id.value) [])))

  -- OrderJsonMapper::toJson
  unfoldable pub to_json : Order → Json
  unfolding order_fields
  to_json order = object (order_fields order)
