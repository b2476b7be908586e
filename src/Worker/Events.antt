-- ===== src/Worker/Events.antt =====
-- worker-service/events and events2json-mapper: OrderCreatedEventJsonMapper.h and
-- OrderReservedEventJsonMapper.h.
pub mod Checked
pub mod Sent
use liquid_pet_project.Prelude.{
  Option, none, some, List, [], ◌∷◌, String, if◌then◌else◌, Expected, ok, err, ◌>>=◌, transform,
}
use liquid_pet_project.Prelude.Int.{ℤ, pos, leb_ℤ}
use liquid_pet_project.Errors.{ErrorCode, make_error_code, errc_enum, invalid_argument}
use liquid_pet_project.Models.StrongId
use liquid_pet_project.Models.StrongId.{StrongId, order_id, user_id, product_id}
use liquid_pet_project.Json.{JsonLibrary, get_value}

pub record OrderCreatedItem : Type 0 where
  pub product : StrongId product_id
  pub quantity : ℤ

pub record OrderCreatedEvent : Type 0 where
  pub order : StrongId order_id
  pub user : StrongId user_id
  pub items : List OrderCreatedItem

pub record OrderReservedEvent : Type 0 where
  pub order : StrongId order_id

-- The check of a quantity in `parseItem`.
unfoldable pub checked_item : StrongId product_id → ℤ → Expected ErrorCode OrderCreatedItem
checked_item product quantity =
    if leb_ℤ quantity (pos 0)
    then err (make_error_code invalid_argument)
    else ok (record { product = product; quantity = quantity })

module _ (j : JsonLibrary) where
  open j use {Json, string_at, int_at, json_at, elements, null_json, set_string}

  unfoldable pub parse_item : Json → Expected ErrorCode OrderCreatedItem
  unfolding get_value StrongId.create checked_item
  parse_item json = get_value (string_at json "productId") >>= (λ text.
      StrongId.create product_id text >>= (λ product.
        get_value (int_at json "quantity") >>= (λ quantity. checked_item product quantity)))

  -- The loop of `parseItems`, which stops at the first item that is refused.
  unfoldable pub parse_all : List Json → Expected ErrorCode (List OrderCreatedItem)
  unfolding parse_item
  parse_all [] = ok []
  parse_all (json ∷ rest) = elim (parse_item json) [
    | err e ↦ err e
    | ok item ↦ transform (λ items. item ∷ items) (parse_all rest)
  ]

  unfoldable pub parse_items : Json → Expected ErrorCode (List OrderCreatedItem)
  unfolding get_value parse_all
  parse_items json = get_value (json_at json "items") >>= (λ items. elim (elements items) [
    | none ↦ err (make_error_code invalid_argument)
    | some jsons ↦ parse_all jsons
  ])

  -- OrderCreatedEventJsonMapper::fromJson
  unfoldable pub from_json : Json → Expected ErrorCode OrderCreatedEvent
  unfolding get_value StrongId.create parse_items
  from_json json = get_value (string_at json "orderId") >>= (λ order_text.
      StrongId.create order_id order_text >>= (λ order.
        get_value (string_at json "userId") >>= (λ user_text.
          StrongId.create user_id user_text >>= (λ user.
            parse_items json
            >>= (λ items. ok (record { order = order; user = user; items = items }))))))

  -- OrderReservedEventJsonMapper::toJson
  unfoldable pub to_json : OrderReservedEvent → Json
  to_json event = set_string null_json "orderId" event.order.value
