-- ===== src/Orders/Order.antt =====
-- order-service/models/Order.h: an order, its items, its total and its status.
pub mod Total
pub mod Status
use liquid_pet_project.Prelude.{
  String, Option, none, some, List, [], ◌∷◌, if◌then◌else◌, Expected, ok, err, ◌>>=◌, Eq, ◌==◌,
  eq_string,
}
use liquid_pet_project.Prelude.Int.{ℤ, pos, leb_ℤ}
use liquid_pet_project.Errors.{
  ErrorCode, make_error_code, order_item_enum, OrderItemError, order_enum, OrderError,
}
use liquid_pet_project.Models.StrongId.{StrongId, order_id, user_id, product_id}
use liquid_pet_project.Orders.Money
use liquid_pet_project.Orders.Money.{Money, plus, times}

pub record OrderItem : Type 0 where
  pub product_id : StrongId product_id
  pub quantity : ℤ
  pub price_at_order_time : Money

unfoldable pub create_item : StrongId product_id → ℤ → Money → Expected ErrorCode OrderItem
create_item product quantity price =
    if leb_ℤ quantity (pos 0)
    then err (make_error_code OrderItemError.invalid_quantity)
    else ok (record { product_id = product; quantity = quantity; price_at_order_time = price })

unfoldable pub line_total : OrderItem → Expected ErrorCode Money
unfolding times
line_total item = elim (times item.price_at_order_time item.quantity) [
  | ok total ↦ ok total
  | err e ↦ err (make_error_code OrderItemError.price_overflow)
]

pub data OrderStatus : Type 0 where
  created reserved shipped cancelled : OrderStatus

pub record Order : Type 0 where
  pub user_id : StrongId user_id
  pub order_id : Option (StrongId order_id)
  pub items : List OrderItem
  pub status : OrderStatus

unfoldable pub create : StrongId user_id → List OrderItem → Expected ErrorCode Order
create user [] = err (make_error_code OrderError.empty_items)
create user (item ∷ items) =
    ok (record { user_id = user; order_id = none; items = item ∷ items; status = created })

unfoldable pub restore :
    StrongId user_id → StrongId order_id → List OrderItem → OrderStatus → Expected ErrorCode Order
restore user id [] status = err (make_error_code OrderError.empty_items)
restore user id (item ∷ items) status =
    ok (record { user_id = user; order_id = some id; items = item ∷ items; status = status })

-- The loop of `totalAmount`, from the total so far.
unfoldable pub add_items : Expected ErrorCode Money → List OrderItem → Expected ErrorCode Money
unfolding line_total plus
add_items total [] = total
add_items (err e) (item ∷ items) = err e
add_items (ok total) (item ∷ items) = elim (line_total item) [
  | err e ↦ err e
  | ok line ↦ add_items (plus total line) items
]

-- `_items.front()` of an order without items is undefined, which `none` stands for.
unfoldable pub total_of : List OrderItem → Option (Expected ErrorCode Money)
unfolding add_items Money.create
total_of [] = none
total_of (item ∷ items) =
    some (add_items (Money.create (pos 0) item.price_at_order_time.currency) (item ∷ items))

unfoldable pub total_amount : Order → Option (Expected ErrorCode Money)
unfolding total_of
total_amount o = total_of o.items

unfoldable pub assign_id : Order → StrongId order_id → Order
assign_id o id = record o { order_id = some id }

unfoldable pub mark_reserved : Order → Expected ErrorCode (Unit {0}) × Order
mark_reserved o = elim o.status [
  | created ↦ (ok tt, record o { status = reserved })
  | _ ↦ (err (make_error_code OrderError.invalid_status_transition), o)
]

-- OrderStatusMapper
unfoldable pub to_string : OrderStatus → String
to_string created = "Created"
to_string reserved = "Reserved"
to_string shipped = "Shipped"
to_string cancelled = "Cancelled"

unfoldable pub from_string : String → Expected ErrorCode OrderStatus
from_string value =
    if value == "Created"
    then ok created
    else (if value == "Reserved"
        then ok reserved
        else (if value == "Shipped"
            then ok shipped
            else (if value == "Cancelled"
                then ok cancelled
                else err (make_error_code OrderError.unknown_status))))
