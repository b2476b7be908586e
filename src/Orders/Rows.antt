-- ===== src/Orders/Rows.antt =====
-- order-service/models2row-mappers/mapper/OrderRowMapper.h: rows of the tables of orders. A number
-- that is sent to the database as its text stands as the number.
use liquid_pet_project.Prelude.{
  ◌+◌, ◌-◌, ◌%◌, String, List, [], ◌∷◌, Expected, ok, err, ◌>>=◌, transform,
}
use liquid_pet_project.Prelude.Int.{ℤ, pos_part, neg_part, sub_ℕ}
use liquid_pet_project.Errors.{ErrorCode}
use liquid_pet_project.Models.StrongId
use liquid_pet_project.Models.StrongId.{StrongId, order_id, user_id, product_id}
use liquid_pet_project.Orders.Money
use liquid_pet_project.Orders.Money.{create_currency}
use liquid_pet_project.Orders.Order.{OrderItem, Order, create_item, from_string, restore}

-- A row of the table orders and a row of order_items, without what the queries do not read.
pub record OrderRow : Type 0 where
  pub order_id : String
  pub user_id : String
  pub status : String

pub record ItemRow : Type 0 where
  pub order_id : String
  pub product_id : String
  pub quantity : ℤ
  pub price_minor_units : ℤ
  pub price_currency_code : String
  pub price_currency_minor_digits : ℤ

-- static_cast<std::int8_t>
unfoldable pub to_int8 : ℤ → ℤ
to_int8 z = sub_ℕ ((pos_part z + (256 - neg_part z % 256) + 128) % 256) 128

-- OrderItemRowMapper::fromRow
unfoldable pub from_row : ItemRow → Expected ErrorCode OrderItem
unfolding StrongId.create create_currency to_int8 Money.create create_item
from_row r = StrongId.create product_id r.product_id >>= (λ product.
    create_currency r.price_currency_code (to_int8 r.price_currency_minor_digits) >>= (λ currency.
      Money.create r.price_minor_units currency
      >>= (λ price. create_item product r.quantity price)))

-- `parseItems`, which stops at the first row that is refused.
unfoldable pub parse_items : List ItemRow → Expected ErrorCode (List OrderItem)
unfolding from_row
parse_items [] = ok []
parse_items (r ∷ rs) = elim (from_row r) [
  | err e ↦ err e
  | ok item ↦ transform (λ items. item ∷ items) (parse_items rs)
]

-- OrderRowMapper::fromRows
unfoldable pub from_rows : OrderRow → List ItemRow → Expected ErrorCode Order
unfolding StrongId.create from_string parse_items restore
from_rows r item_rows = StrongId.create user_id r.user_id >>= (λ user.
    StrongId.create order_id r.order_id >>= (λ id.
      from_string r.status
      >>= (λ status. parse_items item_rows >>= (λ items. restore user id items status))))
