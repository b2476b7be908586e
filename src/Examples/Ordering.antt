-- ===== src/Examples/Ordering.antt =====
-- Orders, their money and their messages (order-service) on concrete orders.
use liquid_pet_project.Prelude.{
  ◌≡◌, ◌↔◌, ◌⊎◌, refl, none, some, List, [], ◌∷◌, arith, true, ok, err, All, String, ◌==◌,
  if◌then◌else◌, eq_string, characters,
}
use liquid_pet_project.Prelude.Dict.{lookup, insert}
use liquid_pet_project.Prelude.Int.{ℤ, pos, ◌-ℤ◌, ◌/ℤ◌, ◌+ℤ◌, ◌*ℤ◌, ◌≤ℤ◌}
use liquid_pet_project.Errors.{make_error_code, money_enum, MoneyError, order_enum}
use liquid_pet_project.Messaging.Handling.{returned}
use liquid_pet_project.Json.{json_value, parse_error, JsonLibrary, found, out_of_range}
use liquid_pet_project.Models.StrongId
use liquid_pet_project.Models.StrongId.{StrongId, order_id, user_id, product_id, is_valid_uuid}
use liquid_pet_project.Models.StrongId.Shape.{IsUuid, create_iff}
use liquid_pet_project.Orders.Money
use liquid_pet_project.Orders.Money.{Money, Currency, plus, minus, times, int64_max}
use liquid_pet_project.Orders.Money.Exact.{plus_outcome, times_outcome}
use liquid_pet_project.Orders.Order.{Order, OrderItem, created, reserved, total_amount}
use liquid_pet_project.Orders.Order.Total.{Totals, IsValid, total_amount-exact}
use liquid_pet_project.Orders.ReservedHandler.{handle, from_json}
use liquid_pet_project.Orders.ReservedHandler.Table.{
  same_status, Table, orders_table, reserved_row, handle_reserves,
}

abbrev uuid : String
uuid = "0a1b2c3d-0000-4444-8888-0123456789ab"

abbrev euros : ℤ → Money
euros units = record {
  minor_units = units;
  currency = record { code = "EUR"; minor_digits = pos 2 };
}

abbrev items : List OrderItem
items =
    record {
      product_id = record { value = uuid };
      quantity = pos 3;
      price_at_order_time = euros (pos 250);
    }
    ∷ record {
      product_id = record { value = uuid };
      quantity = pos 1;
      price_at_order_time = euros (pos 99);
    }
    ∷ []

abbrev placed : Order
placed = record {
  user_id = record { value = uuid };
  order_id = none;
  items = items;
  status = created;
}

items-IsValid : All IsValid items
items-IsValid =
    (((omega arith, omega arith), omega arith), (((omega arith, omega arith), omega arith), tt))

total_amount-exact_example : Totals items (total_amount placed)
total_amount-exact_example = total_amount-exact placed items-IsValid

total_of_placed : total_amount placed ≡ some (ok (euros (pos 849)))
unfolding total_amount Money.create ◌+ℤ◌ ◌*ℤ◌ ◌/ℤ◌ ◌-ℤ◌
total_of_placed = refl

plus_outcome_example :
    ((int64_max +ℤ pos 1 ≤ℤ int64_max)
      × (plus (euros int64_max) (euros (pos 1)) ≡ ok (euros (int64_max +ℤ pos 1))))
    ⊎ (¬ (int64_max +ℤ pos 1 ≤ℤ int64_max)
        × (plus (euros int64_max) (euros (pos 1)) ≡ err (make_error_code MoneyError.overflow)))
plus_outcome_example =
    plus_outcome (euros int64_max) (euros (pos 1)) (omega arith, omega arith)
      (omega arith, omega arith) refl

times_outcome_example :
    ((pos 250 *ℤ pos 3 ≤ℤ int64_max)
      × (times (euros (pos 250)) (pos 3) ≡ ok (euros (pos 250 *ℤ pos 3))))
    ⊎ (¬ (pos 250 *ℤ pos 3 ≤ℤ int64_max)
        × (times (euros (pos 250)) (pos 3) ≡ err (make_error_code MoneyError.overflow)))
times_outcome_example =
    times_outcome (euros (pos 250)) (pos 3) (omega arith, omega arith) (omega arith)

abbrev placed_id : StrongId order_id
placed_id = record { value = uuid }

create_iff_example :
    (StrongId.create order_id uuid ≡ ok placed_id)
    ↔ (IsUuid (characters uuid) × (placed_id ≡ record { value = uuid }))
create_iff_example = create_iff order_id uuid placed_id

-- Messages that are the identifier itself; the empty one is malformed.
abbrev plain_text : JsonLibrary
plain_text = record {
  Json = String;
  parse = λ text. if text == "" then parse_error else json_value text;
  string_at = λ json field. if field == "orderId" then found json else out_of_range;
  int_at = λ json field. out_of_range;
  json_at = λ json field. out_of_range;
  elements = λ json. none;
  null_json = "";
  set_string = λ json field text. text;
  dump = λ json. json;
}

abbrev table : Table
table = (uuid, placed) ∷ []

handle_reserves_example :
    ((handle plain_text orders_table uuid table).0 ≡ returned true)
    × ((k : String)
        → lookup k (handle plain_text orders_table uuid table).1.0
          ≡ (if uuid == k then reserved_row (lookup k table) else lookup k table))
unfolding from_json StrongId.create
handle_reserves_example =
    handle_reserves plain_text uuid uuid (record { order = record { value = uuid } }) table refl
      refl

-- The order becomes reserved.
reserved_now :
    lookup uuid (handle plain_text orders_table uuid table).1.0
    ≡ some (record placed { status = reserved })
unfolding handle StrongId.create lookup insert same_status
reserved_now = refl
