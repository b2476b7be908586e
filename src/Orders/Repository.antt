-- ===== src/Orders/Repository.antt =====
-- order-service/repository/PostgresOrderRepository.cpp, with the statements of
-- OrderRepositoryQueries.h on the tables of the service. The text of an order as JSON is a parameter,
-- and so are the identifier that the database gives to a new row (gen_random_uuid) and the normal form
-- in which it keeps values of the types uuid and jsonb. The order in which
-- the items of an order are selected is a parameter too.
pub mod Saving
pub mod Shuffling
pub mod Finding
pub mod Reading
pub mod Changing
use liquid_pet_project.Prelude.{
  ℕ, suc, Bool, true, false, ◌&&◌, Option, none, some, List, [], ◌∷◌, ◌++◌, String, if◌then◌else◌,
  ltb, Expected, ok, err, ◌==◌, eq_string,
}
use liquid_pet_project.Errors.{ErrorCode, make_error_code, repository_enum, RepositoryError}
use liquid_pet_project.Models.StrongId
use liquid_pet_project.Models.StrongId.{StrongId, order_id}
use liquid_pet_project.Postgres
use liquid_pet_project.Postgres.{
  map_pqxx_exception, other_exception, Faults, Statements, exec, pure, Ending, commits, gives_up,
  transact,
}
use liquid_pet_project.Orders.Order.{Order, OrderItem, OrderStatus, to_string, assign_id}
use liquid_pet_project.Orders.Rows.{OrderRow, ItemRow, from_rows}

pub record OutboxRow : Type 0 where
  pub aggregate_id : String
  pub event_type : String
  pub payload : String

pub record Database : Type 0 where
  pub orders : List OrderRow
  pub items : List ItemRow
  pub outbox : List OutboxRow

-- INSERT_ORDER_ITEM_SQL
unfoldable pub insert_order_item : ItemRow → Database → Unit {0} × Database
insert_order_item row d = (tt, record d { items = d.items ++ row ∷ [] })

-- `one_row` throws if there are several.
unfoldable pub one_order : OrderRow → List OrderRow → List ItemRow → Expected ErrorCode Order
unfolding from_rows map_pqxx_exception
one_order r [] items = from_rows r items
one_order r (s ∷ rs) items = err (map_pqxx_exception other_exception)

module _ (uuid jsonb : String → String) where
  -- INSERT_ORDER_SQL, with the identifier that the database gives
  unfoldable pub insert_order : String → String → String → Database → String × Database
  insert_order id user status d = (
    id,
    record d {
      orders = d.orders ++ record { order_id = id; user_id = uuid user; status = status } ∷ [];
    },
  )

  -- INSERT_OUTBOX_EVENT_SQL
  unfoldable pub insert_outbox_event : OutboxRow → Database → Unit {0} × Database
  insert_outbox_event row d = (
    tt,
    record d {
      outbox =
          d.outbox
          ++ record row { aggregate_id = uuid row.aggregate_id; payload = jsonb row.payload } ∷ [];
    },
  )

  -- SELECT_ORDER_SQL
  unfoldable pub orders_with : String → List OrderRow → List OrderRow
  orders_with id [] = []
  orders_with id (r ∷ rs) =
      let rest = orders_with id rs in if r.order_id == uuid id then r ∷ rest else rest

  -- SELECT_ORDER_ITEMS_SQL: the rows that it gives, in whatever order
  unfoldable pub items_with : String → List ItemRow → List ItemRow
  items_with id [] = []
  items_with id (r ∷ rs) =
      let rest = items_with id rs in if r.order_id == uuid id then r ∷ rest else rest

  -- UPDATE_ORDER_STATUS_SQL: the rows, and the number of affected ones.
  unfoldable pub update_rows : String → String → String → List OrderRow → ℕ × List OrderRow
  update_rows to_status id from_status [] = (0, [])
  update_rows to_status id from_status (r ∷ rs) =
      let (affected, rest) = update_rows to_status id from_status rs in
      if (r.order_id == uuid id) && (r.status == from_status)
      then (suc affected, record r { status = to_status } ∷ rest)
      else (affected, r ∷ rest)

  unfoldable pub update_order_status : String → String → String → Database → ℕ × Database
  unfolding update_rows
  update_order_status to_status id from_status d =
      let (affected, rows) = update_rows to_status id from_status d.orders in
      (affected, record d { orders = rows })

  -- The parameters of INSERT_ORDER_ITEM.
  unfoldable pub row_of : String → OrderItem → ItemRow
  row_of id item = record {
    order_id = uuid id;
    product_id = uuid item.product_id.value;
    quantity = item.quantity;
    price_minor_units = item.price_at_order_time.minor_units;
    price_currency_code = item.price_at_order_time.currency.code;
    price_currency_minor_digits = item.price_at_order_time.currency.minor_digits;
  }

  -- The loop over the items.
  unfoldable pub insert_items : String → List OrderItem → Statements Database (Unit {0})
  unfolding exec insert_order_item row_of
  insert_items id [] = pure tt
  insert_items id (item ∷ items) =
      Postgres.◌>>=◌ (exec (insert_order_item (row_of id item))) (λ _. insert_items id items)

  -- The statement that selects the items names no order: `arrange` is that in which they come.
  module _ (arrange : List ItemRow → List ItemRow) where
    unfoldable pub select_items :
        String → List OrderRow → Statements Database (Ending (Expected ErrorCode Order))
    unfolding exec items_with one_order
    select_items id [] = pure (gives_up (err (make_error_code RepositoryError.not_found)))
    select_items id (r ∷ rs) =
        Postgres.◌>>=◌ (exec (λ d. (arrange (items_with id d.items), d)))
          (λ items. pure (commits (one_order r rs items)))

    unfoldable pub find_body : String → Statements Database (Ending (Expected ErrorCode Order))
    unfolding exec orders_with select_items
    find_body id = Postgres.◌>>=◌ (exec (λ d. (orders_with id d.orders, d))) (select_items id)

    unfoldable pub find_by_id :
        Faults → StrongId order_id → Database → Expected ErrorCode Order × Database
    unfolding transact find_body
    find_by_id faults id d = transact faults (find_body id.value) d

  unfoldable pub change_body :
      String → OrderStatus → OrderStatus → Statements Database (Ending (Expected ErrorCode Bool))
  unfolding exec update_order_status to_string
  change_body id from_status to_status =
      Postgres.◌>>=◌ (exec (update_order_status (to_string to_status) id (to_string from_status)))
        (λ affected. pure (commits (ok (ltb 0 affected))))

  -- changeStatus
  unfoldable pub change_status :
      Faults
      → StrongId order_id
      → OrderStatus
      → OrderStatus
      → Database
      → Expected ErrorCode Bool × Database
  unfolding transact change_body
  change_status faults id from_status to_status d =
      transact faults (change_body id.value from_status to_status) d

  module _ (json_text : Order → String) where
    -- After the items: the identifier that the database gave may be refused.
    unfoldable pub write_event :
        String
        → Order
        → Expected ErrorCode (StrongId order_id)
        → Statements Database (Ending (Expected ErrorCode (StrongId order_id)))
    unfolding exec insert_outbox_event assign_id
    write_event given order (err e) = pure (gives_up (err e))
    write_event given order (ok id) =
        Postgres.◌>>=◌
          (exec (
            insert_outbox_event (record {
              aggregate_id = given;
              event_type = "OrderCreated";
              payload = json_text (assign_id order id);
            })))
          (λ _. pure (commits (ok id)))

    unfoldable pub save_body :
        String → Order → Statements Database (Ending (Expected ErrorCode (StrongId order_id)))
    unfolding exec insert_order insert_items write_event StrongId.create to_string
    save_body given order =
        Postgres.◌>>=◌ (exec (insert_order given order.user_id.value (to_string order.status)))
          (λ id.
            Postgres.◌>>=◌ (insert_items id order.items)
              (λ _. write_event id order (StrongId.create order_id id)))

    -- save, with the identifier that the database will give
    unfoldable pub save :
        Faults → String → Order → Database → Expected ErrorCode (StrongId order_id) × Database
    unfolding transact save_body
    save faults given order d = transact faults (save_body given order) d
