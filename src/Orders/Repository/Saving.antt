-- ===== src/Orders/Repository/Saving.antt =====
-- `save` (order-service/repository/PostgresOrderRepository.cpp) writes all rows of an order or none.
use liquid_pet_project.Prelude.{◌≡◌, ◌⊎◌, Option, List, [], ◌∷◌, ◌++◌, String, Expected, ok, err}
use liquid_pet_project.Errors.{ErrorCode}
use liquid_pet_project.Models.StrongId
use liquid_pet_project.Models.StrongId.{StrongId, order_id}
use liquid_pet_project.Postgres
use liquid_pet_project.Postgres.{
  PqxxException, Ran, ran, raised, Ending, commits, gives_up, transact, conclude, close,
  map_pqxx_exception, committed,
}
use liquid_pet_project.Postgres.Transactions.{Fails}
use liquid_pet_project.Orders.Order.{Order, OrderItem, to_string, assign_id}
use liquid_pet_project.Orders.Rows.{ItemRow}
use liquid_pet_project.Orders.Repository.{Database, insert_order, row_of}

module _ (uuid jsonb : String → String) where
  abbrev pub rows_of : String → List OrderItem → List ItemRow
  rows_of id [] = []
  rows_of id (item ∷ items) = row_of uuid jsonb id item ∷ rows_of id items

  abbrev pub with_items : String → List OrderItem → Database → Database
  with_items id items d = record d { items = d.items ++ rows_of id items }

  -- What the loop over the items comes to.
  abbrev Inserted : String → List OrderItem → Database → Ran Database (Unit {0}) → Type 0
  Inserted id items d result =
      ((e : PqxxException) × (result ≡ raised e))
      ⊎ ((rest : List (Option PqxxException)) × (result ≡ ran tt (with_items id items d) rest))

  module _ (json_text : Order → String) where
    -- The tables with the rows of the order and its event.
    abbrev pub with_order : String → StrongId order_id → Order → Database → Database
    with_order given id order d = record {
      orders =
          d.orders
          ++ record {
            order_id = given;
            user_id = uuid order.user_id.value;
            status = to_string order.status;
          }
            ∷ [];
      items = d.items ++ rows_of given order.items;
      outbox =
          d.outbox
          ++ record {
            aggregate_id = uuid given;
            event_type = "OrderCreated";
            payload = jsonb (json_text (assign_id order id));
          }
            ∷ [];
    }

    -- What the body comes to: an exception, or all the rows and a commit.
    abbrev Writes :
        String
        → StrongId order_id
        → Order
        → Database
        → Ran Database (Ending (Expected ErrorCode (StrongId order_id)))
        → Type 0
    Writes given id order d result =
        ((e : PqxxException) × (result ≡ raised e))
        ⊎ ((rest : List (Option PqxxException)) × (result
              ≡ ran (commits (ok id)) (with_order given id order d) rest))

    with_row : String → Order → Database → Database
    unfolding insert_order
    with_row given order d =
        (insert_order uuid jsonb given order.user_id.value (to_string order.status) d).1

    module _ (given : String) (refusal : ErrorCode)
        (refused : StrongId.create order_id given ≡ err refusal) where
      -- What the body comes to if the identifier is refused: no commit.
      abbrev GivesUp : Ran Database (Ending (Expected ErrorCode (StrongId order_id))) → Type 0
      GivesUp result =
          ((e : PqxxException) × (result ≡ raised e))
          ⊎ ((d' : Database) × (rest : List (Option PqxxException)) × (result
                ≡ ran (gives_up (err refusal)) d' rest))

    -- The outcome of a save: all the rows and the identifier, or an error and no row, or a lost
    -- connection and all the rows; with an identifier that is refused, an error and no row.
    abbrev pub Atomic :
        String → Order → Database → Expected ErrorCode (StrongId order_id) × Database → Type 0
    Atomic given order d result =
        ((id : StrongId order_id) × (StrongId.create order_id given ≡ ok id)
          × ((result ≡ (ok id, with_order given id order d))
              ⊎ (Fails d result ⊎ Fails (with_order given id order d) result)))
        ⊎ ((e : ErrorCode) × (StrongId.create order_id given ≡ err e)
            × ((result ≡ (err e, d)) ⊎ Fails d result))
