-- ===== src/Orders/Handlers/Placing.antt =====
-- An order that is placed through the handlers of the order service (order-service/handlers) is found
-- through them, on the repository of order-service/repository.
use Prim.Native.String.{◌++◌ as append}
use Prim.Native.String.append
use liquid_pet_project.Prelude.{
  List, Shuffle, ℕ, suc, ◌≡◌, ◌≢◌, ◌∙◌, sym, ap, some, [], String, ok, All, eq_string, length,
  characters,
}
use liquid_pet_project.Prelude.Dict.{insert}
use liquid_pet_project.Models.StrongId
use liquid_pet_project.Models.StrongId.{StrongId, order_id, user_id}
use liquid_pet_project.Json.{JsonLibrary, JsonValues, json_value}
use liquid_pet_project.Http.{Request, answers}
use liquid_pet_project.Postgres.Transactions.{no_faults}
use liquid_pet_project.Orders.Order.{Order, OrderItem}
use liquid_pet_project.Orders.Rows.{ItemRow}
use liquid_pet_project.Orders.Json.{from_json, to_json}
use liquid_pet_project.Orders.Repository
use liquid_pet_project.Orders.Repository.{Database, orders_with, items_with}
use liquid_pet_project.Orders.Repository.Saving.{with_order}
use liquid_pet_project.Orders.Repository.Finding.{
  Storable, create-value, find_by_id-read, save-fault_free, read,
}
use liquid_pet_project.Orders.Repository.Reading.{find_by_id-save}
use liquid_pet_project.Orders.Handlers.{
  OrderRepository, create_order, body_read, order_read, saved, get_order, path_read, id_read,
  found_order, substr, orders_prefix, orders_prefix_size, status_ok, status_created,
}

substr-append :
    (prefix id : String) → substr (length (characters prefix)) (append prefix id) ≡ some id
unfolding substr
substr-append String.[] id = ap some (append.nil id)
substr-append (String.◌∷◌ first prefix) id =
    ap (substr (suc (length (characters prefix)))) (append.cons first prefix id)
    ∙ substr-append prefix id

substr-prefix : (id : String) → substr orders_prefix_size (append orders_prefix id) ≡ some id
unfolding substr
substr-prefix id = substr-append orders_prefix id

module _ (uuid jsonb : String → String) (errc_message : ℕ → String) (j : JsonLibrary)
    (v : JsonValues j) (fresh : Database → String) (arrange : List ItemRow → List ItemRow) where
  abbrev pub json_text : Order → String
  json_text order = j.dump (to_json j v order)

  -- The repository without failures; `fresh` is the identifier that the database gives next, and
  -- `arrange` the order in which it gives the items of an order.
  abbrev pub postgres_orders : OrderRepository
  postgres_orders = record {
    World = Database;
    save = λ d order. Repository.save uuid jsonb json_text no_faults (fresh d) order d;
    find_by_id = λ d id. Repository.find_by_id uuid jsonb arrange no_faults id d;
  }

  found_again :
      (id : StrongId order_id) (d : Database) (order : Order)
      → (Repository.find_by_id uuid jsonb arrange no_faults id d).0 ≡ ok order
      → Repository.find_by_id uuid jsonb arrange no_faults id d ≡ (ok order, d)
  found_again id d order h =
      find_by_id-read uuid jsonb arrange id d
      ∙ ap (λ r. (r, d)) (sym (ap (λ r. r.0) (find_by_id-read uuid jsonb arrange id d)) ∙ h)

  answers_found :
      (id : StrongId order_id) (d : Database) (order : Order) (request : Request)
      → request.path ≡ append orders_prefix id.value
      → StrongId.create order_id id.value ≡ ok id
      → (Repository.find_by_id uuid jsonb arrange no_faults id d).0 ≡ ok order
      → get_order errc_message j v postgres_orders request d
        ≡ (answers (record { status = status_ok; body = json_text order }), d)
  unfolding get_order path_read id_read found_order
  answers_found id d order request path accepted h =
      ap (λ p. path_read errc_message j v postgres_orders (substr orders_prefix_size p) d) path
      ∙ ap (λ t. path_read errc_message j v postgres_orders t d) (substr-prefix id.value)
      ∙ rw (accepted, found_again id d order h)

  answers_placed :
      (request : Request) (d : Database) (json : j.Json) (order : Order) (id : StrongId order_id)
      → j.parse request.body ≡ json_value json
      → from_json j v json ≡ ok order
      → StrongId.create order_id (fresh d) ≡ ok id
      → create_order errc_message j v postgres_orders request d ≡ (
        answers (record {
          status = status_created;
          body = j.dump (v.object (insert "orderId" (v.text id.value) []));
        }),
        with_order uuid jsonb json_text (fresh d) id order d,
      )
  unfolding create_order body_read order_read saved
  answers_placed request d json order id parsed read accepted =
      rw (parsed, read, save-fault_free uuid jsonb json_text (fresh d) id order d accepted)

  module _ (request : Request) (d : Database) (json : j.Json) (order : Order)
      (id : StrongId order_id) (parsed : j.parse request.body ≡ json_value json)
      (read_order : from_json j v json ≡ ok order)
      (accepted : StrongId.create order_id (fresh d) ≡ ok id) (normal : uuid (fresh d) ≡ fresh d)
      (user_normal : uuid order.user_id.value ≡ order.user_id.value)
      (user : StrongId.create user_id order.user_id.value ≡ ok order.user_id)
      (some_items : order.items ≢ []) (storable : All (Storable uuid jsonb) order.items)
      (new_order : orders_with uuid jsonb (fresh d) d.orders ≡ [])
      (new_items : items_with uuid jsonb (fresh d) d.items ≡ []) where
    -- An order that is placed by a body that is read as it is answered with 201 and its identifier, and
    -- a request for this identifier then with 200 and the JSON of that order with the identifier and
    -- with its items in some order. The identifier that the database gives is accepted and new, nothing
    -- fails, the database gives every row of the items once, in whatever order, the order has items, it
    -- and its items are such as their constructors accept, and the identifiers are in the normal form
    -- of the database.
    pub get-create_order :
        ((rows : List ItemRow) → Shuffle (arrange rows) rows)
        → (later : Request) → later.path ≡ append orders_prefix (fresh d)
        → let (reply, after) = create_order errc_message j v postgres_orders request d in
          (reply
            ≡ answers (record {
              status = status_created;
              body = j.dump (v.object (insert "orderId" (v.text (fresh d)) []));
            }))
          × (items : List OrderItem) × Shuffle items order.items
          × (get_order errc_message j v postgres_orders later after ≡ (
            answers (record {
              status = status_ok;
              body = json_text (record order { order_id = some id; items = items });
            }),
            after,
          ))
    get-create_order shuffles later path =
        let placed = answers_placed request d json order id parsed read_order accepted in
        let name = create-value (fresh d) id accepted in
        let rows = save-fault_free uuid jsonb json_text (fresh d) id order d accepted in
        let ((items, same, stored), apart) =
          find_by_id-save uuid jsonb json_text arrange (fresh d) id order d accepted normal
            user_normal user some_items storable new_order new_items shuffles id in
        (
          ap (λ r. r.0) placed
              ∙ ap
                  (λ x. answers (record {
                    status = status_created;
                    body = j.dump (v.object (insert "orderId" (v.text x) []));
                  }))
                  name,
          items,
          same,
          answers_found id _ (record order { order_id = some id; items = items }) later
              (path ∙ ap (append orders_prefix) (sym name))
              (ap (StrongId.create order_id) name ∙ accepted)
              (ap (λ x. (Repository.find_by_id uuid jsonb arrange no_faults id x).0)
                  (ap (λ r. r.1) placed ∙ sym (ap (λ r. r.1) rows))
                ∙ stored),
        )
