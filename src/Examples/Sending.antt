-- ===== src/Examples/Sending.antt =====
-- Orders as JSON (order-service/models2json-mapper, order-service/handlers) and their event in the
-- worker service, with JSON values as trees.
use Prim.Native.String.{◌++◌ as append}
use liquid_pet_project.Prelude.{
  Shuffle, unshuffled, ◌≡◌, refl, List, [], ok, All, String, arith, map, eq_string,
}
use liquid_pet_project.Prelude.Dict.{lookup}
use liquid_pet_project.Prelude.Int.{pos}
use liquid_pet_project.Models.StrongId
use liquid_pet_project.Models.StrongId.{order_id, user_id, product_id}
use liquid_pet_project.Http.{Request, get, post, answers}
use liquid_pet_project.Orders.Money
use liquid_pet_project.Orders.Money.{create_currency}
use liquid_pet_project.Orders.Order
use liquid_pet_project.Orders.Order.{Order, OrderItem, created, create_item, assign_id}
use liquid_pet_project.Orders.Json.{from_json, to_json}
use liquid_pet_project.Orders.Json.Written.{Sendable, from_json-to_json}
use liquid_pet_project.Orders.Rows.{to_int8}
use liquid_pet_project.Orders.Repository
use liquid_pet_project.Orders.Repository.{Database}
use liquid_pet_project.Orders.Handlers.{create_order, get_order, orders_prefix}
use liquid_pet_project.Orders.Handlers.Placing.{postgres_orders, get-create_order}
use liquid_pet_project.Worker.Events
use liquid_pet_project.Worker.Events.Sent.{ordered, from_json-order}
use liquid_pet_project.Examples.Trees.{
  Tree, empty, text_of, number_of, array_of, object_of, entry, trees, tree_values, trees-Keeps,
  user_text, given, placed,
}

placed_Sendable : All Sendable placed.items
unfolding StrongId.create create_currency Money.create create_item
placed_Sendable = (
  (
    refl,
    refl,
    refl,
    refl,
    (omega arith, omega arith),
    (omega arith, omega arith),
    (omega arith, omega arith),
  ),
  tt,
)

from_json-to_json_example :
    from_json (trees empty) (tree_values empty) (to_json (trees empty) (tree_values empty) placed)
    ≡ Order.create placed.user_id placed.items
unfolding StrongId.create
from_json-to_json_example =
    from_json-to_json (trees empty) (tree_values empty) (trees-Keeps empty) placed refl
      placed_Sendable

from_json-order_example :
    Events.from_json
      (trees empty)
      (to_json (trees empty) (tree_values empty) (assign_id placed (record { value = given })))
    ≡ ok (record {
      order = record { value = given };
      user = record { value = user_text };
      items = map ordered placed.items;
    })
unfolding StrongId.create
from_json-order_example =
    from_json-order (trees empty) (tree_values empty) (trees-Keeps empty) placed
      (record { value = given }) refl refl placed_Sendable

-- The same order as the body of a request.
abbrev body : Tree
body = object_of (
    entry "userId" (text_of user_text) (
      entry "items"
        (array_of (
          entry ""
            (object_of (
              entry "productId" (text_of user_text) (
                entry "quantity" (number_of (pos 3)) (
                  entry "priceAtOrderTime"
                    (object_of (
                      entry "minorUnits" (number_of (pos 250)) (
                        entry "currency"
                          (object_of (
                            entry "code" (text_of "EUR")
                              (entry "minorDigits" (number_of (pos 2)) empty)))
                          empty)))
                    empty))))
            empty))
        empty))

abbrev nothing_stored : Database
nothing_stored = record { orders = []; items = []; outbox = [] }

abbrev as_is : String → String
as_is text = text

abbrev fresh : Database → String
fresh d = given

body_read : from_json (trees body) (tree_values body) body ≡ ok placed
unfolding from_json lookup
body_read = refl

abbrev placing : Request
placing = record { method = post; path = "/orders"; body = "{}" }

abbrev asking : Request
asking = record { method = get; path = append orders_prefix given; body = "" }

get-create_order_example :
    let orders =
      postgres_orders as_is as_is
        (λ code. "")
        (trees body)
        (tree_values body)
        fresh
        (λ rows. rows) in
    let (reply, after) =
      create_order (λ code. "") (trees body) (tree_values body) orders placing nothing_stored in
    (reply ≡ answers (record { status = 201; body = "{}" }))
    × (items : List OrderItem) × Shuffle items placed.items
    × (get_order (λ code. "") (trees body) (tree_values body) orders asking after
        ≡ (answers (record { status = 200; body = "{}" }), after))
unfolding StrongId.create create_currency Money.create create_item to_int8 Repository.orders_with
    Repository.items_with
get-create_order_example =
    get-create_order as_is as_is (λ code. "") (trees body) (tree_values body) fresh (λ rows. rows)
      placing nothing_stored body placed (record { value = given }) refl body_read refl refl refl
      refl (λ h. cc) ((refl, refl, refl, refl, refl, refl), tt) refl refl unshuffled asking refl
