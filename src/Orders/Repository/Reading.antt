-- ===== src/Orders/Repository/Reading.antt =====
-- What `save` has written, `findById` reads back (order-service/repository/PostgresOrderRepository.cpp).
use liquid_pet_project.Prelude.{
  Expected, Shuffle, Shuffle-none, ◌≡◌, ◌≢◌, ◌⊎◌, ◌∙◌, refl, sym, ap, inl, inr, false, some, List,
  [], ◌∷◌, ◌++◌, String, ok, ◌==◌, eq_string, beq→eq, All, Bool-cases,
}
use liquid_pet_project.Models.StrongId
use liquid_pet_project.Models.StrongId.{StrongId, order_id, user_id}
use liquid_pet_project.Postgres.Transactions.{no_faults}
use liquid_pet_project.Orders.Order.{Order, OrderItem, OrderStatus, to_string, restore}
use liquid_pet_project.Orders.Rows.{OrderRow, ItemRow}
use liquid_pet_project.Orders.Repository.{
  Database, orders_with, items_with, save, find_by_id, one_order,
}
use mathlib.Core.Path.{subst}
use liquid_pet_project.Errors.{ErrorCode}
use liquid_pet_project.Orders.Repository.Shuffling.{parse_items-Shuffled}
use liquid_pet_project.Orders.Repository.Saving.{rows_of, with_order}
use liquid_pet_project.Orders.Repository.Finding.{
  create-value, Storable, orders_with-append, items_with-append, orders_with-other,
  items_with-other, find_by_id-read, from_rows-order, parse_items-rows_of, save-fault_free, read,
}

restore-items :
    (user : StrongId user_id) (id : StrongId order_id) (items : List OrderItem)
    (status : OrderStatus)
    → items ≢ []
    → restore user id items status
      ≡ ok (record { user_id = user; order_id = some id; items = items; status = status })
unfolding restore
restore-items user id [] status some_items = absurd (some_items refl)
restore-items user id (item ∷ items) status some_items = refl

module _ (uuid jsonb : String → String) (json_text : Order → String)
    (arrange : List ItemRow → List ItemRow) where
  abbrev order_row : String → Order → OrderRow
  order_row given order = record {
    order_id = given;
    user_id = uuid order.user_id.value;
    status = to_string order.status;
  }

  module _ (given : String) (id : StrongId order_id) (order : Order) (d : Database)
      (accepted : StrongId.create order_id given ≡ ok id) (normal : uuid given ≡ given) where
    stored : Database
    stored = (save uuid jsonb json_text no_faults given order d).1

    stored_rows : stored ≡ with_order uuid jsonb json_text given id order d
    unfolding stored
    stored_rows = ap (λ r. r.1) (save-fault_free uuid jsonb json_text given id order d accepted)

    module _ (other : StrongId order_id) where
      elsewhere :
          (uuid other.value ≡ given)
          ⊎ ((find_by_id uuid jsonb arrange no_faults other stored).0
              ≡ (find_by_id uuid jsonb arrange no_faults other d).0)
      elsewhere = elim (Bool-cases (given == uuid other.value)) [
        | inl same ↦ inl (sym (beq→eq given (uuid other.value) same))
        | inr away ↦
            let gone : (uuid given == uuid other.value) ≡ false =
              ap (λ x. x == uuid other.value) normal ∙ away in
            inr (
              ap (λ x. (find_by_id uuid jsonb arrange no_faults other x).0) stored_rows
              ∙ ap (λ r. r.0)
                  (find_by_id-read uuid jsonb arrange other
                    (with_order uuid jsonb json_text given id order d))
              ∙ ap
                  (λ rows. read uuid jsonb rows (
                    arrange (
                      items_with uuid jsonb other.value
                        (d.items ++ rows_of uuid jsonb given order.items))))
                  (orders_with-other uuid jsonb other.value d.orders (order_row given order) away)
              ∙ ap
                  (λ rows.
                    read uuid jsonb (orders_with uuid jsonb other.value d.orders) (arrange rows))
                  (items_with-other uuid jsonb other.value given d.items order.items gone)
              ∙ sym (ap (λ r. r.0) (find_by_id-read uuid jsonb arrange other d)))
      ]

    module _ (user_normal : uuid order.user_id.value ≡ order.user_id.value)
        (user : StrongId.create user_id order.user_id.value ≡ ok order.user_id)
        (some_items : order.items ≢ []) (storable : All (Storable uuid jsonb) order.items)
        (new_order : orders_with uuid jsonb given d.orders ≡ [])
        (new_items : items_with uuid jsonb given d.items ≡ []) where
      -- The order as it is read: with the identifier, and with its items in the order of the rows.
      abbrev pub ReadBack : Expected ErrorCode Order → Type 0
      ReadBack result =
          (items : List OrderItem) × Shuffle items order.items
          × (result ≡ ok (record order { order_id = some id; items = items }))

      restored :
          (rows : List ItemRow)
          → Shuffle rows (rows_of uuid jsonb given order.items)
          → ReadBack (read uuid jsonb (order_row given order ∷ []) rows)
      unfolding one_order
      restored rows shuffled =
          let (items, parsed, same) =
            parse_items-Shuffled shuffled order.items
              (parse_items-rows_of uuid jsonb given order.items storable) in
          (
            items,
            same,
            from_rows-order uuid jsonb given id order rows items accepted user_normal user parsed
                ∙ restore-items order.user_id id items order.status
                    (λ e. some_items (Shuffle-none same e)),
          )

      found-read :
          (find_by_id uuid jsonb arrange no_faults id stored).0
          ≡ read uuid jsonb
              (order_row given order ∷ [])
              (arrange (rows_of uuid jsonb given order.items))
      found-read =
          let after = with_order uuid jsonb json_text given id order d in
          ap (λ x. (find_by_id uuid jsonb arrange no_faults id x).0) stored_rows
          ∙ ap (λ r. r.0) (find_by_id-read uuid jsonb arrange id after)
          ∙ ap
              (λ v.
                read uuid jsonb (orders_with uuid jsonb v after.orders)
                  (arrange (items_with uuid jsonb v after.items)))
              (create-value given id accepted)
          ∙ ap (λ rows. read uuid jsonb rows (arrange (items_with uuid jsonb given after.items)))
              (orders_with-append uuid jsonb given d.orders (order_row given order) new_order
                (sym normal))
          ∙ ap (λ rows. read uuid jsonb (order_row given order ∷ []) (arrange rows))
              (items_with-append uuid jsonb given d.items order.items new_items)

      -- If nothing fails, an order that is saved under an identifier that is accepted and no row has is
      -- read back with that identifier, user and status and with its items in some order, and any other
      -- identifier reads as it did before, where its items come in the same order, unless the database
      -- takes it for the same. The database gives every row of the items once, in whatever order. The
      -- order has items, its user and its items are such as their constructors accept, with digits of
      -- eight bits, and the identifiers are in the normal form of the database.
      pub find_by_id-save :
          ((rows : List ItemRow) → Shuffle (arrange rows) rows)
          → (other : StrongId order_id)
          → ReadBack
              (find_by_id uuid jsonb arrange no_faults id
                (save uuid jsonb json_text no_faults given order d).1).0
            × ((uuid other.value ≡ given)
                ⊎ ((find_by_id uuid jsonb arrange no_faults other
                      (save uuid jsonb json_text no_faults given order d).1).0
                    ≡ (find_by_id uuid jsonb arrange no_faults other d).0))
      unfolding stored
      find_by_id-save shuffles other = (
        subst ReadBack (sym found-read)
            (restored (arrange (rows_of uuid jsonb given order.items)) (shuffles _)),
        elsewhere other,
      )
