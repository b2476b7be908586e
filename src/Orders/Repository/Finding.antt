-- ===== src/Orders/Repository/Finding.antt =====
-- What `findById` reads (order-service/repository and its row mappers) of the rows that `save` writes.
use liquid_pet_project.Prelude.{
  ◌≡◌, ◌∙◌, inl, inr, beq_self, refl, sym, ap, false, List, [], ◌∷◌, ◌++◌, String, Expected, ok,
  err, ◌==◌, eq_string, append-nil, append_assoc, All, Bool-cases, arith,
}
use liquid_pet_project.Errors.{ErrorCode, make_error_code, repository_enum, RepositoryError}
use liquid_pet_project.Models.StrongId
use liquid_pet_project.Models.StrongId.{StrongId, order_id, user_id, product_id}
use liquid_pet_project.Models.StrongId.Shape.{create_iff}
use liquid_pet_project.Orders.Money
use liquid_pet_project.Orders.Money.{create_currency}
use liquid_pet_project.Postgres.{ran, committed, exec, transact, conclude, close}
use liquid_pet_project.Postgres.Transactions.{no_faults}
use liquid_pet_project.Orders.Order.{Order, OrderItem, create_item, to_string, restore}
use liquid_pet_project.Orders.Order.Status.{from_string-to_string}
use liquid_pet_project.Orders.Rows.{OrderRow, ItemRow, to_int8, from_row, parse_items, from_rows}
use liquid_pet_project.Orders.Repository.{
  Database, insert_order, insert_order_item, insert_outbox_event, orders_with, items_with, row_of,
  insert_items, write_event, save_body, save, one_order, select_items, find_body, find_by_id,
}
use liquid_pet_project.Orders.Repository.Shuffling.{parse_items-more}
use liquid_pet_project.Orders.Repository.Saving.{rows_of, with_items, with_order}

pub create-value :
    (value : String) (id : StrongId order_id)
    → StrongId.create order_id value ≡ ok id
    → id.value ≡ value
create-value value id h = ap (λ i. i.value) ((create_iff order_id value id).0 h).1

module _ (uuid jsonb : String → String) where
  -- An item that its constructors accept, with a product identifier in the normal form of the database
  -- and digits that fit in eight bits.
  abbrev pub Storable : OrderItem → Type 0
  Storable item =
      let price = item.price_at_order_time in
      (uuid item.product_id.value ≡ item.product_id.value)
      × (StrongId.create product_id item.product_id.value ≡ ok item.product_id)
      × (to_int8 price.currency.minor_digits ≡ price.currency.minor_digits)
      × (create_currency price.currency.code price.currency.minor_digits ≡ ok price.currency)
      × (Money.create price.minor_units price.currency ≡ ok price)
      × (create_item item.product_id item.quantity price ≡ ok item)

  from_row-row_of :
      (id : String) (item : OrderItem)
      → Storable item
      → from_row (row_of uuid jsonb id item) ≡ ok item
  unfolding from_row row_of
  from_row-row_of id item (normal, product, digits, currency, price, made) =
      rw (normal, product, digits, currency, price, made)

  pub parse_items-rows_of :
      (id : String) (items : List OrderItem)
      → All Storable items
      → parse_items (rows_of uuid jsonb id items) ≡ ok items
  unfolding parse_items
  parse_items-rows_of id [] storable = refl
  parse_items-rows_of id (item ∷ items) storable =
      parse_items-more (row_of uuid jsonb id item) (rows_of uuid jsonb id items) item items
        (from_row-row_of id item storable.0) (parse_items-rows_of id items storable.1)

  pub orders_with-append :
      (id : String) (rows : List OrderRow) (row : OrderRow)
      → orders_with uuid jsonb id rows ≡ []
      → row.order_id ≡ uuid id
      → orders_with uuid jsonb id (rows ++ row ∷ []) ≡ row ∷ []
  unfolding orders_with
  orders_with-append id [] row new same = rw (ap (λ x. x == uuid id) same, beq_self (uuid id))
  orders_with-append id (r ∷ rows) row new same = elim (Bool-cases (r.order_id == uuid id)) [
    | inl found ↦ absurd (ground (arith, found))
    | inr other ↦ rw (other, orders_with-append id rows row (ground (arith, other)) same)
  ]

  pub items_with-append :
      (id : String) (rows : List ItemRow) (items : List OrderItem)
      → items_with uuid jsonb id rows ≡ []
      → items_with uuid jsonb id (rows ++ rows_of uuid jsonb id items) ≡ rows_of uuid jsonb id items
  unfolding items_with row_of
  items_with-append id [] [] new = refl
  items_with-append id [] (item ∷ items) new =
      rw (beq_self (uuid id), items_with-append id [] items refl)
  items_with-append id (r ∷ rows) items new = elim (Bool-cases (r.order_id == uuid id)) [
    | inl found ↦ absurd (ground (arith, found))
    | inr other ↦ rw (other, items_with-append id rows items (ground (arith, other)))
  ]

  insert_items-fault_free :
      (id : String) (items : List OrderItem) (d : Database)
      → insert_items uuid jsonb id items d [] ≡ ran tt (with_items uuid jsonb id items d) []
  unfolding insert_items exec insert_order_item
  insert_items-fault_free id [] d =
      ap (λ rows. ran tt (record d { items = rows }) []) (sym (append-nil d.items))
  insert_items-fault_free id (item ∷ items) d =
      insert_items-fault_free id items (with_items uuid jsonb id (item ∷ []) d)
      ∙ ap (λ rows. ran tt (record d { items = rows }) [])
          (append_assoc d.items (rows_of uuid jsonb id (item ∷ [])) (rows_of uuid jsonb id items))

  module _ (json_text : Order → String) where
    -- If nothing fails, a save with an identifier that is accepted gives it and writes all the rows.
    pub save-fault_free :
        (given : String) (id : StrongId order_id) (order : Order) (d : Database)
        → StrongId.create order_id given ≡ ok id
        → save uuid jsonb json_text no_faults given order d
          ≡ (ok id, with_order uuid jsonb json_text given id order d)
    unfolding save transact conclude close save_body exec insert_order write_event
        insert_outbox_event
    save-fault_free given id order d accepted =
        rw (insert_items-fault_free given order.items _, accepted)

  pub from_rows-order :
      (given : String) (id : StrongId order_id) (order : Order) (rows : List ItemRow)
      (items : List OrderItem)
      → StrongId.create order_id given ≡ ok id
      → uuid order.user_id.value ≡ order.user_id.value
      → StrongId.create user_id order.user_id.value ≡ ok order.user_id
      → parse_items rows ≡ ok items
      → from_rows
          (record {
            order_id = given;
            user_id = uuid order.user_id.value;
            status = to_string order.status;
          })
          rows
        ≡ restore order.user_id id items order.status
  unfolding from_rows
  from_rows-order given id order rows items accepted user_normal user read =
      rw (user_normal, user, accepted, from_string-to_string order.status, read)

  -- What is read of the rows that the two queries give.
  abbrev pub read : List OrderRow → List ItemRow → Expected ErrorCode Order
  read [] items = err (make_error_code RepositoryError.not_found)
  read (r ∷ rs) items = one_order r rs items

  module _ (arrange : List ItemRow → List ItemRow) where
    select_items-read :
        (id : String) (rows : List OrderRow) (d : Database)
        → conclude committed d (select_items uuid jsonb arrange id rows d [])
          ≡ (read rows (arrange (items_with uuid jsonb id d.items)), d)
    unfolding select_items exec conclude close
    select_items-read id [] d = refl
    select_items-read id (r ∷ rs) d = refl

    pub find_by_id-read :
        (id : StrongId order_id) (d : Database)
        → find_by_id uuid jsonb arrange no_faults id d ≡ (
          read
              (orders_with uuid jsonb id.value d.orders)
              (arrange (items_with uuid jsonb id.value d.items)),
          d,
        )
    unfolding find_by_id transact find_body exec
    find_by_id-read id d = select_items-read id.value (orders_with uuid jsonb id.value d.orders) d

  -- Rows of other identifiers are not selected.
  pub orders_with-other :
      (id : String) (rows : List OrderRow) (row : OrderRow)
      → (row.order_id == uuid id) ≡ false
      → orders_with uuid jsonb id (rows ++ row ∷ []) ≡ orders_with uuid jsonb id rows
  unfolding orders_with
  orders_with-other id [] row other = rw other
  orders_with-other id (r ∷ rows) row other = rw (orders_with-other id rows row other)

  rows_of-other :
      (id given : String) (items : List OrderItem)
      → (uuid given == uuid id) ≡ false
      → items_with uuid jsonb id (rows_of uuid jsonb given items) ≡ []
  unfolding items_with row_of
  rows_of-other id given [] other = refl
  rows_of-other id given (item ∷ items) other = rw (other, rows_of-other id given items other)

  pub items_with-other :
      (id given : String) (rows : List ItemRow) (items : List OrderItem)
      → (uuid given == uuid id) ≡ false
      → items_with uuid jsonb id (rows ++ rows_of uuid jsonb given items)
        ≡ items_with uuid jsonb id rows
  unfolding items_with
  items_with-other id given [] items other = rows_of-other id given items other
  items_with-other id given (r ∷ rows) items other = rw (items_with-other id given rows items other)
