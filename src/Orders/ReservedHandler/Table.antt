-- ===== src/Orders/ReservedHandler/Table.antt =====
-- OrderReservedHandler (order-service/event-handlers) on a table of orders that keeps the contract
-- of IOrderRepository.h and IOrderStatusRepository.h: a change is made only from the status it names.
use liquid_pet_project.Prelude.{
  ◌≡◌, ◌≢◌, inl, inr, refl, sym, ap, ◌∙◌, Bool, true, false, Option, none, some, [], ◌∷◌, String,
  arith, if◌then◌else◌, Expected, ok, err, Option-cases, Bool-cases, beq→eq, ◌==◌, eq_string,
  beq_self,
}
use mathlib.Core.Path.{subst}
use liquid_pet_project.Prelude.Dict.{Dict, lookup, insert, lookup-insert}
use liquid_pet_project.Errors.{
  ErrorCode, make_error_code, repository_enum, repository_value, RepositoryError,
}
use liquid_pet_project.Models.StrongId.{StrongId, order_id}
use liquid_pet_project.Json.{JsonLibrary, json_value}
use liquid_pet_project.Messaging.Handling.{returned}
use liquid_pet_project.Orders.Order.{Order, OrderStatus, created, reserved, shipped, cancelled}
use liquid_pet_project.Orders.ReservedHandler.{
  Repositories, OrderReservedEvent, changes, is_not_found, from_json, Handled, replied,
  payload_read, changed_reply, loaded, parsed, handle,
}
use liquid_pet_project.Orders.ReservedHandler.Decisions.{
  reserve_created, reserve_other, created_dec,
}

abbrev pub Table : Type 0
Table = Dict String Order

unfoldable pub same_status : OrderStatus → OrderStatus → Bool
same_status created created = true
same_status reserved reserved = true
same_status shipped shipped = true
same_status cancelled cancelled = true
same_status _ _ = false

abbrev pub find_by_id : Table → StrongId order_id → Expected ErrorCode Order × Table
find_by_id m id = (
  elim (lookup id.value m) [
    | none ↦ err (make_error_code RepositoryError.not_found)
    | some o ↦ ok o
  ],
  m,
)

abbrev pub change_status :
    Table → StrongId order_id → OrderStatus → OrderStatus → Expected ErrorCode Bool × Table
change_status m id from_status to_status = elim (lookup id.value m) [
  | none ↦ (ok false, m)
  | some o ↦
      if same_status o.status from_status
      then (ok true, insert id.value (record o { status = to_status }) m)
      else (ok false, m)
]

abbrev pub orders_table : Repositories
orders_table = record { World = Table; find_by_id = find_by_id; change_status = change_status }

-- What reserving an order makes of a row.
abbrev pub reserved_row : Option Order → Option Order
reserved_row none = none
reserved_row (some o) = some (elim o.status [ created ↦ record o { status = reserved } | _ ↦ o ])

find_missing :
    (m : Table) (id : StrongId order_id)
    → lookup id.value m ≡ none
    → find_by_id m id ≡ (err (make_error_code RepositoryError.not_found), m)
find_missing m id missing = rw (missing, find_by_id)

find_found :
    (m : Table) (id : StrongId order_id) (o : Order)
    → lookup id.value m ≡ some o
    → find_by_id m id ≡ (ok o, m)
find_found m id o found = rw (found, find_by_id)

change_found :
    (m : Table) (id : StrongId order_id) (o : Order)
    → lookup id.value m ≡ some o
    → o.status ≡ created
    → change_status m id created reserved
      ≡ (ok true, insert id.value (record o { status = reserved }) m)
unfolding same_status
change_found m id o found fresh = rw (found, change_status) (rw fresh)

-- A row that a reservation leaves alone.
unchanged_row :
    (m : Table) (name k : String) (row : Option Order)
    → lookup name m ≡ row
    → reserved_row row ≡ row
    → lookup k m ≡ (if name == k then reserved_row (lookup k m) else lookup k m)
unchanged_row m name k row at same = elim (Bool-cases (name == k)) [
  | inr other ↦ rw other
  | inl match ↦
      let at_k = subst (λ x. lookup x m ≡ row) (beq→eq name k match) at in
      rw (match, at_k) (sym same)
]

changed_row :
    (m : Table) (name k : String) (o : Order)
    → lookup name m ≡ some o
    → o.status ≡ created
    → (if name == k then some (record o { status = reserved }) else lookup k m)
      ≡ (if name == k then reserved_row (lookup k m) else lookup k m)
changed_row m name k o at fresh = elim (Bool-cases (name == k)) [
  | inr other ↦ rw other refl
  | inl match ↦
      let at_k = subst (λ x. lookup x m ≡ some o) (beq→eq name k match) at in
      rw (match, at_k, fresh) refl
]

reserved_past : (o : Order) → o.status ≢ created → reserved_row (some o) ≡ some o
reserved_past o past = ground arith

module _ (j : JsonLibrary) where
  abbrev after : Table → StrongId order_id → Handled j orders_table
  after m id = loaded j orders_table id (find_by_id m id).0 m

  after_missing :
      (m : Table) (id : StrongId order_id) → lookup id.value m ≡ none → after m id ≡ (true, (m, []))
  unfolding loaded is_not_found repository_value
  after_missing m id missing = ap (λ f. loaded j orders_table id f.0 m) (find_missing m id missing)

  after_past :
      (m : Table) (id : StrongId order_id) (o : Order)
      → lookup id.value m ≡ some o
      → o.status ≢ created
      → after m id ≡ (true, (m, []))
  unfolding loaded
  after_past m id o found past =
      ap (λ f. loaded j orders_table id f.0 m) (find_found m id o found)
      ∙ reserve_other j orders_table id o m past

  after_created :
      (m : Table) (id : StrongId order_id) (o : Order)
      → lookup id.value m ≡ some o
      → o.status ≡ created
      → after m id ≡ (
        true,
        (insert id.value (record o { status = reserved }) m, changes id created reserved ∷ []),
      )
  unfolding loaded
  after_created m id o found fresh =
      ap (λ f. loaded j orders_table id f.0 m) (find_found m id o found)
      ∙ reserve_created j orders_table id o m fresh
      ∙ ap (λ c. (changed_reply c.0, (c.1, changes id created reserved ∷ [])))
          (change_found m id o found fresh)

  -- The event of an order changes its row alone, and only from created to reserved.
  after-rows :
      (m : Table) (id : StrongId order_id) (k : String)
      → lookup k (after m id).1.0
        ≡ (if id.value == k then reserved_row (lookup k m) else lookup k m)
  after-rows m id k = elim (Option-cases (lookup id.value m)) [
    | inl missing ↦ rw (after_missing m id missing) (unchanged_row m id.value k none missing refl)
    | inr (o, found) ↦ elim (created_dec j orders_table o.status) [
      | inr past ↦
          rw (after_past m id o found past)
            (unchanged_row m id.value k (some o) found (reserved_past o past))
      | inl fresh ↦ rw (after_created m id o found fresh) (
          lookup-insert id.value k (record o { status = reserved }) m
          ∙ changed_row m id.value k o found fresh)
    ]
  ]

  -- A second delivery finds nothing to do.
  after-after :
      (m : Table) (id : StrongId order_id)
      → ((after m id).0 ≡ true) × (after (after m id).1.0 id ≡ (true, ((after m id).1.0, [])))
  after-after m id = elim (Option-cases (lookup id.value m)) [
    | inl missing ↦ rw (after_missing m id missing) (refl, after_missing m id missing)
    | inr (o, found) ↦ elim (created_dec j orders_table o.status) [
      | inr past ↦ rw (after_past m id o found past) (refl, after_past m id o found past)
      | inl fresh ↦ rw (after_created m id o found fresh) (
        refl,
        after_past (insert id.value (record o { status = reserved }) m) id
            (record o { status = reserved })
            (lookup-insert id.value id.value (record o { status = reserved }) m
              ∙ rw (beq_self id.value))
            (λ h. cc),
      )
    ]
  ]

  handle_event :
      (payload : String) (json : j.Json) (event : OrderReservedEvent) (m : Table)
      → j.parse payload ≡ json_value json
      → from_json j orders_table json ≡ ok event
      → handle j orders_table payload m ≡ replied j orders_table (after m event.order)
  unfolding handle payload_read parsed
  handle_event payload json event m q f = rw (q, handle) (rw f)

  -- A message about an order is acknowledged, and it changes the row of that order alone, and that
  -- only from created to reserved.
  pub handle_reserves :
      (payload : String) (json : j.Json) (event : OrderReservedEvent) (m : Table)
      → j.parse payload ≡ json_value json
      → from_json j orders_table json ≡ ok event
      → ((handle j orders_table payload m).0 ≡ returned true)
        × ((k : String)
            → lookup k (handle j orders_table payload m).1.0
              ≡ (if event.order.value == k then reserved_row (lookup k m) else lookup k m))
  handle_reserves payload json event m q f =
      rw (handle_event payload json event m q f)
        (ap returned (after-after m event.order).0, after-rows m event.order)
