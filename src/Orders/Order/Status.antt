-- ===== src/Orders/Order/Status.antt =====
-- The status of an order and its text (order-service/models/Order.h).
use liquid_pet_project.Prelude.{
  ◌≡◌, ◌≢◌, ◌↔◌, ◌⊎◌, refl, ap, ◌∙◌, String, arith, ok, err, eq_string, List, [], ◌∷◌,
}
use liquid_pet_project.Errors.{make_error_code, order_enum, OrderError}
use liquid_pet_project.Models.StrongId.{StrongId, order_id, user_id}
use liquid_pet_project.Orders.Order.{
  Order, OrderItem, OrderStatus, created, reserved, shipped, cancelled, to_string, from_string,
  mark_reserved, create, restore, assign_id,
}

pub from_string-to_string : (status : OrderStatus) → from_string (to_string status) ≡ ok status
unfolding from_string to_string
from_string-to_string created = refl
from_string-to_string reserved = refl
from_string-to_string shipped = refl
from_string-to_string cancelled = refl

-- A text is read as a status exactly if it is the text that the status is written as.
pub from_string_iff :
    (value : String) (status : OrderStatus)
    → (from_string value ≡ ok status) ↔ (value ≡ to_string status)
unfolding from_string to_string
from_string_iff value status = (
  λ h. ground (
    arith,
    eq_string.same_iff value "Created",
    eq_string.same_iff value "Reserved",
    eq_string.same_iff value "Shipped",
    eq_string.same_iff value "Cancelled",
  ),
  λ h. ap from_string h ∙ from_string-to_string status,
)

-- The first reservation of an order succeeds if the order was created and not touched since, and
-- changes the status alone; every later one fails and leaves the order as it is.
pub mark_reserved_once :
    (o : Order)
    → ((o.status ≡ created)
        × ((mark_reserved o ≡ (ok tt, record o { status = reserved }))
            × (mark_reserved (mark_reserved o).1 ≡ (
              err (make_error_code OrderError.invalid_status_transition),
              (mark_reserved o).1,
            ))))
      ⊎ ((o.status ≢ created)
          × (mark_reserved o ≡ (err (make_error_code OrderError.invalid_status_transition), o)))
unfolding mark_reserved
mark_reserved_once o = ground arith

-- An order that was created, stored under an identifier and restored with the status it had is the
-- order with that identifier.
pub restore-create :
    (user : StrongId user_id) (id : StrongId order_id) (items : List OrderItem) (o : Order)
    → create user items ≡ ok o
    → restore o.user_id id o.items o.status ≡ ok (assign_id o id)
unfolding create restore assign_id
restore-create user id [] o h = absurd (ground arith)
restore-create user id (item ∷ items) o h = ground arith
