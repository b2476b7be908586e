-- ===== src/Orders/Repository/Changing.antt =====
-- `changeStatus` (order-service/repository/PostgresOrderRepository.cpp) as compare-and-set, against
-- the contract of IOrderStatusRepository.h.
use liquid_pet_project.Prelude.{
  ◌≡◌, ◌⊎◌, Bool, false, ◌&&◌, ◌||◌, Option, List, [], ◌∷◌, String, if◌then◌else◌, Expected, ok,
  err, ◌==◌, eq_string, map,
}
use liquid_pet_project.Errors.{ErrorCode}
use liquid_pet_project.Models.StrongId.{StrongId, order_id}
use liquid_pet_project.Postgres.{PqxxException, Ran, ran, raised, Ending, commits}
use liquid_pet_project.Orders.Order.{OrderStatus, to_string}
use liquid_pet_project.Orders.Rows.{OrderRow}
use liquid_pet_project.Orders.Repository.{Database}

value_or : OrderStatus → Expected ErrorCode OrderStatus → OrderStatus
value_or default (ok status) = status
value_or default (err e) = default

module _ (uuid jsonb : String → String) (id : StrongId order_id) (from_status : OrderStatus) where
  -- A row that has the identifier and the status from which the change is made.
  abbrev pub hits : OrderRow → Bool
  hits r = (r.order_id == uuid id.value) && (r.status == to_string from_status)

  abbrev pub is_hit : List OrderRow → Bool
  is_hit [] = false
  is_hit (r ∷ rs) = hits r || is_hit rs

  module _ (to_status : OrderStatus) where
    abbrev pub swapped_row : OrderRow → OrderRow
    swapped_row r = if hits r then record r { status = to_string to_status } else r

    abbrev pub swapped : Database → Database
    swapped d = record d { orders = map swapped_row d.orders }

    -- What the body comes to: an exception, or the change and a commit.
    abbrev Writes : Database → Ran Database (Ending (Expected ErrorCode Bool)) → Type 0
    Writes d result =
        ((e : PqxxException) × (result ≡ raised e))
        ⊎ ((rest : List (Option PqxxException)) × (result
              ≡ ran (commits (ok (is_hit d.orders))) (swapped d) rest))

    abbrev ends :
        Database
        → List (Option PqxxException)
        → Bool
        → List OrderRow
        → Ran Database (Ending (Expected ErrorCode Bool))
    ends d rest answer rows = ran (commits (ok answer)) (record d { orders = rows }) rest
