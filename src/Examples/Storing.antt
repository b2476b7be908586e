-- ===== src/Examples/Storing.antt =====
-- The repositories (order-service/repository, worker-service/repository) on small databases that keep
-- values as they come.
use liquid_pet_project.Prelude.{
  Shuffle, unshuffled, swapped_heads, some, List, ◌≡◌, ◌⊎◌, refl, none, [], ◌∷◌, true, false, Bool,
  ok, All, String,
}
use liquid_pet_project.Prelude.Int.{pos}
use liquid_pet_project.Models.StrongId
use liquid_pet_project.Models.StrongId.{StrongId, order_id, user_id, product_id, outbox_event_id}
use liquid_pet_project.Postgres.{Faults, in_doubt}
use liquid_pet_project.Postgres.Transactions.{no_faults}
use liquid_pet_project.Orders.Money
use liquid_pet_project.Orders.Money.{create_currency}
use liquid_pet_project.Orders.Order.{Order, OrderItem, created, create_item}
use liquid_pet_project.Orders.Rows.{ItemRow, to_int8}
use liquid_pet_project.Orders.Repository
use liquid_pet_project.Orders.Repository.{save, find_by_id}
use liquid_pet_project.Orders.Repository.Finding.{Storable}
use liquid_pet_project.Orders.Repository.Reading.{find_by_id-save}
use liquid_pet_project.Outbox.Repository.{OutboxRow}
use liquid_pet_project.Worker.Reservation.{ReservationRecord}
use liquid_pet_project.Worker.Repository as WorkerRepository
use liquid_pet_project.Worker.Repository.{record_reservation_if_new}
use liquid_pet_project.Worker.Repository.Refines.{Refines, row_of, record_reservation-Refines}

abbrev as_is : String → String
as_is text = text

abbrev json_text : Order → String
json_text order = "{}"

abbrev first : String
first = "0a1b2c3d-0000-4444-8888-0123456789ab"

abbrev second : String
second = "0a1b2c3d-0000-4444-8888-0123456789ac"

abbrev placed : Order
placed = record {
  user_id = record { value = first };
  order_id = none;
  items =
      record {
        product_id = record { value = first };
        quantity = pos 3;
        price_at_order_time = record {
          minor_units = pos 250;
          currency = record { code = "EUR"; minor_digits = pos 2 };
        };
      }
      ∷ record {
        product_id = record { value = second };
        quantity = pos 1;
        price_at_order_time = record {
          minor_units = pos 99;
          currency = record { code = "EUR"; minor_digits = pos 2 };
        };
      }
      ∷ [];
  status = created;
}

abbrev nothing_stored : Repository.Database
nothing_stored = record { orders = []; items = []; outbox = [] }

-- The connection is lost at the commit, and the transaction has taken effect.
abbrev lost_at_commit : Faults
lost_at_commit = record { connect = none; statements = []; commit = in_doubt true }

placed_Storable : All (Storable as_is as_is) placed.items
unfolding StrongId.create to_int8 create_currency Money.create create_item
placed_Storable = ((refl, refl, refl, refl, refl, refl), ((refl, refl, refl, refl, refl, refl), tt))

-- The first two rows come the other way round.
abbrev turned : List ItemRow → List ItemRow
turned (a ∷ b ∷ rows) = b ∷ a ∷ rows
turned rows = rows

turned_shuffles : (rows : List ItemRow) → Shuffle (turned rows) rows
turned_shuffles [] = unshuffled []
turned_shuffles (a ∷ []) = unshuffled (a ∷ [])
turned_shuffles (a ∷ b ∷ rows) = swapped_heads b a rows

find_by_id-save_example :
    ((items : List OrderItem) × Shuffle items placed.items
      × ((find_by_id as_is as_is turned no_faults
            (record { value = second })
            (save as_is as_is json_text no_faults second placed nothing_stored).1).0
          ≡ ok (record placed { order_id = some (record { value = second }); items = items })))
    × ((first ≡ second)
        ⊎ ((find_by_id as_is as_is turned no_faults
              (record { value = first })
              (save as_is as_is json_text no_faults second placed nothing_stored).1).0
            ≡ (find_by_id as_is as_is turned no_faults
                (record { value = first })
                nothing_stored).0))
unfolding StrongId.create Repository.orders_with Repository.items_with
find_by_id-save_example =
    find_by_id-save as_is as_is json_text turned second (record { value = second }) placed
      nothing_stored refl refl refl refl (λ h. cc) placed_Storable refl refl turned_shuffles
      (record { value = first })

abbrev one_stored : Repository.Database
one_stored = record {
  orders = record { order_id = second; user_id = first; status = "Created" } ∷ [];
  items = [];
  outbox = [];
}

abbrev reservation : String → ReservationRecord
reservation event = record {
  event_id = record { value = event };
  aggregate_id = record { value = second };
  event_type = "OrderReserved";
  payload = "{}";
}

abbrev one_processed : WorkerRepository.Database
one_processed = record {
  processed = first ∷ [];
  outbox = row_of as_is as_is (reservation first) ∷ [];
}

record_reservation-Refines_example :
    Refines as_is as_is
      (reservation second)
      (reservation first ∷ [])
      (record_reservation_if_new as_is as_is lost_at_commit (reservation second) one_processed)
    × ((b : Bool) × ((record_reservation_if_new as_is as_is no_faults
            (reservation second)
            one_processed).0
          ≡ ok b))
record_reservation-Refines_example =
    record_reservation-Refines as_is as_is lost_at_commit (reservation second) one_processed
      (reservation first ∷ []) (record { processed = []; outbox = [] }, (refl, refl), refl, refl)
      refl

abbrev waiting : List OutboxRow
waiting =
    record {
      id = first;
      aggregate_id = second;
      event_type = "OrderCreated";
      payload = "{}";
      published = false;
    }
    ∷ []
