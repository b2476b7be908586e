-- ===== src/Worker/Repository.antt =====
-- worker-service/repository/PostgresWorkerRepository.cpp, with the statements of
-- WorkerRepositoryQueries.h on the tables of the service. Values of the types uuid and jsonb are
-- kept in the database's own normal form, a parameter; the identifier and the times that it gives to
-- a row of the outbox are left out.
pub mod Refines
use liquid_pet_project.Prelude.{
  Bool, true, false, ◌||◌, Option, none, some, List, [], ◌∷◌, ◌++◌, String, if◌then◌else◌, contains,
  Expected, ok, err, ◌==◌, eq_string, ℕ, eqb,
}
use liquid_pet_project.Errors.{ErrorCode}
use liquid_pet_project.Postgres.{
  Faults, Statements, exec, ◌>>=◌, pure, Ending, commits, gives_up, transact,
}
use liquid_pet_project.Worker.Reservation.{ReservationRecord}

pub record OutboxRow : Type 0 where
  pub aggregate_id : String
  pub event_type : String
  pub payload : String

-- The tables processed_order_events, by its key, and outbox; the last row is the newest.
pub record Database : Type 0 where
  pub processed : List String
  pub outbox : List OutboxRow

-- INSERT_PROCESSED_EVENT_SQL: nothing happens on a conflict. The number of affected rows.
unfoldable pub insert_processed_event : (String → String) → String → Database → ℕ × Database
insert_processed_event uuid event_id d =
    if contains d.processed (uuid event_id)
    then (0, d)
    else (1, record d { processed = d.processed ++ uuid event_id ∷ [] })

-- INSERT_OUTBOX_EVENT_SQL
unfoldable pub insert_outbox_event :
    (String → String) → (String → String) → OutboxRow → Database → Unit {0} × Database
insert_outbox_event uuid jsonb row d = (
  tt,
  record d {
    outbox =
        d.outbox
        ++ record row { aggregate_id = uuid row.aggregate_id; payload = jsonb row.payload } ∷ [];
  },
)

module _ (uuid jsonb : String → String) where
  -- The second statement, and the commit.
  unfoldable pub write_outbox :
      ReservationRecord → Statements Database (Ending (Expected ErrorCode Bool))
  unfolding insert_outbox_event exec
  write_outbox r = do
    written ← exec (
        insert_outbox_event uuid jsonb (record {
          aggregate_id = r.aggregate_id.value;
          event_type = r.event_type;
          payload = r.payload;
        }))
    pure (commits (ok true))

  unfoldable pub reservation_body :
      ReservationRecord → Statements Database (Ending (Expected ErrorCode Bool))
  unfolding insert_processed_event write_outbox exec
  reservation_body r = do
    affected ← exec (insert_processed_event uuid r.event_id.value)
    if eqb affected 0 then pure (gives_up (ok false)) else write_outbox r

  -- recordReservationIfNew
  unfoldable pub record_reservation_if_new :
      Faults → ReservationRecord → Database → Expected ErrorCode Bool × Database
  unfolding reservation_body transact
  record_reservation_if_new faults r d = transact faults (reservation_body r) d
