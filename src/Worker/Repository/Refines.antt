-- ===== src/Worker/Repository/Refines.antt =====
-- The repository of the worker service (worker-service/repository) keeps the contract of
-- IWorkerRepository.h, whatever fails.
use liquid_pet_project.Prelude.{
  ◌≡◌, ◌⊎◌, ◌∙◌, refl, sym, ap, inl, inr, Bool, true, false, ◌||◌, Option, none, some, List, [],
  ◌∷◌, ◌++◌, String, contains, Expected, ok, err, ◌==◌, eq_string, Bool-cases, arith,
}
use mathlib.Core.Path.{subst}
use liquid_pet_project.Errors.{ErrorCode}
use liquid_pet_project.Postgres.{
  PqxxException, Faults, Ran, ran, raised, Ending, commits, gives_up, exec, transact,
  map_pqxx_exception,
}
use liquid_pet_project.Postgres.Transactions.{
  no_faults, Fails, transact-raised, transact-gives_up, transact-commits,
}
use liquid_pet_project.Worker.Reservation.{ReservationRecord}
use liquid_pet_project.Worker.Reservation.Once.{is_recorded, record_if_new}
use liquid_pet_project.Worker.Repository.{
  OutboxRow, Database, insert_processed_event, insert_outbox_event, write_outbox, reservation_body,
  record_reservation_if_new,
}

contains-append :
    (xs : List String) (y id : String) → contains (xs ++ y ∷ []) id ≡ (y == id) || contains xs id
contains-append [] y id = ground arith
contains-append (x ∷ xs) y id = ground (arith, contains-append xs y id)

module _ (uuid jsonb : String → String) where
  abbrev pub row_of : ReservationRecord → OutboxRow
  row_of r = record {
    aggregate_id = uuid r.aggregate_id.value;
    event_type = r.event_type;
    payload = jsonb r.payload;
  }

  -- The tables hold these records, which stand with the newest first: each with its processed event
  -- and its row of the outbox.
  abbrev pub Holds : Database → List ReservationRecord → Type 0
  Holds d [] = (d.processed ≡ []) × (d.outbox ≡ [])
  Holds d (r ∷ rs) =
      (before : Database) × Holds before rs
      × (d.processed ≡ before.processed ++ r.event_id.value ∷ [])
      × (d.outbox ≡ before.outbox ++ row_of r ∷ [])

  contains-recorded :
      (d : Database) (rs : List ReservationRecord) (id : String)
      → Holds d rs
      → contains d.processed id ≡ is_recorded rs id
  contains-recorded d [] id h = ap (λ xs. contains xs id) h.0
  contains-recorded d (r ∷ rs) id (before, held, processed, outbox) =
      ap (λ xs. contains xs id) processed
      ∙ (contains-append before.processed r.event_id.value id
          ∙ ap (λ b. (r.event_id.value == id) || b) (contains-recorded before rs id held))

  -- The tables with the record's two rows.
  abbrev with_record : ReservationRecord → Database → Database
  with_record r d = record {
    processed = d.processed ++ uuid r.event_id.value ∷ [];
    outbox = d.outbox ++ row_of r ∷ [];
  }

  -- What the body comes to: an exception, or both rows and a commit.
  abbrev Writes :
      ReservationRecord → Database → Ran Database (Ending (Expected ErrorCode Bool)) → Type 0
  Writes r d result =
      ((e : PqxxException) × (result ≡ raised e))
      ⊎ ((rest : List (Option PqxxException)) × (result
            ≡ ran (commits (ok true)) (with_record r d) rest))

  write_outbox-Writes :
      (r : ReservationRecord) (d : Database) (faults : List (Option PqxxException))
      → Writes r d (
          write_outbox uuid jsonb r
            (record d { processed = d.processed ++ uuid r.event_id.value ∷ [] })
            faults)
  unfolding write_outbox exec insert_outbox_event
  write_outbox-Writes r d [] = inr ([], refl)
  write_outbox-Writes r d (none ∷ faults) = inr (faults, refl)
  write_outbox-Writes r d (some e ∷ faults) = inl (e, refl)

  body_new :
      (r : ReservationRecord) (d : Database) (faults : List (Option PqxxException))
      → contains d.processed (uuid r.event_id.value) ≡ false
      → Writes r d (reservation_body uuid jsonb r d faults)
  unfolding reservation_body exec insert_processed_event
  body_new r d [] fresh = rw fresh (write_outbox-Writes r d [])
  body_new r d (none ∷ faults) fresh = rw fresh (write_outbox-Writes r d faults)
  body_new r d (some e ∷ faults) fresh = inl (e, refl)

  body_known :
      (r : ReservationRecord) (d : Database) (faults : List (Option PqxxException))
      → contains d.processed (uuid r.event_id.value) ≡ true
      → ((e : PqxxException) × (reservation_body uuid jsonb r d faults ≡ raised e))
        ⊎ ((rest : List (Option PqxxException)) × (reservation_body uuid jsonb r d faults
              ≡ ran (gives_up (ok false)) d rest))
  unfolding reservation_body exec insert_processed_event
  body_known r d [] old = inr ([], rw old)
  body_known r d (none ∷ faults) old = inr (faults, rw old)
  body_known r d (some e ∷ faults) old = inl (e, refl)

  -- The answer and the tables are those of the contract, or the answer is an error and the tables hold
  -- what they held, or what the contract makes of it.
  abbrev pub Refines :
      ReservationRecord → List ReservationRecord → Expected ErrorCode Bool × Database → Type 0
  Refines r rs result =
      ((result.0 ≡ (record_if_new rs r).0) × Holds result.1 (record_if_new rs r).1)
      ⊎ ((e : ErrorCode) × (result.0 ≡ err e)
          × (Holds result.1 rs ⊎ Holds result.1 (record_if_new rs r).1))

  fails-Refines :
      (r : ReservationRecord) (rs : List ReservationRecord) (d : Database)
      (result : Expected ErrorCode Bool × Database)
      → (Holds d rs ⊎ Holds d (record_if_new rs r).1)
      → Fails d result
      → Refines r rs result
  fails-Refines r rs d result held (e, same) = inr (
    map_pqxx_exception e,
    ap (λ q. q.0) same,
    subst (λ x. Holds x rs ⊎ Holds x (record_if_new rs r).1) (sym (ap (λ q. q.1) same)) held,
  )

  -- An answer that is the contract's, on tables that hold what the contract makes.
  answers-Refines :
      (r : ReservationRecord) (rs : List ReservationRecord) (d : Database) (b : Bool)
      (result : Expected ErrorCode Bool × Database)
      → (record_if_new rs r).0 ≡ ok b
      → Holds d (record_if_new rs r).1
      → result ≡ (ok b, d)
      → Refines r rs result
  answers-Refines r rs d b result answer held same = inl (
    ap (λ q. q.0) same ∙ sym answer,
    subst (λ x. Holds x (record_if_new rs r).1) (sym (ap (λ q. q.1) same)) held,
  )

  fault_free-answers :
      (r : ReservationRecord) (d : Database)
      → (b : Bool) × ((record_reservation_if_new uuid jsonb no_faults r d).0 ≡ ok b)
  unfolding record_reservation_if_new transact reservation_body insert_processed_event
  fault_free-answers r d = elim (Bool-cases (contains d.processed (uuid r.event_id.value))) [
    | inl old ↦ (false, rw old)
    | inr fresh ↦ (true, rw fresh)
  ]

  module _ (faults : Faults) (r : ReservationRecord) (d : Database) (rs : List ReservationRecord)
      (held : Holds d rs) (normal : uuid r.event_id.value ≡ r.event_id.value) where
    result : Expected ErrorCode Bool × Database
    result = record_reservation_if_new uuid jsonb faults r d

    stored : contains d.processed (uuid r.event_id.value) ≡ is_recorded rs r.event_id.value
    stored = ap (contains d.processed) normal ∙ contains-recorded d rs r.event_id.value held

    known_contract : is_recorded rs r.event_id.value ≡ true → record_if_new rs r ≡ (ok false, rs)
    known_contract old = rw (old, record_if_new)

    new_contract : is_recorded rs r.event_id.value ≡ false → record_if_new rs r ≡ (ok true, r ∷ rs)
    new_contract fresh = rw (fresh, record_if_new)

    known-Refines : is_recorded rs r.event_id.value ≡ true → Refines r rs result
    unfolding result record_reservation_if_new
    known-Refines old =
        let contract = known_contract old in
        let known = stored ∙ old in
        elim (body_known r d faults.statements known) [
          | inl (e, h) ↦
              fails-Refines r rs d result (inl held)
                (transact-raised faults (reservation_body uuid jsonb r) d h)
          | inr (rest, h) ↦ elim (transact-gives_up faults (reservation_body uuid jsonb r) d h) [
            | inr fails ↦ fails-Refines r rs d result (inl held) fails
            | inl same ↦
                answers-Refines r rs d false result (ap (λ q. q.0) contract)
                  (subst (Holds d) (sym (ap (λ q. q.1) contract)) held) same
          ]
        ]

    new-Refines : is_recorded rs r.event_id.value ≡ false → Refines r rs result
    unfolding result record_reservation_if_new
    new-Refines fresh =
        let contract = new_contract fresh in
        let absent = stored ∙ fresh in
        let after : Holds (with_record r d) (record_if_new rs r).1 =
          subst (Holds (with_record r d)) (sym (ap (λ q. q.1) contract))
            (d, held, ap (λ id. d.processed ++ id ∷ []) normal, refl) in
        elim (body_new r d faults.statements absent) [
          | inl (e, h) ↦
              fails-Refines r rs d result (inl held)
                (transact-raised faults (reservation_body uuid jsonb r) d h)
          | inr (rest, h) ↦ elim (transact-commits faults (reservation_body uuid jsonb r) d h) [
            | inl same ↦
                answers-Refines r rs (with_record r d) true result (ap (λ q. q.0) contract) after
                  same
            | inr (inl fails) ↦ fails-Refines r rs d result (inl held) fails
            | inr (inr unclear) ↦ fails-Refines r rs (with_record r d) result (inr after) unclear
          ]
        ]

    -- Whatever fails, on tables that hold some records, and for an event identifier in the normal form
    -- of the database, the repository answers as the contract says and
    -- the tables hold what it makes of them; or it answers with an error, and they hold what they held
    -- or what the contract makes of it. A processed event and its row of the outbox are never there
    -- one without the other. If nothing fails there is no error.
    pub record_reservation-Refines :
        Refines r rs (record_reservation_if_new uuid jsonb faults r d)
        × ((b : Bool) × ((record_reservation_if_new uuid jsonb no_faults r d).0 ≡ ok b))
    unfolding result
    record_reservation-Refines = (
      elim (Bool-cases (is_recorded rs r.event_id.value)) [
        | inl old ↦ known-Refines old
        | inr fresh ↦ new-Refines fresh
      ],
      fault_free-answers r d,
    )
