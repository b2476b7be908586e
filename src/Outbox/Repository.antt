-- ===== src/Outbox/Repository.antt =====
-- shared/outbox/PostgresOutboxRepository.cpp, with the statements of OutboxRepositoryQueries.h on the
-- table outbox, whose rows stand in the order of their creation. The normal form of a uuid is a
-- parameter, and so is which rows other transactions have locked; the time of publication is left out.
pub mod Marked
pub mod Once
use liquid_pet_project.Prelude.{
  ℕ, zero, suc, Bool, true, false, ◌&&◌, not, List, [], ◌∷◌, String, if◌then◌else◌, eqb, Expected,
  ok, err, transform, ◌==◌, eq_string,
}
use liquid_pet_project.Prelude.Int.{ℤ, pos, negsuc}
use liquid_pet_project.Errors.{ErrorCode, make_error_code, repository_enum, RepositoryError}
use liquid_pet_project.Models.StrongId
use liquid_pet_project.Models.StrongId.{StrongId, outbox_event_id}
use liquid_pet_project.Postgres
use liquid_pet_project.Postgres.{
  other_exception, Faults, Ran, raised, Statements, exec, pure, Ending, commits, gives_up, transact,
}
use liquid_pet_project.Outbox.{OutboxEntry}

pub record OutboxRow : Type 0 where
  pub id : String
  pub aggregate_id : String
  pub event_type : String
  pub payload : String
  pub published : Bool

-- mapRow
unfoldable pub map_row : OutboxRow → Expected ErrorCode OutboxEntry
unfolding StrongId.create
map_row row =
    transform
      (λ id. record {
        id = id;
        aggregate_id = row.aggregate_id;
        event_type = row.event_type;
        payload = row.payload;
      })
      (StrongId.create outbox_event_id row.id)

-- The loop over the rows, which stops at the first one that is refused.
unfoldable pub map_rows : List OutboxRow → Expected ErrorCode (List OutboxEntry)
unfolding map_row
map_rows [] = ok []
map_rows (row ∷ rows) = elim (map_row row) [
  | err e ↦ err e
  | ok entry ↦ transform (λ entries. entry ∷ entries) (map_rows rows)
]

-- SELECT_UNPUBLISHED_OUTBOX_SQL on the rows, which skips those that are locked.
unfoldable pub unpublished : (String → Bool) → ℕ → List OutboxRow → List OutboxRow
unpublished locked zero rows = []
unpublished locked (suc limit) [] = []
unpublished locked (suc limit) (row ∷ rows) = elim (not row.published && not (locked row.id)) [
  | true ↦ row ∷ unpublished locked limit rows
  | false ↦ unpublished locked (suc limit) rows
]

-- A limit below 0 is refused by the database.
unfoldable pub select_unpublished :
    (String → Bool) → ℤ → Statements (List OutboxRow) (List OutboxRow)
unfolding exec unpublished
select_unpublished locked (pos limit) = exec (λ rows. (unpublished locked limit rows, rows))
select_unpublished locked (negsuc n) = λ rows faults. raised other_exception

unfoldable pub fetch_body :
    (String → Bool)
    → ℤ
    → Statements (List OutboxRow) (Ending (Expected ErrorCode (List OutboxEntry)))
unfolding select_unpublished map_rows
fetch_body locked limit =
    Postgres.◌>>=◌ (select_unpublished locked limit) (λ rows. pure (commits (map_rows rows)))

-- fetchUnpublished
unfoldable pub fetch_unpublished :
    Faults
    → (String → Bool)
    → ℤ
    → List OutboxRow
    → Expected ErrorCode (List OutboxEntry) × List OutboxRow
unfolding transact fetch_body
fetch_unpublished faults locked limit rows = transact faults (fetch_body locked limit) rows

module _ (uuid : String → String) where
  -- MARK_OUTBOX_PUBLISHED_SQL: the number of affected rows, and the rows.
  unfoldable pub mark_rows : String → List OutboxRow → ℕ × List OutboxRow
  mark_rows id [] = (0, [])
  mark_rows id (row ∷ rows) =
      let (affected, rest) = mark_rows id rows in
      if row.id == uuid id
      then (suc affected, record row { published = true } ∷ rest)
      else (affected, row ∷ rest)

  -- After the statement.
  unfoldable pub check_affected :
      ℕ → Statements (List OutboxRow) (Ending (Expected ErrorCode (Unit {0})))
  check_affected affected =
      if eqb affected 0
      then pure (gives_up (err (make_error_code RepositoryError.not_found)))
      else pure (commits (ok tt))

  unfoldable pub mark_body :
      String → Statements (List OutboxRow) (Ending (Expected ErrorCode (Unit {0})))
  unfolding exec mark_rows check_affected
  mark_body id = Postgres.◌>>=◌ (exec (mark_rows id)) check_affected

  -- markAsPublished
  unfoldable pub mark_as_published :
      Faults
      → StrongId outbox_event_id
      → List OutboxRow
      → Expected ErrorCode (Unit {0}) × List OutboxRow
  unfolding transact mark_body
  mark_as_published faults id rows = transact faults (mark_body id.value) rows
