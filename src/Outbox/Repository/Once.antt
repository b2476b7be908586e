-- ===== src/Outbox/Repository/Once.antt =====
-- What `markAsPublished` marks is not fetched again (shared/outbox/PostgresOutboxRepository.cpp).
use liquid_pet_project.Prelude.{
  ◌≡◌, ◌⊎◌, Bool, true, false, Option, List, String, if◌then◌else◌, Expected, ok, err, map,
  eq_string, eq_nat,
}
use liquid_pet_project.Errors.{ErrorCode, make_error_code, repository_enum, RepositoryError}
use liquid_pet_project.Models.StrongId.{StrongId, outbox_event_id}
use liquid_pet_project.Postgres.{PqxxException, Ran, ran, raised, Ending, commits, gives_up}
use liquid_pet_project.Postgres.Transactions.{Fails}
use liquid_pet_project.Outbox.Repository.{OutboxRow}
use liquid_pet_project.Outbox.Repository.Marked.{marked_row}

module _ (uuid : String → String) (id : StrongId outbox_event_id) where
  -- What the body comes to: an exception, or no row and no commit, or the marks and a commit.
  abbrev Marks :
      List OutboxRow → Bool → Ran (List OutboxRow) (Ending (Expected ErrorCode (Unit {0}))) → Type 0
  Marks rows known result =
      ((e : PqxxException) × (result ≡ raised e))
      ⊎ ((rest : List (Option PqxxException)) × (result ≡ (
            if known
            then ran (commits (ok tt)) (map (marked_row uuid id) rows) rest
            else ran (gives_up (err (make_error_code RepositoryError.not_found)))
                (map (marked_row uuid id) rows) rest)))

  -- The outcome of a mark, on rows of which one has the identifier or none.
  abbrev pub Outcome :
      List OutboxRow → Bool → Expected ErrorCode (Unit {0}) × List OutboxRow → Type 0
  Outcome rows true result =
      (result ≡ (ok tt, map (marked_row uuid id) rows))
      ⊎ (Fails rows result ⊎ Fails (map (marked_row uuid id) rows) result)
  Outcome rows false result =
      (result ≡ (err (make_error_code RepositoryError.not_found), rows)) ⊎ Fails rows result
