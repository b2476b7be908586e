-- ===== src/Postgres.antt =====
-- shared/repository/postgres/PqxxExceptionMapper.h, and what the repositories use of libpqxx: a
-- transaction that runs statements and then commits or is given up. The statements are those of the
-- program; what fails is a parameter.
pub mod Transactions
use liquid_pet_project.Prelude.{
  Bool, true, false, Option, none, some, List, [], ◌∷◌, Expected, ok, err, if◌then◌else◌,
}
use liquid_pet_project.Errors.{ErrorCode, make_error_code, repository_enum, RepositoryError}

-- The exceptions that `mapPqxxException` tells apart, and all the others.
pub data PqxxException : Type 0 where
  broken_connection unique_violation foreign_key_violation check_violation in_doubt_error
        other_exception :
      PqxxException

unfoldable pub map_pqxx_exception : PqxxException → ErrorCode
map_pqxx_exception broken_connection = make_error_code RepositoryError.connection_failure
map_pqxx_exception unique_violation = make_error_code RepositoryError.constraint_violation
map_pqxx_exception foreign_key_violation = make_error_code RepositoryError.constraint_violation
map_pqxx_exception check_violation = make_error_code RepositoryError.constraint_violation
map_pqxx_exception in_doubt_error = make_error_code RepositoryError.timeout
map_pqxx_exception other_exception = make_error_code RepositoryError.serialization_failure

-- How a commit ends; in doubt, the connection is lost and it has or has not taken effect.
pub data Commit : Type 0 where
  committed : Commit
  commit_failed : PqxxException → Commit
  in_doubt : Bool → Commit

-- What fails in one transaction: the connection, each statement in turn, the commit. A list that
-- ends early stands for statements that succeed.
pub record Faults : Type 0 where
  pub connect : Option PqxxException
  pub statements : List (Option PqxxException)
  pub commit : Commit

-- What a run of statements comes to, with the database as the transaction sees it.
pub data Ran {ℓ κ} (D : Type ℓ) (A : Type κ) : Type (ℓ ⊔ κ) where
  ran : A → D → List (Option PqxxException) → Ran D A
  raised : PqxxException → Ran D A

abbrev pub Statements {ℓ κ} : Type ℓ → Type κ → Type (ℓ ⊔ κ)
Statements D A = D → List (Option PqxxException) → Ran D A

module _ {ℓ κ} {D : Type ℓ} {A : Type κ} where
  -- `work.exec`
  unfoldable pub exec : (D → A × D) → Statements D A
  exec query d [] = ran (query d).0 (query d).1 []
  exec query d (none ∷ faults) = ran (query d).0 (query d).1 faults
  exec query d (some e ∷ faults) = raised e

  abbrev pub pure : A → Statements D A
  pure a d faults = ran a d faults

  abbrev pub continue {ν} : {B : Type ν} → Ran D A → (A → Statements D B) → Ran D B
  continue (ran a d faults) next = next a d faults
  continue (raised e) next = raised e

  infixl 5 ◌>>=◌
  abbrev pub ◌>>=◌ {ν} : {B : Type ν} → Statements D A → (A → Statements D B) → Statements D B
  ◌>>=◌ first next d faults = continue (first d faults) next

-- How the body of a method ends: with a commit and a value, or with a value and no commit.
pub data Ending {ℓ} (A : Type ℓ) : Type ℓ where
  commits : A → Ending A
  gives_up : A → Ending A

module _ {ℓ κ} {D : Type ℓ} {A : Type κ} where
  -- The end of a transaction on the database `d`, which the transaction has made `d'`.
  unfoldable pub close : Commit → D → D → Ending (Expected ErrorCode A) → Expected ErrorCode A × D
  unfolding map_pqxx_exception
  close outcome d d' (gives_up a) = (a, d)
  close committed d d' (commits a) = (a, d')
  close (commit_failed e) d d' (commits a) = (err (map_pqxx_exception e), d)
  close (in_doubt applied) d d' (commits a) =
      (err (map_pqxx_exception in_doubt_error), if applied then d' else d)

  unfoldable pub conclude :
      Commit → D → Ran D (Ending (Expected ErrorCode A)) → Expected ErrorCode A × D
  unfolding close map_pqxx_exception
  conclude outcome d (raised e) = (err (map_pqxx_exception e), d)
  conclude outcome d (ran ending d' faults) = close outcome d d' ending

  -- A method: `try { work; …; commit } catch`.
  unfoldable pub transact :
      Faults → Statements D (Ending (Expected ErrorCode A)) → D → Expected ErrorCode A × D
  unfolding conclude map_pqxx_exception
  transact faults body d = elim faults.connect [
    | some e ↦ (err (map_pqxx_exception e), d)
    | none ↦ conclude faults.commit d (body d faults.statements)
  ]
