-- ===== src/Postgres/Transactions.antt =====
-- A transaction takes effect as a whole or not at all (the repositories over libpqxx).
use mathlib.Core.Path.{subst, sym}
use liquid_pet_project.Prelude.{
  ◌≡◌, ◌⊎◌, ◌∙◌, ap, refl, inl, inr, true, false, Option, none, some, List, [], Expected, err,
}
use liquid_pet_project.Errors.{ErrorCode}
use liquid_pet_project.Postgres.{
  PqxxException, map_pqxx_exception, Commit, committed, commit_failed, in_doubt, in_doubt_error,
  Faults, Ran, ran, raised, Statements, Ending, commits, gives_up, close, conclude, transact,
}

abbrev pub no_faults : Faults
no_faults = record { connect = none; statements = []; commit = committed }

module _ {ℓ κ} {D : Type ℓ} {A : Type κ} where
  -- An error, and the database as it is or as it was.
  abbrev pub Fails : D → Expected ErrorCode A × D → Type (ℓ ⊔ κ)
  Fails d result = (e : PqxxException) × (result ≡ (err (map_pqxx_exception e), d))

  commit_outcomes :
      (outcome : Commit) (a : Expected ErrorCode A) (d d' : D)
      → (close outcome d d' (commits a) ≡ (a, d'))
        ⊎ (Fails d (close outcome d d' (commits a)) ⊎ Fails d' (close outcome d d' (commits a)))
  unfolding close
  commit_outcomes committed a d d' = inl refl
  commit_outcomes (commit_failed e) a d d' = inr (inl (e, refl))
  commit_outcomes (in_doubt true) a d d' = inr (inr (in_doubt_error, refl))
  commit_outcomes (in_doubt false) a d d' = inr (inl (in_doubt_error, refl))

  -- A method whose connection is there ends as its body does, and one without fails.
  connection :
      (o : Option PqxxException) (outcome : Commit) (d : D)
      (body : Ran D (Ending (Expected ErrorCode A)))
      → let result : Expected ErrorCode A × D = elim o [
        | some e ↦ (err (map_pqxx_exception e), d)
        | none ↦ conclude outcome d body
      ] in
        Fails d result ⊎ (result ≡ conclude outcome d body)
  connection (some e) outcome d body = inl (e, refl)
  connection none outcome d body = inr refl

  module _ (faults : Faults) (body : Statements D (Ending (Expected ErrorCode A))) (d : D) where
    connected :
        Fails d (transact faults body d)
        ⊎ (transact faults body d ≡ conclude faults.commit d (body d faults.statements))
    unfolding transact
    connected = connection faults.connect faults.commit d (body d faults.statements)

    -- After an exception of a statement the database is as it was.
    pub transact-raised :
        {e : PqxxException} → body d faults.statements ≡ raised e → Fails d (transact faults body d)
    unfolding conclude
    transact-raised {e} h = elim connected [
      | inl fails ↦ fails
      | inr same ↦ (e, same ∙ ap (conclude faults.commit d) h)
    ]

    -- A method that gives up answers so, or fails; either way the database is as it was.
    pub transact-gives_up :
        {a : Expected ErrorCode A} {d' : D} {rest : List (Option PqxxException)}
        → body d faults.statements ≡ ran (gives_up a) d' rest
        → (transact faults body d ≡ (a, d)) ⊎ Fails d (transact faults body d)
    unfolding conclude close
    transact-gives_up h = elim connected [
      | inl fails ↦ inr fails
      | inr same ↦ inl (same ∙ ap (conclude faults.commit d) h)
    ]

    -- A method that commits answers so with its whole effect, or fails with no effect or all of it.
    pub transact-commits :
        {a : Expected ErrorCode A} {d' : D} {rest : List (Option PqxxException)}
        → body d faults.statements ≡ ran (commits a) d' rest
        → (transact faults body d ≡ (a, d'))
          ⊎ (Fails d (transact faults body d) ⊎ Fails d' (transact faults body d))
    unfolding conclude
    transact-commits {a} {d'} h = elim connected [
      | inl fails ↦ inr (inl fails)
      | inr same ↦
          let e = same ∙ ap (conclude faults.commit d) h in
          subst (λ r. (r ≡ (a, d')) ⊎ (Fails d r ⊎ Fails d' r)) (sym e)
            (commit_outcomes faults.commit a d d')
    ]
