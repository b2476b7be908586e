-- ===== src/Examples/Registry.antt =====
-- The partition registry (shared/messaging/PartitionRegistry.h) on two partitions.
use liquid_pet_project.Prelude.{◌≡◌, ◌↔◌, refl, [], ◌∷◌, arith, ok}
use liquid_pet_project.Prelude.Int.{pos}
use liquid_pet_project.Prelude.Dict.{lookup, insert}
use liquid_pet_project.Messaging.PartitionRegistry.{
  PartitionKey, PartitionRegistry, RecordTicket, eq_key, key_beq, new, assign, assign_one,
  register_record, complete, commit_candidates, stale, put_tracker,
}
use liquid_pet_project.Messaging.PartitionRegistry.Invariant.{
  assigns, revokes, registers, completes, run, step, IsValid, new-IsValid, run-IsValid,
}
use liquid_pet_project.Messaging.PartitionRegistry.Stale.{complete_after_loss}
use liquid_pet_project.Messaging.PartitionRegistry.Positions.{
  commit_candidates_exact, Offered, IsReady,
}

abbrev orders : PartitionKey
orders = record { topic = "orders"; partition = pos 0 }

abbrev payments : PartitionKey
payments = record { topic = "payments"; partition = pos 3 }

abbrev owned : PartitionRegistry
owned = run new (assigns (orders ∷ payments ∷ []) ∷ registers orders 9 ∷ [])

abbrev first_ticket : RecordTicket
first_ticket = record { partition = orders; offset = 9; generation = 1 }

owned-IsValid : IsValid owned
owned-IsValid =
    run-IsValid new (assigns (orders ∷ payments ∷ []) ∷ registers orders 9 ∷ []) new-IsValid

run-IsValid_example : IsValid owned
run-IsValid_example =
    run-IsValid new (assigns (orders ∷ payments ∷ []) ∷ registers orders 9 ∷ []) new-IsValid

-- The partition is taken away and comes back before the record is finished.
abbrev away_and_back : PartitionRegistry
away_and_back = run owned (revokes (orders ∷ []) ∷ assigns (orders ∷ []) ∷ registers orders 9 ∷ [])

complete_after_loss_example : complete away_and_back first_ticket ≡ (ok stale, away_and_back)
unfolding run step new assign assign_one register_record put_tracker key_beq lookup insert
complete_after_loss_example =
    complete_after_loss owned (revokes (orders ∷ []))
      (assigns (orders ∷ []) ∷ registers orders 9 ∷ []) first_ticket refl (omega arith)
      (omega arith)

abbrev done : PartitionRegistry
done = run owned (completes first_ticket ∷ [])

commit_candidates_exact_example :
    Offered (record { partition = orders; offset = 10; generation = 1 }) (commit_candidates done)
    ↔ IsReady done.partitions (record { partition = orders; offset = 10; generation = 1 })
commit_candidates_exact_example =
    commit_candidates_exact done (record { partition = orders; offset = 10; generation = 1 })
      (run-IsValid owned (completes first_ticket ∷ []) owned-IsValid)
