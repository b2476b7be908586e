-- ===== src/Examples/Publishing.antt =====
-- The outbox publisher (shared/outbox) on a script, and the errors (shared and the services).
use liquid_pet_project.Prelude.{ℕ, zero, suc, ◌≡◌, ◌≢◌, refl, [], ◌∷◌, false, ok, err, String}
use liquid_pet_project.Prelude.Int.{pos}
use liquid_pet_project.Errors.{
  make_error_code, event_publisher_enum, EventPublisherError, MoneyError, OrderError,
}
use liquid_pet_project.Errors.Messages.{message}
use liquid_pet_project.Errors.Messages.Defaults.{default_message}
use liquid_pet_project.Errors.Messages.Described
use liquid_pet_project.Errors.Messages.Described.{code_of, code_of-injective, described}
use liquid_pet_project.Outbox.{OutboxEntry, Waited, ready, Surroundings, process_batch}
use liquid_pet_project.Outbox.Marking.{Batch, process_batch-Batch}

abbrev entry : String → OutboxEntry
entry id = record {
  id = record { value = id };
  aggregate_id = "order";
  event_type = "OrderCreated";
  payload = "{}";
}

-- Two entries wait; the first send fails, the second succeeds and is marked.
abbrev answer : ℕ → Waited
answer zero = ready (err (make_error_code EventPublisherError.timeout))
answer (suc n) = ready (ok tt)

abbrev script : Surroundings
script = record {
  World = ℕ;
  Future = ℕ;
  fetch_unpublished = λ w limit. (ok (entry "a" ∷ entry "b" ∷ []), w);
  mark_as_published = λ w id. (ok tt, w);
  publish = λ w request. (w, suc w);
  wait = λ w future. (answer future, w);
  stop_requested = λ w. (false, w);
  sleep = λ w. w;
}

process_batch-Batch_example :
    Batch script "orders"
      (ok (entry "a" ∷ entry "b" ∷ []))
      (process_batch script "orders" (pos 2) 0)
process_batch-Batch_example = process_batch-Batch script "orders" (pos 2) 0

one_published : (process_batch script "orders" (pos 2) 0).0 ≡ record { fetched = 2; published = 1 }
unfolding process_batch
one_published = refl

abbrev no_texts : ℕ → String
no_texts n = ""

money_not_order : Described.money MoneyError.overflow ≢ Described.order OrderError.unknown_status
money_not_order h = cc

described_example :
    message no_texts (code_of (Described.money MoneyError.overflow))
    ≢ default_message (code_of (Described.money MoneyError.overflow)).category
described_example = described no_texts (Described.money MoneyError.overflow) money_not_order
