-- ===== src/Messaging/KafkaConsumer/Stopping.antt =====
-- What a stop leaves (shared/messaging/consumer/KafkaEventConsumer.cpp: `stop` and its last commit).
use mathlib.Core.Option.{map as map_option}
use liquid_pet_project.Prelude.{
  ℕ, ◌≡◌, ◌∙◌, ◌⊎◌, refl, sym, ap, inl, inr, true, false, Option, none, some, List, [], ◌∷◌, map,
}
use liquid_pet_project.Prelude.Dict.{Dict}
use liquid_pet_project.Messaging.PartitionRegistry
use liquid_pet_project.Messaging.PartitionRegistry.{
  PartitionKey, RecordTicket, CommitPosition, PartitionRegistry,
}
use liquid_pet_project.Messaging.PartitionRegistry.Invariant
use liquid_pet_project.Messaging.PartitionRegistry.Invariant.{
  IsValid, run as registry_run, confirms as confirms_call,
}
use liquid_pet_project.Messaging.PartitionRegistry.Confirmed.{candidates-confirmed}
use liquid_pet_project.Messaging.ConsumerPipeline
use liquid_pet_project.Messaging.ConsumerPipeline.{ConsumerPipeline}
use liquid_pet_project.Messaging.KafkaConsumer.{
  KafkaClient, Action, commits, Consumer, Called, returned, threw, confirm_all, candidates_of,
  meanwhile, after_commit, after_commit_offsets, commit_offsets, confirmed, commit_positions,
  commit_ready, stop, offsets_from, complete_all,
}
use liquid_pet_project.Messaging.KafkaConsumer.Trace.{
  HasValidRegistry, map-HasValidRegistry, complete_all-IsValid,
}

confirm_all-registry :
    (ps : List CommitPosition) (p : ConsumerPipeline)
    → (confirm_all ps p).registry ≡ registry_run p.registry (map confirms_call ps)
unfolding confirm_all ConsumerPipeline.confirm_commit registry_run Invariant.step
confirm_all-registry [] p = refl
confirm_all-registry (q ∷ qs) p = confirm_all-registry qs (ConsumerPipeline.confirm_commit p q)

confirm_all-empties :
    (o : Option ConsumerPipeline)
    → HasValidRegistry o
    → candidates_of (map_option (confirm_all (candidates_of o)) o) ≡ []
unfolding candidates_of ConsumerPipeline.commit_candidates
confirm_all-empties none v = refl
confirm_all-empties (some p) v =
    ap PartitionRegistry.commit_candidates
      (confirm_all-registry (PartitionRegistry.commit_candidates p.registry) p)
    ∙ candidates-confirmed p.registry v

no_completions : (o : Option ConsumerPipeline) → map_option (complete_all []) o ≡ o
unfolding complete_all
no_completions none = refl
no_completions (some p) = refl

module _ (k : KafkaClient) where
  open k use {World, completions, commit_sync, now}

  module _ (quiet : (w : World) → (completions w).0 ≡ []) where
    meanwhile_quiet : (s : Consumer k) → (meanwhile k s).pipeline ≡ s.pipeline
    unfolding meanwhile
    meanwhile_quiet s = rw (quiet s.world) (no_completions s.pipeline)

    -- Either the broker refused the commit that was sent, or nothing is left to commit.
    abbrev pub Settled : List Action → Consumer k → Type 0
    Settled before t =
        ((offsets : Dict PartitionKey ℕ) × (t.actions ≡ commits offsets false ∷ before))
        ⊎ (candidates_of t.pipeline ≡ [])

    after_commit-Settled :
        (ps : List CommitPosition) (offsets : Dict PartitionKey ℕ) (s : Consumer k)
        (r : Called × World)
        → ps ≡ candidates_of s.pipeline
        → HasValidRegistry s.pipeline
        → Settled s.actions (after_commit_offsets k ps (after_commit k s offsets r))
    unfolding after_commit after_commit_offsets confirmed meanwhile
    after_commit-Settled ps offsets s (threw, w) e v = inl (offsets, refl)
    after_commit-Settled ps offsets s (returned, w) e v = inr (
        ap (λ o. candidates_of (map_option (confirm_all ps) o))
          (ap (λ ts. map_option (complete_all ts) s.pipeline) (quiet w) ∙ no_completions s.pipeline)
        ∙ (ap (λ qs. candidates_of (map_option (confirm_all qs) s.pipeline)) e
            ∙ confirm_all-empties s.pipeline v))

    commit_positions-Settled :
        (ps : List CommitPosition) (time : ℕ) (s : Consumer k)
        → ps ≡ candidates_of s.pipeline
        → HasValidRegistry s.pipeline
        → Settled s.actions (commit_positions k ps time s)
    unfolding commit_positions commit_offsets
    commit_positions-Settled [] time s e v = inr (sym e)
    commit_positions-Settled (p ∷ ps) time s e v =
        after_commit-Settled (p ∷ ps) (offsets_from [] (p ∷ ps)) (record s { last_commit = time })
          (commit_sync s.world (offsets_from [] (p ∷ ps))) e v

    commit_ready-Settled :
        (s : Consumer k) → HasValidRegistry s.pipeline → Settled s.actions (commit_ready k true s)
    unfolding commit_ready meanwhile
    commit_ready-Settled s v =
        let s' : Consumer k = meanwhile k (record s { world = (now s.world).1 }) in
        let time = (now s.world).0 in
        commit_positions-Settled (candidates_of s'.pipeline) time s' refl (
          map-HasValidRegistry (complete_all (completions (now s.world).1).0) s.pipeline
            (complete_all-IsValid (completions (now s.world).1).0) v)

    -- If no thread of the pool completes a record meanwhile, a stop of a running consumer ends with
    -- one commit that the broker refused, or with no position left that could be committed.
    pub stop_settles :
        (s : Consumer k)
        → HasValidRegistry s.pipeline
        → s.running ≡ true
        → Settled s.actions (stop k s)
    unfolding stop meanwhile ConsumerPipeline.stop
    stop_settles s v on = rw on (
        commit_ready-Settled
          (record (meanwhile k s) {
            running = false;
            pipeline = map_option ConsumerPipeline.stop (meanwhile k s).pipeline;
          })
          (map-HasValidRegistry ConsumerPipeline.stop (meanwhile k s).pipeline (λ p w. w)
            (map-HasValidRegistry (complete_all (completions s.world).0) s.pipeline
              (complete_all-IsValid (completions s.world).0) v)))
