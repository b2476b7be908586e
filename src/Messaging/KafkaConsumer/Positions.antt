-- ===== src/Messaging/KafkaConsumer/Positions.antt =====
-- The map that `commitOffsets` sends (shared/messaging/consumer/KafkaEventConsumer.cpp) holds every
-- position that the registry offers.
use liquid_pet_project.Prelude.{
  ℕ, ◌≡◌, ◌∙◌, refl, inl, inr, some, List, [], ◌∷◌, All, Option-cases, eq_nat, eq_string, beq_self,
}
use liquid_pet_project.Prelude.Dict.{Dict, lookup, insert, lookup-insert, Distinct}
use liquid_pet_project.Messaging.OffsetTracker
use liquid_pet_project.Messaging.PartitionRegistry.{
  PartitionKey, eq_key, CommitPosition, PartitionState, PartitionRegistry, position_of,
  candidates_of, commit_candidates,
}
use liquid_pet_project.Messaging.PartitionRegistry.Invariant.{IsValid}
use liquid_pet_project.Messaging.PartitionRegistry.Confirmed.{Elsewhere, candidates_of-Elsewhere}
use liquid_pet_project.Messaging.KafkaConsumer.{offsets_from}

-- The map has the position's offset under its partition.
abbrev pub Holds : Dict PartitionKey ℕ → CommitPosition → Type 0
Holds offsets p = lookup p.partition offsets ≡ some p.offset

lookup-offsets_from :
    (k : PartitionKey) (offsets : Dict PartitionKey ℕ) (ps : List CommitPosition)
    → All (Elsewhere k) ps
    → lookup k (offsets_from offsets ps) ≡ lookup k offsets
unfolding offsets_from
lookup-offsets_from k offsets [] h = refl
lookup-offsets_from k offsets (p ∷ ps) h =
    lookup-offsets_from k (insert p.partition p.offset offsets) ps h.1
    ∙ (lookup-insert p.partition k p.offset offsets ∙ rw h.0)

offsets_from-Holds :
    (m : Dict PartitionKey PartitionState) (offsets : Dict PartitionKey ℕ)
    → Distinct m
    → All (Holds (offsets_from offsets (candidates_of m))) (candidates_of m)
unfolding candidates_of offsets_from
offsets_from-Holds [] offsets d = tt
offsets_from-Holds ((k, s) ∷ m) offsets d =
    elim (Option-cases (OffsetTracker.commit_candidate s.tracker)) [
      | inl nothing ↦ rw (nothing, position_of, candidates_of) (offsets_from-Holds m offsets d.1)
      | inr (o, offered) ↦
          rw (offered, position_of, offsets_from)
            (
              lookup-offsets_from k (insert k o offsets) (candidates_of m)
                    (candidates_of-Elsewhere k m d.0)
                  ∙ (lookup-insert k k o offsets ∙ rw (beq_self k)),
              offsets_from-Holds m (insert k o offsets) d.1,
            )
    ]

-- Every position that a registry offers is in the map that is committed for them.
pub commit_candidates-Holds :
    (r : PartitionRegistry)
    → IsValid r
    → All (Holds (offsets_from [] (commit_candidates r))) (commit_candidates r)
unfolding commit_candidates
commit_candidates-Holds r v = offsets_from-Holds r.partitions [] v.distinct
