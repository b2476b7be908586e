-- ===== src/Messaging/KafkaConsumer/Trace.antt =====
-- What holds of the consumer (shared/messaging/consumer/KafkaEventConsumer.cpp) and of the calls that
-- it has made, at every moment of its life.
use mathlib.Core.Option.{map as map_option}
use liquid_pet_project.Prelude.{
  ℕ, ◌≡◌, refl, inr, Bool, true, false, Option, none, some, List, [], ◌∷◌, All, All-map, Any,
  Expected, ok, err,
}
use liquid_pet_project.Prelude.Dict.{Dict}
use liquid_pet_project.Messaging.PartitionRegistry
use liquid_pet_project.Messaging.PartitionRegistry.{
  PartitionKey, RecordTicket, CommitPosition, PartitionRegistry,
}
use liquid_pet_project.Messaging.PartitionRegistry.Invariant
use liquid_pet_project.Messaging.PartitionRegistry.Invariant.{
  IsValid, step-IsValid, assigns, revokes, registers, completes, confirms as confirms_call,
  new-IsValid,
}
use liquid_pet_project.Messaging.ConsumerPipeline
use liquid_pet_project.Messaging.ConsumerPipeline.{
  ConsumerPipeline, IncomingRecord, enqueue, ingest_registered,
}
use liquid_pet_project.Errors.{ErrorCode, errc_enum}
use liquid_pet_project.Models.StrongId.{StrongId, outbox_event_id}
use liquid_pet_project.Messaging.KafkaConsumer.{
  Action, subscribes, delays, commits, confirms, pauses, resumes, complete_all, confirm_all,
  log_confirms,
}
use liquid_pet_project.Messaging.KafkaConsumer.Positions.{Holds}

-- A commit that the broker accepted, with this offset for the position's partition.
abbrev pub AcceptedWith : CommitPosition → Action → Type 0
AcceptedWith q (subscribes b) = ⊥
AcceptedWith q delays = ⊥
AcceptedWith q (commits offsets true) = Holds offsets q
AcceptedWith q (commits offsets false) = ⊥
AcceptedWith q (confirms p) = ⊥
AcceptedWith q pauses = ⊥
AcceptedWith q resumes = ⊥

-- Before every confirmation there is an accepted commit of what it confirms.
abbrev pub Backed : List Action → Type 0
Backed [] = Unit
Backed (subscribes b ∷ rest) = Backed rest
Backed (delays ∷ rest) = Backed rest
Backed (commits offsets b ∷ rest) = Backed rest
Backed (confirms q ∷ rest) = Any (AcceptedWith q) rest × Backed rest
Backed (pauses ∷ rest) = Backed rest
Backed (resumes ∷ rest) = Backed rest

-- Whether the last call of `pause` or `resume` that returned was a pause.
abbrev pub paused_by : List Action → Bool
paused_by [] = false
paused_by (subscribes b ∷ rest) = paused_by rest
paused_by (delays ∷ rest) = paused_by rest
paused_by (commits offsets b ∷ rest) = paused_by rest
paused_by (confirms q ∷ rest) = paused_by rest
paused_by (pauses ∷ rest) = true
paused_by (resumes ∷ rest) = false

abbrev pub HasValidRegistry : Option ConsumerPipeline → Type 0
HasValidRegistry none = Unit
HasValidRegistry (some p) = IsValid p.registry

pub complete_all-IsValid :
    (tickets : List RecordTicket) (p : ConsumerPipeline)
    → IsValid p.registry
    → IsValid (complete_all tickets p).registry
unfolding complete_all Invariant.step
complete_all-IsValid [] p v = v
complete_all-IsValid (t ∷ ts) p v =
    complete_all-IsValid ts (record p { registry = (PartitionRegistry.complete p.registry t).1 })
      (step-IsValid p.registry (completes t) v)

pub confirm_all-IsValid :
    (ps : List CommitPosition) (p : ConsumerPipeline)
    → IsValid p.registry
    → IsValid (confirm_all ps p).registry
unfolding confirm_all ConsumerPipeline.confirm_commit Invariant.step
confirm_all-IsValid [] p v = v
confirm_all-IsValid (q ∷ qs) p v =
    confirm_all-IsValid qs (ConsumerPipeline.confirm_commit p q)
      (step-IsValid p.registry (confirms_call q) v)

enqueue-IsValid :
    (p : ConsumerPipeline) (incoming : IncomingRecord) (ticket : RecordTicket)
    (id : Expected ErrorCode (StrongId outbox_event_id))
    → IsValid p.registry
    → IsValid (enqueue p incoming ticket id).registry
unfolding enqueue Invariant.step
enqueue-IsValid p incoming ticket (err e) v = step-IsValid p.registry (completes ticket) v
enqueue-IsValid p incoming ticket (ok id) v = v

registered-IsValid :
    (p : ConsumerPipeline) (incoming : IncomingRecord) (r : Expected ErrorCode RecordTicket)
    → IsValid p.registry
    → IsValid (ingest_registered p incoming r).registry
unfolding ingest_registered
registered-IsValid p incoming (err e) v = v
registered-IsValid p incoming (ok ticket) v = enqueue-IsValid p incoming ticket _ v

pub ingest-IsValid :
    (p : ConsumerPipeline) (incoming : IncomingRecord)
    → IsValid p.registry
    → IsValid (ConsumerPipeline.ingest p incoming).registry
unfolding ConsumerPipeline.ingest Invariant.step
ingest-IsValid p incoming v =
    registered-IsValid (record p { registry = r.1 }) incoming r.0
      (step-IsValid p.registry (registers incoming.partition incoming.offset) v)
  where
    r : Expected ErrorCode RecordTicket × PartitionRegistry
    r = PartitionRegistry.register_record p.registry incoming.partition incoming.offset

-- A mapped pipeline stays valid if the map keeps registries valid.
pub map-HasValidRegistry :
    (f : ConsumerPipeline → ConsumerPipeline) (o : Option ConsumerPipeline)
    → ((p : ConsumerPipeline) → IsValid p.registry → IsValid (f p).registry)
    → HasValidRegistry o
    → HasValidRegistry (map_option f o)
map-HasValidRegistry f none keep v = tt
map-HasValidRegistry f (some p) keep v = keep p v

-- Confirmations of positions that an earlier commit holds keep the calls backed.
pub log_confirms-Backed :
    (ps : List CommitPosition) (offsets : Dict PartitionKey ℕ) (actions : List Action)
    → All (λ q. Any (AcceptedWith q) actions) ps
    → Backed actions
    → Backed (log_confirms ps actions)
unfolding log_confirms
log_confirms-Backed [] offsets actions h b = b
log_confirms-Backed (q ∷ qs) offsets actions h b =
    log_confirms-Backed qs offsets (confirms q ∷ actions)
      (All-map (λ p. Any (AcceptedWith p) actions)
        (λ p. Any (AcceptedWith p) (confirms q ∷ actions)) (λ p e. inr e) qs h.1)
      (h.0, b)

pub log_confirms-paused :
    (ps : List CommitPosition) (actions : List Action)
    → paused_by (log_confirms ps actions) ≡ paused_by actions
unfolding log_confirms
log_confirms-paused [] actions = refl
log_confirms-paused (q ∷ qs) actions = log_confirms-paused qs (confirms q ∷ actions)
