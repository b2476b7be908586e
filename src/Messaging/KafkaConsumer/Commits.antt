-- ===== src/Messaging/KafkaConsumer/Commits.antt =====
-- Commits, confirmations and pauses (shared/messaging/consumer/KafkaEventConsumer.cpp) keep what the
-- calls so far promise.
use mathlib.Core.Option.{map as map_option}
use liquid_pet_project.Prelude.{
  ℕ, ◌≡◌, ◌∙◌, refl, inl, Bool, true, false, Option, none, some, List, [], ◌∷◌, All, All-map, Any,
  if◌then◌else◌,
}
use mathlib.Core.Path.{sym}
use liquid_pet_project.Prelude.Dict.{Dict}
use liquid_pet_project.Messaging.PartitionRegistry.{PartitionKey, CommitPosition}
use liquid_pet_project.Messaging.ConsumerPipeline
use liquid_pet_project.Messaging.ConsumerPipeline.{
  ConsumerPipeline, IncomingRecord, enqueue, ingest_registered,
}
use liquid_pet_project.Errors.{errc_enum}
use liquid_pet_project.Messaging.KafkaConsumer.{
  KafkaClient, commits, Consumer, Called, returned, threw, complete_all, confirm_all, candidates_of,
  meanwhile, after_pause, after_resume, apply_backpressure, after_commit, after_commit_offsets,
  commit_offsets, confirmed, commit_positions, commit_ready, offsets_from,
}
use liquid_pet_project.Messaging.KafkaConsumer.Positions.{Holds, commit_candidates-Holds}
use liquid_pet_project.Messaging.KafkaConsumer.Trace.{
  AcceptedWith, Backed, paused_by, HasValidRegistry, complete_all-IsValid, confirm_all-IsValid,
  map-HasValidRegistry, log_confirms-Backed, log_confirms-paused,
}

module _ (k : KafkaClient) where
  open k use {
    World, pause, resume, commit_sync, completions, now, poll, subscribe, threads, stop_requested,
    poll_rebalances, subscribe_rebalances,
  }

  -- The registry is well formed, every confirmation is backed, and the flag is what the calls of
  -- `pause` and `resume` came to.
  abbrev pub Sound : Consumer k → Type 0
  Sound s = HasValidRegistry s.pipeline × Backed s.actions × (s.paused ≡ paused_by s.actions)

  pub meanwhile-Sound : (s : Consumer k) → Sound s → Sound (meanwhile k s)
  unfolding meanwhile
  meanwhile-Sound s (v, b, a) = (
    map-HasValidRegistry (complete_all (completions s.world).0) s.pipeline
        (complete_all-IsValid (completions s.world).0) v,
    b,
    a,
  )

  after_pause-Sound : (s : Consumer k) (r : Called × World) → Sound s → Sound (after_pause k s r).1
  unfolding after_pause
  after_pause-Sound s (returned, w) (v, b, a) = (v, b, refl)
  after_pause-Sound s (threw, w) h = h

  after_resume-Sound :
      (s : Consumer k) (r : Called × World) → Sound s → Sound (after_resume k s r).1
  unfolding after_resume
  after_resume-Sound s (returned, w) (v, b, a) = (v, b, refl)
  after_resume-Sound s (threw, w) h = h

  -- Whatever a test gives, the branch taken is sound.
  pub if-Sound :
      {A : Type 0} (b : Bool) (x y : A × Consumer k)
      → Sound x.1
      → Sound y.1
      → Sound (if b then x else y).1
  if-Sound true x y h g = h
  if-Sound false x y h g = g

  pub choice-Sound : (b : Bool) (s t : Consumer k) → Sound s → Sound t → Sound (if b then s else t)
  choice-Sound true s t h g = h
  choice-Sound false s t h g = g

  pub backpressure-Sound :
      (drained : Bool) (s : Consumer k) → Sound s → Sound (apply_backpressure k drained s).1
  unfolding apply_backpressure
  backpressure-Sound false s h = after_pause-Sound s _ h
  backpressure-Sound true s h = if-Sound s.paused _ _ (after_resume-Sound s _ h) h

  after_commit-Sound :
      (s : Consumer k) (offsets : Dict PartitionKey ℕ) (r : Called × World)
      → Sound s
      → Sound (after_commit k s offsets r).1
  unfolding after_commit
  after_commit-Sound s offsets (returned, w) h = h
  after_commit-Sound s offsets (threw, w) h = h

  pub commit_offsets-Sound :
      (ps : List CommitPosition) (s : Consumer k) → Sound s → Sound (commit_offsets k ps s).1
  unfolding commit_offsets
  commit_offsets-Sound [] s h = h
  commit_offsets-Sound (p ∷ ps) s h = after_commit-Sound s _ _ h

  -- What the loop of `commitReady` confirms was in the commit before it.
  settled-Sound :
      (ps : List CommitPosition) (offsets : Dict PartitionKey ℕ) (s : Consumer k)
      (r : Called × World)
      → All (Holds offsets) ps
      → Sound s
      → Sound (after_commit_offsets k ps (after_commit k s offsets r))
  unfolding after_commit after_commit_offsets confirmed meanwhile
  settled-Sound ps offsets s (threw, w) held h = h
  settled-Sound ps offsets s (returned, w) held (v, b, a) = (
    map-HasValidRegistry (confirm_all ps) (map_option (complete_all (completions w).0) s.pipeline)
        (confirm_all-IsValid ps)
        (map-HasValidRegistry (complete_all (completions w).0) s.pipeline
          (complete_all-IsValid (completions w).0) v),
    log_confirms-Backed ps offsets (commits offsets true ∷ s.actions)
        (All-map (Holds offsets) (λ q. Any (AcceptedWith q) (commits offsets true ∷ s.actions))
          (λ q e. inl e) ps held)
        b,
    a ∙ sym (log_confirms-paused ps (commits offsets true ∷ s.actions)),
  )

  commit_positions-Sound :
      (ps : List CommitPosition) (time : ℕ) (s : Consumer k)
      → All (Holds (offsets_from [] ps)) ps
      → Sound s
      → Sound (commit_positions k ps time s)
  unfolding commit_positions commit_offsets
  commit_positions-Sound [] time s held h = h
  commit_positions-Sound (p ∷ ps) time s held h =
      settled-Sound (p ∷ ps) _ (record s { last_commit = time }) _ held h

  candidates-Holds :
      (o : Option ConsumerPipeline)
      → HasValidRegistry o
      → All (Holds (offsets_from [] (candidates_of o))) (candidates_of o)
  unfolding candidates_of ConsumerPipeline.commit_candidates
  candidates-Holds none v = tt
  candidates-Holds (some p) v = commit_candidates-Holds p.registry v

  pub commit_ready-Sound :
      (force : Bool) (s : Consumer k) → Sound s → Sound (commit_ready k force s)
  unfolding commit_ready
  commit_ready-Sound force s h =
      let s' : Consumer k = meanwhile k (record s { world = (now s.world).1 }) in
      let h' : Sound s' = meanwhile-Sound (record s { world = (now s.world).1 }) h in
      choice-Sound _ _ _ h (
        commit_positions-Sound (candidates_of s'.pipeline) (now s.world).0 s'
          (candidates-Holds s'.pipeline h'.0) h')
