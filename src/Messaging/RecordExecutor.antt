-- ===== src/Messaging/RecordExecutor.antt =====
-- shared/messaging/RecordExecutor.h: one record with its retries and its way to the dead letters.
-- The handler, the sink, the stop token, the clock and what the other threads do to the registry
-- between two of this thread's calls are the parameter `Surroundings`.
pub mod Outcomes
use liquid_pet_project.Prelude.{
  ℕ, zero, suc, ◌+◌, Bool, true, false, not, Option, none, some, List, [], ◌∷◌, String, ltb,
  if◌then◌else◌, Expected, ok, err,
}
use liquid_pet_project.Prelude.Int.{ℤ, pos, pos_part}
use liquid_pet_project.Errors.{ErrorCode}
use liquid_pet_project.Messaging.Handling.{
  MessageMetadata, DeadLetterRecord, HandlerReply, returned, threw,
}
use liquid_pet_project.Messaging.RetryPolicy.{
  Doubles, RetryPolicy, delay_after_attempt, effective_max_attempts,
}
use liquid_pet_project.Messaging.PartitionRegistry
use liquid_pet_project.Messaging.PartitionRegistry.{
  PartitionRegistry, RecordTicket, CompletionResult,
}

pub record WorkItem : Type 0 where
  pub ticket : RecordTicket
  pub payload : String
  pub metadata : MessageMetadata

pub data RecordOutcome : Type 0 where
  succeeded dead_lettered abandoned : RecordOutcome

pub record Surroundings : Type 1 where
  pub World : Type 0
  -- stop_token::stop_requested
  pub stop_requested : World → Bool × World
  -- IEventHandler::handle
  pub handle : World → String → MessageMetadata → HandlerReply × World
  -- IDeadLetterSink::send
  pub send : World → DeadLetterRecord → Expected ErrorCode (Unit {0}) × World
  -- sleepUnlessStopped: true if the whole pause was slept
  pub sleep : World → ℤ → Bool × World
  -- what the other threads do to the registry before this thread locks it
  pub others : World → PartitionRegistry → PartitionRegistry × World

-- The calls that the executor makes, for the statements about it.
pub data Action : Type 0 where
  handles : Bool → Action
  sends : Bool → Action
  sleeps : Bool → Action
  completes : Expected ErrorCode CompletionResult → Action

module _ (d : Doubles) (x : Surroundings) where
  open x use {World, stop_requested, handle, send, sleep, others}

  -- `actions` is newest first.
  pub record State : Type 0 where
    pub registry : PartitionRegistry
    pub world : World
    pub actions : List Action

  -- `_registry.isCurrent`, after what the others did.
  unfoldable pub is_current : State → RecordTicket → Bool × State
  is_current s ticket =
      let (r, w) = others s.world s.registry in
      (PartitionRegistry.is_current r ticket, record s { registry = r; world = w })

  -- `||` does not ask the registry if a stop was requested.
  unfoldable pub should_abandon : WorkItem → State → Bool × State
  unfolding is_current
  should_abandon item s =
      let (stop, w) = stop_requested s.world in
      let s' = record s { world = w } in
      let (current, s'') = is_current s' item.ticket in
      if stop then (true, s') else (not current, s'')

  abbrev accepted_reply : HandlerReply → Bool
  accepted_reply (returned b) = b
  accepted_reply threw = false

  unfoldable pub invoke_handler : WorkItem → State → Bool × State
  invoke_handler item s =
      let (reply, w) = handle s.world item.payload item.metadata in
      (
        accepted_reply reply,
        record s { world = w; actions = handles (accepted_reply reply) ∷ s.actions },
      )

  unfoldable pub pause : State → ℤ → Bool × State
  pause s duration =
      let (whole, w) = sleep s.world duration in
      (whole, record s { world = w; actions = sleeps whole ∷ s.actions })

  -- The result of `complete` is only logged.
  unfoldable pub finish : WorkItem → RecordOutcome → State → RecordOutcome × State
  finish item outcome s =
      let (r, w) = others s.world s.registry in
      let (result, r') = PartitionRegistry.complete r item.ticket in
      (outcome, record { registry = r'; world = w; actions = completes result ∷ s.actions })

  abbrev sent_ok : Expected ErrorCode (Unit {0}) → Bool
  sent_ok (ok _) = true
  sent_ok (err _) = false

  unfoldable pub send_record : DeadLetterRecord → State → Bool × State
  send_record letter s =
      let (sent, w) = send s.world letter in
      (sent_ok sent, record s { world = w; actions = sends (sent_ok sent) ∷ s.actions })

  unfoldable pub dead_letter_record : WorkItem → ℤ → DeadLetterRecord
  dead_letter_record item attempts = record {
    source = item.ticket.partition;
    offset = item.ticket.offset;
    attempts = attempts;
    payload = item.payload;
    metadata = item.metadata;
  }

  -- The loop of `deadLetter`, which the code leaves only by a `return`: `none` is fuel used up.
  unfoldable pub dead_letter :
      ℕ → RetryPolicy d → WorkItem → DeadLetterRecord → ℕ → State → Option RecordOutcome × State
  unfolding should_abandon send_record finish pause
  dead_letter zero p item letter attempt s = (none, s)
  dead_letter (suc fuel) p item letter attempt s =
      let (give_up, s1) = should_abandon item s in
      let (sent, s2) = send_record letter s1 in
      let (outcome, done) = finish item dead_lettered s2 in
      let (whole, s3) = pause s2 (delay_after_attempt d p (pos attempt)) in
      let again = dead_letter fuel p item letter (suc attempt) s3 in
      if give_up
      then (some abandoned, s1)
      else (if sent then (some outcome, done) else (if whole then again else (some abandoned, s3)))

  -- One round of the loop of `execute`; `more` is `attempt < maxAttempts` and `again` the rounds
  -- after this one.
  unfoldable pub one_attempt :
      RetryPolicy d
      → WorkItem
      → ℕ
      → Bool
      → (State → Option RecordOutcome × State)
      → State
      → Option RecordOutcome × State
  unfolding should_abandon invoke_handler finish pause
  one_attempt p item attempt more again s =
      let (give_up, s1) = should_abandon item s in
      let (handled, s2) = invoke_handler item s1 in
      let (outcome, done) = finish item succeeded s2 in
      let (whole, s3) = pause s2 (delay_after_attempt d p (pos attempt)) in
      if give_up
      then (some abandoned, s1)
      else (if handled
          then (some outcome, done)
          else (if more then (if whole then again s3 else (some abandoned, s3)) else again s2))

  -- The loop of `execute`, over the attempts that are left: `none` if all of them failed.
  unfoldable pub attempts : ℕ → RetryPolicy d → WorkItem → ℕ → State → Option RecordOutcome × State
  unfolding one_attempt
  attempts zero p item attempt s = (none, s)
  attempts (suc left) p item attempt s =
      one_attempt p item attempt (ltb 0 left) (λ s'. attempts left p item (suc attempt) s') s

  unfoldable pub after_attempts :
      ℕ → RetryPolicy d → WorkItem → Option RecordOutcome × State → Option RecordOutcome × State
  unfolding dead_letter dead_letter_record
  after_attempts fuel p item (some outcome, s) = (some outcome, s)
  after_attempts fuel p item (none, s) =
      dead_letter fuel p item (dead_letter_record item (effective_max_attempts d p)) 1 s

  unfoldable pub execute : ℕ → RetryPolicy d → WorkItem → State → Option RecordOutcome × State
  unfolding attempts after_attempts
  execute fuel p item s =
      after_attempts fuel p item (attempts (pos_part (effective_max_attempts d p)) p item 1 s)
