-- ===== src/Messaging/RecordExecutor/Outcomes.antt =====
-- When a record is completed: exactly after a handler or a dead-letter sink took it.
use liquid_pet_project.Prelude.{
  ℕ, zero, suc, ◌+◌, ◌≤◌, ◌<◌, ◌≡◌, inl, inr, ap, ◌∙◌, Bool, true, false, Option, none, some, List,
  [], ◌∷◌, arith, ltb, Bool-cases, Option-cases, eq_nat, eq_string,
}
use mathlib.Core.Path.{subst}
use liquid_pet_project.Prelude.Int.{pos, pos_part}
use liquid_pet_project.Messaging.RetryPolicy.{
  Doubles, RetryPolicy, delay_after_attempt, effective_max_attempts,
}
use liquid_pet_project.Messaging.Handling.{DeadLetterRecord}
use liquid_pet_project.Messaging.RecordExecutor.{
  WorkItem, RecordOutcome, succeeded, dead_lettered, abandoned, Surroundings, Action, handles,
  sends, sleeps, completes, State, should_abandon, invoke_handler, pause, send_record, dead_letter,
  one_attempt, attempts, after_attempts, execute, dead_letter_record,
}

abbrev pub handle_count : List Action → ℕ
handle_count [] = 0
handle_count (handles b ∷ acts) = suc (handle_count acts)
handle_count (_ ∷ acts) = handle_count acts

-- How many sends were refused.
abbrev pub refused_count : List Action → ℕ
refused_count [] = 0
refused_count (sends false ∷ acts) = suc (refused_count acts)
refused_count (_ ∷ acts) = refused_count acts

abbrev pub Uncompleted : List Action → Type 0
Uncompleted [] = Unit
Uncompleted (completes r ∷ acts) = ⊥
Uncompleted (_ ∷ acts) = Uncompleted acts

-- The actions, newest first, allow the outcome: a record that succeeded was completed right after
-- the handler accepted it, one that was dead-lettered right after the sink took it and after all
-- `n` attempts, and an abandoned one was never completed. The handler is called `n` times at most.
abbrev pub Justified : ℕ → RecordOutcome → List Action → Type 0
Justified n succeeded [] = ⊥
Justified n succeeded (completes r ∷ handles true ∷ rest) =
    Uncompleted rest × (handle_count rest < n)
Justified n succeeded (_ ∷ acts) = ⊥
Justified n dead_lettered [] = ⊥
Justified n dead_lettered (completes r ∷ sends true ∷ rest) =
    Uncompleted rest × (handle_count rest ≡ n)
Justified n dead_lettered (_ ∷ acts) = ⊥
Justified n abandoned acts = Uncompleted acts × (handle_count acts ≤ n)

-- What the attempts leave: all of them failed, or an outcome that is justified.
abbrev Tried : ℕ → Option RecordOutcome → List Action → Type 0
Tried n none acts = Uncompleted acts × (handle_count acts ≡ n)
Tried n (some o) acts = Justified n o acts

-- What the dead letters leave: every send refused, or an outcome that is justified.
abbrev Sent : ℕ → ℕ → Option RecordOutcome → List Action → Type 0
Sent n refused none acts = refused_count acts ≡ refused
Sent n refused (some o) acts = Justified n o acts

module _ (d : Doubles) (x : Surroundings) (p : RetryPolicy d) (item : WorkItem) where
  should_abandon-actions : (s : State d x) → (should_abandon d x item s).1.actions ≡ s.actions
  unfolding should_abandon
  should_abandon-actions s = ground arith

  checked_Uncompleted :
      (s : State d x) → Uncompleted s.actions → Uncompleted (should_abandon d x item s).1.actions
  checked_Uncompleted s u = rw (should_abandon-actions s) u

  checked_count :
      (f : List Action → ℕ) (s : State d x) → f (should_abandon d x item s).1.actions ≡ f s.actions
  checked_count f s = ap f (should_abandon-actions s)

  dead_letter-Sent :
      (n fuel attempt : ℕ) (letter : DeadLetterRecord) (s : State d x)
      → Uncompleted s.actions
      → handle_count s.actions ≡ n
      → Sent n
          (fuel + refused_count s.actions)
          (dead_letter d x fuel p item letter attempt s).0
          (dead_letter d x fuel p item letter attempt s).1.actions
  unfolding dead_letter
  dead_letter-Sent n zero attempt letter s u c = omega arith
  dead_letter-Sent n (suc fuel) attempt letter s u c =
      let s1 = (should_abandon d x item s).1 in
      let u1 = checked_Uncompleted s u in
      let c1 = checked_count handle_count s in
      let s2 = (send_record d x letter s1).1 in
      let rest = pause d x s2 (delay_after_attempt d p (pos attempt)) in
      elim (Bool-cases (should_abandon d x item s).0) [
        | inl give_up ↦ rw (give_up, dead_letter) (u1, omega arith)
        | inr go ↦
            rw (go, dead_letter)
              (elim (Bool-cases (send_record d x letter s1).0) [
                | inl taken ↦ rw taken (u1, c1 ∙ c)
                | inr refused ↦ elim (Bool-cases rest.0) [
                  | inr cut ↦ rw (refused, cut) (u1, omega arith)
                  | inl whole ↦
                      let s3 : State d x = record {
                        registry = s1.registry;
                        world = (x.sleep s2.world (delay_after_attempt d p (pos attempt))).1;
                        actions = sleeps true ∷ sends false ∷ s1.actions;
                      } in
                      let e : suc fuel + refused_count s.actions
                          ≡ fuel + suc (refused_count s1.actions) =
                        omega (arith, checked_count refused_count s) in
                      rw (refused, whole)
                        (rw e (dead_letter-Sent n fuel (suc attempt) letter s3 u1 (c1 ∙ c)))
                ]
              ])
      ]

  one_attempt-Tried :
      (n left attempt : ℕ) (more : Bool) (again : State d x → Option RecordOutcome × State d x)
      → ((s : State d x)
          → Uncompleted s.actions
          → handle_count s.actions + left ≡ n
          → Tried n (again s).0 (again s).1.actions)
      → (s : State d x) → Uncompleted s.actions
      → handle_count s.actions + suc left ≡ n
      → let r = one_attempt d x p item attempt more again s in Tried n r.0 r.1.actions
  unfolding one_attempt
  one_attempt-Tried n left attempt more again ih s u c =
      let s1 = (should_abandon d x item s).1 in
      let u1 = checked_Uncompleted s u in
      let c1 = checked_count handle_count s in
      let s2 = (invoke_handler d x item s1).1 in
      let rest = pause d x s2 (delay_after_attempt d p (pos attempt)) in
      elim (Bool-cases (should_abandon d x item s).0) [
        | inl give_up ↦ rw (give_up, one_attempt) (u1, omega arith)
        | inr go ↦
            rw (go, one_attempt)
              (elim (Bool-cases (invoke_handler d x item s1).0) [
                | inl handled ↦ rw handled (u1, omega arith)
                | inr failed ↦ elim (Bool-cases more) [
                  | inr last ↦ rw (failed, last) (ih _ u1 (omega arith))
                  | inl early ↦ elim (Bool-cases rest.0) [
                    | inr cut ↦ rw (failed, early, cut) (u1, omega arith)
                    | inl whole ↦ rw (failed, early, whole) (ih _ u1 (omega arith))
                  ]
                ]
              ])
      ]

  attempts-Tried :
      (n left attempt : ℕ) (s : State d x)
      → Uncompleted s.actions
      → handle_count s.actions + left ≡ n
      → Tried n
          (attempts d x left p item attempt s).0
          (attempts d x left p item attempt s).1.actions
  unfolding attempts
  attempts-Tried n zero attempt s u c = (u, omega arith)
  attempts-Tried n (suc left) attempt s u c =
      one_attempt-Tried n left attempt (ltb 0 left)
        (λ s'. attempts d x left p item (suc attempt) s') (attempts-Tried n left (suc attempt)) s u
        c

  -- How many times the handler may be called.
  abbrev pub max_calls : ℕ
  max_calls = pos_part (effective_max_attempts d p)

  after_attempts-Sent :
      (fuel : ℕ) (r : Option RecordOutcome × State d x)
      → Tried max_calls r.0 r.1.actions
      → Sent max_calls
          (fuel + refused_count r.1.actions)
          (after_attempts d x fuel p item r).0
          (after_attempts d x fuel p item r).1.actions
  unfolding after_attempts
  after_attempts-Sent fuel (some o, s) t = t
  after_attempts-Sent fuel (none, s) t =
      dead_letter-Sent max_calls fuel 1 (dead_letter_record d x item (effective_max_attempts d p)) s
        t.0 t.1

  execute-Sent :
      (fuel : ℕ) (s : State d x)
      → s.actions ≡ []
      → Sent max_calls
          (fuel + refused_count (attempts d x max_calls p item 1 s).1.actions)
          (execute d x fuel p item s).0
          (execute d x fuel p item s).1.actions
  unfolding execute
  execute-Sent fuel s e =
      after_attempts-Sent fuel (attempts d x max_calls p item 1 s)
        (attempts-Tried max_calls max_calls 1 s (rw e tt) (omega (arith, ap handle_count e)))

  module _ (fuel : ℕ) (s : State d x) (e : s.actions ≡ []) where
    -- Every outcome of `execute` is justified by the calls that it made: the record is completed
    -- only as the last step after the handler accepted it or, all attempts used up, after the sink
    -- took it; an abandoned record is not completed; the handler is called at most
    -- `effectiveMaxAttempts` times.
    pub execute-Justified :
        (o : RecordOutcome)
        → (execute d x fuel p item s).0 ≡ some o
        → Justified max_calls o (execute d x fuel p item s).1.actions
    execute-Justified o q =
        subst
          (λ r.
            Sent max_calls (fuel + refused_count (attempts d x max_calls p item 1 s).1.actions) r
              (execute d x fuel p item s).1.actions)
          q (execute-Sent fuel s e)

    -- If `execute` has not returned after `fuel` rounds at the dead-letter sink, then the sink has
    -- refused the record at least that many times.
    execute_runs_on :
        (execute d x fuel p item s).0 ≡ none
        → fuel ≤ refused_count (execute d x fuel p item s).1.actions
    execute_runs_on q = omega (
      arith,
      subst
          (λ r.
            Sent max_calls (fuel + refused_count (attempts d x max_calls p item 1 s).1.actions) r
              (execute d x fuel p item s).1.actions)
          q (execute-Sent fuel s e),
    )

    -- `execute` returns: some outcome is there as soon as the fuel exceeds the number of sends that
    -- the dead-letter sink refused in the run.
    pub execute_returns :
        refused_count (execute d x fuel p item s).1.actions < fuel
        → (o : RecordOutcome) × ((execute d x fuel p item s).0 ≡ some o)
    execute_returns h = elim (Option-cases (execute d x fuel p item s).0) [
      | inl runs ↦ absurd (omega (arith, execute_runs_on runs))
      | inr found ↦ found
    ]
