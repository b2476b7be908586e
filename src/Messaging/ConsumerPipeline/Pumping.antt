-- ===== src/Messaging/ConsumerPipeline/Pumping.antt =====
-- `pump` (shared/messaging/ConsumerPipeline.h) against the runs of the pool.
use liquid_pet_project.Prelude.{
  ℕ, suc, ◌≤◌, ◌≡◌, ◌↔◌, ◌⊎◌, inl, inr, refl, sym, ap, ◌∙◌, Bool, true, false, List, [], ◌∷◌, ◌++◌,
  append-nil, append_assoc, arith, length, Bool-cases,
}
use liquid_pet_project.Messaging.RecordExecutor.{WorkItem}
use liquid_pet_project.Messaging.WorkerPool.{
  WorkerPool, try_submit, Event, accepts, rejects, starts, finishes, drops, requests, Run, here,
  later, submit_accepted, submit_rejected,
}
use liquid_pet_project.Messaging.WorkerPool.Reachable.{accepted}
use liquid_pet_project.Messaging.ConsumerPipeline.{ConsumerPipeline, pump, pump_items}

-- What threads do is steps of the pool, none of them a submission.
abbrev pub AreThreads : (ℕ → WorkerPool WorkItem → WorkerPool WorkItem) → Type 0
AreThreads threads =
    (n : ℕ) (pool : WorkerPool WorkItem)
    → (es : List (Event WorkItem)) × (Run pool es (threads n pool) × (accepted es ≡ []))

module _ {ℓ} {A : Type ℓ} where
  Run-trans :
      {p q r : WorkerPool A} {es fs : List (Event A)} → Run p es q → Run q fs r → Run p (fs ++ es) r
  Run-trans a here = a
  Run-trans a (later b s) = later (Run-trans a b) s

  accepted-append : (fs es : List (Event A)) → accepted (fs ++ es) ≡ accepted es ++ accepted fs
  accepted-append [] es = sym (append-nil (accepted es))
  accepted-append (accepts t ∷ fs) es =
      ap (λ ts. ts ++ t ∷ []) (accepted-append fs es)
      ∙ append_assoc (accepted es) (accepted fs) (t ∷ [])
  accepted-append (rejects t ∷ fs) es = accepted-append fs es
  accepted-append (starts t ∷ fs) es = accepted-append fs es
  accepted-append (finishes t ∷ fs) es = accepted-append fs es
  accepted-append (drops ts ∷ fs) es = accepted-append fs es
  accepted-append (requests ∷ fs) es = accepted-append fs es

-- What a pump comes to: the pool made a run that accepted the front of the backlog, in order, and
-- the rest is left; it stops early only at a pool that refuses.
pub record Pumped (pool : WorkerPool WorkItem) (items : List WorkItem) (emptied : Bool)
    (left : List WorkItem) (pool' : WorkerPool WorkItem) : Type 0 where
  pub events : List (Event WorkItem)
  pub run : Run pool events pool'
  pub in_order : accepted events ++ left ≡ items
  pub emptied_iff : (emptied ≡ true) ↔ (left ≡ [])
  pub refusing : emptied ≡ false → (pool'.stopped ≡ true) ⊎ (pool'.capacity ≤ length pool'.queue)

abbrev Pumps :
    WorkerPool WorkItem → List WorkItem → Bool × (List WorkItem × WorkerPool WorkItem) → Type 0
Pumps pool items (emptied, (left, pool')) = Pumped pool items emptied left pool'

refusal :
    (pool pool' : WorkerPool WorkItem) (item : WorkItem)
    → try_submit pool item ≡ (false, pool')
    → (pool'.stopped ≡ true) ⊎ (pool'.capacity ≤ length pool'.queue)
unfolding try_submit
refusal pool pool' item h = ground arith

-- One accepted item before what the rest of the loop comes to.
Pumped-more :
    (pool pool1 pool2 : WorkerPool WorkItem) (item : WorkItem) (items : List WorkItem)
    (es : List (Event WorkItem)) (result : Bool × (List WorkItem × WorkerPool WorkItem))
    → Run pool es pool1
    → accepted es ≡ []
    → try_submit pool1 item ≡ (true, pool2)
    → Pumps pool2 items result
    → Pumps pool (item ∷ items) result
Pumped-more pool pool1 pool2 item items es (emptied, (left, pool')) run none_in step p = record {
  events = p.events ++ accepts item ∷ es;
  run = Run-trans (later run (submit_accepted item pool2 step)) p.run;
  in_order =
      ap (λ ts. ts ++ left)
        (accepted-append p.events (accepts item ∷ es)
          ∙ ap (λ ts. (ts ++ item ∷ []) ++ accepted p.events) none_in)
      ∙ ap (λ ts. item ∷ ts) p.in_order;
  emptied_iff = p.emptied_iff;
  refusing = p.refusing;
}

module _ (threads : ℕ → WorkerPool WorkItem → WorkerPool WorkItem)
    (ok_threads : AreThreads threads) where
  pump_items-Pumps :
      (n : ℕ) (items : List WorkItem) (pool : WorkerPool WorkItem)
      → Pumps pool items (pump_items threads n items pool)
  unfolding pump_items
  pump_items-Pumps n [] pool = record {
    events = [];
    run = here;
    in_order = refl;
    emptied_iff = (λ h. refl, λ h. refl);
    refusing = λ h. absurd (ground arith);
  }
  pump_items-Pumps n (item ∷ items) pool =
      let (es, (run, quiet)) = ok_threads n pool in
      let pool2 = (try_submit (threads n pool) item).1 in
      elim (Bool-cases (try_submit (threads n pool) item).0) [
        | inl goes ↦
            let step : try_submit (threads n pool) item ≡ (true, pool2) =
              ap (λ b. (b, pool2)) goes in
            rw step (
              Pumped-more pool (threads n pool) pool2 item items es
                (pump_items threads (suc n) items pool2) run quiet step
                (pump_items-Pumps (suc n) items pool2))
        | inr full ↦
            let step : try_submit (threads n pool) item ≡ (false, pool2) =
              ap (λ b. (b, pool2)) full in
            rw step (record {
              events = rejects item ∷ es;
              run = later run (submit_rejected item pool2 step);
              in_order = ap (λ ts. ts ++ item ∷ items) quiet;
              emptied_iff = (λ h. absurd (ground arith), λ h. absurd (ground arith));
              refusing = λ h. refusal (threads n pool) pool2 item step;
            })
      ]

  -- A pump hands the front of the backlog to the pool in order, whatever the threads do meanwhile,
  -- and keeps the rest in order; it answers true exactly if nothing is left, and stops early only at
  -- a pool that is stopped or full. The registry is not touched.
  pub pump_in_order :
      (p : ConsumerPipeline)
      → Pumped p.pool p.backlog
          (pump threads p).0
          (pump threads p).1.backlog
          (pump threads p).1.pool
        × ((pump threads p).1.registry ≡ p.registry)
  unfolding pump
  pump_in_order p = (pump_items-Pumps 0 p.backlog p.pool, refl)
