-- ===== src/Messaging/WorkerPool.antt =====
-- shared/messaging/WorkerPool.h: threads over a bounded queue. The methods run under one mutex; an
-- interleaving of callers and threads is a sequence of the steps below. A task is what the queue
-- holds (`std::function`); running it stands for whatever it does elsewhere.
pub mod Reachable
use liquid_pet_project.Prelude.{
  ℕ, suc, ◌≤◌, ◌<◌, ◌≡◌, Bool, true, false, ◌||◌, List, [], ◌∷◌, ◌++◌, leb, if◌then◌else◌, length,
}
use Prim.Native.Nat.{max}

pub record WorkerPool {ℓ} (A : Type ℓ) : Type ℓ where
  pub capacity : ℕ
  pub thread_count : ℕ
  pub queue : List A
  pub stopped : Bool
  pub stop_requested : Bool
  pub running : List A  -- the tasks that threads have taken and not finished

pub data Event {ℓ} (A : Type ℓ) : Type ℓ where
  accepts rejects starts finishes : A → Event A
  drops : List A → Event A
  requests : Event A

module _ {ℓ} {A : Type ℓ} where
  unfoldable pub start : ℕ → ℕ → WorkerPool A
  start thread_count queue_capacity = record {
    capacity = max 1 queue_capacity;
    thread_count = max 1 thread_count;
    queue = [];
    stopped = false;
    stop_requested = false;
    running = [];
  }

  unfoldable pub try_submit : WorkerPool A → A → Bool × WorkerPool A
  try_submit p task =
      if p.stopped || leb p.capacity (length p.queue)
      then (false, p)
      else (true, record p { queue = p.queue ++ task ∷ [] })

  -- `stop`, first part: under the mutex the queue is closed and dropped.
  unfoldable pub close : WorkerPool A → WorkerPool A
  close p = record p { stopped = true; queue = [] }

  -- `stop`, second part: the threads are asked to stop (and then joined).
  unfoldable pub request_stop : WorkerPool A → WorkerPool A
  request_stop p = record p { stop_requested = true }

  unfoldable pub pending_count : WorkerPool A → ℕ
  pending_count p = length p.queue

  -- One turn of `workerLoop` up to the call of the task, on a queue that is not empty.
  unfoldable pub take_front : WorkerPool A → A → List A → WorkerPool A
  take_front p task rest = record p { queue = rest; running = p.running ++ task ∷ [] }

  pub data Step (p : WorkerPool A) : Event A → WorkerPool A → Type ℓ where
    submit_accepted :
        (task : A) (q : WorkerPool A) → try_submit p task ≡ (true, q) → Step p (accepts task) q
    submit_rejected :
        (task : A) (q : WorkerPool A) → try_submit p task ≡ (false, q) → Step p (rejects task) q
    take :
        (task : A) (rest : List A)
        → p.queue ≡ task ∷ rest
        → p.stop_requested ≡ false
        → length p.running < p.thread_count
        → Step p (starts task) (take_front p task rest)
    finish :
        (before after : List A) (task : A)
        → p.running ≡ before ++ task ∷ after
        → Step p (finishes task) (record p { running = before ++ after })
    stop_closes : (dropped : List A) → p.queue ≡ dropped → Step p (drops dropped) (close p)
    stop_requests : p.stopped ≡ true → Step p requests (request_stop p)

  -- A run, its events newest first.
  pub data Run (p : WorkerPool A) : List (Event A) → WorkerPool A → Type ℓ where
    here : Run p [] p
    later :
        {q r : WorkerPool A} {e : Event A} {es : List (Event A)}
        → Run p es q
        → Step q e r
        → Run p (e ∷ es) r
