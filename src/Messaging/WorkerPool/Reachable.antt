-- ===== src/Messaging/WorkerPool/Reachable.antt =====
-- What holds of the pool in every run: bounds, order, and nothing lost or run twice.
use liquid_pet_project.Prelude.{
  ℕ, ◌≤◌, ◌<◌, ◌≡◌, inl, inr, refl, ap, true, false, List, [], ◌∷◌, ◌++◌, append-nil, append_assoc,
  arith, length, length-append, Bool-cases, eq_nat, eq_string,
}
use mathlib.Core.List.{Perm, perm_middle}
use mathlib.Core.List.Perm
use liquid_pet_project.Messaging.WorkerPool.{
  WorkerPool, start, try_submit, close, request_stop, take_front, Event, accepts, rejects, starts,
  finishes, drops, Step, submit_accepted, submit_rejected, take, finish, stop_closes, stop_requests,
  Run, here, later,
}

module _ {ℓ} {A : Type ℓ} where
  -- The tasks of the events, oldest first.
  abbrev pub accepted : List (Event A) → List A
  accepted [] = []
  accepted (accepts t ∷ es) = accepted es ++ t ∷ []
  accepted (_ ∷ es) = accepted es

  abbrev pub started : List (Event A) → List A
  started [] = []
  started (starts t ∷ es) = started es ++ t ∷ []
  started (_ ∷ es) = started es

  abbrev pub dropped : List (Event A) → List A
  dropped [] = []
  dropped (drops ts ∷ es) = dropped es ++ ts
  dropped (_ ∷ es) = dropped es

  abbrev pub finished : List (Event A) → List A
  finished [] = []
  finished (finishes t ∷ es) = t ∷ finished es
  finished (_ ∷ es) = finished es

  pub record Inv (p : WorkerPool A) (es : List (Event A)) : Type ℓ where
    pub bounded : length p.queue ≤ p.capacity
    pub threads : length p.running ≤ p.thread_count
    pub closed : p.stopped ≡ true → p.queue ≡ []
    pub open_drops : p.stopped ≡ false → dropped es ≡ []
    pub fifo : accepted es ≡ started es ++ dropped es ++ p.queue
    pub owned : Perm (started es) (finished es ++ p.running)

  start-Inv : (n c : ℕ) → Inv (start n c) []
  unfolding start
  start-Inv n c = record {
    bounded = omega arith;
    threads = omega arith;
    closed = λ e. refl;
    open_drops = λ e. refl;
    fifo = refl;
    owned = Perm.nil;
  }

  accepted_lem :
      (p q : WorkerPool A) (task : A)
      → try_submit p task ≡ (true, q)
      → (p.stopped ≡ false)
        × (length p.queue < p.capacity)
        × (q ≡ record p { queue = p.queue ++ task ∷ [] })
  unfolding try_submit
  accepted_lem p q task h = (ground arith, ground arith, ground arith)

  accept-Inv :
      (p : WorkerPool A) (es : List (Event A)) (task : A)
      → p.stopped ≡ false
      → length p.queue < p.capacity
      → Inv p es
      → Inv (record p { queue = p.queue ++ task ∷ [] }) (accepts task ∷ es)
  accept-Inv p es task open_here room v = record {
    bounded = omega (arith, length-append p.queue (task ∷ []));
    threads = v.threads;
    closed = λ e. cc;
    open_drops = v.open_drops;
    fifo = rw v.fifo (append_assoc (started es ++ dropped es) p.queue (task ∷ []));
    owned = v.owned;
  }

  reject-Inv :
      (p q : WorkerPool A) (es : List (Event A)) (task : A)
      → try_submit p task ≡ (false, q)
      → Inv p es
      → Inv q (rejects task ∷ es)
  unfolding try_submit
  reject-Inv p q es task h v =
      let same : q ≡ p = ground arith in
      rw same (record {
        bounded = v.bounded;
        threads = v.threads;
        closed = v.closed;
        open_drops = v.open_drops;
        fifo = v.fifo;
        owned = v.owned;
      })

  take-Inv :
      (p : WorkerPool A) (es : List (Event A)) (task : A) (rest : List A)
      → p.queue ≡ task ∷ rest
      → length p.running < p.thread_count
      → Inv p es
      → Inv (take_front p task rest) (starts task ∷ es)
  unfolding take_front
  take-Inv p es task rest at room v = elim (Bool-cases p.stopped) [
    | inl stopped ↦ cc (v.closed stopped)
    | inr open_here ↦ record {
      bounded = omega (arith, ap length at, v.bounded);
      threads = omega (arith, length-append p.running (task ∷ []));
      closed = λ e. cc;
      open_drops = v.open_drops;
      fifo = simp (v.fifo, v.open_drops open_here, at, append-nil, append_assoc);
      owned =
          rw (← append_assoc (finished es) p.running (task ∷ []))
            (Perm.append v.owned (Perm.refl (task ∷ [])));
    }
  ]

  finish-Inv :
      (p : WorkerPool A) (es : List (Event A)) (before after : List A) (task : A)
      → p.running ≡ before ++ task ∷ after
      → Inv p es
      → Inv (record p { running = before ++ after }) (finishes task ∷ es)
  finish-Inv p es before after task at v = record {
    bounded = v.bounded;
    threads = omega (
      arith,
      ap length at,
      length-append before (task ∷ after),
      length-append before after,
      v.threads,
    );
    closed = v.closed;
    open_drops = v.open_drops;
    fifo = v.fifo;
    owned = Perm.trans v.owned (
        rw
          (
            at,
            ← append_assoc (finished es) before (task ∷ after),
            ← append_assoc (finished es) before after,
          )
          (perm_middle (finished es ++ before) after));
  }

  close-Inv :
      (p : WorkerPool A) (es : List (Event A)) → Inv p es → Inv (close p) (drops p.queue ∷ es)
  unfolding close
  close-Inv p es v = record {
    bounded = omega arith;
    threads = v.threads;
    closed = λ e. refl;
    open_drops = λ e. cc;
    fifo = simp (v.fifo, append-nil, append_assoc);
    owned = v.owned;
  }

  step-Inv :
      {p q : WorkerPool A} {e : Event A} {es : List (Event A)}
      → Inv p es
      → Step p e q
      → Inv q (e ∷ es)
  unfolding request_stop
  step-Inv {p} {es = es} v (submit_accepted task q h) =
      let (open_here, room, same) = accepted_lem p q task h in
      rw same (accept-Inv p es task open_here room v)
  step-Inv {p} {es = es} v (submit_rejected task q h) = reject-Inv p q es task h v
  step-Inv {p} {es = es} v (take task rest at go room) = take-Inv p es task rest at room v
  step-Inv {p} {es = es} v (finish before after task at) = finish-Inv p es before after task at v
  step-Inv {p} {es = es} v (stop_closes ts at) = rw (← at) (close-Inv p es v)
  step-Inv v (stop_requests h) = record {
    bounded = v.bounded;
    threads = v.threads;
    closed = v.closed;
    open_drops = v.open_drops;
    fifo = v.fifo;
    owned = v.owned;
  }

  -- In every run of a pool the queue keeps to its capacity and no more tasks run than there are
  -- threads; tasks start in the order in which they were accepted, none is lost before a stop and
  -- none starts twice; a stopped pool holds no task.
  pub run-Inv : (n c : ℕ) {p : WorkerPool A} {es : List (Event A)} → Run (start n c) es p → Inv p es
  run-Inv n c here = start-Inv n c
  run-Inv n c (later r st) = step-Inv (run-Inv n c r) st
