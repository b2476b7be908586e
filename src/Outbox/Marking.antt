-- ===== src/Outbox/Marking.antt =====
-- What a batch of the outbox comes to (shared/outbox/OutboxPublisher.cpp).
use liquid_pet_project.Prelude.{
  ℕ, suc, ◌+◌, ◌≤◌, ◌≡◌, inl, inr, refl, sym, ap, Bool, true, false, List, [], ◌∷◌, ◌++◌, map,
  String, arith, if◌then◌else◌, length, Expected, ok, err, Any,
}
use mathlib.Core.Path.{subst}
use liquid_pet_project.Prelude.Int.{ℤ, pos, ◌≤ℤ◌}
use liquid_pet_project.Errors.{ErrorCode}
use liquid_pet_project.Outbox.{
  OutboxEntry, Waited, timed_out, ready, Surroundings, Action, publishes, waits, marks, BatchResult,
  has_more_work, request_of, PendingPublish, publish_all, marked_ok, settle_waited, settle_all,
  process_entries, process_batch,
}

-- The calls of the second loop for the entries of a batch, and how many entries count: an entry is
-- marked only once its publication was acknowledged, and counts only if it was marked.
pub data Settled : List OutboxEntry → ℕ → List Action → Type 0 where
  none_left : Settled [] 0 []
  late :
      (e : OutboxEntry) (es : List OutboxEntry) (n : ℕ) (calls : List Action)
      → Settled es n calls
      → Settled (e ∷ es) n (waits e.id timed_out ∷ calls)
  failed :
      (e : OutboxEntry) (es : List OutboxEntry) (n : ℕ) (calls : List Action) (c : ErrorCode)
      → Settled es n calls
      → Settled (e ∷ es) n (waits e.id (ready (err c)) ∷ calls)
  unmarked :
      (e : OutboxEntry) (es : List OutboxEntry) (n : ℕ) (calls : List Action)
      → Settled es n calls
      → Settled (e ∷ es) n (waits e.id (ready (ok tt)) ∷ marks e.id false ∷ calls)
  counted :
      (e : OutboxEntry) (es : List OutboxEntry) (n : ℕ) (calls : List Action)
      → Settled es n calls
      → Settled (e ∷ es) (suc n) (waits e.id (ready (ok tt)) ∷ marks e.id true ∷ calls)

Settled-bound :
    (es : List OutboxEntry) (n : ℕ) (calls : List Action) → Settled es n calls → n ≤ length es
Settled-bound _ _ _ none_left = omega arith
Settled-bound _ _ _ (late e es n calls s) = omega (arith, Settled-bound es n calls s)
Settled-bound _ _ _ (failed e es n calls c s) = omega (arith, Settled-bound es n calls s)
Settled-bound _ _ _ (unmarked e es n calls s) = omega (arith, Settled-bound es n calls s)
Settled-bound _ _ _ (counted e es n calls s) = omega (arith, Settled-bound es n calls s)

abbrev pub IsMark : Action → Type 0
IsMark (marks id true) = Unit
IsMark _ = ⊥

-- A batch in which an entry counts has marked one.
Settled-marks :
    (es : List OutboxEntry) (n : ℕ) (calls : List Action)
    → Settled es n calls
    → 1 ≤ n
    → Any IsMark calls
Settled-marks _ _ _ none_left h = absurd (omega arith)
Settled-marks _ _ _ (late e es n calls s) h = inr (Settled-marks es n calls s h)
Settled-marks _ _ _ (failed e es n calls c s) h = inr (Settled-marks es n calls s h)
Settled-marks _ _ _ (unmarked e es n calls s) h = inr (inr (Settled-marks es n calls s h))
Settled-marks _ _ _ (counted e es n calls s) h = inr (inl tt)

Any-right : (P : Action → Type 0) (xs ys : List Action) → Any P ys → Any P (xs ++ ys)
Any-right P [] ys h = h
Any-right P (x ∷ xs) ys h = inr (Any-right P xs ys h)

module _ (x : Surroundings) where
  open x use {World, Future}

  abbrev entries_of : List (PendingPublish x) → List OutboxEntry
  entries_of [] = []
  entries_of (p ∷ ps) = p.entry ∷ entries_of ps

  publish_all-entries :
      (topic : String) (entries : List OutboxEntry) (w : World)
      → (entries_of (publish_all x topic entries w).0 ≡ entries)
        × ((publish_all x topic entries w).1.1 ≡ map (λ e. publishes (request_of topic e)) entries)
  unfolding publish_all
  publish_all-entries topic [] w = (refl, refl)
  publish_all-entries topic (e ∷ es) w =
      let (same, sent) = publish_all-entries topic es (x.publish w (request_of topic e)).1 in
      (ap (λ l. e ∷ l) same, ap (λ l. publishes (request_of topic e) ∷ l) sent)

  abbrev Settles : List OutboxEntry → ℕ → ℕ × (World × List Action) → Type 0
  Settles es before (total, (w, calls)) = (n : ℕ) × ((total ≡ before + n) × Settled es n calls)

  -- A round whose publication was acknowledged, by the answer of the repository.
  settle_marked :
      (e : OutboxEntry) (ps : List (PendingPublish x)) (before : ℕ) (marked : Bool) (w : World)
      → ((b : ℕ) (w' : World) → Settles (entries_of ps) b (settle_all x b ps w'))
      → Settles (e ∷ entries_of ps) before (
          let (total, (w3, more)) = settle_all x (if marked then suc before else before) ps w in
          (total, (w3, waits e.id (ready (ok tt)) ∷ marks e.id marked ∷ more)))
  settle_marked e ps before true w rest =
      let (n, (total, s)) = rest (suc before) w in
      (suc n, (omega (arith, total), counted e (entries_of ps) n _ s))
  settle_marked e ps before false w rest =
      let (n, (total, s)) = rest before w in (n, (total, unmarked e (entries_of ps) n _ s))

  -- One round, and what the later rounds come to.
  settle_step :
      (e : OutboxEntry) (ps : List (PendingPublish x)) (before : ℕ) (waited : Waited) (w : World)
      → ((b : ℕ) (w' : World) → Settles (entries_of ps) b (settle_all x b ps w'))
      → Settles (e ∷ entries_of ps) before (
          let (counts, (w2, actions)) = settle_waited x e waited w in
          let (total, (w3, more)) = settle_all x (if counts then suc before else before) ps w2 in
          (total, (w3, actions ++ more)))
  unfolding settle_waited
  settle_step e ps before timed_out w rest =
      let (n, (total, s)) = rest before w in (n, (total, late e (entries_of ps) n _ s))
  settle_step e ps before (ready (err c)) w rest =
      let (n, (total, s)) = rest before w in (n, (total, failed e (entries_of ps) n _ c s))
  settle_step e ps before (ready (ok _)) w rest =
      settle_marked e ps before (marked_ok x (x.mark_as_published w e.id).0)
        (x.mark_as_published w e.id).1 rest

  settle_all-Settles :
      (before : ℕ) (pending : List (PendingPublish x)) (w : World)
      → Settles (entries_of pending) before (settle_all x before pending w)
  unfolding settle_all
  settle_all-Settles before [] w = (0, (omega arith, none_left))
  settle_all-Settles before (p ∷ ps) w =
      settle_step p.entry ps before (x.wait w p.result).0 (x.wait w p.result).1
        (λ b w'. settle_all-Settles b ps w')

  -- What a batch is to come to, by what was fetched.
  abbrev pub Batch :
      String → Expected ErrorCode (List OutboxEntry) → BatchResult × (World × List Action) → Type 0
  Batch topic (err e) (result, (w, calls)) =
      (result ≡ record { fetched = 0; published = 0 }) × (calls ≡ [])
  Batch topic (ok entries) (result, (w, calls)) =
      (result.fetched ≡ length entries)
      × ((settles : List Action) × (Settled entries result.published settles
            × (calls ≡ map (λ e. publishes (request_of topic e)) entries ++ settles)))

  process_entries-Batch :
      (topic : String) (entries : Expected ErrorCode (List OutboxEntry)) (w : World)
      → Batch topic entries (process_entries x topic entries w)
  unfolding process_entries
  process_entries-Batch topic (err e) w = (refl, refl)
  process_entries-Batch topic (ok entries) w =
      let (same, sent) = publish_all-entries topic entries w in
      let (n, (total, s)) =
        settle_all-Settles 0 (publish_all x topic entries w).0
          (publish_all x topic entries w).1.0 in
      let settles =
        (settle_all x 0 (publish_all x topic entries w).0
          (publish_all x topic entries w).1.0).1.1 in
      let counts : n
          ≡ (settle_all x 0 (publish_all x topic entries w).0
              (publish_all x topic entries w).1.0).0 =
        omega (arith, total) in
      let counted_all =
        subst (λ k. Settled (entries_of (publish_all x topic entries w).0) k settles) counts s in
      (
        refl,
        (
          settles,
          (
            subst
                (λ l.
                  Settled l
                    (settle_all x 0 (publish_all x topic entries w).0
                      (publish_all x topic entries w).1.0).0
                    settles)
                same counted_all,
            ap (λ l. l ++ settles) sent,
          ),
        ),
      )

  -- A batch publishes every fetched entry once, in order, before it waits for any; then it takes the
  -- entries in the same order, marks one only after its publication was acknowledged, and counts as
  -- published those whose mark was accepted. If the fetch fails it does nothing.
  pub process_batch-Batch :
      (topic : String) (batch_size : ℤ) (w : World)
      → Batch topic (x.fetch_unpublished w batch_size).0 (process_batch x topic batch_size w)
  unfolding process_batch
  process_batch-Batch topic batch_size w =
      process_entries-Batch topic (x.fetch_unpublished w batch_size).0
        (x.fetch_unpublished w batch_size).1

  more_work-marks :
      (topic : String) (batch_size : ℤ) (fetched : Expected ErrorCode (List OutboxEntry))
      → (r : BatchResult × (World × List Action)) → Batch topic fetched r
      → has_more_work r.0 batch_size ≡ true
      → (batch_size ≤ℤ pos r.0.fetched) × (r.0.published ≤ r.0.fetched) × Any IsMark r.1.1
  unfolding has_more_work
  more_work-marks topic batch_size (err e) (result, (w, calls)) b h = absurd (ground (arith, b.0))
  more_work-marks topic batch_size (ok entries) (result, (w, calls)) b h =
      let (settles, (s, q)) = b.1 in
      let some_counts : 1 ≤ result.published = ground arith in
      let sends = map (λ e. publishes (request_of topic e)) entries in
      (
        ground arith,
        omega (arith, b.0, Settled-bound entries result.published settles s),
        subst (Any IsMark) (sym q) (
            Any-right IsMark sends settles
              (Settled-marks entries result.published settles s some_counts)),
      )

  -- The publisher goes on without a pause only after a full batch of which at least one entry was
  -- marked as published.
  pub more_work_progress :
      (topic : String) (batch_size : ℤ) (w : World)
      → has_more_work (process_batch x topic batch_size w).0 batch_size ≡ true
      → (batch_size ≤ℤ pos (process_batch x topic batch_size w).0.fetched)
        × ((process_batch x topic batch_size w).0.published
            ≤ (process_batch x topic batch_size w).0.fetched)
        × Any IsMark (process_batch x topic batch_size w).1.1
  more_work_progress topic batch_size w h =
      more_work-marks topic batch_size (x.fetch_unpublished w batch_size).0
        (process_batch x topic batch_size w) (process_batch-Batch topic batch_size w) h
