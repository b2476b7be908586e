-- ===== src/Messaging/OffsetTracker/Invariant.antt =====
-- The well-formedness of an offset tracker, and that every method keeps it.
use liquid_pet_project.Prelude.{
  ℕ, zero, suc, ◌≤◌, ◌≡◌, inl, inr, refl, sym, ◌∙◌, ap, false, Option, none, some, arith, ltb, eqb,
  get_elem?, set, Bool-cases,
}
use liquid_pet_project.Messaging.OffsetTracker.{
  Entry, OffsetTracker, new, decrement, at_most, is_below, register_record, lower_bound,
  advance_prefix, complete_at, complete, commit_candidate, pop_committed, confirm_at,
  confirm_commit, reset,
}
use liquid_pet_project.Messaging.OffsetTracker.Entries.{
  Above, Under, Covered, done_prefix, undone, Above-append, Under-append, mark, Above-set,
  Under-set,
}
use liquid_pet_project.Messaging.OffsetTracker.Entries.Counts.{
  done_prefix-append, undone-append, undone-set, done_prefix-set, advance-drop,
}
use liquid_pet_project.Messaging.OffsetTracker.Entries.Popping.{
  pop-prefix, pop-undone, pop-Above, pop-Under,
}
use liquid_pet_project.Messaging.OffsetTracker.Entries.Watermark.{
  watermark, watermark-none, watermark-some, watermark-Covered, watermark-Under,
}

-- The first offset that is not covered by a commit, and the first that may be registered.
abbrev pub floor : Option ℕ → ℕ
floor none = 0
floor (some c) = c

abbrev pub top : Option ℕ → ℕ
top none = 0
top (some l) = suc l

pub record IsValid (t : OffsetTracker) : Type 0 where
  pub ascending : Above (floor t.committed) t.entries
  pub under : Under (top t.last_registered) t.entries
  pub ordered : floor t.committed ≤ top t.last_registered
  pub prefix_exact : t.prefix_done ≡ done_prefix t.entries
  pub flight_exact : t.in_flight ≡ undone t.entries

pub new-IsValid : IsValid new
unfolding new done_prefix undone
new-IsValid = record {
  ascending = tt;
  under = tt;
  ordered = omega arith;
  prefix_exact = refl;
  flight_exact = refl;
}

pub reset-IsValid : (t : OffsetTracker) → IsValid (reset t)
unfolding reset done_prefix undone
reset-IsValid t = record {
  ascending = tt;
  under = tt;
  ordered = omega arith;
  prefix_exact = refl;
  flight_exact = refl;
}

at_most-top : (last : Option ℕ) (offset : ℕ) → at_most offset last ≡ false → top last ≤ offset
unfolding at_most
at_most-top none offset h = omega arith
at_most-top (some l) offset h = ground arith

pub register_record-IsValid :
    (t : OffsetTracker) (offset : ℕ) → IsValid t → IsValid (register_record t offset).1
unfolding register_record
register_record-IsValid t offset v = elim (Bool-cases (at_most offset t.last_registered)) [
  | inl low ↦ rw low v
  | inr high ↦ rw high (
      let free = at_most-top t.last_registered offset high in
      record {
        ascending =
            Above-append (floor t.committed) (top t.last_registered) offset t.entries v.ascending
              v.under free (omega arith);
        under = Under-append (top t.last_registered) offset t.entries v.under free;
        ordered = omega arith;
        prefix_exact = rw (done_prefix-append offset t.entries) v.prefix_exact;
        flight_exact = rw (undone-append offset t.entries) (ap suc v.flight_exact);
      })
]

-- The step that marks an unfinished entry.
pub marked-IsValid :
    (t : OffsetTracker) (i : ℕ) (e : Entry)
    → get_elem? t.entries i ≡ some e
    → e.done ≡ false
    → IsValid t
    → IsValid (
        advance_prefix
          (record t { entries = set t.entries i (mark e); in_flight = decrement t.in_flight }))
unfolding advance_prefix decrement
marked-IsValid t i e at open_here v = record {
  ascending = Above-set (floor t.committed) i t.entries e at v.ascending;
  under = Under-set (top t.last_registered) i t.entries e at v.under;
  ordered = v.ordered;
  prefix_exact =
      advance-drop t.prefix_done (set t.entries i (mark e))
        (omega (arith, done_prefix-set i t.entries e, v.prefix_exact));
  flight_exact = ground (arith, undone-set i t.entries e at open_here, v.flight_exact);
}

complete_at-IsValid :
    (t : OffsetTracker) (offset i : ℕ) (o : Option Entry)
    → get_elem? t.entries i ≡ o
    → IsValid t
    → IsValid (complete_at t offset i o).1
unfolding complete_at
complete_at-IsValid t offset i none at v = v
complete_at-IsValid t offset i (some e) at v = elim (Bool-cases (eqb e.offset offset)) [
  | inr other ↦ rw other v
  | inl same ↦ rw same (elim (Bool-cases e.done) [
    | inl old ↦ rw old v
    | inr open_here ↦ rw open_here (marked-IsValid t i e at open_here v)
  ])
]

pub complete-IsValid : (t : OffsetTracker) (offset : ℕ) → IsValid t → IsValid (complete t offset).1
unfolding complete
complete-IsValid t offset v = elim (Bool-cases (is_below offset t.committed)) [
  | inl covered ↦ rw covered v
  | inr open_here ↦
      rw open_here (complete_at-IsValid t offset (lower_bound t.entries offset) _ refl v)
]

candidate_at :
    (t : OffsetTracker) (n : ℕ)
    → IsValid t
    → t.prefix_done ≡ n
    → commit_candidate t ≡ watermark t.entries
unfolding commit_candidate
candidate_at t zero v e = rw e (sym (watermark-none t.entries (omega (arith, v.prefix_exact))))
candidate_at t (suc n) v e =
    let (x, at, w) = watermark-some n t.entries (omega (arith, v.prefix_exact)) in ground arith

-- The candidate is the position after the longest prefix of finished entries: it is read off the
-- entries alone.
pub commit_candidate-eq-watermark :
    (t : OffsetTracker) → IsValid t → commit_candidate t ≡ watermark t.entries
commit_candidate-eq-watermark t v = candidate_at t t.prefix_done v refl

pub candidate-Covered :
    (t : OffsetTracker) (w position : ℕ)
    → IsValid t
    → commit_candidate t ≡ some w
    → position ≤ w
    → Covered position t.entries
candidate-Covered t w position v e h =
    watermark-Covered (floor t.committed) w position t.entries v.ascending
      (sym (commit_candidate-eq-watermark t v) ∙ e) h

confirmed-IsValid :
    (t : OffsetTracker) (w position : ℕ)
    → commit_candidate t ≡ some w
    → position ≤ w
    → IsValid t
    → let (es, n) = pop_committed t.entries position t.prefix_done in
      IsValid (record t { entries = es; prefix_done = n; committed = some position })
confirmed-IsValid t w position e h v =
    let covered = candidate-Covered t w position v e h in
    record {
      ascending = pop-Above position (floor t.committed) t.prefix_done t.entries v.ascending;
      under = pop-Under position (top t.last_registered) t.prefix_done t.entries v.under;
      ordered = omega (
        arith,
        watermark-Under (top t.last_registered) w t.entries v.under
            (sym (commit_candidate-eq-watermark t v) ∙ e),
      );
      prefix_exact = pop-prefix position t.prefix_done t.entries v.prefix_exact covered;
      flight_exact = v.flight_exact ∙ sym (pop-undone position t.prefix_done t.entries covered);
    }

confirm_at-IsValid :
    (t : OffsetTracker) (position : ℕ) (o : Option ℕ)
    → commit_candidate t ≡ o
    → IsValid t
    → IsValid (confirm_at t position o).1
unfolding confirm_at
confirm_at-IsValid t position none e v = v
confirm_at-IsValid t position (some w) e v = elim (Bool-cases (ltb w position)) [
  | inl beyond ↦ rw beyond v
  | inr within ↦ rw within (confirmed-IsValid t w position e (ground arith) v)
]

pub confirm_commit-IsValid :
    (t : OffsetTracker) (position : ℕ) → IsValid t → IsValid (confirm_commit t position).1
unfolding confirm_commit
confirm_commit-IsValid t position v = elim (Bool-cases (at_most position t.committed)) [
  | inl old ↦ rw old v
  | inr open_here ↦ rw open_here (confirm_at-IsValid t position (commit_candidate t) refl v)
]
