-- ===== src/Messaging/OffsetTracker/Outcomes.antt =====
-- What each call of a tracker answers: against a reference that searches the whole deque and counts
-- anew, and what is left when every record is finished.
use liquid_pet_project.Prelude.{
  ℕ, zero, suc, ◌≤◌, ◌<◌, ◌≡◌, inl, inr, refl, ap, ◌∙◌, Option, none, some, List, [], ◌∷◌, arith,
  eqb, if◌then◌else◌, get_elem?, set, Bool-cases, ok, err, eqb_iff,
}
use liquid_pet_project.Errors.{make_error_code, offset_tracker_enum, unknown_offset}
use liquid_pet_project.Messaging.OffsetTracker.{
  Entry, OffsetTracker, Update, is_below, lower_bound, complete_at, complete,
}
use liquid_pet_project.Messaging.OffsetTracker.Entries.{Above, mark, done_prefix, undone}
use liquid_pet_project.Messaging.OffsetTracker.Invariant.{IsValid, marked-IsValid, floor}

-- The first entry with exactly this offset, by a search from the front.
abbrev find : ℕ → List Entry → Option Entry
find offset [] = none
find offset (e ∷ es) = if eqb e.offset offset then some e else find offset es

abbrev mark_all : ℕ → List Entry → List Entry
mark_all offset [] = []
mark_all offset (e ∷ es) = (if eqb e.offset offset then mark e else e) ∷ mark_all offset es

abbrev recount : OffsetTracker → List Entry → OffsetTracker
recount t es = record t { entries = es; prefix_done = done_prefix es; in_flight = undone es }

abbrev pub reference_at : OffsetTracker → ℕ → Option Entry → Update
reference_at t offset none = (err (make_error_code unknown_offset), t)
reference_at t offset (some e) =
    (ok tt, if e.done then t else recount t (mark_all offset t.entries))

-- `complete` with nothing but lists: an offset under the commit is ignored, an unknown one is an
-- error, a finished one changes nothing, and another is marked and everything counted again.
abbrev pub reference_complete : OffsetTracker → ℕ → Update
reference_complete t offset =
    if is_below offset t.committed
    then (ok tt, t)
    else reference_at t offset (find offset t.entries)

mark_all-Above :
    (b offset : ℕ) (es : List Entry) → Above b es → offset < b → mark_all offset es ≡ es
mark_all-Above b offset [] a h = refl
mark_all-Above b offset (e ∷ es) a h = ground (arith, mark_all-Above (suc e.offset) offset es a.1)

find-Above : (b offset : ℕ) (es : List Entry) → Above b es → offset < b → find offset es ≡ none
find-Above b offset [] a h = refl
find-Above b offset (e ∷ es) a h = ground (arith, find-Above (suc e.offset) offset es a.1)

-- The entry found by the binary search, if it has the offset.
abbrev exact : ℕ → Option Entry → Option Entry
exact offset none = none
exact offset (some e) = if eqb e.offset offset then some e else none

search_agrees :
    (b offset : ℕ) (es : List Entry)
    → Above b es
    → exact offset (get_elem? es (lower_bound es offset)) ≡ find offset es
unfolding lower_bound
search_agrees b offset [] a = refl
search_agrees b offset (e ∷ es) a =
    ground
      (arith, search_agrees (suc e.offset) offset es a.1, find-Above (suc e.offset) offset es a.1)

elem-Above :
    (b i : ℕ) (es : List Entry) (e : Entry) → Above b es → get_elem? es i ≡ some e → b ≤ e.offset
elem-Above b i [] e a at = cc
elem-Above b zero (x ∷ es) e a at = ground arith
elem-Above b (suc i) (x ∷ es) e a at = omega (arith, elem-Above (suc x.offset) i es e a.1 at)

set-eq-mark_all :
    (b i offset : ℕ) (es : List Entry) (e : Entry)
    → Above b es
    → get_elem? es i ≡ some e
    → e.offset ≡ offset
    → set es i (mark e) ≡ mark_all offset es
set-eq-mark_all b i offset [] e a at q = refl
set-eq-mark_all b zero offset (x ∷ es) e a at q =
    ground (arith, mark_all-Above (suc x.offset) offset es a.1)
set-eq-mark_all b (suc i) offset (x ∷ es) e a at q = ground (
  arith,
  elem-Above (suc x.offset) i es e a.1 at,
  set-eq-mark_all (suc x.offset) i offset es e a.1 at q,
)

recount_valid : (t : OffsetTracker) → IsValid t → t ≡ recount t t.entries
recount_valid t v = ground (arith, v.prefix_exact, v.flight_exact)

complete_at-eq-reference :
    (t : OffsetTracker) (offset i : ℕ) (o : Option Entry)
    → IsValid t
    → get_elem? t.entries i ≡ o
    → complete_at t offset i o ≡ reference_at t offset (exact offset o)
unfolding complete_at
complete_at-eq-reference t offset i none v at = refl
complete_at-eq-reference t offset i (some e) v at = elim (Bool-cases (eqb e.offset offset)) [
  | inr other ↦ rw other
  | inl same ↦ elim (Bool-cases e.done) [
    | inl old ↦ rw (same, old)
    | inr open_here ↦
        rw (same, open_here)
          (ap (λ u. (ok tt, u))
            (recount_valid _ (marked-IsValid t i e at open_here v)
              ∙ ap (recount t) (
                  set-eq-mark_all (floor t.committed) i offset t.entries e v.ascending at
                    ((eqb_iff _ _).0 same))))
  ]
]

-- `complete`, with its binary search and its counters kept up to date, answers and leaves the
-- tracker exactly as the reference does.
pub complete-eq-reference :
    (t : OffsetTracker) (offset : ℕ) → IsValid t → complete t offset ≡ reference_complete t offset
unfolding complete
complete-eq-reference t offset v = elim (Bool-cases (is_below offset t.committed)) [
  | inl covered ↦ rw covered
  | inr open_here ↦ rw open_here (
      complete_at-eq-reference t offset (lower_bound t.entries offset) _ v refl
      ∙ ap (reference_at t offset) (search_agrees (floor t.committed) offset t.entries v.ascending))
]
