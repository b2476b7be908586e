-- ===== src/Messaging/OffsetTracker/History.antt =====
-- A tracker over any sequence of calls: what it lets the reader commit.
use liquid_pet_project.Prelude.{
  ℕ, ◌<◌, ◌≡◌, ◌⊎◌, inl, inr, refl, sym, ◌∙◌, false, Option, none, some, List, [], ◌∷◌, ◌++◌, arith,
  ltb, eqb, get_elem?, Bool-cases, ok, err, All, Any, All-map, eqb_iff, ℕ_discrete, ◌≢◌,
}
use liquid_pet_project.Messaging.OffsetTracker.{
  Entry, OffsetTracker, Update, new, at_most, is_below, register_record, lower_bound,
  advance_prefix, complete_at, complete, commit_candidate, confirm_at, confirm_commit, reset,
}
use liquid_pet_project.Messaging.OffsetTracker.Entries.{
  Holds, Holds-set, Holds-append, Holds-append_self, Covered-Holds, Holds-Above, fresh,
}
use liquid_pet_project.Messaging.OffsetTracker.Entries.Popping.{pop-Holds}
use liquid_pet_project.Messaging.OffsetTracker.Invariant.{
  IsValid, floor, new-IsValid, reset-IsValid, register_record-IsValid, complete-IsValid,
  confirm_commit-IsValid, candidate-Covered,
}

pub data Call : Type 0 where
  registers completes confirms : ℕ → Call
  resets : Call

-- The tracker, the offsets that it accepted and the offsets that were reported as finished, both
-- since the last reset.
pub record History : Type 0 where
  pub tracker : OffsetTracker
  pub registered : List ℕ
  pub finished : List ℕ

unfoldable pub start : History
start = record { tracker = new; registered = []; finished = [] }

unfoldable pub accept : History → ℕ → Update → History
accept h offset (ok _, t) = record h { tracker = t; registered = offset ∷ h.registered }
accept h offset (err _, t) = record h { tracker = t }

unfoldable pub step : History → Call → History
unfolding accept
step h (registers offset) = accept h offset (register_record h.tracker offset)
step h (completes offset) = record h {
  tracker = (complete h.tracker offset).1;
  finished = offset ∷ h.finished;
}
step h (confirms position) = record h { tracker = (confirm_commit h.tracker position).1 }
step h resets = record { tracker = reset h.tracker; registered = []; finished = [] }

unfoldable pub run : History → List Call → History
run h [] = h
run h (c ∷ cs) = run (step h c) cs

abbrev pub Reported : ℕ → List ℕ → Type 0
Reported offset = Any (λ o. o ≡ offset)

-- A record that was not reported is still waiting, unfinished.
abbrev Waits : List ℕ → List Entry → ℕ → Type 0
Waits finished entries offset = Reported offset finished ⊎ Holds offset false entries

record Inv (h : History) : Type 0 where
  valid : IsValid h.tracker
  waits : All (Waits h.finished h.tracker.entries) h.registered

register-Inv : (h : History) (offset : ℕ) → Inv h → Inv (step h (registers offset))
unfolding step register_record
register-Inv h offset v = elim (Bool-cases (at_most offset h.tracker.last_registered)) [
  | inl low ↦ rw low (record { valid = v.valid; waits = v.waits })
  | inr high ↦
      let valid = register_record-IsValid h.tracker offset v.valid in
      rw high (record {
        valid = rw (high, register_record) at valid;
        waits = (
          inr (Holds-append_self offset h.tracker.entries),
          All-map (Waits h.finished h.tracker.entries) _ still_waits h.registered v.waits,
        );
      })
]
  where
    still_waits :
        (o : ℕ)
        → Waits h.finished h.tracker.entries o
        → Waits h.finished (h.tracker.entries ++ fresh offset ∷ []) o
    still_waits o (inl r) = inl r
    still_waits o (inr w) = inr (Holds-append o offset false h.tracker.entries w)

-- `complete` leaves every other record as it was.
complete_at-Holds :
    (t : OffsetTracker) (offset i o : ℕ) (found : Option Entry)
    → get_elem? t.entries i ≡ found
    → offset ≢ o
    → Holds o false t.entries
    → Holds o false (complete_at t offset i found).1.entries
unfolding complete_at advance_prefix
complete_at-Holds t offset i o none at n w = w
complete_at-Holds t offset i o (some e) at n w =
    let marked =
      λ (same : e.offset ≡ offset). Holds-set o false i t.entries e at (λ q. n (sym same ∙ q)) w in
    elim (Bool-cases (eqb e.offset offset)) [
      | inr other ↦ rw other w
      | inl same ↦ rw same (elim (Bool-cases e.done) [
        | inl old ↦ rw old w
        | inr open_here ↦ rw open_here (marked ((eqb_iff _ _).0 same))
      ])
    ]

complete-Holds :
    (t : OffsetTracker) (offset o : ℕ)
    → offset ≢ o
    → Holds o false t.entries
    → Holds o false (complete t offset).1.entries
unfolding complete
complete-Holds t offset o n w = elim (Bool-cases (is_below offset t.committed)) [
  | inl covered ↦ rw covered w
  | inr open_here ↦
      rw open_here (complete_at-Holds t offset (lower_bound t.entries offset) o _ refl n w)
]

complete-Inv : (h : History) (offset : ℕ) → Inv h → Inv (step h (completes offset))
unfolding step
complete-Inv h offset v = record {
  valid = complete-IsValid h.tracker offset v.valid;
  waits = All-map (Waits h.finished h.tracker.entries) _ still_waits h.registered v.waits;
}
  where
    still_waits :
        (o : ℕ)
        → Waits h.finished h.tracker.entries o
        → Waits (offset ∷ h.finished) (complete h.tracker offset).1.entries o
    still_waits o (inl r) = inl (inr r)
    still_waits o (inr w) = elim (ℕ_discrete offset o) [
      | yes same ↦ inl (inl same)
      | no other ↦ inr (complete-Holds h.tracker offset o other w)
    ]

confirm_at-Holds :
    (t : OffsetTracker) (position o : ℕ) (found : Option ℕ)
    → commit_candidate t ≡ found
    → IsValid t
    → Holds o false t.entries
    → Holds o false (confirm_at t position found).1.entries
unfolding confirm_at
confirm_at-Holds t position o none e v w = w
confirm_at-Holds t position o (some c) e v w = elim (Bool-cases (ltb c position)) [
  | inl beyond ↦ rw beyond w
  | inr within ↦ rw within (
      pop-Holds position t.prefix_done o t.entries
        (candidate-Covered t c position v e (ground arith)) w)
]

confirm-Holds :
    (t : OffsetTracker) (position o : ℕ)
    → IsValid t
    → Holds o false t.entries
    → Holds o false (confirm_commit t position).1.entries
unfolding confirm_commit
confirm-Holds t position o v w = elim (Bool-cases (at_most position t.committed)) [
  | inl old ↦ rw old w
  | inr open_here ↦ rw open_here (confirm_at-Holds t position o _ refl v w)
]

confirm-Inv : (h : History) (position : ℕ) → Inv h → Inv (step h (confirms position))
unfolding step
confirm-Inv h position v = record {
  valid = confirm_commit-IsValid h.tracker position v.valid;
  waits = All-map (Waits h.finished h.tracker.entries) _ still_waits h.registered v.waits;
}
  where
    still_waits :
        (o : ℕ)
        → Waits h.finished h.tracker.entries o
        → Waits h.finished (confirm_commit h.tracker position).1.entries o
    still_waits o (inl r) = inl r
    still_waits o (inr w) = inr (confirm-Holds h.tracker position o v.valid w)

step-Inv : (h : History) (c : Call) → Inv h → Inv (step h c)
unfolding step reset
step-Inv h (registers offset) v = register-Inv h offset v
step-Inv h (completes offset) v = complete-Inv h offset v
step-Inv h (confirms position) v = confirm-Inv h position v
step-Inv h resets v = record { valid = reset-IsValid h.tracker; waits = tt }

run-Inv : (h : History) (cs : List Call) → Inv h → Inv (run h cs)
unfolding run
run-Inv h [] v = v
run-Inv h (c ∷ cs) v = run-Inv (step h c) cs (step-Inv h c v)

start-Inv : Inv start
unfolding start
start-Inv = record { valid = new-IsValid; waits = tt }

All-at : (P : ℕ → Type 0) (offset : ℕ) (xs : List ℕ) → All P xs → Reported offset xs → P offset
All-at P offset [] h r = elim r [ ]
All-at P offset (x ∷ xs) h (inl here) = rw here at h.0
All-at P offset (x ∷ xs) h (inr later) = All-at P offset xs h.1 later

module _ (cs : List Call) (offset : ℕ) (accepted : Reported offset (run start cs).registered) where
  Waits-after : Waits (run start cs).finished (run start cs).tracker.entries offset
  Waits-after =
      All-at _ offset (run start cs).registered (run-Inv start cs start-Inv).waits accepted

  -- Nothing is offered for a commit before it is finished: after any calls, every accepted offset
  -- under the position that the tracker offers was reported as finished.
  pub commit_candidate_safe :
      (w : ℕ)
      → commit_candidate (run start cs).tracker ≡ some w
      → offset < w
      → Reported offset (run start cs).finished
  commit_candidate_safe w e h = elim Waits-after [
    | inl r ↦ r
    | inr open_here ↦ absurd (
        omega (
          arith,
          Covered-Holds w offset (run start cs).tracker.entries
              (candidate-Covered (run start cs).tracker w w (run-Inv start cs start-Inv).valid e
                (omega arith))
              open_here,
        ))
  ]

  -- So is every accepted offset under the position that the broker has confirmed.
  pub committed_safe :
      offset < floor (run start cs).tracker.committed → Reported offset (run start cs).finished
  committed_safe h = elim Waits-after [
    | inl r ↦ r
    | inr open_here ↦ absurd (
        omega (
          arith,
          Holds-Above _ offset false (run start cs).tracker.entries
              (run-Inv start cs start-Inv).valid.ascending open_here,
        ))
  ]
