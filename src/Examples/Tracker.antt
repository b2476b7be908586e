-- ===== src/Examples/Tracker.antt =====
-- The offset tracker (shared/messaging/OffsetTracker.h) on concrete offsets.
use liquid_pet_project.Prelude.{ℕ, ◌≡◌, inl, inr, refl, some, List, [], ◌∷◌, arith}
use liquid_pet_project.Messaging.OffsetTracker.{
  OffsetTracker, new, register_record, complete, commit_candidate, confirm_commit, at_most,
  is_below, lower_bound, complete_at, advance, advance_prefix, next_of, confirm_at, pop_committed,
  decrement, in_flight_count, uncommitted_count,
}
use liquid_pet_project.Messaging.OffsetTracker.Invariant.{
  IsValid, register_record-IsValid, complete-IsValid, new-IsValid,
}
use liquid_pet_project.Messaging.OffsetTracker.Outcomes.{complete-eq-reference, reference_complete}
use liquid_pet_project.Messaging.OffsetTracker.Drain.{all_finished_commit}
use liquid_pet_project.Messaging.OffsetTracker.History.{
  Call, registers, completes, confirms, start, step, run, accept, Reported, commit_candidate_safe,
  committed_safe,
}

-- Offsets 5, 7 and 8 arrive; 7 and 5 are finished.
abbrev calls : List Call
calls = registers 5 ∷ registers 7 ∷ registers 8 ∷ completes 7 ∷ completes 5 ∷ []

seven_accepted : Reported 7 (run start calls).registered
unfolding run step accept start register_record at_most new
seven_accepted = inr (inl refl)

offers_eight : commit_candidate (run start calls).tracker ≡ some 8
unfolding run step accept start new register_record at_most complete is_below lower_bound
    complete_at advance advance_prefix decrement commit_candidate next_of
offers_eight = refl

commit_candidate_safe_example : Reported 7 (run start calls).finished
commit_candidate_safe_example =
    commit_candidate_safe calls 7 seven_accepted 8 offers_eight (omega arith)

abbrev confirmed : List Call
confirmed = registers 5 ∷ registers 7 ∷ completes 5 ∷ confirms 6 ∷ []

committed_safe_example : Reported 5 (run start confirmed).finished
unfolding run step accept start new register_record at_most complete is_below lower_bound
    complete_at advance advance_prefix decrement commit_candidate next_of confirm_at pop_committed
    confirm_commit
committed_safe_example = committed_safe confirmed 5 (inr (inl refl)) (omega arith)

abbrev two : OffsetTracker
two = (register_record (register_record new 5).1 7).1

two-IsValid : IsValid two
two-IsValid =
    register_record-IsValid (register_record new 5).1 7 (register_record-IsValid new 5 new-IsValid)

complete-eq-reference_example : complete two 7 ≡ reference_complete two 7
complete-eq-reference_example = complete-eq-reference two 7 two-IsValid

abbrev finished : OffsetTracker
finished = (complete (complete two 7).1 5).1

finished-IsValid : IsValid finished
finished-IsValid = complete-IsValid (complete two 7).1 5 (complete-IsValid two 7 two-IsValid)

all_finished_commit_example :
    (w : ℕ) × (commit_candidate finished ≡ some w)
    × (uncommitted_count (confirm_commit finished w).1 ≡ 0)
unfolding new register_record at_most complete is_below lower_bound complete_at advance
    advance_prefix decrement in_flight_count uncommitted_count
all_finished_commit_example = all_finished_commit finished finished-IsValid refl (omega arith)
