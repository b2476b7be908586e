-- ===== src/Messaging/OffsetTracker/Entries/Counts.antt =====
-- The finished prefix and the number of unfinished entries of shared/messaging/OffsetTracker.h.
use liquid_pet_project.Messaging.OffsetTracker.Entries.{done_prefix, undone, fresh, mark}
use liquid_pet_project.Prelude.{
  ℕ, zero, suc, ◌+◌, ◌≤◌, ◌≡◌, refl, false, some, List, [], ◌∷◌, ◌++◌, arith, get_elem?, set, drop,
}
use liquid_pet_project.Messaging.OffsetTracker.{Entry, advance}

pub done_prefix-append :
    (offset : ℕ) (es : List Entry) → done_prefix (es ++ fresh offset ∷ []) ≡ done_prefix es
unfolding done_prefix
done_prefix-append offset [] = refl
done_prefix-append offset (e ∷ es) = ground (arith, done_prefix-append offset es)

pub undone-append :
    (offset : ℕ) (es : List Entry) → undone (es ++ fresh offset ∷ []) ≡ suc (undone es)
unfolding undone
undone-append offset [] = refl
undone-append offset (e ∷ es) = ground (arith, undone-append offset es)

pub undone-set :
    (i : ℕ) (es : List Entry) (e : Entry)
    → get_elem? es i ≡ some e
    → e.done ≡ false
    → undone es ≡ suc (undone (set es i (mark e)))
unfolding undone
undone-set i [] e h d = cc
undone-set zero (x ∷ es) e h d = ground arith
undone-set (suc i) (x ∷ es) e h d = ground (arith, undone-set i es e h d)

pub done_prefix-set :
    (i : ℕ) (es : List Entry) (e : Entry) → done_prefix es ≤ done_prefix (set es i (mark e))
unfolding done_prefix
done_prefix-set i [] e = omega arith
done_prefix-set zero (x ∷ es) e = ground arith
done_prefix-set (suc i) (x ∷ es) e = ground (arith, done_prefix-set i es e)

advance_lem : (es : List Entry) (n : ℕ) → advance es n ≡ n + done_prefix es
unfolding advance done_prefix
advance_lem [] n = omega arith
advance_lem (e ∷ es) n = ground (arith, advance_lem es (suc n))

drop-done_prefix :
    (k : ℕ) (es : List Entry) → k ≤ done_prefix es → k + done_prefix (drop k es) ≡ done_prefix es
unfolding done_prefix
drop-done_prefix zero es h = omega arith
drop-done_prefix (suc k) [] h = omega arith
drop-done_prefix (suc k) (e ∷ es) h = ground (arith, drop-done_prefix k es)

-- The loop that starts inside the finished prefix ends at its end.
pub advance-drop :
    (k : ℕ) (es : List Entry) → k ≤ done_prefix es → advance (drop k es) k ≡ done_prefix es
advance-drop k es h = omega (arith, advance_lem (drop k es) k, drop-done_prefix k es h)
