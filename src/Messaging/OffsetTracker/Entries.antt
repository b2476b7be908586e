-- ===== src/Messaging/OffsetTracker/Entries.antt =====
-- The deque of shared/messaging/OffsetTracker.h: order, finished prefix and unfinished entries.
pub mod Counts
pub mod Watermark
pub mod Popping
use liquid_pet_project.Prelude.{
  ℕ, zero, suc, ◌+◌, ◌-◌, ◌≤◌, ◌<◌, ◌≡◌, ◌⊎◌, inl, inr, refl, Bool, true, false, Option, none, some,
  List, [], ◌∷◌, ◌++◌, arith, ltb, eqb, if◌then◌else◌, length, get_elem?, set, drop, Option-cases,
  Bool-cases, ltb→lt, lt→ltb, ◌≢◌,
}
use liquid_pet_project.Messaging.OffsetTracker.{
  Entry, lower_bound, advance, pop_committed, decrement,
}

-- Offsets rise strictly along the list and start at `b`.
abbrev pub Above : ℕ → List Entry → Type 0
Above b [] = Unit
Above b (e ∷ es) = (b ≤ e.offset) × Above (suc e.offset) es

-- Every offset is under `n`.
abbrev pub Under : ℕ → List Entry → Type 0
Under n [] = Unit
Under n (e ∷ es) = (e.offset < n) × Under n es

-- Every entry under `position` is done.
abbrev pub Covered : ℕ → List Entry → Type 0
Covered position [] = Unit
Covered position (e ∷ es) = (e.offset < position → e.done ≡ true) × Covered position es

-- The length of the longest prefix that is done.
unfoldable pub done_prefix : List Entry → ℕ
done_prefix [] = 0
done_prefix (e ∷ es) = if e.done then suc (done_prefix es) else 0

-- How many entries are not done.
unfoldable pub undone : List Entry → ℕ
undone [] = 0
undone (e ∷ es) = if e.done then undone es else suc (undone es)

-- An entry with this offset that is done, or is not.
abbrev pub Holds : ℕ → Bool → List Entry → Type 0
Holds offset b [] = ⊥
Holds offset b (e ∷ es) = ((e.offset ≡ offset) × (e.done ≡ b)) ⊎ Holds offset b es

abbrev pub fresh : ℕ → Entry
fresh offset = record { offset = offset; done = false }

abbrev pub mark : Entry → Entry
mark e = record e { done = true }

pub Above-append :
    (b n offset : ℕ) (es : List Entry)
    → Above b es
    → Under n es
    → n ≤ offset
    → b ≤ offset
    → Above b (es ++ fresh offset ∷ [])
Above-append b n offset [] a u h k = (k, tt)
Above-append b n offset (e ∷ es) a u h k =
    (a.0, Above-append (suc e.offset) n offset es a.1 u.1 h (omega arith))

pub Under-append :
    (n offset : ℕ) (es : List Entry)
    → Under n es
    → n ≤ offset
    → Under (suc offset) (es ++ fresh offset ∷ [])
Under-append n offset [] u h = (omega arith, tt)
Under-append n offset (e ∷ es) u h = (omega arith, Under-append n offset es u.1 h)

-- What marking the entry at index `i` keeps and changes.
pub Above-set :
    (b i : ℕ) (es : List Entry) (e : Entry)
    → get_elem? es i ≡ some e
    → Above b es
    → Above b (set es i (mark e))
Above-set b i [] e h a = tt
Above-set b zero (x ∷ es) e h a = ground arith
Above-set b (suc i) (x ∷ es) e h a = (a.0, Above-set (suc x.offset) i es e h a.1)

pub Under-set :
    (n i : ℕ) (es : List Entry) (e : Entry)
    → get_elem? es i ≡ some e
    → Under n es
    → Under n (set es i (mark e))
Under-set n i [] e h a = tt
Under-set n zero (x ∷ es) e h a = ground arith
Under-set n (suc i) (x ∷ es) e h a = (a.0, Under-set n i es e h a.1)

pub Holds-Above :
    (b offset : ℕ) (done : Bool) (es : List Entry) → Above b es → Holds offset done es → b ≤ offset
Holds-Above b offset done [] a h = elim h [ ]
Holds-Above b offset done (x ∷ es) a (inl here) = omega arith
Holds-Above b offset done (x ∷ es) a (inr later) =
    omega (arith, Holds-Above (suc x.offset) offset done es a.1 later)

-- Marking one entry leaves the others as they were.
pub Holds-set :
    (offset : ℕ) (done : Bool) (i : ℕ) (es : List Entry) (e : Entry)
    → get_elem? es i ≡ some e
    → e.offset ≢ offset
    → Holds offset done es
    → Holds offset done (set es i (mark e))
Holds-set offset done i [] e at n h = h
Holds-set offset done zero (x ∷ es) e at n (inl here) = absurd (n (ground arith))
Holds-set offset done zero (x ∷ es) e at n (inr later) = inr later
Holds-set offset done (suc i) (x ∷ es) e at n (inl here) = inl here
Holds-set offset done (suc i) (x ∷ es) e at n (inr later) =
    inr (Holds-set offset done i es e at n later)

-- The last entry is there, and the others stay.
pub Holds-append_self :
    (offset : ℕ) (es : List Entry) → Holds offset false (es ++ fresh offset ∷ [])
Holds-append_self offset [] = inl (refl, refl)
Holds-append_self offset (x ∷ es) = inr (Holds-append_self offset es)

pub Holds-append :
    (offset new : ℕ) (done : Bool) (es : List Entry)
    → Holds offset done es
    → Holds offset done (es ++ fresh new ∷ [])
Holds-append offset new done [] h = elim h [ ]
Holds-append offset new done (x ∷ es) (inl here) = inl here
Holds-append offset new done (x ∷ es) (inr later) = inr (Holds-append offset new done es later)

-- What is covered and not done lies at the position or after it.
pub Covered-Holds :
    (position offset : ℕ) (es : List Entry)
    → Covered position es
    → Holds offset false es
    → position ≤ offset
Covered-Holds position offset [] c h = elim h [ ]
Covered-Holds position offset (x ∷ es) c (inl (at, undone_here)) =
    elim (Bool-cases (ltb offset position)) [
      | inl under ↦ cc (c.0 (ltb→lt _ _ (rw at under)))
      | inr over ↦ ground arith
    ]
Covered-Holds position offset (x ∷ es) c (inr later) = Covered-Holds position offset es c.1 later
