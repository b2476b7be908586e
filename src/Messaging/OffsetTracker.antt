-- ===== src/Messaging/OffsetTracker.antt =====
-- shared/messaging/OffsetTracker.h: the offsets of one partition.
-- An int64_t offset v stands as the number v + 2^63, which keeps the order and the successor; the
-- counters are size_t, and a decrement of 0 wraps.
pub mod Entries
pub mod Invariant
pub mod Outcomes
pub mod Drain
pub mod Confirmed
pub mod History
use liquid_pet_project.Prelude.{
  ℕ, zero, suc, ◌+◌, ◌-◌, ◌^◌, Bool, true, false, Option, none, some, List, [], ◌∷◌, ◌++◌, ltb, leb,
  eqb, if◌then◌else◌, length, get_elem?, set, drop, Expected, ok, err,
}
use liquid_pet_project.Errors.{
  ErrorCode, make_error_code, offset_tracker_enum, out_of_order_registration, unknown_offset,
  commit_beyond_watermark,
}

pub record Entry : Type 0 where
  pub offset : ℕ
  pub done : Bool

pub record OffsetTracker : Type 0 where
  pub entries : List Entry
  pub prefix_done : ℕ
  pub in_flight : ℕ
  pub last_registered : Option ℕ
  pub committed : Option ℕ

-- A method that returns `expected<void>` and changes the tracker.
abbrev pub Update : Type 0
Update = Expected ErrorCode (Unit {0}) × OffsetTracker

unfoldable pub new : OffsetTracker
new = record {
  entries = [];
  prefix_done = 0;
  in_flight = 0;
  last_registered = none;
  committed = none;
}

-- `--n` on size_t.
unfoldable pub decrement : ℕ → ℕ
decrement zero = 2 ^ 64 - 1
decrement (suc n) = n

-- `has_value() && offset <= *value`, and `has_value() && offset < *value`.
unfoldable pub at_most : ℕ → Option ℕ → Bool
at_most offset none = false
at_most offset (some o) = leb offset o

unfoldable pub is_below : ℕ → Option ℕ → Bool
is_below offset none = false
is_below offset (some o) = ltb offset o

unfoldable pub register_record : OffsetTracker → ℕ → Update
unfolding at_most
register_record t offset =
    if at_most offset t.last_registered
    then (err (make_error_code out_of_order_registration), t)
    else (
      ok tt,
      record t {
        entries = t.entries ++ record { offset = offset; done = false } ∷ [];
        in_flight = suc t.in_flight;
        last_registered = some offset;
      },
    )

-- std::ranges::lower_bound on the ascending deque: the first entry that is not below `offset`.
unfoldable pub lower_bound : List Entry → ℕ → ℕ
lower_bound [] offset = 0
lower_bound (e ∷ es) offset =
    let rest = suc (lower_bound es offset) in if ltb e.offset offset then rest else 0

-- The loop of `advancePrefix`, over the entries that are left.
unfoldable pub advance : List Entry → ℕ → ℕ
advance [] n = n
advance (e ∷ es) n = elim e.done [ true ↦ advance es (suc n) | false ↦ n ]

unfoldable pub advance_prefix : OffsetTracker → OffsetTracker
unfolding advance
advance_prefix t = record t { prefix_done = advance (drop t.prefix_done t.entries) t.prefix_done }

-- What `complete` does with the entry at index `i`.
unfoldable pub complete_at : OffsetTracker → ℕ → ℕ → Option Entry → Update
unfolding advance_prefix decrement
complete_at t offset i none = (err (make_error_code unknown_offset), t)
complete_at t offset i (some e) =
    if eqb e.offset offset
    then (if e.done then (ok tt, t) else (
      ok tt,
      advance_prefix (record t {
        entries = set t.entries i (record e { done = true });
        in_flight = decrement t.in_flight;
      }),
    ))
    else (err (make_error_code unknown_offset), t)

unfoldable pub complete : OffsetTracker → ℕ → Update
unfolding is_below lower_bound complete_at
complete t offset =
    let i = lower_bound t.entries offset in
    if is_below offset t.committed
    then (ok tt, t)
    else complete_at t offset i (get_elem? t.entries i)

-- `_entries[_prefixDone - 1].offset + 1`; an index out of range does not occur in a valid tracker.
unfoldable pub next_of : Option Entry → Option ℕ
next_of none = none
next_of (some e) = some (e.offset + 1)

unfoldable pub commit_candidate : OffsetTracker → Option ℕ
unfolding next_of
commit_candidate t =
    if eqb t.prefix_done 0 then none else next_of (get_elem? t.entries (t.prefix_done - 1))

-- The loop of `confirmCommit`: the entries and the prefix that are left.
unfoldable pub pop_committed : List Entry → ℕ → ℕ → List Entry × ℕ
unfolding decrement
pop_committed [] position n = ([], n)
pop_committed (e ∷ es) position n =
    let rest = pop_committed es position (decrement n) in
    if ltb e.offset position then rest else (e ∷ es, n)

unfoldable pub confirm_at : OffsetTracker → ℕ → Option ℕ → Update
unfolding pop_committed
confirm_at t position none = (err (make_error_code commit_beyond_watermark), t)
confirm_at t position (some watermark) =
    if ltb watermark position
    then (err (make_error_code commit_beyond_watermark), t)
    else (let (es, n) = pop_committed t.entries position t.prefix_done in
        (ok tt, record t { entries = es; prefix_done = n; committed = some position }))

unfoldable pub confirm_commit : OffsetTracker → ℕ → Update
unfolding at_most confirm_at commit_candidate
confirm_commit t position =
    if at_most position t.committed then (ok tt, t) else confirm_at t position (commit_candidate t)

unfoldable pub uncommitted_count : OffsetTracker → ℕ
uncommitted_count t = length t.entries

unfoldable pub in_flight_count : OffsetTracker → ℕ
in_flight_count t = t.in_flight

unfoldable pub reset : OffsetTracker → OffsetTracker
reset t = record t {
  entries = [];
  prefix_done = 0;
  in_flight = 0;
  last_registered = none;
  committed = none;
}
