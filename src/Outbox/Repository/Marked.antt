-- ===== src/Outbox/Repository/Marked.antt =====
-- What `fetchUnpublished` gives of rows of which some are marked
-- (shared/outbox/PostgresOutboxRepository.cpp).
use liquid_pet_project.Prelude.{
  ℕ, zero, suc, ◌≡◌, ◌⊎◌, ◌∙◌, refl, sym, ap, inl, inr, Bool, true, false, ◌&&◌, ◌||◌, not, Option,
  none, some, List, [], ◌∷◌, String, if◌then◌else◌, Expected, ok, err, transform, map, All, ◌==◌,
  eq_string, Bool-cases, Expected-cases, arith,
}
use mathlib.Core.Path.{subst}
use liquid_pet_project.Prelude.Int.{ℤ, pos, negsuc}
use liquid_pet_project.Errors.{ErrorCode, repository_enum}
use liquid_pet_project.Models.StrongId
use liquid_pet_project.Models.StrongId.{StrongId, outbox_event_id}
use liquid_pet_project.Models.StrongId.Shape.{create_iff}
use liquid_pet_project.Postgres.{PqxxException, Faults, Ran, ran, raised, Ending, commits, exec}
use liquid_pet_project.Postgres.Transactions.{Fails, transact-raised, transact-commits}
use liquid_pet_project.Outbox.{OutboxEntry}
use liquid_pet_project.Outbox.Repository.{
  OutboxRow, map_row, map_rows, unpublished, select_unpublished, fetch_body, fetch_unpublished,
}

module _ (locked : String → Bool) (limit : ℕ) (row : OutboxRow) (rows : List OutboxRow) where
  unpublished-taken :
      not row.published && not (locked row.id) ≡ true
      → unpublished locked (suc limit) (row ∷ rows) ≡ row ∷ unpublished locked limit rows
  unfolding unpublished
  unpublished-taken taken = rw (taken, unpublished)

  unpublished-skipped :
      not row.published && not (locked row.id) ≡ false
      → unpublished locked (suc limit) (row ∷ rows) ≡ unpublished locked (suc limit) rows
  unfolding unpublished
  unpublished-skipped skipped = rw (skipped, unpublished)

-- The identifier of an entry that was made of a row.
abbrev entry_id : Expected ErrorCode OutboxEntry → String
entry_id (ok entry) = entry.id.value
entry_id (err e) = ""

entry_id-made :
    (row : OutboxRow) (made : StrongId outbox_event_id)
    → StrongId.create outbox_event_id row.id ≡ ok made
    → entry_id (map_row row) ≡ made.value
unfolding map_row
entry_id-made row made accepted = rw accepted refl

map_rows-refused :
    (row : OutboxRow) (rows : List OutboxRow) (e : ErrorCode)
    → map_row row ≡ err e
    → map_rows (row ∷ rows) ≡ err e
unfolding map_rows
map_rows-refused row rows e refused = rw (refused, map_rows)

map_rows-more :
    (row : OutboxRow) (rows : List OutboxRow) (entry : OutboxEntry)
    → map_row row ≡ ok entry
    → map_rows (row ∷ rows) ≡ transform (λ entries. entry ∷ entries) (map_rows rows)
unfolding map_rows
map_rows-more row rows entry mapped = rw (mapped, map_rows)

map_row-id :
    (row : OutboxRow) (entry : OutboxEntry) → map_row row ≡ ok entry → entry.id.value ≡ row.id
unfolding map_row
map_row-id row entry mapped = elim (Expected-cases (StrongId.create outbox_event_id row.id)) [
  | inr (e, refused) ↦ absurd (cc (rw refused at mapped))
  | inl (made, accepted) ↦
      sym (ap entry_id mapped)
      ∙ entry_id-made row made accepted
      ∙ ap (λ i. i.value) ((create_iff outbox_event_id row.id made).0 accepted).1
]

module _ (uuid : String → String) (id : StrongId outbox_event_id) where
  abbrev pub is_marked : OutboxRow → Bool
  is_marked row = row.id == uuid id.value

  abbrev pub has_row : List OutboxRow → Bool
  has_row [] = false
  has_row (row ∷ rows) = is_marked row || has_row rows

  abbrev pub marked_row : OutboxRow → OutboxRow
  marked_row row = if is_marked row then record row { published = true } else row

  -- A row that is published if it has the identifier; one and an entry that do not have it.
  abbrev pub Settled : OutboxRow → Type 0
  Settled row = (is_marked row ≡ false) ⊎ (row.published ≡ true)

  abbrev Other : OutboxRow → Type 0
  Other row = is_marked row ≡ false

  abbrev pub OtherEntry : OutboxEntry → Type 0
  OtherEntry entry = (entry.id.value == uuid id.value) ≡ false

  pub marked_rows-Settled : (rows : List OutboxRow) → All Settled (map marked_row rows)
  marked_rows-Settled [] = tt
  marked_rows-Settled (row ∷ rows) = (
    elim (Bool-cases (is_marked row)) [
      | inl hit ↦ inr (rw hit refl)
      | inr miss ↦ inl (rw miss miss)
    ],
    marked_rows-Settled rows,
  )

  -- A row that is not published and settled is another one.
  selected-Other :
      (locked : String → Bool) (row : OutboxRow)
      → Settled row
      → not row.published && not (locked row.id) ≡ true
      → Other row
  selected-Other locked row (inl miss) open_row = miss
  selected-Other locked row (inr published) open_row = absurd (ground (arith, published))

  unpublished-Other :
      (locked : String → Bool) (limit : ℕ) (rows : List OutboxRow)
      → All Settled rows
      → All Other (unpublished locked limit rows)
  unfolding unpublished
  unpublished-Other locked zero rows settled = tt
  unpublished-Other locked (suc limit) [] settled = tt
  unpublished-Other locked (suc limit) (row ∷ rows) (settled, rest) =
      elim (Bool-cases (not row.published && not (locked row.id))) [
        | inl taken ↦
            subst (All Other) (sym (unpublished-taken locked limit row rows taken))
              (selected-Other locked row settled taken, unpublished-Other locked limit rows rest)
        | inr skipped ↦
            subst (All Other) (sym (unpublished-skipped locked limit row rows skipped))
              (unpublished-Other locked (suc limit) rows rest)
      ]

  -- The entries of an answer.
  abbrev pub entries_of : Expected ErrorCode (List OutboxEntry) → List OutboxEntry
  entries_of (ok entries) = entries
  entries_of (err e) = []

  more-Other :
      (entry : OutboxEntry) (rest : Expected ErrorCode (List OutboxEntry))
      → OtherEntry entry
      → All OtherEntry (entries_of rest)
      → All OtherEntry (entries_of (transform (λ entries. entry ∷ entries) rest))
  more-Other entry (ok entries) other others = (other, others)
  more-Other entry (err e) other others = tt

  map_rows-Other :
      (rows : List OutboxRow) → All Other rows → All OtherEntry (entries_of (map_rows rows))
  unfolding map_rows
  map_rows-Other [] others = tt
  map_rows-Other (row ∷ rows) (other, others) = elim (Expected-cases (map_row row)) [
    | inr (e, refused) ↦
        subst (λ r. All OtherEntry (entries_of r)) (sym (map_rows-refused row rows e refused)) tt
    | inl (entry, mapped) ↦
        subst (λ r. All OtherEntry (entries_of r)) (sym (map_rows-more row rows entry mapped))
          (more-Other entry (map_rows rows)
            (ap (λ t. t == uuid id.value) (map_row-id row entry mapped) ∙ other)
            (map_rows-Other rows others))
  ]

  -- What the body of a fetch comes to on rows of which the marked ones are published.
  abbrev FetchesOthers :
      Ran (List OutboxRow) (Ending (Expected ErrorCode (List OutboxEntry))) → Type 0
  FetchesOthers result =
      ((e : PqxxException) × (result ≡ raised e))
      ⊎ ((answer : Expected ErrorCode (List OutboxEntry)) × (rows : List OutboxRow) × (rest : List
            (Option PqxxException))
          × (result ≡ ran (commits answer) rows rest)
          × All OtherEntry (entries_of answer))

  fetch_body-FetchesOthers :
      (locked : String → Bool) (limit : ℤ) (rows : List OutboxRow)
      (faults : List (Option PqxxException))
      → All Settled rows
      → FetchesOthers (fetch_body locked limit rows faults)
  unfolding fetch_body select_unpublished exec
  fetch_body-FetchesOthers locked (negsuc n) rows faults settled = inl (_, refl)
  fetch_body-FetchesOthers locked (pos limit) rows [] settled = inr (
    map_rows (unpublished locked limit rows),
    rows,
    [],
    refl,
    map_rows-Other (unpublished locked limit rows) (unpublished-Other locked limit rows settled),
  )
  fetch_body-FetchesOthers locked (pos limit) rows (none ∷ faults) settled = inr (
    map_rows (unpublished locked limit rows),
    rows,
    faults,
    refl,
    map_rows-Other (unpublished locked limit rows) (unpublished-Other locked limit rows settled),
  )
  fetch_body-FetchesOthers locked (pos limit) rows (some e ∷ faults) settled = inl (e, refl)

  failed-Other :
      (rows : List OutboxRow) (result : Expected ErrorCode (List OutboxEntry) × List OutboxRow)
      → Fails rows result
      → All OtherEntry (entries_of result.0)
  failed-Other rows result (e, h) = subst (λ r. All OtherEntry (entries_of r.0)) (sym h) tt

  pub fetch-Other :
      (faults : Faults) (locked : String → Bool) (limit : ℤ) (rows : List OutboxRow)
      → All Settled rows
      → All OtherEntry (entries_of (fetch_unpublished faults locked limit rows).0)
  unfolding fetch_unpublished
  fetch-Other faults locked limit rows settled =
      let body = fetch_body locked limit in
      elim (fetch_body-FetchesOthers locked limit rows faults.statements settled) [
        | inl (e, h) ↦ failed-Other rows _ (transact-raised faults body rows h)
        | inr (answer, after, rest, h, others) ↦ elim (transact-commits faults body rows h) [
          | inl same ↦ subst (λ r. All OtherEntry (entries_of r.0)) (sym same) others
          | inr (inl fails) ↦ failed-Other rows _ fails
          | inr (inr fails) ↦ failed-Other after _ fails
        ]
      ]
