-- ===== src/Orders/Repository/Shuffling.antt =====
-- The items of an order, from rows that come in another order
-- (order-service/models2row-mappers/mapper/OrderRowMapper.h).
use mathlib.Core.Path.{subst}
use liquid_pet_project.Prelude.{
  ◌≡◌, ◌∙◌, refl, sym, ap, inl, inr, List, [], ◌∷◌, ok, err, Expected, Expected-cases, Shuffle,
  none_left, same_head, swapped_heads, in_turn,
}
use liquid_pet_project.Errors.{ErrorCode}
use liquid_pet_project.Orders.Order.{OrderItem}
use liquid_pet_project.Orders.Rows.{ItemRow, from_row, parse_items}

pub parse_items-more :
    (row : ItemRow) (rows : List ItemRow) (item : OrderItem) (items : List OrderItem)
    → from_row row ≡ ok item
    → parse_items rows ≡ ok items
    → parse_items (row ∷ rows) ≡ ok (item ∷ items)
unfolding parse_items
parse_items-more row rows item items one more = rw (one, more, parse_items)

parse_items-refused :
    (row : ItemRow) (rows : List ItemRow) (e : ErrorCode)
    → from_row row ≡ err e
    → parse_items (row ∷ rows) ≡ err e
unfolding parse_items
parse_items-refused row rows e refused = rw (refused, parse_items)

parse_items-later :
    (row : ItemRow) (rows : List ItemRow) (item : OrderItem) (e : ErrorCode)
    → from_row row ≡ ok item
    → parse_items rows ≡ err e
    → parse_items (row ∷ rows) ≡ err e
unfolding parse_items
parse_items-later row rows item e one refused = rw (one, refused, parse_items)

-- Rows that are all read begin with one that is read.
abbrev Begins : ItemRow → List ItemRow → List OrderItem → Type 0
Begins row rows items =
    (item : OrderItem) × (rest : List OrderItem) × (from_row row ≡ ok item)
    × (parse_items rows ≡ ok rest)
    × (item ∷ rest ≡ items)

items_of : Expected ErrorCode (List OrderItem) → List OrderItem
items_of (ok items) = items
items_of (err e) = []

parse_items-Begins :
    (row : ItemRow) (rows : List ItemRow) (items : List OrderItem)
    → parse_items (row ∷ rows) ≡ ok items
    → Begins row rows items
unfolding items_of
parse_items-Begins row rows items h = elim (Expected-cases (from_row row)) [
  | inr (e, refused) ↦ absurd (cc (sym h ∙ parse_items-refused row rows e refused))
  | inl (item, one) ↦ elim (Expected-cases (parse_items rows)) [
    | inr (e, refused) ↦ absurd (cc (sym h ∙ parse_items-later row rows item e one refused))
    | inl (rest, more) ↦ (
      item,
      rest,
      one,
      more,
      ap items_of (sym (parse_items-more row rows item rest one more) ∙ h),
    )
  ]
]

-- Read in another order, rows give the same items in another order.
abbrev Shuffled : List ItemRow → List OrderItem → Type 0
Shuffled rows items =
    (shuffled : List OrderItem) × (parse_items rows ≡ ok shuffled) × Shuffle shuffled items

parse_none : (items : List OrderItem) → parse_items [] ≡ ok items → Shuffled [] items
unfolding parse_items items_of
parse_none items h = ([], refl, subst (Shuffle []) (ap items_of h) none_left)

pub parse_items-Shuffled :
    {xs ys : List ItemRow}
    → Shuffle xs ys
    → (items : List OrderItem) → parse_items ys ≡ ok items
    → Shuffled xs items
parse_items-Shuffled none_left items h = parse_none items h
parse_items-Shuffled (same_head {xs} {ys} a d) items h =
    let (item, rest, one, more, q) = parse_items-Begins a ys items h in
    let (shuffled, read, p) = parse_items-Shuffled d rest more in
    (
      item ∷ shuffled,
      parse_items-more a xs item shuffled one read,
      subst (Shuffle (item ∷ shuffled)) q (same_head item p),
    )
parse_items-Shuffled (swapped_heads a b l) items h =
    let (i, r, one, more, q) = parse_items-Begins b (a ∷ l) items h in
    let (k, rest, two, last, q') = parse_items-Begins a l r more in
    (
      k ∷ i ∷ rest,
      parse_items-more a (b ∷ l) k (i ∷ rest) two (parse_items-more b l i rest one last),
      subst (Shuffle (k ∷ i ∷ rest)) (ap (λ t. i ∷ t) q' ∙ q) (swapped_heads k i rest),
    )
parse_items-Shuffled (in_turn d₁ d₂) items h =
    let (middle, read, p) = parse_items-Shuffled d₂ items h in
    let (shuffled, read', p') = parse_items-Shuffled d₁ middle read in
    (shuffled, read', in_turn p' p)
