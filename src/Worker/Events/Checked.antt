-- ===== src/Worker/Events/Checked.antt =====
-- What OrderCreatedEventJsonMapper::fromJson (worker-service/events2json-mapper) lets through.
use liquid_pet_project.Prelude.{
  ◌≡◌, refl, sym, ap, Option, none, some, List, [], ◌∷◌, String, arith, Expected, ok, err, ◌>>=◌,
  transform, All, length, Expected-cases, suc, inl, inr,
}
use mathlib.Core.Path.{subst}
use liquid_pet_project.Prelude.Int.{ℤ, pos, ◌≤ℤ◌}
use liquid_pet_project.Errors.{make_error_code, errc_enum, invalid_argument}
use liquid_pet_project.Models.StrongId
use liquid_pet_project.Models.StrongId.{StrongId, Tag, order_id, user_id, product_id}
use liquid_pet_project.Models.StrongId.Shape.{create_iff}
use liquid_pet_project.Json.{JsonLibrary, get_value}
use liquid_pet_project.Worker.Events.{
  OrderCreatedItem, OrderCreatedEvent, checked_item, parse_item, parse_all, parse_items, from_json,
}

-- A chain that succeeds has a first step that succeeds.
pub first_ok {ℓ κ ν} :
    {E : Type ℓ} {A : Type κ} {B : Type ν} (r : Expected E A) (f : A → Expected E B) (b : B)
    → (r >>= f) ≡ ok b
    → (a : A) × ((r ≡ ok a) × (f a ≡ ok b))
first_ok (ok a) f b h = (a, (refl, h))
first_ok (err e) f b h = absurd (ground arith)

pub transformed_ok {ℓ κ ν} :
    {E : Type ℓ} {A : Type κ} {B : Type ν} (f : A → B) (r : Expected E A) (b : B)
    → transform f r ≡ ok b
    → (a : A) × ((r ≡ ok a) × (f a ≡ b))
transformed_ok f (ok a) b h = (a, (refl, ground arith))
transformed_ok f (err e) b h = absurd (ground arith)

-- An identifier that was made can be made again of its text.
pub create_again :
    (t : Tag) (text : String) (id : StrongId t)
    → StrongId.create t text ≡ ok id
    → StrongId.create t id.value ≡ ok id
create_again t text id h =
    let kept = ((create_iff t text id).0 h).1 in
    subst (λ (i : StrongId t). StrongId.create t i.value ≡ ok id) (sym kept) h

-- An item with a valid product and a positive quantity.
abbrev pub IsChecked : OrderCreatedItem → Type 0
IsChecked item =
    (StrongId.create product_id item.product.value ≡ ok item.product) × (pos 1 ≤ℤ item.quantity)

checked-quantity :
    (product : StrongId product_id) (quantity : ℤ) (item : OrderCreatedItem)
    → checked_item product quantity ≡ ok item
    → (product ≡ item.product) × (pos 1 ≤ℤ item.quantity)
unfolding checked_item
checked-quantity product quantity item h = ground arith

module _ (j : JsonLibrary) where
  parse_item-IsChecked :
      (json : j.Json) (item : OrderCreatedItem) → parse_item j json ≡ ok item → IsChecked item
  unfolding parse_item
  parse_item-IsChecked json item h =
      let (text, (_, h1)) = first_ok (get_value (j.string_at json "productId")) _ item h in
      let (product, (made, h2)) = first_ok (StrongId.create product_id text) _ item h1 in
      let (quantity, (_, h3)) = first_ok (get_value (j.int_at json "quantity")) _ item h2 in
      let (same, positive) = checked-quantity product quantity item h3 in
      (
        subst (λ (i : StrongId product_id). StrongId.create product_id i.value ≡ ok i) same
            (create_again product_id text product made),
        positive,
      )

  -- Every element of the array becomes an item.
  abbrev Complete : List j.Json → List OrderCreatedItem → Type 0
  Complete jsons items = All IsChecked items × (length items ≡ length jsons)

  parse_all-Complete :
      (jsons : List j.Json) (items : List OrderCreatedItem)
      → parse_all j jsons ≡ ok items
      → Complete jsons items
  unfolding parse_all
  parse_all-Complete [] items h =
      let q : [] ≡ items = ground arith in subst (Complete []) q (tt, refl)
  parse_all-Complete (json ∷ jsons) items h = elim (Expected-cases (parse_item j json)) [
    | inr (e, q) ↦ absurd (cc (rw (q, parse_all) at h))
    | inl (item, q) ↦
        let (rest, (p, same)) =
          transformed_ok (λ l. item ∷ l) (parse_all j jsons) items (rw (q, parse_all) at h) in
        let (checked, count) = parse_all-Complete jsons rest p in
        subst (Complete (json ∷ jsons)) same
          ((parse_item-IsChecked json item q, checked), ap suc count)
  ]

  elements_parsed :
      (found : Option (List j.Json)) (items : List OrderCreatedItem)
      → elim found [
        | none ↦ err (make_error_code invalid_argument)
        | some jsons ↦ parse_all j jsons
      ]
        ≡ ok items
      → (jsons : List j.Json) × ((found ≡ some jsons) × Complete jsons items)
  elements_parsed none items h = absurd (ground arith)
  elements_parsed (some jsons) items h = (jsons, (refl, parse_all-Complete jsons items h))

  -- An event that is read has identifiers that can be made of their texts, and one item for each
  -- element of the array of items, with a valid product and a positive quantity.
  pub from_json-checked :
      (json : j.Json) (event : OrderCreatedEvent)
      → from_json j json ≡ ok event
      → (StrongId.create order_id event.order.value ≡ ok event.order)
        × ((StrongId.create user_id event.user.value ≡ ok event.user)
            × ((array : j.Json) × ((jsons : List j.Json) × ((get_value (j.json_at json "items")
                      ≡ ok array)
                    × ((j.elements array ≡ some jsons) × Complete jsons event.items)))))
  unfolding from_json parse_items
  from_json-checked json event h =
      let (text, (_, h1)) = first_ok (get_value (j.string_at json "orderId")) _ event h in
      let (order, (made, h2)) = first_ok (StrongId.create order_id text) _ event h1 in
      let (user_text, (_, h3)) = first_ok (get_value (j.string_at json "userId")) _ event h2 in
      let (user, (user_made, h4)) = first_ok (StrongId.create user_id user_text) _ event h3 in
      let (items, (parsed, h5)) = first_ok (parse_items j json) _ event h4 in
      let (array, (fetched, h6)) = first_ok (get_value (j.json_at json "items")) _ items parsed in
      let (jsons, (listed, complete)) = elements_parsed (j.elements array) items h6 in
      let same_order : order ≡ event.order = ground arith in
      let same_user : user ≡ event.user = ground arith in
      let same_items : items ≡ event.items = ground arith in
      (
        subst (λ (i : StrongId order_id). StrongId.create order_id i.value ≡ ok i) same_order
            (create_again order_id text order made),
        (
          subst (λ (i : StrongId user_id). StrongId.create user_id i.value ≡ ok i) same_user
              (create_again user_id user_text user user_made),
          (array, (jsons, (fetched, (listed, subst (Complete jsons) same_items complete)))),
        ),
      )
