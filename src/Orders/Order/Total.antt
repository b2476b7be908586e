-- ===== src/Orders/Order/Total.antt =====
-- The total of an order (order-service/models/Order.h, `totalAmount`) against the exact sum.
use liquid_pet_project.Prelude.{
  ◌≡◌, ◌≢◌, ◌⊎◌, inl, inr, refl, sym, ap, ◌∙◌, String, Option, none, some, List, [], ◌∷◌, arith,
  All, Expected, ok, err, ◌==◌, eq_string, beq→eq, Bool-cases,
}
use mathlib.Core.Path.{subst}
use liquid_pet_project.Prelude.Int.{ℤ, pos, negsuc, ◌+ℤ◌, ◌*ℤ◌, ◌≤ℤ◌}
use liquid_pet_project.Errors.{ErrorCode, make_error_code, money_enum, MoneyError}
use liquid_pet_project.Orders.Money
use liquid_pet_project.Orders.Money.{Money, int64_max, plus, times}
use liquid_pet_project.Orders.Money.Exact.{InRange, plus_outcome, plus_differs, times_outcome}
use liquid_pet_project.Orders.Order.{
  Order, OrderItem, add_items, line_total, total_amount, total_of,
}

-- What `OrderItem::create` and `Money::create` let through.
abbrev pub IsValid : OrderItem → Type 0
IsValid item = InRange item.price_at_order_time.minor_units × (pos 1 ≤ℤ item.quantity)

abbrev pub Priced : String → OrderItem → Type 0
Priced code item = item.price_at_order_time.currency.code ≡ code

-- The sum of prices times quantities, over the integers.
unfoldable pub exact_total : List OrderItem → ℤ
exact_total [] = pos 0
exact_total (item ∷ items) =
    item.price_at_order_time.minor_units *ℤ item.quantity +ℤ exact_total items

add-assoc_ℤ : (a b c : ℤ) → a +ℤ b +ℤ c ≡ a +ℤ (b +ℤ c)
unfolding ◌+ℤ◌
add-assoc_ℤ a b c = ground arith

add-nonneg :
    (a b : ℤ) → pos 0 ≤ℤ a → pos 0 ≤ℤ b → (pos 0 ≤ℤ a +ℤ b) × ((a ≤ℤ a +ℤ b) × (b ≤ℤ a +ℤ b))
unfolding ◌+ℤ◌
add-nonneg a b ha hb = ground arith

mul-nonneg : (a b : ℤ) → pos 0 ≤ℤ a → pos 0 ≤ℤ b → pos 0 ≤ℤ a *ℤ b
unfolding ◌*ℤ◌
mul-nonneg (pos a) (pos b) ha hb = ground arith
mul-nonneg (negsuc a) b ha hb = absurd (omega (arith, ha))
mul-nonneg (pos a) (negsuc b) ha hb = absurd (omega (arith, hb))

exact-nonneg : (items : List OrderItem) → All IsValid items → pos 0 ≤ℤ exact_total items
unfolding exact_total
exact-nonneg [] v = omega arith
exact-nonneg (item ∷ items) v =
    (add-nonneg (item.price_at_order_time.minor_units *ℤ item.quantity) (exact_total items)
      (mul-nonneg item.price_at_order_time.minor_units item.quantity v.0.0.0 (omega (arith, v.0.1)))
      (exact-nonneg items v.1)).0

err_stays : (e : ErrorCode) (items : List OrderItem) → add_items (err e) items ≡ err e
unfolding add_items
err_stays e [] = refl
err_stays e (item ∷ items) = refl

-- The amount of a line, when it is one.
unfoldable line_of : OrderItem → Money
line_of item = record {
  minor_units = item.price_at_order_time.minor_units *ℤ item.quantity;
  currency = item.price_at_order_time.currency;
}

line_outcome :
    (item : OrderItem)
    → IsValid item
    → (((line_of item).minor_units ≤ℤ int64_max) × (line_total item ≡ ok (line_of item)))
      ⊎ (¬ ((line_of item).minor_units ≤ℤ int64_max)
          × ((e : ErrorCode) × (line_total item ≡ err e)))
unfolding line_of line_total
line_outcome item v = ground (arith, times_outcome item.price_at_order_time item.quantity v.0 v.1)

-- The loop adds everything that is left, or fails.
abbrev Adds : Money → List OrderItem → Expected ErrorCode Money → Type 0
Adds total items result =
    (All (Priced total.currency.code) items
      × ((total.minor_units +ℤ exact_total items ≤ℤ int64_max)
          × (result
              ≡ ok (record {
                minor_units = total.minor_units +ℤ exact_total items;
                currency = total.currency;
              }))))
    ⊎ (¬ (
          All (Priced total.currency.code) items
          × (total.minor_units +ℤ exact_total items ≤ℤ int64_max))
        × ((e : ErrorCode) × (result ≡ err e)))

add_items_over :
    (total : Money) (item : OrderItem) (items : List OrderItem) (e : ErrorCode)
    → line_total item ≡ err e
    → add_items (ok total) (item ∷ items) ≡ err e
unfolding add_items
add_items_over total item items e q =
    ap (λ r. elim r [ err e ↦ err e | ok line ↦ add_items (plus total line) items ]) q

add_items_line :
    (total line : Money) (item : OrderItem) (items : List OrderItem)
    → line_total item ≡ ok line
    → add_items (ok total) (item ∷ items) ≡ add_items (plus total line) items
unfolding add_items
add_items_line total line item items q =
    ap (λ r. elim r [ err e ↦ err e | ok line ↦ add_items (plus total line) items ]) q

-- A part of a sum of amounts is within a bound on the sum.
parts_le : (a b c m : ℤ) → pos 0 ≤ℤ a → pos 0 ≤ℤ c → a +ℤ (b +ℤ c) ≤ℤ m → (b ≤ℤ m) × (a +ℤ b ≤ℤ m)
unfolding ◌+ℤ◌
parts_le a b c m ha hc h = ground arith

-- The total after a line that fits.
abbrev raised : Money → Money → Money
raised total line = record total { minor_units = total.minor_units +ℤ line.minor_units }

Adds-step :
    (total : Money) (item : OrderItem) (items : List OrderItem) (result : Expected ErrorCode Money)
    → total.currency.code ≡ item.price_at_order_time.currency.code
    → Adds (raised total (line_of item)) items result
    → Adds total (item ∷ items) result
unfolding exact_total line_of
Adds-step total item items result same h =
    let sums = add-assoc_ℤ total.minor_units (line_of item).minor_units (exact_total items) in
    elim h [
      | inl (priced, (fits, q)) ↦ inl (
        (sym same, priced),
        (
          subst (λ v. v ≤ℤ int64_max) sums fits,
          q ∙ ap (λ v. ok (record { minor_units = v; currency = total.currency })) sums,
        ),
      )
      | inr (fails, (e, q)) ↦
          inr (λ k. fails (k.0.1, subst (λ v. v ≤ℤ int64_max) (sym sums) k.1), (e, q))
    ]

line-InRange :
    (item : OrderItem)
    → IsValid item
    → (line_of item).minor_units ≤ℤ int64_max
    → InRange (line_of item).minor_units
unfolding line_of
line-InRange item v fits =
    (mul-nonneg item.price_at_order_time.minor_units item.quantity v.0.0 (omega (arith, v.1)), fits)

add_line :
    (total : Money) (item : OrderItem) (items : List OrderItem)
    → InRange total.minor_units
    → All IsValid (item ∷ items)
    → (line_of item).minor_units ≤ℤ int64_max
    → ((t : Money) → InRange t.minor_units → Adds t items (add_items (ok t) items))
    → Adds total (item ∷ items) (add_items (plus total (line_of item)) items)
unfolding exact_total line_of
add_line total item items r v fits rest =
    let line = line_of item in
    let lr = line-InRange item v.0 fits in
    elim (Bool-cases (total.currency.code == line.currency.code)) [
      | inr differ ↦
          let differs : total.currency.code ≢ line.currency.code =
            λ same. ground (arith, eq_string.same_iff total.currency.code line.currency.code) in
          inr (
            λ h. differs (sym h.0.0),
            (
              make_error_code MoneyError.different_currencies,
              ap (λ x. add_items x items) (plus_differs total line differs) ∙ err_stays _ items,
            ),
          )
      | inl match ↦
          let same = beq→eq total.currency.code line.currency.code match in
          elim (plus_outcome total line r lr same) [
            | inr (over, q) ↦ inr (
              λ h.
                  over
                    (parts_le total.minor_units line.minor_units (exact_total items) int64_max r.0
                      (exact-nonneg items v.1) h.1).1,
              (
                make_error_code MoneyError.overflow,
                ap (λ x. add_items x items) q ∙ err_stays _ items,
              ),
            )
            | inl (sum_fits, q) ↦
                subst (Adds total (item ∷ items)) (sym (ap (λ x. add_items x items) q)) (
                  Adds-step total item items (add_items (ok (raised total line)) items) same (
                    rest (raised total line)
                      ((add-nonneg total.minor_units line.minor_units r.0 lr.0).0, sum_fits)))
          ]
    ]

add_items-Adds :
    (total : Money) (items : List OrderItem)
    → InRange total.minor_units
    → All IsValid items
    → Adds total items (add_items (ok total) items)
unfolding add_items exact_total line_of ◌+ℤ◌
add_items-Adds total [] r v = ground arith
add_items-Adds total (item ∷ items) r v = elim (line_outcome item v.0) [
  | inr (over, (e, q)) ↦ inr (
    λ h.
        over
          (parts_le total.minor_units (line_of item).minor_units (exact_total items) int64_max r.0
            (exact-nonneg items v.1) h.1).0,
    (e, add_items_over total item items e q),
  )
  | inl (fits, q) ↦
      subst (Adds total (item ∷ items)) (sym (add_items_line total (line_of item) item items q))
        (add_line total item items r v fits (λ t rt. add_items-Adds t items rt v.1))
]

-- What the total of a list of items is to be: the exact sum, in the currency of the first item, or
-- an error; of no items there is none.
abbrev pub Totals : List OrderItem → Option (Expected ErrorCode Money) → Type 0
Totals [] result = result ≡ none
Totals (first ∷ items) result =
    let currency = first.price_at_order_time.currency in
    let Computable =
      All (Priced currency.code) (first ∷ items) × (exact_total (first ∷ items) ≤ℤ int64_max) in
    (Computable
      × (result
          ≡ some (ok (record { minor_units = exact_total (first ∷ items); currency = currency }))))
    ⊎ (¬ Computable × ((e : ErrorCode) × (result ≡ some (err e))))

zero-add_ℤ : (v : ℤ) → pos 0 +ℤ v ≡ v
unfolding ◌+ℤ◌
zero-add_ℤ v = ground arith

total_of-Totals : (items : List OrderItem) → All IsValid items → Totals items (total_of items)
unfolding total_of Money.create
total_of-Totals [] v = refl
total_of-Totals (first ∷ items) v =
    let sum = zero-add_ℤ (exact_total (first ∷ items)) in
    let zero_money : Money = record {
      minor_units = pos 0;
      currency = first.price_at_order_time.currency;
    } in
    elim (add_items-Adds zero_money (first ∷ items) (omega arith, omega arith) v) [
      | inl (priced, (fits, q)) ↦ inl (
        (priced, subst (λ x. x ≤ℤ int64_max) sum fits),
        ap some (q ∙ ap (λ x. ok (record { minor_units = x; currency = zero_money.currency })) sum),
      )
      | inr (fails, (e, q)) ↦
          inr (λ k. fails (k.0, subst (λ x. x ≤ℤ int64_max) (sym sum) k.1), (e, ap some q))
    ]

-- The total of an order of valid items is the exact sum of prices times quantities over the
-- integers, in the currency of the first item, if every item has the currency code of the first and
-- the sum is an int64_t; otherwise it is an error. Without items it is undefined.
pub total_amount-exact : (o : Order) → All IsValid o.items → Totals o.items (total_amount o)
unfolding total_amount
total_amount-exact o v = total_of-Totals o.items v
