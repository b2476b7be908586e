-- ===== src/Orders/Money/Exact.antt =====
-- The arithmetic of order-service/models/Money.h is exact, and it stays in int64_t.
use liquid_pet_project.Prelude.{
  ◌≢◌, not, ℕ, zero, suc, ◌-◌, ◌*◌, ◌/◌, ◌^◌, ◌≤◌, ◌≡◌, ◌↔◌, arith, ok, err, eq_string, ◌⊎◌,
}
use liquid_pet_project.Errors.{make_error_code, money_enum, MoneyError}
use liquid_pet_project.Prelude.Int.{ℤ, pos, negsuc, ◌+ℤ◌, ◌-ℤ◌, ◌*ℤ◌, ◌/ℤ◌, ◌≤ℤ◌, ltb_ℤ, leb_ℤ}
use liquid_pet_project.Orders.Money.{Money, int64_max, plus, minus, times}

-- What `create` lets through: an amount that is not negative and is an int64_t.
abbrev pub InRange : ℤ → Type 0
InRange v = (pos 0 ≤ℤ v) × (v ≤ℤ int64_max)

-- The sum of two amounts of one currency, each an int64_t and not negative, is exact if it is an
-- int64_t, and an overflow error otherwise.
pub plus_outcome :
    (a b : Money)
    → InRange a.minor_units
    → InRange b.minor_units
    → a.currency.code ≡ b.currency.code
    → ((a.minor_units +ℤ b.minor_units ≤ℤ int64_max)
        × (plus a b
            ≡ ok (record { minor_units = a.minor_units +ℤ b.minor_units; currency = a.currency })))
      ⊎ (¬ (a.minor_units +ℤ b.minor_units ≤ℤ int64_max)
          × (plus a b ≡ err (make_error_code MoneyError.overflow)))
unfolding plus ◌+ℤ◌ ◌-ℤ◌
plus_outcome a b ra rb h = ground (arith, eq_string.same_iff a.currency.code b.currency.code)

pub plus_differs :
    (a b : Money)
    → a.currency.code ≢ b.currency.code
    → plus a b ≡ err (make_error_code MoneyError.different_currencies)
unfolding plus
plus_differs a b h = ground (arith, eq_string.same_iff a.currency.code b.currency.code)

pub minus_outcome :
    (a b : Money)
    → InRange a.minor_units
    → InRange b.minor_units
    → a.currency.code ≡ b.currency.code
    → ((b.minor_units ≤ℤ a.minor_units)
        × (minus a b
            ≡ ok (record { minor_units = a.minor_units -ℤ b.minor_units; currency = a.currency })))
      ⊎ (¬ (b.minor_units ≤ℤ a.minor_units)
          × (minus a b ≡ err (make_error_code MoneyError.underflow)))
unfolding minus ◌+ℤ◌ ◌-ℤ◌
minus_outcome a b ra rb h = ground (arith, eq_string.same_iff a.currency.code b.currency.code)

div_le : (v q : ℕ) → (v ≤ (2 ^ 63 - 1) / suc q) ↔ (v * suc q ≤ 2 ^ 63 - 1)
div_le v q = grind arith

quotient_test :
    (v q : ℤ) → InRange v → pos 1 ≤ℤ q → ltb_ℤ (int64_max /ℤ q) v ≡ not (leb_ℤ (v *ℤ q) int64_max)
unfolding ◌*ℤ◌ ◌/ℤ◌
quotient_test (pos v) (pos (suc q)) r h = ground (arith, div_le v q)
quotient_test (negsuc v) q r h = absurd (omega (arith, r.0))
quotient_test (pos v) (pos zero) r h = absurd (omega arith)
quotient_test (pos v) (negsuc q) r h = absurd (omega arith)

-- An amount that is an int64_t and not negative, times a positive quantity, is exact if the product
-- is an int64_t, and an overflow error otherwise.
pub times_outcome :
    (a : Money) (q : ℤ)
    → InRange a.minor_units
    → pos 1 ≤ℤ q
    → ((a.minor_units *ℤ q ≤ℤ int64_max)
        × (times a q ≡ ok (record { minor_units = a.minor_units *ℤ q; currency = a.currency })))
      ⊎ (¬ (a.minor_units *ℤ q ≤ℤ int64_max)
          × (times a q ≡ err (make_error_code MoneyError.overflow)))
unfolding times
times_outcome a q r h = ground (arith, quotient_test a.minor_units q r h)

-- Subtracting what was added gives the first amount back, for amounts that are int64_t and not
-- negative.
pub minus-plus :
    (a b c : Money)
    → InRange a.minor_units
    → InRange b.minor_units
    → plus a b ≡ ok c
    → minus c b ≡ ok a
unfolding plus minus ◌+ℤ◌ ◌-ℤ◌
minus-plus a b c ra rb h = ground (
  arith,
  eq_string.same_iff a.currency.code b.currency.code,
  eq_string.same_iff c.currency.code b.currency.code,
)
