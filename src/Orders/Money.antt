-- ===== src/Orders/Money.antt =====
-- order-service/models/Currency.h and Money.h. An int64_t stands as an integer; the checks of the
-- operators are what keeps it in range, so no wrap-around is written.
pub mod Exact
use liquid_pet_project.Prelude.{
  ◌-◌, ◌^◌, String, Bool, ◌&&◌, not, if◌then◌else◌, Expected, ok, err, Eq, ◌==◌, eq_string,
}
use liquid_pet_project.Prelude.Int.{ℤ, pos, ◌+ℤ◌, ◌-ℤ◌, ◌*ℤ◌, ◌/ℤ◌, ltb_ℤ, leb_ℤ, eqb_ℤ, eq_int}
use liquid_pet_project.Errors.{
  ErrorCode, make_error_code, currency_enum, CurrencyError, money_enum, MoneyError,
}

pub record Currency : Type 0 where
  pub code : String
  pub minor_digits : ℤ

unfoldable pub create_currency : String → ℤ → Expected ErrorCode Currency
create_currency code minor_digits =
    if ltb_ℤ minor_digits (pos 0)
    then err (make_error_code CurrencyError.negative_amount)
    else (if code == ""
        then err (make_error_code CurrencyError.empty_currency)
        else ok (record { code = code; minor_digits = minor_digits }))

-- operator== compares the characters only.
unfoldable pub same_currency : Currency → Currency → Bool
same_currency a b = a.code == b.code

pub record Money : Type 0 where
  pub minor_units : ℤ
  pub currency : Currency

-- std::numeric_limits<int64_t>::max()
abbrev pub int64_max : ℤ
int64_max = pos (2 ^ 63 - 1)

unfoldable pub create : ℤ → Currency → Expected ErrorCode Money
create minor_units currency =
    if ltb_ℤ minor_units (pos 0)
    then err (make_error_code MoneyError.negative_amount)
    else ok (record { minor_units = minor_units; currency = currency })

unfoldable pub same_money : Money → Money → Bool
unfolding same_currency
same_money a b = same_currency a.currency b.currency && (a.minor_units == b.minor_units)

-- operator+
unfoldable pub plus : Money → Money → Expected ErrorCode Money
plus a b =
    if not (a.currency.code == b.currency.code)
    then err (make_error_code MoneyError.different_currencies)
    else (if ltb_ℤ (int64_max -ℤ b.minor_units) a.minor_units
        then err (make_error_code MoneyError.overflow)
        else ok (record { minor_units = a.minor_units +ℤ b.minor_units; currency = a.currency }))

-- operator-
unfoldable pub minus : Money → Money → Expected ErrorCode Money
minus a b =
    if not (a.currency.code == b.currency.code)
    then err (make_error_code MoneyError.different_currencies)
    else (if ltb_ℤ a.minor_units b.minor_units
        then err (make_error_code MoneyError.underflow)
        else ok (record { minor_units = a.minor_units -ℤ b.minor_units; currency = a.currency }))

-- operator*
unfoldable pub times : Money → ℤ → Expected ErrorCode Money
times a quantity =
    if eqb_ℤ quantity (pos 0)
    then ok (record { minor_units = pos 0; currency = a.currency })
    else (if ltb_ℤ quantity (pos 0)
        then err (make_error_code MoneyError.negative_amount)
        else (if ltb_ℤ (int64_max /ℤ quantity) a.minor_units
            then err (make_error_code MoneyError.overflow)
            else ok (record { minor_units = a.minor_units *ℤ quantity; currency = a.currency })))
