-- ===== src/Messaging/RetryPolicy.antt =====
-- shared/messaging/RetryPolicy.h: how often and after which pause a record is tried again. `double`
-- is not modelled by a definition: its type and the operations that the code uses are a parameter.
use liquid_pet_project.Prelude.{Bool, arith, if◌then◌else◌}
use liquid_pet_project.Prelude.Int.{ℤ, pos, ◌-ℤ◌, ◌≤ℤ◌, ltb_ℤ}

-- The conversions, `*`, std::pow, `<` and the cast that cuts the fraction off.
pub record Doubles : Type 1 where
  pub Double : Type 0
  pub of_int : ℤ → Double
  pub times : Double → Double → Double
  pub power : Double → ℤ → Double
  pub less : Double → Double → Bool
  pub truncate : Double → ℤ

-- std::max on int.
unfoldable pub max_int : ℤ → ℤ → ℤ
max_int a b = if ltb_ℤ a b then b else a

module _ (d : Doubles) where
  open d use {Double, of_int, times, power, less, truncate}

  pub record RetryPolicy : Type 0 where
    pub max_attempts : ℤ
    pub initial_backoff : ℤ
    pub multiplier : Double
    pub max_backoff : ℤ

  -- The pause in milliseconds after the failed attempt, counted from 1. std::min takes its second
  -- argument only if that is less.
  unfoldable pub delay_after_attempt : RetryPolicy → ℤ → ℤ
  unfolding max_int ◌-ℤ◌
  delay_after_attempt p attempt =
      let exponent = max_int (pos 0) (attempt -ℤ pos 1) in
      let raw = times (of_int p.initial_backoff) (power p.multiplier exponent) in
      let ceiling = of_int p.max_backoff in truncate (if less ceiling raw then ceiling else raw)

  unfoldable pub effective_max_attempts : RetryPolicy → ℤ
  unfolding max_int
  effective_max_attempts p = max_int (pos 1) p.max_attempts

  pub effective_max_attempts_pos : (p : RetryPolicy) → pos 1 ≤ℤ effective_max_attempts p
  unfolding effective_max_attempts
  effective_max_attempts_pos p = ground arith
