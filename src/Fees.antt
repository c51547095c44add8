-- ===== src/Fees.antt =====
-- `class Fees` (packages/lib-base/src/Fees.ts). A `Date` is its `getTime()`, in milliseconds since
-- 1970; an optional argument is an `Option`, and its default is written where the source applies it.
pub mod Rates
mod Tests
use stability_protocol.Base.{
  ℕ, ◌-◌, ◌/◌, Bool, ◌&&◌, not, ◌||◌, Option, none, some, Result, ok, ◌>>=◌, ◌>>◌, guard,
  assertion_failed, ◌==◌, if◌then◌else◌,
}
use stability_protocol.Decimal.{Decimal, digits, one, add, mul, div, pow, lt, eq, min, is_zero}
use stability_protocol.Constants.{
  minimum_borrowing_rate, maximum_borrowing_rate, minimum_redemption_rate,
}

pub record Fees : Type 0 where
  pub base_rate_without_decay : Decimal
  pub minute_decay_factor : Decimal
  pub beta : Decimal
  pub last_fee_operation : ℕ
  pub time_of_latest_block : ℕ
  pub recovery_mode : Bool

-- The constructor's assertion.
unfoldable pub new_fees : Fees → Result Fees
new_fees f = do guard (lt f.minute_decay_factor one) assertion_failed; ok f

unfoldable pub set_recovery_mode : Fees → Bool → Result Fees
unfolding new_fees
set_recovery_mode f mode = new_fees (record f { recovery_mode = mode })

-- `===` on two Booleans.
abbrev pub same_bool : Bool → Bool → Bool
same_bool a b = if a then b else not b

unfoldable pub equals : Fees → Fees → Bool
equals a b =
    eq a.base_rate_without_decay b.base_rate_without_decay
    && eq a.minute_decay_factor b.minute_decay_factor
    && eq a.beta b.beta
    && a.last_fee_operation == b.last_fee_operation
    && a.time_of_latest_block == b.time_of_latest_block
    && same_bool a.recovery_mode b.recovery_mode

abbrev pub at_or : Option ℕ → ℕ → ℕ
at_or none latest = latest
at_or (some t) latest = t

-- Whole minutes since the last fee operation. Subtraction on ℕ stops at 0, as the source's `Math.max`
-- does.
unfoldable pub minutes_since : Fees → Option ℕ → ℕ
minutes_since f when = (at_or when f.time_of_latest_block - f.last_fee_operation) / 60000

unfoldable pub base_rate : Fees → Option ℕ → Result Decimal
base_rate f when = do
  decay ← pow f.minute_decay_factor (minutes_since f when)
  ok (mul decay f.base_rate_without_decay)

unfoldable pub borrowing_rate : Fees → Option ℕ → Result Decimal
borrowing_rate f when = if f.recovery_mode then ok 0 else (do
  rate ← base_rate f when
  ok (min (add minimum_borrowing_rate rate) maximum_borrowing_rate))

-- The default of the fraction is 0.
unfoldable pub redemption_rate : Fees → Decimal → Option ℕ → Result Decimal
redemption_rate f fraction when = do
  decayed ← base_rate f when
  let raised = if is_zero fraction then decayed else add (div fraction f.beta) decayed
  ok (min (add minimum_redemption_rate raised) one)
