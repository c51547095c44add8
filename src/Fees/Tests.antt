-- ===== src/Fees/Tests.antt =====
-- Concrete fees: one hour after the last operation, with the protocol's half-life of twelve hours.
use stability_protocol.Base.{ℕ, ◌*◌, ◌^◌, ◌≤◌, ◌<◌, ◌≡◌, refl, false, true, none, ok, arith}
use stability_protocol.Decimal.{
  Decimal, digits, one, add, mul, min, pow, pow_loop, pow_end, rounded_mul,
}
use stability_protocol.Constants.{
  minimum_borrowing_rate, maximum_borrowing_rate, minimum_redemption_rate,
}
use stability_protocol.Fees.{Fees, minutes_since, base_rate, borrowing_rate, redemption_rate}
use stability_protocol.Fees.Rates.{borrowing_rate_bounds, redemption_rate_mono}

abbrev sample : Fees
sample = record {
  base_rate_without_decay = 10 ^ 16;
  minute_decay_factor = 999037758833783000;
  beta = 2 * digits;
  last_fee_operation = 1_600_000_000_000;
  time_of_latest_block = 1_600_003_600_000;
  recovery_mode = false;
}

abbrev hour_later : ℕ
hour_later = 1_600_003_600_000

sample_minutes : minutes_since sample none ≡ 60
unfolding minutes_since
sample_minutes = refl

in_time : minutes_since sample none < 2 ^ 32
unfolding minutes_since
in_time = omega arith

sample_rate : borrowing_rate sample none ≡ ok 14438743126816714
unfolding borrowing_rate base_rate minutes_since pow pow_loop pow_end rounded_mul mul add min
sample_rate = refl

borrowing_rate_bounds_example :
    (r : Decimal) × (borrowing_rate sample none ≡ ok r)
    × (sample.recovery_mode ≡ true → r ≡ 0)
    × (sample.recovery_mode ≡ false → (minimum_borrowing_rate ≤ r) × (r ≤ maximum_borrowing_rate))
borrowing_rate_bounds_example = borrowing_rate_bounds sample none (omega arith) in_time

redemption_rate_mono_example :
    (r s : Decimal) × (redemption_rate sample (10 ^ 16) none ≡ ok r)
    × (redemption_rate sample (10 ^ 17) none ≡ ok s)
    × (minimum_redemption_rate ≤ r)
    × (r ≤ s)
    × (s ≤ one)
redemption_rate_mono_example =
    redemption_rate_mono sample (10 ^ 16) (10 ^ 17) none (omega arith) (omega arith) in_time
