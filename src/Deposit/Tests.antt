-- ===== src/Deposit/Tests.antt =====
-- Concrete deposits.
use stability_protocol.Base.{ℕ, ◌-◌, ◌<◌, ◌≡◌, ◌↔◌, ok}
use stability_protocol.Deposit.Stability.{StabilityDeposit}
use stability_protocol.Deposit.Bamm
use stability_protocol.Deposit.Bamm.{
  BammDeposit, DecimalObject, apply-what_changed_iff, equals_of_fresh,
}

abbrev saved : StabilityDeposit
saved = record { initial_thusd = 100; current_thusd = 80; collateral_gain = 3 }

-- A deposit whose thUSD total is the object with the given number.
abbrev pooled : ℕ → BammDeposit
pooled identity = record {
  bamm_pool_share = 10;
  pool_share = 10;
  initial_thusd = 100;
  current_usd = 90;
  current_thusd = 80;
  collateral_gain = 0;
  total_collateral_in_bamm = record { identity = 0; value = 5 };
  total_thusd_in_bamm = record { identity = identity; value = 800 };
}

apply-what_changed_iff_example :
    (Bamm.apply (pooled 1) (Bamm.what_changed (pooled 1) 80) ≡ ok 80) ↔ (
      (80 ≡ (pooled 1).current_thusd → (pooled 1).current_usd ≡ 80)
      × (80 < (pooled 1).current_thusd
          → 0 < 80
          → (pooled 1).current_thusd - 80 < (pooled 1).current_usd))
apply-what_changed_iff_example = apply-what_changed_iff (pooled 1) 80
