-- ===== src/Ethers/Tests/Others.antt =====
-- More runs on the concrete chain: an adjustment, a redemption, a receipt, and a withdrawal.
use stability_protocol.Base.{◌+◌, ◌*◌, ◌^◌, ◌≡◌, false, none, some, refl}
use stability_protocol.Decimal
use stability_protocol.Decimal.{Decimal, digits, infinity, sub, mul, add, div}
use stability_protocol.Fees.{Fees}
use stability_protocol.Trove
use stability_protocol.Trove.{Trove, trove, add_collateral, subtract}
use stability_protocol.Trove.Change.{AdjustmentParams, apply_fee, apply_adjustment}
use stability_protocol.Ethers.Chain.{minute_decay_factor, beta}
use stability_protocol.Ethers.Borrowing.{BorrowingOptions}
use stability_protocol.Ethers.Adjusted.{adjusted}
use stability_protocol.Ethers.Tests.Chains.{sample_chain}

abbrev rate_now : Decimal
rate_now = 5 * 10 ^ 15

-- 500 thUSD more.
abbrev sample_adjustment : AdjustmentParams
sample_adjustment = record {
  deposit_collateral = none;
  withdraw_collateral = none;
  borrow_thusd = some (500 * digits);
  repay_thusd = none;
}

abbrev adjusting_options : BorrowingOptions
adjusting_options = record { max_borrowing_rate = 10 ^ 16; tolerance_minutes = 10 }

abbrev sample_trove : Trove
sample_trove = sample_chain.get_trove 5

adjusted_sample :
    adjusted sample_trove sample_adjustment (some rate_now)
    ≡ trove (3 * digits) (3002 * digits + 5 * 10 ^ 17)
unfolding apply_adjustment apply_fee mul add Trove.add subtract
adjusted_sample = refl

abbrev sample_fees : Fees
sample_fees = record {
  base_rate_without_decay = 0;
  minute_decay_factor = minute_decay_factor;
  beta = beta;
  last_fee_operation = 1_600_000_000_000;
  time_of_latest_block = 1_600_000_000_000;
  recovery_mode = false;
}
