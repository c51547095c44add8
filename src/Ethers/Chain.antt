-- ===== src/Ethers/Chain.antt =====
-- What the transactions read from a block (packages/lib-ethers/src/ReadableEthersLiquity.ts,
-- packages/lib-ethers/src/EthersLiquityConnection.ts). The answers of the contracts are a record of values and functions.
use stability_protocol.Base.{
  ◌>>=◌, ℕ, ◌*◌, Bool, Option, none, some, Result, ok, err, no_address, ◌==◌,
}
use stability_protocol.Decimal.{Decimal, digits, mul, div}
use stability_protocol.Decimal.Text.{Text, Decimalish, from, to_string}
use stability_protocol.Fees.{Fees, new_fees}
use stability_protocol.Trove.{Trove, is_below_critical}
use stability_protocol.Deposit.Bamm.{BammDeposit}
use stability_protocol.Deposit.Stability.{StabilityDeposit}
use stability_protocol.Ethers.Hints.{HintContracts}
use stability_protocol.Ethers.Transaction.{Overrides, Estimate}

pub record Chain : Type 0 where
  pub contracts : HintContracts
  pub estimate : Estimate
  pub last_fee_operation_time : ℕ
  pub base_rate_without_decay : Decimal
  pub block_timestamp : ℕ
  pub total : Trove
  pub collateral_address : ℕ
  pub get_trove : ℕ → Trove
  pub get_stability_deposit : ℕ → StabilityDeposit
  pub get_bamm_deposit : ℕ → BammDeposit
  pub bamm_stake : ℕ → Decimal
  pub user_address : Option ℕ
  pub bamm_address : ℕ
  pub borrower_operations_address : ℕ
  pub price_feed_is_testnet : Bool

abbrev pub minute_decay_factor : Decimal
minute_decay_factor = 999037758833783000

abbrev pub beta : Decimal
beta = 2 * digits

-- `_getFeesFactory`, of what it reads; a `Date` is in milliseconds.
unfoldable pub fees_factory :
    (last_fee_operation_time : ℕ)
    → (base_rate_without_decay : Decimal) → (block_timestamp : ℕ) → (recovery_mode : Bool)
    → Result Fees
fees_factory last_fee_operation_time base_rate_without_decay block_timestamp recovery_mode =
    new_fees (record {
      base_rate_without_decay = base_rate_without_decay;
      minute_decay_factor = minute_decay_factor;
      beta = beta;
      last_fee_operation = last_fee_operation_time * 1000;
      time_of_latest_block = block_timestamp * 1000;
      recovery_mode = recovery_mode;
    })

-- `getFees`.
unfoldable pub get_fees : Chain → Result Fees
get_fees c =
    fees_factory c.last_fee_operation_time c.base_rate_without_decay c.block_timestamp
      (is_below_critical c.total c.contracts.price)

abbrev pub first_present : Option ℕ → Option ℕ → Result ℕ
first_present (some a) other = ok a
first_present none (some a) = ok a
first_present none none = err no_address

-- `_requireAddress`.
unfoldable pub require_address : Chain → Overrides → Result ℕ
require_address c overrides = first_present overrides.sender c.user_address

abbrev pub is_collateral_eth : Chain → Bool
is_collateral_eth c = c.collateral_address == 0

-- `getWithdrawsSpShare`, of the connected user; `currentUSD` is an object, which counts as true.
unfoldable pub get_withdraws_sp_share : Chain → Decimalish → Result Text
get_withdraws_sp_share c amount = do
  address ← first_present none c.user_address
  wanted ← from amount
  ok (
      to_string (div (mul (c.bamm_stake address) wanted) (c.get_bamm_deposit address).current_usd)
        none)
