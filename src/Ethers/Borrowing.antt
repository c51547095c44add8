-- ===== src/Ethers/Borrowing.antt =====
-- `openTrove`, and what it shares with `adjustTrove` (packages/lib-ethers/src/PopulatableEthersLiquity.ts).
use stability_protocol.Base.{
  ℕ, ◌+◌, ◌-◌, ◌*◌, Option, none, some, Result, ok, ◌>>=◌, ◌>>◌, throw_if, debt_might_fall,
  if◌then◌else◌,
}
use stability_protocol.Decimal.{Decimal, add, lt}
use stability_protocol.Decimal.Text.{Decimalish, from}
use stability_protocol.Constants.{thusd_minimum_debt}
use stability_protocol.Fees.{borrowing_rate}
use stability_protocol.Trove.{is_below_critical}
use stability_protocol.Trove.Change.{CreationParams}
use stability_protocol.Trove.Params.{Entries, normalize_trove_creation, create, recreate}
use stability_protocol.Trove.Params.Normal.{creation_entries}
use stability_protocol.Ethers.Gas.{
  big_number_max, add_gas_for_base_rate_update, add_gas_for_potential_list_traversal, to_number,
  default_borrowing_rate_slippage_tolerance, default_borrowing_fee_decay_tolerance_minutes,
}
use stability_protocol.Ethers.Hints.{applied, find_hints}
use stability_protocol.Ethers.Transaction.{
  Overrides, open_trove_call, Transaction, estimated, Populated,
}
use stability_protocol.Ethers.Chain.{Chain, fees_factory, is_collateral_eth}

pub record OptionalParams : Type 0 where
  pub max_borrowing_rate : Option Decimalish
  pub borrowing_fee_decay_tolerance_minutes : Option ℕ

-- `Decimalish | BorrowingOperationOptionalParams | undefined`.
pub data RateOrParams : Type 0 where
  nothing : RateOrParams
  rate : Decimalish → RateOrParams
  params : OptionalParams → RateOrParams

-- The maximum borrowing rate, and the tolerance in minutes.
pub record BorrowingOptions : Type 0 where
  pub max_borrowing_rate : Decimal
  pub tolerance_minutes : ℕ

abbrev pub default_max_rate : Option Decimal → Decimal
default_max_rate none = 0
default_max_rate (some current) = add current default_borrowing_rate_slippage_tolerance

abbrev pub given_or_default : Option Decimalish → Option Decimal → Result Decimal
given_or_default none current = ok (default_max_rate current)
given_or_default (some given) current = from given

abbrev pub minutes_or_default : Option ℕ → ℕ
minutes_or_default none = default_borrowing_fee_decay_tolerance_minutes
minutes_or_default (some minutes) = minutes

unfoldable pub normalize_optional_params : RateOrParams → Option Decimal → Result BorrowingOptions
normalize_optional_params nothing current = ok (record {
  max_borrowing_rate = default_max_rate current;
  tolerance_minutes = default_borrowing_fee_decay_tolerance_minutes;
})
normalize_optional_params (rate given) current = do
  max_rate ← from given
  ok (record {
    max_borrowing_rate = max_rate;
    tolerance_minutes = default_borrowing_fee_decay_tolerance_minutes;
  })
normalize_optional_params (params given) current = do
  max_rate ← given_or_default given.max_borrowing_rate current
  ok (record {
    max_borrowing_rate = max_rate;
    tolerance_minutes = minutes_or_default given.borrowing_fee_decay_tolerance_minutes;
  })

unfoldable pub decay_borrowing_rate : Chain → (seconds : ℕ) → Result Decimal
decay_borrowing_rate c seconds = do
  fees ←
      fees_factory c.last_fee_operation_time c.base_rate_without_decay (c.block_timestamp + seconds)
        (is_below_critical c.total c.contracts.price)
  borrowing_rate fees none

-- What `txParams` gives of a borrowed amount.
unfoldable pub opening_transaction :
    Chain
    → CreationParams
    → Decimal
    → (hints : ℕ × ℕ) → Overrides
    → (borrow_thusd : Decimal) → Transaction
opening_transaction c p max_rate hints overrides borrow_thusd = record {
  call =
      open_trove_call max_rate borrow_thusd
        (if is_collateral_eth c then 0 else p.deposit_collateral) hints;
  value = some (if is_collateral_eth c then p.deposit_collateral else 0);
  overrides = overrides;
}

-- The gas limit of an opening, and how far it is above the estimate.
unfoldable pub opening_gas :
    Chain
    → CreationParams
    → (current_rate : Decimal) → BorrowingOptions
    → (transaction : Decimal → Transaction) → Result (ℕ × ℕ)
opening_gas c p current_rate options transaction = do
  decayed_rate ← decay_borrowing_rate c (60 * options.tolerance_minutes)
  decayed_trove ← create (creation_entries p) (some decayed_rate)
  simulating_decay ← recreate decayed_trove (some current_rate)
  throw_if (lt decayed_trove.debt thusd_minimum_debt) debt_might_fall
  gas_now ← estimated (c.estimate (transaction p.borrow_thusd))
  gas_later ← estimated (c.estimate (transaction simulating_decay.borrow_thusd))
  let gas_limit =
      add_gas_for_base_rate_update options.tolerance_minutes
        (big_number_max (add_gas_for_potential_list_traversal gas_now) (some gas_later))
  gas_headroom ← to_number (gas_limit - gas_now)
  ok (gas_limit, gas_headroom)

-- A transaction with the gas limit that is overridden, or else with the one that is worked out.
unfoldable pub with_gas :
    {P : Type 0}
    → P
    → (Overrides → Transaction)
    → Overrides
    → Option ℕ
    → Result (ℕ × ℕ)
    → Result (Populated P)
with_gas p transaction overrides (some gas_limit) gas =
    ok (record { params = p; transaction = transaction overrides; gas_headroom = none })
with_gas p transaction overrides none gas = do
  found ← gas
  ok (record {
    params = p;
    transaction = transaction (record overrides { gas_limit = some found.0 });
    gas_headroom = some found.1;
  })

unfoldable pub open_trove :
    Chain
    → (seed : ℕ) → Entries (Option Decimalish)
    → RateOrParams
    → Overrides
    → Result (Populated CreationParams)
open_trove c seed entries optional overrides = do
  p ← normalize_trove_creation entries
  current_rate ← decay_borrowing_rate c 0
  new_trove ← create (creation_entries p) (some current_rate)
  hints ← find_hints c.contracts seed (applied new_trove) none
  options ← normalize_optional_params optional (some current_rate)
  with_gas p
      (λ overriding.
        opening_transaction c p options.max_borrowing_rate hints overriding p.borrow_thusd)
      overrides overrides.gas_limit
      (opening_gas c p current_rate options
        (opening_transaction c p options.max_borrowing_rate hints overrides))
