-- ===== src/Ethers/Adjusting.antt =====
-- `adjustTrove` and its aliases (packages/lib-ethers/src/PopulatableEthersLiquity.ts).
use Prim.Native.String.{String}
use stability_protocol.Base.{
  [], ◌∷◌, ℕ, ◌-◌, ◌*◌, Bool, true, false, Option, none, some, Result, ok, ◌>>=◌, ◌>>◌, throw_if,
  debt_might_fall, if◌then◌else◌,
}
use stability_protocol.Decimal.{Decimal, lt}
use stability_protocol.Decimal.Text.{Decimalish}
use stability_protocol.Constants.{thusd_minimum_debt}
use stability_protocol.Trove.{Trove}
use stability_protocol.Trove.Change.{AdjustmentParams, or_zero}
use stability_protocol.Trove.Params.{
  Entries, or_else, normalize_trove_adjustment, adjust, adjust_to,
}
use stability_protocol.Trove.Params.Normal.{adjustment_entries}
use stability_protocol.Ethers.Gas.{
  big_number_max, add_gas_for_base_rate_update, add_gas_for_potential_list_traversal, to_number,
}
use stability_protocol.Ethers.Hints.{applied, find_hints}
use stability_protocol.Ethers.Transaction.{
  Overrides, adjust_trove_call, Transaction, estimated, Populated,
}
use stability_protocol.Ethers.Chain.{Chain, is_collateral_eth, require_address}
use stability_protocol.Ethers.Borrowing.{
  RateOrParams, nothing, rate, BorrowingOptions, normalize_optional_params, decay_borrowing_rate,
  with_gas,
}

abbrev pub is_present : Option Decimal → Bool
is_present none = false
is_present (some a) = true

-- `feeVars?.fees(...).borrowingRate()`: the rate matters only if something is borrowed.
unfoldable pub rate_if_borrowing : Chain → Option Decimal → (seconds : ℕ) → Result (Option Decimal)
rate_if_borrowing c none seconds = ok none
rate_if_borrowing c (some borrowed) seconds = do
  decayed ← decay_borrowing_rate c seconds
  ok (some decayed)

unfoldable pub adjusting_transaction :
    Chain
    → AdjustmentParams
    → Decimal
    → (hints : ℕ × ℕ) → Overrides
    → (borrow_thusd : Option Decimal) → Transaction
adjusting_transaction c p max_rate hints overrides borrow_thusd = record {
  call =
      adjust_trove_call max_rate (or_zero p.withdraw_collateral)
        (or_zero (or_else borrow_thusd p.repay_thusd)) (is_present borrow_thusd)
        (if is_collateral_eth c then 0 else or_zero p.deposit_collateral) hints;
  value = some (if is_collateral_eth c then or_zero p.deposit_collateral else 0);
  overrides = overrides;
}

-- The second estimate is asked only if something is borrowed.
unfoldable pub later_estimate : Chain → Option Decimal → Transaction → Result (Option ℕ)
later_estimate c none transaction = ok none
later_estimate c (some borrowed) transaction = do
  gas ← estimated (c.estimate transaction)
  ok (some gas)

unfoldable pub adjusting_limit : Option Decimal → (minutes : ℕ) → ℕ → ℕ
adjusting_limit none minutes gas_limit = gas_limit
adjusting_limit (some borrowed) minutes gas_limit = add_gas_for_base_rate_update minutes gas_limit

unfoldable pub adjusting_gas :
    Chain
    → Trove
    → AdjustmentParams
    → (current_rate : Option Decimal) → BorrowingOptions
    → (transaction : Option Decimal → Transaction) → Result (ℕ × ℕ)
adjusting_gas c trove p current_rate options transaction = do
  decayed_rate ← rate_if_borrowing c p.borrow_thusd (60 * options.tolerance_minutes)
  decayed_trove ← adjust trove (adjustment_entries p) decayed_rate
  simulating_decay ← adjust_to trove decayed_trove current_rate
  throw_if (lt decayed_trove.debt thusd_minimum_debt) debt_might_fall
  gas_now ← estimated (c.estimate (transaction p.borrow_thusd))
  gas_later ← later_estimate c p.borrow_thusd (transaction simulating_decay.borrow_thusd)
  let gas_limit =
      adjusting_limit p.borrow_thusd options.tolerance_minutes
        (big_number_max (add_gas_for_potential_list_traversal gas_now) gas_later)
  gas_headroom ← to_number (gas_limit - gas_now)
  ok (gas_limit, gas_headroom)

unfoldable pub adjust_trove :
    Chain
    → (seed : ℕ) → Entries (Option Decimalish)
    → RateOrParams
    → Overrides
    → Result (Populated AdjustmentParams)
adjust_trove c seed entries optional overrides = do
  address ← require_address c overrides
  p ← normalize_trove_adjustment entries
  current_rate ← rate_if_borrowing c p.borrow_thusd 0
  adjusted_trove ← adjust (c.get_trove address) (adjustment_entries p) current_rate
  hints ← find_hints c.contracts seed (applied adjusted_trove) (some address)
  options ← normalize_optional_params optional current_rate
  with_gas p
      (λ overriding.
        adjusting_transaction c p options.max_borrowing_rate hints overriding p.borrow_thusd)
      overrides overrides.gas_limit
      (adjusting_gas c (c.get_trove address) p current_rate options
        (adjusting_transaction c p options.max_borrowing_rate hints overrides))

-- The aliases of `adjustTrove`, each with one property.
abbrev pub only_entry : String → Decimalish → Entries (Option Decimalish)
only_entry key amount = (key, some amount) ∷ []

abbrev pub rate_or_nothing : Option Decimalish → RateOrParams
rate_or_nothing none = nothing
rate_or_nothing (some given) = rate given

module _ (c : Chain) (seed : ℕ) where
  unfoldable pub deposit_collateral : Decimalish → Overrides → Result (Populated AdjustmentParams)
  deposit_collateral amount overrides =
      adjust_trove c seed (only_entry "depositCollateral" amount) nothing overrides

  unfoldable pub withdraw_collateral : Decimalish → Overrides → Result (Populated AdjustmentParams)
  withdraw_collateral amount overrides =
      adjust_trove c seed (only_entry "withdrawCollateral" amount) nothing overrides

  unfoldable pub borrow_thusd :
      Decimalish → Option Decimalish → Overrides → Result (Populated AdjustmentParams)
  borrow_thusd amount max_borrowing_rate overrides =
      adjust_trove c seed (only_entry "borrowTHUSD" amount) (rate_or_nothing max_borrowing_rate)
        overrides

  unfoldable pub repay_thusd : Decimalish → Overrides → Result (Populated AdjustmentParams)
  repay_thusd amount overrides =
      adjust_trove c seed (only_entry "repayTHUSD" amount) nothing overrides
