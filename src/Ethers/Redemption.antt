-- ===== src/Ethers/Redemption.antt =====
-- `redeemTHUSD` and `PopulatedEthersRedemption` (packages/lib-ethers/src/PopulatableEthersLiquity.ts).
use stability_protocol.Base.{
  ℕ, Bool, Option, none, some, Result, ok, err, ◌>>=◌, ◌>>◌, throw_if, amount_too_low,
  not_truncated, if◌then◌else◌,
}
use stability_protocol.Decimal
use stability_protocol.Decimal.{Decimal, one, add, div, lt, is_zero}
use stability_protocol.Decimal.Text.{Decimalish, from}
use stability_protocol.Constants.{thusd_minimum_net_debt}
use stability_protocol.Fees.{Fees, redemption_rate}
use stability_protocol.Ethers.Gas.{
  add_gas_for_base_rate_update, default_redemption_rate_slippage_tolerance, redeem_max_iterations,
}
use stability_protocol.Ethers.Hints.{find_redemption_hints}
use stability_protocol.Ethers.Transaction.{
  Overrides, redeem_collateral_call, Transaction, Estimate, estimate_and_populate,
}
use stability_protocol.Ethers.Chain.{Chain, get_fees}

-- What `populateRedemption` takes from the scope in which it stands.
pub record RedemptionScope : Type 0 where
  pub estimate : Estimate
  pub fees : Fees
  pub total_debt : Decimal
  pub first_redemption_hint : ℕ
  pub overrides : Overrides

-- What the function `increaseAmountByMinimumNetDebt` keeps.
pub record Increase : Type 0 where
  pub truncated_amount : Decimal
  pub max_redemption_rate : Option Decimalish

pub record PopulatedRedemption : Type 0 where
  pub transaction : Transaction
  pub attempted_thusd_amount : Decimal
  pub redeemable_thusd_amount : Decimal
  pub is_truncated : Bool
  pub increase : Option Increase

unfoldable pub default_max_redemption_rate : RedemptionScope → Decimal → Result Decimal
default_max_redemption_rate s amount = do
  rate ← redemption_rate s.fees (div amount s.total_debt) none
  ok (Decimal.min (add rate default_redemption_rate_slippage_tolerance) one)

unfoldable pub max_rate_or_default :
    RedemptionScope → Option Decimalish → (truncated_amount : Decimal) → Result Decimal
max_rate_or_default s (some given) truncated_amount = from given
max_rate_or_default s none truncated_amount = default_max_redemption_rate s truncated_amount

unfoldable pub populate_redemption :
    RedemptionScope
    → (attempted : Decimal) → Option Decimalish
    → (truncated_amount : Decimal) → (hints : ℕ × ℕ) → (hint_nicr : ℕ) → Result PopulatedRedemption
populate_redemption s attempted max_rate truncated_amount hints hint_nicr = do
  rate ← max_rate_or_default s max_rate truncated_amount
  transaction ← estimate_and_populate s.estimate s.overrides (add_gas_for_base_rate_update 10) (
      redeem_collateral_call truncated_amount s.first_redemption_hint hints hint_nicr
        redeem_max_iterations rate)
  ok (record {
    transaction = transaction;
    attempted_thusd_amount = attempted;
    redeemable_thusd_amount = truncated_amount;
    is_truncated = lt truncated_amount attempted;
    increase =
        if lt truncated_amount attempted
        then some (record { truncated_amount = truncated_amount; max_redemption_rate = max_rate })
        else none;
  })

abbrev pub given_or : Option Decimalish → Option Decimalish → Option Decimalish
given_or (some given) other = some given
given_or none other = other

-- The amount becomes the truncated one and the minimum net debt, with no hints.
unfoldable pub increase_by :
    RedemptionScope → Option Increase → Option Decimalish → Result PopulatedRedemption
increase_by s none max_rate = err not_truncated
increase_by s (some i) max_rate =
    populate_redemption s (add i.truncated_amount thusd_minimum_net_debt)
      (given_or max_rate i.max_redemption_rate) (add i.truncated_amount thusd_minimum_net_debt)
      (0, 0) 0

unfoldable pub increase_amount_by_minimum_net_debt :
    RedemptionScope → PopulatedRedemption → Option Decimalish → Result PopulatedRedemption
increase_amount_by_minimum_net_debt s r max_rate = increase_by s r.increase max_rate

unfoldable pub redemption_scope : Chain → Fees → (first_hint : ℕ) → Overrides → RedemptionScope
redemption_scope c fees first_hint overrides = record {
  estimate = c.estimate;
  fees = fees;
  total_debt = c.total.debt;
  first_redemption_hint = first_hint;
  overrides = overrides;
}

unfoldable pub redeem_thusd :
    Chain → (seed : ℕ) → Decimalish → Option Decimalish → Overrides → Result PopulatedRedemption
redeem_thusd c seed amount max_rate overrides = do
  attempted ← from amount
  fees ← get_fees c
  found ← find_redemption_hints c.contracts seed attempted
  throw_if (is_zero found.truncated_amount) amount_too_low
  populate_redemption (redemption_scope c fees found.first_redemption_hint overrides) attempted
      max_rate found.truncated_amount found.partial_redemption_hints
      found.partial_redemption_hint_nicr
