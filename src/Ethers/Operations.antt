-- ===== src/Ethers/Operations.antt =====
-- The other transactions (packages/lib-ethers/src/PopulatableEthersLiquity.ts): each calls one method of a contract, with gas
-- beyond the estimate. What their receipts report is in the module of details.
use stability_protocol.Base.{
  ℕ, ◌^◌, ◌-◌, Option, none, some, List, Result, ok, ◌>>=◌, ◌>>◌, guard, price_unavailable,
}
use stability_protocol.Decimal.{Decimal, infinity}
use stability_protocol.Decimal.Text.{Decimalish, decimal, text, from}
use stability_protocol.Trove.{add_collateral}
use stability_protocol.Ethers.Gas.{
  add_gas_for_issuance, add_gas_for_potential_list_traversal, simple_add_gas,
}
use stability_protocol.Ethers.Hints.{applied, find_hints}
use stability_protocol.Ethers.Transaction.{
  Overrides, Call, close_trove_call, claim_collateral_call, set_price_call, liquidate_call,
  batch_liquidate_troves_call, liquidate_troves_call, approve_thusd_call, approve_erc20_call,
  mint_erc20_call, transfer_thusd_call, bamm_deposit_call, bamm_withdraw_call, provide_to_sp_call,
  withdraw_from_sp_call, withdraw_collateral_gain_to_trove_call, estimate_and_populate, Populated,
  simple,
}
use stability_protocol.Ethers.Chain.{Chain, require_address, get_withdraws_sp_share}

-- The wrapped transaction of an operation that has no details besides those of its receipt.
abbrev pub Plain : Type 0
Plain = Result (Populated (Unit {0}))

module _ (c : Chain) where
  unfoldable pub wrapped : Overrides → (ℕ → ℕ) → Call → Plain
  wrapped overrides adjust_gas call = do
    transaction ← estimate_and_populate c.estimate overrides adjust_gas call
    ok (simple tt transaction)

  unfoldable pub close_trove : Overrides → Plain
  close_trove overrides = wrapped overrides (λ gas. gas) close_trove_call

  unfoldable pub claim_collateral_surplus : Overrides → Plain
  claim_collateral_surplus overrides = wrapped overrides (λ gas. gas) claim_collateral_call

  unfoldable pub set_testnet_price : Decimalish → Overrides → Plain
  set_testnet_price price overrides = do
    guard c.price_feed_is_testnet price_unavailable
    price_value ← from price
    wrapped overrides (λ gas. gas) (set_price_call price_value)

  unfoldable pub liquidate_one : (address : ℕ) → Overrides → Plain
  liquidate_one address overrides = wrapped overrides add_gas_for_issuance (liquidate_call address)

  unfoldable pub liquidate_many : List ℕ → Overrides → Plain
  liquidate_many addresses overrides =
      wrapped overrides add_gas_for_issuance (batch_liquidate_troves_call addresses)

  unfoldable pub liquidate_up_to : (maximum : ℕ) → Overrides → Plain
  liquidate_up_to maximum overrides =
      wrapped overrides add_gas_for_issuance (liquidate_troves_call maximum)

  unfoldable pub bamm_unlock : Overrides → Plain
  bamm_unlock overrides =
      wrapped overrides simple_add_gas (approve_thusd_call c.bamm_address (2 ^ 256 - 1))

  -- The change that the details report is the deposit.
  unfoldable pub topped_up : Overrides → (Decimal → Call) → Decimalish → Result (Populated Decimal)
  topped_up overrides call amount = do
    deposit ← from amount
    transaction ← estimate_and_populate c.estimate overrides add_gas_for_issuance (call deposit)
    ok (simple deposit transaction)

  unfoldable pub deposit_thusd_in_bamm_pool : Decimalish → Overrides → Result (Populated Decimal)
  deposit_thusd_in_bamm_pool amount overrides = topped_up overrides bamm_deposit_call amount

  unfoldable pub deposit_thusd_in_stability_pool :
      Decimalish → Overrides → Result (Populated Decimal)
  deposit_thusd_in_stability_pool amount overrides = topped_up overrides provide_to_sp_call amount

  unfoldable pub withdraw_thusd_from_bamm_pool : Decimalish → Overrides → Plain
  withdraw_thusd_from_bamm_pool amount overrides = do
    sp_share_to_withdraw ← get_withdraws_sp_share c amount
    share ← from (text sp_share_to_withdraw)
    wrapped overrides add_gas_for_issuance (bamm_withdraw_call share)

  unfoldable pub withdraw_gains_from_bamm_pool : Overrides → Plain
  withdraw_gains_from_bamm_pool overrides =
      wrapped overrides add_gas_for_issuance (bamm_withdraw_call 0)

  unfoldable pub withdraw_thusd_from_stability_pool : Decimalish → Overrides → Plain
  withdraw_thusd_from_stability_pool amount overrides = do
    wanted ← from amount
    wrapped overrides add_gas_for_issuance (withdraw_from_sp_call wanted)

  unfoldable pub withdraw_gains_from_stability_pool : Overrides → Plain
  withdraw_gains_from_stability_pool overrides =
      wrapped overrides add_gas_for_issuance (withdraw_from_sp_call 0)

  -- The gain of a deposit goes into the Trove of its owner, whose place in the list it changes.
  unfoldable pub transferred : (seed : ℕ) → (ℕ → Decimal) → Overrides → Plain
  transferred seed gain_of overrides = do
    address ← require_address c overrides
    let final_trove = add_collateral (c.get_trove address) (gain_of address)
    hints ← find_hints c.contracts seed (applied final_trove) (some address)
    wrapped overrides (λ gas. add_gas_for_potential_list_traversal (add_gas_for_issuance gas))
        (withdraw_collateral_gain_to_trove_call hints)

  unfoldable pub transfer_collateral_gain_to_trove : (seed : ℕ) → Overrides → Plain
  transfer_collateral_gain_to_trove seed overrides =
      transferred seed (λ address. (c.get_stability_deposit address).collateral_gain) overrides

  unfoldable pub transfer_bamm_collateral_gain_to_trove : (seed : ℕ) → Overrides → Plain
  transfer_bamm_collateral_gain_to_trove seed overrides =
      transferred seed (λ address. (c.get_bamm_deposit address).collateral_gain) overrides

  unfoldable pub send_thusd : (to_address : ℕ) → Decimalish → Overrides → Plain
  send_thusd to_address amount overrides = do
    sent ← from amount
    wrapped overrides (λ gas. gas) (transfer_thusd_call to_address sent)

  abbrev pub allowance_or_infinity : Option Decimalish → Decimalish
  allowance_or_infinity none = decimal infinity
  allowance_or_infinity (some allowance) = allowance

  unfoldable pub approve_erc20 : Option Decimalish → Overrides → Plain
  approve_erc20 allowance overrides = do
    allowed ← from (allowance_or_infinity allowance)
    wrapped overrides (λ gas. gas) (approve_erc20_call c.borrower_operations_address allowed)

  unfoldable pub mint_erc20 : (to_address : ℕ) → Decimalish → Overrides → Plain
  mint_erc20 to_address amount overrides = do
    minted ← from amount
    wrapped overrides (λ gas. gas) (mint_erc20_call to_address minted)
