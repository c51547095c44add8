-- ===== src/Ethers/Transfers.antt =====
-- What the transfers of a collateral gain and the withdrawals from the B.AMM populate
-- (packages/lib-ethers/src/PopulatableEthersLiquity.ts).
use stability_protocol.Base.{ℕ, ◌+◌, ◌≡◌, ◌≢◌, false, none, some, List, ok, refl, arith}
use stability_protocol.Decimal.{Decimal, infinite, mul, div}
use stability_protocol.Trove.{Trove, add_collateral, nominal_collateral_ratio}
use stability_protocol.Ethers.Gas.{add_gas_for_issuance, add_gas_for_potential_list_traversal}
use stability_protocol.Ethers.Hints.{find_hints}
use stability_protocol.Ethers.Hints.Position.{ListLaws}
use stability_protocol.Ethers.Hints.Found.{AreHints, find_hints-AreHints, others}
use stability_protocol.Ethers.Transaction.{
  Overrides, withdraw_collateral_gain_to_trove_call, Transaction, estimate_and_populate-free,
  with_limit, Populated, simple,
}
use stability_protocol.Ethers.Chain.{Chain, require_address}
use stability_protocol.Ethers.Operations.{
  wrapped, transferred, transfer_collateral_gain_to_trove, transfer_bamm_collateral_gain_to_trove,
}

-- The transaction moves the gain into the Trove at the place of the Trove with the gain in the list without it, with 130000 more gas
-- than the estimate.
abbrev pub IsTransfer :
    Chain → List ℕ → (ℕ → ℕ) → ℕ → Trove → Overrides → Populated (Unit {0}) → Type 0
IsTransfer c list ratio_of address final_trove overrides populated =
    (hints : ℕ × ℕ) × (gas : ℕ) × AreHints ratio_of (others (some address) list)
      (nominal_collateral_ratio final_trove) hints
    × (c.estimate (record {
      call = withdraw_collateral_gain_to_trove_call hints;
      value = none;
      overrides = overrides;
    })
        ≡ some gas)
    × (populated.transaction
        ≡ with_limit (withdraw_collateral_gain_to_trove_call hints) overrides (gas + 130000))

module _ (c : Chain) (list : List ℕ) (ratio_of : ℕ → ℕ) (laws : ListLaws c.contracts list ratio_of)
    (seed : ℕ) (overrides : Overrides) (address : ℕ)
    (connected : require_address c overrides ≡ ok address) (valid : address ≢ 0)
    (free : overrides.gas_limit ≡ none)
    (accepts : (t : Transaction) → (gas : ℕ) × (c.estimate t ≡ some gas)) where
  transferred-IsTransfer :
      (gain_of : ℕ → Decimal)
      → infinite (nominal_collateral_ratio (add_collateral (c.get_trove address) (gain_of address)))
        ≡ false
      → (populated : Populated (Unit {0})) × (transferred c seed gain_of overrides ≡ ok populated)
        × IsTransfer c list ratio_of address
            (add_collateral (c.get_trove address) (gain_of address))
            overrides
            populated
  unfolding transferred find_hints wrapped add_gas_for_issuance add_gas_for_potential_list_traversal
  transferred-IsTransfer gain_of finite =
      let final_trove = add_collateral (c.get_trove address) (gain_of address) in
      let (hints, e, are_hints) =
        find_hints-AreHints c.contracts list ratio_of laws seed
          (nominal_collateral_ratio final_trove) (some address) finite valid in
      let call = withdraw_collateral_gain_to_trove_call hints in
      let (gas, estimate) = accepts (record { call = call; value = none; overrides = overrides }) in
      (
        simple tt (with_limit call overrides (gas + 50000 + 80000)),
        rw
            (
              connected,
              e,
              estimate_and_populate-free c.estimate overrides (λ gas. gas + 50000 + 80000) call gas
                  free estimate,
            )
            refl,
        (
          hints,
          gas,
          are_hints,
          estimate,
          (let more : gas + 50000 + 80000 ≡ gas + 130000 = omega arith in rw more refl),
        ),
      )

  -- Both gains, that of the Stability Pool and that of the B.AMM.
  pub transferred_gains-IsTransfer :
      infinite (
          nominal_collateral_ratio (
            add_collateral (c.get_trove address) (c.get_stability_deposit address).collateral_gain))
        ≡ false
      → infinite (
          nominal_collateral_ratio
            (add_collateral (c.get_trove address) (c.get_bamm_deposit address).collateral_gain))
        ≡ false
      → ((populated : Populated (Unit {0})) × (transfer_collateral_gain_to_trove c seed overrides
            ≡ ok populated)
          × IsTransfer c list ratio_of address
              (add_collateral
                (c.get_trove address)
                (c.get_stability_deposit address).collateral_gain)
              overrides
              populated)
        × ((populated : Populated (Unit {0})) × (transfer_bamm_collateral_gain_to_trove c seed
                overrides
              ≡ ok populated)
            × IsTransfer c list ratio_of address
                (add_collateral (c.get_trove address) (c.get_bamm_deposit address).collateral_gain)
                overrides
                populated)
  unfolding transfer_collateral_gain_to_trove transfer_bamm_collateral_gain_to_trove
  transferred_gains-IsTransfer finite bamm_finite = (
    transferred-IsTransfer (λ a. (c.get_stability_deposit a).collateral_gain) finite,
    transferred-IsTransfer (λ a. (c.get_bamm_deposit a).collateral_gain) bamm_finite,
  )

-- The part of the stake that an amount is of the deposit's current worth.
abbrev pub share_of : Chain → ℕ → Decimal → Decimal
share_of c address wanted =
    div (mul (c.bamm_stake address) wanted) (c.get_bamm_deposit address).current_usd
