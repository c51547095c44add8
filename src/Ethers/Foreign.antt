-- ===== src/Ethers/Foreign.antt =====
-- The details of a receipt do not depend on the logs of other contracts (packages/lib-ethers/src/PopulatableEthersLiquity.ts).
use stability_protocol.Base.{
  ℕ, Bool, true, ◌||◌, ◌==◌, Option, List, [], ◌∷◌, ◌≡◌, refl, arith, if◌then◌else◌,
}
use stability_protocol.Ethers.Receipts.{ParsedEvent, Log, RawReceipt}
use stability_protocol.Ethers.Details.{
  Addresses, extract_events, new_trove_of, fee_of, borrower_of, new_deposit_of, value_between,
  sent_to, totals_of, gains_of, redemption_event_of, trove_change_details, trove_closure_details,
  liquidation_details, gains_details, withdrawal_details, gain_transfer_details, redemption_details,
}

-- The logs of the contracts that the details are read from.
abbrev pub is_own : Addresses → ℕ → Bool
is_own a address =
    address == a.borrower_operations
    || address == a.trove_manager
    || address == a.thusd_token
    || address == a.active_pool
    || address == a.stability_pool

abbrev pub own_logs : Addresses → List Log → List Log
own_logs a [] = []
own_logs a (log ∷ logs) = if is_own a log.address then log ∷ own_logs a logs else own_logs a logs

extract_events-own_logs {ℓ} :
    {A : Type ℓ} (a : Addresses) (address : ℕ) (named : ParsedEvent → Option A) (logs : List Log)
    → is_own a address ≡ true
    → extract_events address named (own_logs a logs) ≡ extract_events address named logs
unfolding extract_events
extract_events-own_logs a address named [] own = refl
extract_events-own_logs a address named (log ∷ logs) own =
    ground (arith, extract_events-own_logs a address named logs own)

abbrev pub own_receipt : Addresses → RawReceipt → RawReceipt
own_receipt a receipt = record receipt { logs = own_logs a receipt.logs }

gains_details-own :
    (a : Addresses) (logs : List Log) → gains_details a (own_logs a logs) ≡ gains_details a logs
unfolding gains_details
gains_details-own a logs =
    rw
      (
        extract_events-own_logs a a.stability_pool gains_of logs (ground arith),
        extract_events-own_logs a a.stability_pool new_deposit_of logs (ground arith),
      )
      refl

-- Whatever the contracts outside the protocol log in a transaction, and wherever among the other logs, every kind of details
-- that is read from its receipt stays as it is.
pub details-own :
    {P : Type 0} (a : Addresses) (params : P) (receipt : RawReceipt)
    → (trove_change_details a params (own_receipt a receipt)
        ≡ trove_change_details a params receipt)
      × (trove_closure_details a (own_receipt a receipt) ≡ trove_closure_details a receipt)
      × (liquidation_details a (own_receipt a receipt) ≡ liquidation_details a receipt)
      × (gains_details a (own_logs a receipt.logs) ≡ gains_details a receipt.logs)
      × (withdrawal_details a (own_receipt a receipt) ≡ withdrawal_details a receipt)
      × (gain_transfer_details a (own_receipt a receipt) ≡ gain_transfer_details a receipt)
      × (redemption_details a (own_receipt a receipt) ≡ redemption_details a receipt)
unfolding trove_change_details trove_closure_details liquidation_details withdrawal_details
    gain_transfer_details redemption_details
details-own a params receipt = (
  rw
      (
        extract_events-own_logs a a.borrower_operations new_trove_of receipt.logs (ground arith),
        extract_events-own_logs a a.borrower_operations fee_of receipt.logs (ground arith),
      )
      refl,
  rw
      (
        extract_events-own_logs a a.thusd_token (value_between receipt.sender 0) receipt.logs
            (ground arith),
        extract_events-own_logs a a.active_pool (sent_to receipt.sender) receipt.logs
            (ground arith),
      )
      refl,
  rw
      (
        extract_events-own_logs a a.trove_manager borrower_of receipt.logs (ground arith),
        extract_events-own_logs a a.trove_manager totals_of receipt.logs (ground arith),
      )
      refl,
  gains_details-own a receipt.logs,
  rw
      (
        gains_details-own a receipt.logs,
        extract_events-own_logs a a.thusd_token (value_between a.stability_pool receipt.sender)
            receipt.logs (ground arith),
      )
      refl,
  rw
      (
        gains_details-own a receipt.logs,
        extract_events-own_logs a a.borrower_operations new_trove_of receipt.logs (ground arith),
      )
      refl,
  rw (extract_events-own_logs a a.trove_manager redemption_event_of receipt.logs (ground arith))
      refl,
)
