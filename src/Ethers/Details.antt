-- ===== src/Ethers/Details.antt =====
-- What the receipts of transactions report, read from the events of their logs (packages/lib-ethers/src/PopulatableEthersLiquity.ts,
-- packages/lib-ethers/src/contracts.ts). An event that is missing is `undefined`.
use stability_protocol.Base.{
  ℕ, Bool, true, false, ◌&&◌, ◌==◌, Option, none, some, List, [], ◌∷◌, Result, ok, err, ◌>>=◌,
  type_error, if◌then◌else◌,
}
use stability_protocol.Decimal
use stability_protocol.Decimal.{Decimal, is_zero}
use stability_protocol.Trove.{Trove, trove}
use stability_protocol.Ethers.Receipts.{
  ParsedEvent, trove_updated, borrowing_fee_paid, transfer, collateral_sent, trove_liquidated,
  liquidation, user_deposit_changed, collateral_gain_withdrawn, redemption, Log, RawReceipt,
}

pub record Addresses : Type 0 where
  pub borrower_operations : ℕ
  pub trove_manager : ℕ
  pub thusd_token : ℕ
  pub active_pool : ℕ
  pub stability_pool : ℕ

abbrev kept_event {ℓ} : {A : Type ℓ} → Option A → List A → List A
kept_event none rest = rest
kept_event (some a) rest = a ∷ rest

-- `extractEvents(logs, name).map(f)`, where `f` takes the events of that name.
unfoldable pub extract_events {ℓ} :
    {A : Type ℓ} → (address : ℕ) → (ParsedEvent → Option A) → List Log → List A
extract_events address named [] = []
extract_events address named (log ∷ logs) =
    let rest = extract_events address named logs in
    if log.address == address then kept_event (named log.event) rest else rest

-- `const [first] = ...`.
abbrev pub first {ℓ} : {A : Type ℓ} → List A → Option A
first [] = none
first (a ∷ rest) = some a

-- A property of `undefined` throws.
abbrev pub required {ℓ} : {A : Type ℓ} → Option A → Result A
required none = err type_error
required (some a) = ok a

abbrev pub new_trove_of : ParsedEvent → Option Trove
new_trove_of (trove_updated coll debt) = some (trove coll debt)
new_trove_of _ = none

abbrev pub fee_of : ParsedEvent → Option Decimal
fee_of (borrowing_fee_paid fee) = some fee
fee_of _ = none

abbrev pub borrower_of : ParsedEvent → Option ℕ
borrower_of (trove_liquidated borrower) = some borrower
borrower_of _ = none

abbrev pub new_deposit_of : ParsedEvent → Option Decimal
new_deposit_of (user_deposit_changed deposit) = some deposit
new_deposit_of _ = none

abbrev pub value_if : Bool → ℕ → Option Decimal
value_if true value = some value
value_if false value = none

-- The value of a transfer between two accounts.
abbrev pub value_between : (from to : ℕ) → ParsedEvent → Option Decimal
value_between from to (transfer sender receiver value) =
    value_if (sender == from && receiver == to) value
value_between from to _ = none

abbrev pub sent_to : ℕ → ParsedEvent → Option Decimal
sent_to account (collateral_sent receiver amount) = value_if (receiver == account) amount
sent_to account _ = none

pub record TroveChangeDetails (P : Type 0) : Type 0 where
  pub params : P
  pub new_trove : Option Trove
  pub fee : Option Decimal

unfoldable pub trove_change_details :
    {P : Type 0} → Addresses → P → RawReceipt → TroveChangeDetails P
trove_change_details a params receipt = record {
  params = params;
  new_trove = first (extract_events a.borrower_operations new_trove_of receipt.logs);
  fee = first (extract_events a.borrower_operations fee_of receipt.logs);
}

pub record ClosureDetails : Type 0 where
  pub withdraw_collateral : Option Decimal
  pub repay_thusd : Option Decimal

unfoldable pub trove_closure_details : Addresses → RawReceipt → Result ClosureDetails
trove_closure_details a receipt = do
  repaid ←
      required (first (extract_events a.thusd_token (value_between receipt.sender 0) receipt.logs))
  ok (record {
    withdraw_collateral =
        first (extract_events a.active_pool (sent_to receipt.sender) receipt.logs);
    repay_thusd = Decimal.non_zero repaid;
  })

pub record LiquidationTotals : Type 0 where
  pub collateral_gas_compensation : Decimal
  pub thusd_gas_compensation : Decimal
  pub total_liquidated : Trove

abbrev pub totals_of : ParsedEvent → Option LiquidationTotals
totals_of (liquidation debt coll coll_compensation thusd_compensation) = some (record {
  collateral_gas_compensation = coll_compensation;
  thusd_gas_compensation = thusd_compensation;
  total_liquidated = trove coll debt;
})
totals_of _ = none

pub record LiquidationDetails : Type 0 where
  pub liquidated_addresses : List ℕ
  pub totals : Option LiquidationTotals

unfoldable pub liquidation_details : Addresses → RawReceipt → LiquidationDetails
liquidation_details a receipt = record {
  liquidated_addresses = extract_events a.trove_manager borrower_of receipt.logs;
  totals = first (extract_events a.trove_manager totals_of receipt.logs);
}

pub record GainsDetails : Type 0 where
  pub thusd_loss : Decimal
  pub new_thusd_deposit : Option Decimal
  pub collateral_gain : Decimal

-- The gain and the loss.
abbrev pub gains_of : ParsedEvent → Option (Decimal × Decimal)
gains_of (collateral_gain_withdrawn collateral loss) = some (collateral, loss)
gains_of _ = none

unfoldable pub gains_details : Addresses → List Log → Result GainsDetails
gains_details a logs = do
  gains ← required (first (extract_events a.stability_pool gains_of logs))
  ok (record {
    thusd_loss = gains.1;
    new_thusd_deposit = first (extract_events a.stability_pool new_deposit_of logs);
    collateral_gain = gains.0;
  })

pub record WithdrawalDetails : Type 0 where
  pub gains : GainsDetails
  pub withdraw_thusd : Option Decimal
  pub withdraw_all_thusd : Bool

unfoldable pub withdrawal_details : Addresses → RawReceipt → Result WithdrawalDetails
withdrawal_details a receipt = do
  gains ← gains_details a receipt.logs
  deposit ← required gains.new_thusd_deposit
  ok (record {
    gains = gains;
    withdraw_thusd =
        first (
          extract_events a.thusd_token (value_between a.stability_pool receipt.sender)
            receipt.logs);
    withdraw_all_thusd = is_zero deposit;
  })

pub record TransferDetails : Type 0 where
  pub gains : GainsDetails
  pub new_trove : Option Trove

unfoldable pub gain_transfer_details : Addresses → RawReceipt → Result TransferDetails
gain_transfer_details a receipt = do
  gains ← gains_details a receipt.logs
  ok (record {
    gains = gains;
    new_trove = first (extract_events a.borrower_operations new_trove_of receipt.logs);
  })

pub record RedemptionDetails : Type 0 where
  pub attempted_thusd_amount : Decimal
  pub actual_thusd_amount : Decimal
  pub collateral_taken : Decimal
  pub fee : Decimal

abbrev pub redemption_event_of : ParsedEvent → Option RedemptionDetails
redemption_event_of (redemption attempted actual sent fee) = some (record {
  attempted_thusd_amount = attempted;
  actual_thusd_amount = actual;
  collateral_taken = sent;
  fee = fee;
})
redemption_event_of _ = none

unfoldable pub redemption_details : Addresses → RawReceipt → Option RedemptionDetails
redemption_details a receipt =
    first (extract_events a.trove_manager redemption_event_of receipt.logs)
