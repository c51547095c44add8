-- ===== src/Subgraph/Handlers.antt =====
-- The events that the subgraph reads, and the handler of each (packages/subgraph/src/mappings). An event whose
-- handler aborts leaves the store as it was.
use stability_protocol.Base.{ℕ, Option, none, some, List, [], ◌∷◌}
use stability_protocol.Base.Int.{ℤ}
use stability_protocol.Base.Maps.{OnSome}
use stability_protocol.Subgraph.Operations.{
  trove_operation_from_borrower_operation, trove_operation_from_trove_manager_operation,
}
use stability_protocol.Subgraph.Graph.{
  Graph, Handler, ◌>>◌, Done, Event, update_total_redistributed, increase_total_borrowing_fees_paid,
}
use stability_protocol.Subgraph.Changes.{update_price}
use stability_protocol.Subgraph.Closings.{finish_current_liquidation, finish_current_redemption}
use stability_protocol.Subgraph.Troves.{
  update_trove, set_borrowing_fee_of_last_trove_change,
  apply_redistribution_to_trove_before_liquidation,
}
use stability_protocol.Subgraph.Deposits.{
  handle_user_deposit_changed, handle_collateral_gain_withdrawn, update_user_claim_coll,
}
use stability_protocol.Subgraph.Tokens.{Erc20, update_balance, update_allowance}

-- The parameters of the events.
pub data Parameters : Type 0 where
  borrower_trove_updated manager_trove_updated :
      (operation borrower : ℕ) (coll debt stake : ℤ) → Parameters
  trove_liquidated : (borrower : ℕ) → Parameters
  liquidation_finished : (coll debt coll_compensation token_compensation : ℤ) → Parameters
  redemption_finished : (attempted actual collateral_sent collateral_fee : ℤ) → Parameters
  l_terms_updated : (collateral debt : ℤ) → Parameters
  borrowing_fee_paid : (fee : ℤ) → Parameters
  user_deposit_changed : (depositor : ℕ) (new_deposit : ℤ) → Parameters
  collateral_gain_withdrawn : (depositor : ℕ) (collateral loss : ℤ) → Parameters
  coll_balance_updated : (account : ℕ) (new_balance : ℤ) → Parameters
  last_good_price : (new_price : ℤ) → Parameters
  transfer : (from to : ℕ) (value : ℤ) → Parameters
  approval : (owner spender : ℕ) (value : ℤ) → Parameters

unfoldable pub handle_borrowing_fee_paid : ℤ → Handler Done
handle_borrowing_fee_paid fee = do
  set_borrowing_fee_of_last_trove_change fee
  increase_total_borrowing_fees_paid fee

abbrev pub handle_borrower_trove_updated : Event → ℕ → ℕ → ℤ → ℤ → ℤ → Handler Done
handle_borrower_trove_updated e operation borrower coll debt stake =
    update_trove e (trove_operation_from_borrower_operation operation) borrower coll debt stake

abbrev pub handle_manager_trove_updated : Event → ℕ → ℕ → ℤ → ℤ → ℤ → Handler Done
handle_manager_trove_updated e operation borrower coll debt stake =
    update_trove e (trove_operation_from_trove_manager_operation operation) borrower coll debt stake

abbrev pub handle_trove_liquidated : Event → ℕ → Handler Done
handle_trove_liquidated e borrower = apply_redistribution_to_trove_before_liquidation e borrower

abbrev pub handle_liquidation : Event → ℤ → ℤ → ℤ → ℤ → Handler Done
handle_liquidation e coll debt coll_compensation token_compensation =
    finish_current_liquidation e coll debt coll_compensation token_compensation

abbrev pub handle_redemption : Event → ℤ → ℤ → ℤ → ℤ → Handler Done
handle_redemption e attempted actual collateral_sent collateral_fee =
    finish_current_redemption e attempted actual collateral_sent collateral_fee

abbrev pub handle_l_terms_updated : ℤ → ℤ → Handler Done
handle_l_terms_updated collateral debt = update_total_redistributed collateral debt

abbrev pub handle_coll_surplus_balance_updated : Event → ℕ → ℤ → Handler Done
handle_coll_surplus_balance_updated e account new_balance =
    update_user_claim_coll e account new_balance

abbrev pub handle_last_good_price : Event → ℤ → Handler Done
handle_last_good_price e new_price = update_price e new_price

abbrev pub handle_token_transfer : Erc20 → Event → ℕ → ℕ → ℤ → Handler Done
handle_token_transfer contracts e from to value = update_balance contracts e from to value

abbrev pub handle_token_approval : Event → ℕ → ℕ → ℤ → Handler Done
handle_token_approval e owner spender value = update_allowance e owner spender value

-- The handler of each event, as the manifest of the subgraph assigns them.
unfoldable pub handle : Erc20 → Event → Parameters → Handler Done
handle contracts e (borrower_trove_updated operation borrower coll debt stake) =
    handle_borrower_trove_updated e operation borrower coll debt stake
handle contracts e (manager_trove_updated operation borrower coll debt stake) =
    handle_manager_trove_updated e operation borrower coll debt stake
handle contracts e (trove_liquidated borrower) = handle_trove_liquidated e borrower
handle contracts e (liquidation_finished coll debt coll_compensation token_compensation) =
    handle_liquidation e coll debt coll_compensation token_compensation
handle contracts e (redemption_finished attempted actual collateral_sent collateral_fee) =
    handle_redemption e attempted actual collateral_sent collateral_fee
handle contracts e (l_terms_updated collateral debt) = handle_l_terms_updated collateral debt
handle contracts e (borrowing_fee_paid fee) = handle_borrowing_fee_paid fee
handle contracts e (user_deposit_changed depositor new_deposit) =
    handle_user_deposit_changed e depositor new_deposit
handle contracts e (collateral_gain_withdrawn depositor collateral loss) =
    handle_collateral_gain_withdrawn e depositor collateral loss
handle contracts e (coll_balance_updated account new_balance) =
    handle_coll_surplus_balance_updated e account new_balance
handle contracts e (last_good_price new_price) = handle_last_good_price e new_price
handle contracts e (transfer from to value) = handle_token_transfer contracts e from to value
handle contracts e (approval owner spender value) = handle_token_approval e owner spender value

-- What graph-node keeps after a handler.
abbrev pub kept : Option (Done × Graph) → Graph → Graph
kept none g = g
kept (some (d, h)) g = h

pub kept_by :
    (P : Graph → Type 0) (o : Option (Done × Graph)) (g : Graph)
    → P g
    → OnSome (λ r. P r.1) o
    → P (kept o g)
kept_by P none g before after = before
kept_by P (some r) g before after = after

unfoldable pub index : Erc20 → Event × Parameters → Graph → Graph
index contracts (e, p) g = kept (handle contracts e p g) g

unfoldable pub run_events : Erc20 → List (Event × Parameters) → Graph → Graph
run_events contracts [] g = g
run_events contracts (e ∷ es) g = run_events contracts es (index contracts e g)
