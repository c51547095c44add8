-- ===== src/Subgraph/Closings.antt =====
-- The liquidation and the redemption that are under way
-- (packages/subgraph/src/entities/Liquidation.ts, Redemption.ts).
use stability_protocol.Base.{false, none, some}
use stability_protocol.Base.Int.{ℤ, pos, ◌+ℤ◌, lt_ℤ}
use stability_protocol.Base.Maps.{number_key, save_entity}
use stability_protocol.Subgraph.Entities.{LiquidationEntity, RedemptionEntity}
use stability_protocol.Subgraph.Operations.{decimalize}
use stability_protocol.Subgraph.Graph.{
  Handler, pure, gets, ◌>>=◌, ◌>>◌, Done, modify, Event, get_global, change_global,
  increase_counter, liquidations_made, redemptions_made, found_or, get_user, get_transaction,
}
use stability_protocol.Subgraph.Changes.{load_by_id}

unfoldable pub save_liquidation : LiquidationEntity → Handler Done
save_liquidation l =
    modify λ g. record g { liquidations = save_entity l.sequence_number l g.liquidations }

unfoldable pub get_current_liquidation : Event → Handler LiquidationEntity
get_current_liquidation event = do
  global ← get_global
  liquidation_or_none ← gets λ g. load_by_id global.current_liquidation g.liquidations
  found_or liquidation_or_none do
    sequence_number ← increase_counter liquidations_made
    transaction ← get_transaction event
    liquidator ← get_user event.transaction_from
    let liquidation : LiquidationEntity = record {
      sequence_number = sequence_number;
      transaction = transaction;
      liquidator = liquidator.id;
      liquidated_debt = pos 0;
      liquidated_collateral = pos 0;
      coll_gas_compensation = pos 0;
      token_gas_compensation = pos 0;
    }
    save_liquidation liquidation
    change_global (λ global. record global { current_liquidation = some sequence_number })
    pure liquidation

unfoldable pub finish_current_liquidation : Event → ℤ → ℤ → ℤ → ℤ → Handler Done
finish_current_liquidation event coll debt coll_gas_compensation token_gas_compensation = do
  current ← get_current_liquidation event
  save_liquidation (record current {
    liquidated_collateral = decimalize coll;
    liquidated_debt = decimalize debt;
    coll_gas_compensation = decimalize coll_gas_compensation;
    token_gas_compensation = decimalize token_gas_compensation;
  })
  change_global (λ global. record global { current_liquidation = none })

unfoldable pub save_redemption : RedemptionEntity → Handler Done
save_redemption r =
    modify λ g. record g { redemptions = save_entity r.sequence_number r g.redemptions }

unfoldable pub get_current_redemption : Event → Handler RedemptionEntity
get_current_redemption event = do
  global ← get_global
  redemption_or_none ← gets λ g. load_by_id global.current_redemption g.redemptions
  found_or redemption_or_none do
    sequence_number ← increase_counter redemptions_made
    transaction ← get_transaction event
    redeemer ← get_user event.transaction_from
    let redemption : RedemptionEntity = record {
      sequence_number = sequence_number;
      transaction = transaction;
      redeemer = redeemer.id;
      tokens_attempted_to_redeem = pos 0;
      tokens_actually_redeemed = pos 0;
      collateral_redeemed = pos 0;
      partial = false;
      fee = pos 0;
    }
    save_redemption redemption
    change_global (λ global. record global { current_redemption = some sequence_number })
    pure redemption

unfoldable pub finish_current_redemption : Event → ℤ → ℤ → ℤ → ℤ → Handler Done
finish_current_redemption event attempted actual collateral_sent collateral_fee = do
  let fee = decimalize collateral_fee
  current ← get_current_redemption event
  save_redemption (record current {
    tokens_attempted_to_redeem = decimalize attempted;
    tokens_actually_redeemed = decimalize actual;
    collateral_redeemed = decimalize collateral_sent;
    partial = lt_ℤ actual attempted;
    fee = fee;
  })
  change_global (λ global. record global {
    current_redemption = none;
    total_redemption_fees_paid = global.total_redemption_fees_paid +ℤ fee;
  })
