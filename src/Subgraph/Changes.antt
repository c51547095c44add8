-- ===== src/Subgraph/Changes.antt =====
-- The system state and the changes that lead from one to the next
-- (packages/subgraph/src/entities/SystemState.ts, Change.ts).
use stability_protocol.Base.{ℕ, Bool, true, false, ◌||◌, if◌then◌else◌, Option, none, some}
use stability_protocol.Base.Int.{ℤ, pos, ◌+ℤ◌, ◌-ℤ◌, ◌*ℤ◌, ◌/ℤ◌, eq_ℤ, lt_ℤ, le_ℤ}
use stability_protocol.Base.Maps.{Map, number_key, load_entity, save_entity}
use stability_protocol.Subgraph.Entities.{
  SystemState, ChangeEntity, TroveChangeEntity, DepositChangeEntity, PriceChangeEntity,
  SurplusChangeEntity, DepositOperation, deposit_tokens, withdraw_tokens, withdraw_collateral_gain,
}
use stability_protocol.Subgraph.Operations.{
  is_borrower_operation, is_liquidation, is_recovery_mode_liquidation, is_redemption,
  bigint_scaling_factor, decimalize, calculate_collateral_ratio,
}
use stability_protocol.Subgraph.Graph.{
  Handler, pure, gets, get_or_abort, ◌>>=◌, ◌>>◌, Done, modify, Event, get_global, change_global,
  increase_counter, system_states_made, changes_made, found_or, get_transaction,
}

unfoldable pub save_system_state : SystemState → Handler Done
save_system_state state =
    modify λ g. record g { system_states = save_entity state.sequence_number state g.system_states }

-- `load(id)`, which finds nothing for the identifier `null`.
abbrev pub load_by_id : {V : Type 0} → Option ℕ → Map ℕ V → Option V
load_by_id none entities = none
load_by_id (some id) entities = load_entity id entities

unfoldable pub find_current_system_state : Handler (Option SystemState)
find_current_system_state = do
  global ← get_global
  gets λ g. load_by_id global.current_system_state g.system_states

unfoldable pub get_current_system_state : Handler SystemState
get_current_system_state = do
  state_or_none ← find_current_system_state
  found_or state_or_none do
    sequence_number ← increase_counter system_states_made
    let state : SystemState = record {
      sequence_number = sequence_number;
      price = none;
      total_collateral = pos 0;
      total_debt = pos 0;
      total_collateral_ratio = none;
      tokens_in_stability_pool = pos 0;
      coll_surplus_pool_balance = pos 0;
    }
    save_system_state state
    change_global (λ global. record global { current_system_state = some sequence_number })
    pure state

unfoldable pub bump_system_state : SystemState → Handler Done
bump_system_state state = do
  sequence_number ← increase_counter system_states_made
  save_system_state (record state { sequence_number = sequence_number })
  change_global (λ global. record global { current_system_state = some sequence_number })

unfoldable pub get_current_price : Handler ℤ
get_current_price = do state ← get_current_system_state; get_or_abort state.price

-- `beginChange` and `initChange`.
unfoldable pub begin_change : Event → Handler ChangeEntity
begin_change event = do
  sequence_number ← increase_counter changes_made
  transaction ← get_transaction event
  state ← get_current_system_state
  pure record {
    sequence_number = sequence_number;
    transaction = transaction;
    system_state_before = state.sequence_number;
    system_state_after = none;
  }

unfoldable pub finish_change : ChangeEntity → Handler ChangeEntity
finish_change change = do
  state ← get_current_system_state
  pure (record change { system_state_after = some state.sequence_number })

unfoldable pub save_price_change : PriceChangeEntity → Handler Done
save_price_change c =
    modify λ g. record g { price_changes = save_entity c.change.sequence_number c g.price_changes }

-- The part of `updatePrice` after the first price.
unfoldable pub change_price : Event → SystemState → ℤ → ℤ → Handler Done
change_price event state old_price new_price = do
  change ← begin_change event
  bump_system_state (record state { price = some new_price })
  finished ← finish_change change
  save_price_change record { change = finished; price_change = new_price -ℤ old_price }

-- The branches of `updatePrice` on the price before.
abbrev pub set_price : Event → SystemState → ℤ → Option ℤ → Handler Done
set_price event state new_price none = save_system_state (record state { price = some new_price })
set_price event state new_price (some old_price) =
    if eq_ℤ new_price old_price then pure tt else change_price event state old_price new_price

unfoldable pub update_price : Event → ℤ → Handler Done
update_price event last_good_price = do
  state ← get_current_system_state
  let new_price = decimalize last_good_price
  set_price event state new_price state.price

unfoldable pub try_to_offset_with_tokens_from_stability_pool : SystemState → ℤ → ℤ → SystemState
try_to_offset_with_tokens_from_stability_pool state collateral debt =
    if le_ℤ debt state.tokens_in_stability_pool
    then record state {
      total_collateral = state.total_collateral -ℤ collateral;
      total_debt = state.total_debt -ℤ debt;
      tokens_in_stability_pool = state.tokens_in_stability_pool -ℤ debt;
    }
    else if lt_ℤ (pos 0) state.tokens_in_stability_pool
    then record state {
      total_collateral =
          state.total_collateral -ℤ (collateral *ℤ state.tokens_in_stability_pool /ℤ debt);
      total_debt = state.total_debt -ℤ state.tokens_in_stability_pool;
      tokens_in_stability_pool = pos 0;
    }
    else state

-- `!isRecoveryModeLiquidation(operation) || collateralRatioBefore > 1`; comparing `null` aborts.
abbrev pub is_offset : Bool → Option ℤ → Option Bool
is_offset false ratio = some true
is_offset true none = none
is_offset true (some ratio) = some (lt_ℤ bigint_scaling_factor ratio)

-- The totals after a liquidation: the gas compensation leaves, and the pool offsets what it can.
unfoldable pub liquidation_totals : SystemState → TroveChangeEntity → Handler SystemState
liquidation_totals state c = do
  let compensation = c.collateral_before /ℤ pos 200
  let compensated = record state { total_collateral = state.total_collateral -ℤ compensation }
  offset ←
      get_or_abort (is_offset (is_recovery_mode_liquidation c.operation) c.collateral_ratio_before)
  pure (
      if offset
      then try_to_offset_with_tokens_from_stability_pool compensated
          (c.collateral_before -ℤ compensation) c.debt_before
      else compensated)

unfoldable pub totals_after : SystemState → TroveChangeEntity → Handler SystemState
totals_after state c =
    if is_borrower_operation c.operation || is_redemption c.operation
    then pure (record state {
      total_collateral = state.total_collateral +ℤ c.collateral_change;
      total_debt = state.total_debt +ℤ c.debt_change;
    })
    else if is_liquidation c.operation
    then liquidation_totals state c
    else pure state

unfoldable pub update_system_state_by_trove_change : TroveChangeEntity → Handler Done
update_system_state_by_trove_change c = do
  state ← get_current_system_state
  totals ← totals_after state c
  price ← get_or_abort totals.price
  bump_system_state (record totals {
    total_collateral_ratio =
        calculate_collateral_ratio totals.total_collateral totals.total_debt price;
  })

abbrev pub is_deposit_or_withdrawal : DepositOperation → Bool
is_deposit_or_withdrawal deposit_tokens = true
is_deposit_or_withdrawal withdraw_tokens = true
is_deposit_or_withdrawal withdraw_collateral_gain = false

unfoldable pub update_system_state_by_stability_deposit_change : DepositChangeEntity → Handler Done
update_system_state_by_stability_deposit_change c = do
  state ← get_current_system_state
  bump_system_state (
      if is_deposit_or_withdrawal c.operation
      then record state {
        tokens_in_stability_pool = state.tokens_in_stability_pool +ℤ c.deposited_amount_change;
      }
      else state)

unfoldable pub update_system_state_by_coll_surplus_change : SurplusChangeEntity → Handler Done
update_system_state_by_coll_surplus_change c = do
  state ← get_current_system_state
  bump_system_state (record state {
    coll_surplus_pool_balance = state.coll_surplus_pool_balance +ℤ c.coll_surplus_change;
  })
