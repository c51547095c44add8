-- ===== src/Subgraph/Deposits.antt =====
-- Stability deposits and collateral surplus (packages/subgraph/src/entities/StabilityDeposit.ts, User.ts,
-- mappings/StabilityPool.ts).
pub mod Ignores
pub mod Order
use stability_protocol.Base.{ℕ, Bool, ◌&&◌, if◌then◌else◌, Option, none, some}
use stability_protocol.Base.Int.{ℤ, pos, ◌-ℤ◌, eq_ℤ, lt_ℤ}
use stability_protocol.Base.Maps.{number_key, load_entity, save_entity}
use stability_protocol.Subgraph.Entities.{
  DepositEntity, DepositOperation, deposit_tokens, withdraw_tokens, withdraw_collateral_gain,
  DepositChangeEntity, SurplusChangeEntity, UserEntity,
}
use stability_protocol.Subgraph.Operations.{decimalize}
use stability_protocol.Subgraph.Graph.{
  Graph, Handler, pure, gets, ◌>>=◌, ◌>>◌, Done, unless, modify, Event, get_global, save_global,
  found_or, save_user, get_user,
}
use stability_protocol.Subgraph.Changes.{
  begin_change, finish_change, update_system_state_by_stability_deposit_change,
  update_system_state_by_coll_surplus_change,
}

unfoldable pub create_deposit : ℕ → Handler DepositEntity
create_deposit address = do
  owner ← get_user address
  save_user (record owner { stability_deposit = some address })
  pure record { id = address; owner = owner.id; deposited_amount = pos 0 }

unfoldable pub get_stability_deposit : ℕ → Handler DepositEntity
get_stability_deposit address = do
  deposit_or_none ← gets λ g. load_entity address g.deposits
  found_or deposit_or_none (create_deposit address)

unfoldable pub save_deposit : DepositEntity → Handler Done
save_deposit d = modify λ g. record g { deposits = save_entity d.id d g.deposits }

unfoldable pub save_deposit_change : DepositChangeEntity → Handler Done
save_deposit_change c =
    modify
      λ g. record g { deposit_changes = save_entity c.change.sequence_number c g.deposit_changes }

-- Gives the deposit with its new amount, which the callers save.
unfoldable pub update_stability_deposit_by_operation :
    Event → DepositEntity → DepositOperation → ℤ → Option ℤ → Handler DepositEntity
update_stability_deposit_by_operation event deposit operation new_amount gain = do
  change ← begin_change event
  let deposit_change : DepositChangeEntity = record {
    change = change;
    stability_deposit = deposit.id;
    operation = operation;
    deposited_amount_before = deposit.deposited_amount;
    deposited_amount_change = new_amount -ℤ deposit.deposited_amount;
    deposited_amount_after = new_amount;
    collateral_gain = gain;
  }
  update_system_state_by_stability_deposit_change deposit_change
  finished ← finish_change change
  save_deposit_change (record deposit_change { change = finished })
  pure (record deposit { deposited_amount = new_amount })

unfoldable pub change_deposit : Event → DepositEntity → ℤ → Handler Done
change_deposit event deposit new_amount = do
  changed ←
      update_stability_deposit_by_operation event deposit
        (if lt_ℤ deposit.deposited_amount new_amount then deposit_tokens else withdraw_tokens)
        new_amount none
  save_deposit changed

unfoldable pub update_stability_deposit : Event → ℕ → ℤ → Handler Done
update_stability_deposit event user amount = do
  deposit ← get_stability_deposit user
  owner ← get_user user
  unless (eq_ℤ (decimalize amount) deposit.deposited_amount)
      (change_deposit event deposit (decimalize amount))

unfoldable pub withdraw_gain : Event → ℕ → ℤ → ℤ → Handler Done
withdraw_gain event user gain loss = do
  deposit ← get_stability_deposit user
  changed ←
      update_stability_deposit_by_operation event deposit withdraw_collateral_gain
        (deposit.deposited_amount -ℤ decimalize loss) (some (decimalize gain))
  save_deposit changed

unfoldable pub withdraw_collateral_gain_from_stability_deposit : Event → ℕ → ℤ → ℤ → Handler Done
withdraw_collateral_gain_from_stability_deposit event user gain loss =
    unless (eq_ℤ gain (pos 0) && eq_ℤ loss (pos 0)) (withdraw_gain event user gain loss)

-- `tmpDepositUpdate == null ? valueToSetIfNull : null`.
abbrev pub swapped : ℤ → Option ℤ → Option ℤ
swapped value none = some value
swapped value (some before) = none

unfoldable pub swap_tmp_deposit_update : ℤ → Handler (Option ℤ)
swap_tmp_deposit_update value = do
  global ← get_global
  save_global (record global { tmp_deposit_update = swapped value global.tmp_deposit_update })
  pure global.tmp_deposit_update

-- Runs the update if the value is there.
abbrev pub if_set : Option ℤ → (ℤ → Handler Done) → Handler Done
if_set none update = pure tt
if_set (some value) update = update value

unfoldable pub handle_user_deposit_changed : Event → ℕ → ℤ → Handler Done
handle_user_deposit_changed event depositor new_deposit = do
  gain_withdrawn ← swap_tmp_deposit_update new_deposit
  if_set gain_withdrawn λ dummy. update_stability_deposit event depositor new_deposit

unfoldable pub handle_collateral_gain_withdrawn : Event → ℕ → ℤ → ℤ → Handler Done
handle_collateral_gain_withdrawn event depositor collateral loss = do
  deposit_update ← swap_tmp_deposit_update (pos 0)
  withdraw_collateral_gain_from_stability_deposit event depositor collateral loss
  if_set deposit_update λ amount. update_stability_deposit event depositor amount

unfoldable pub save_surplus_change : SurplusChangeEntity → Handler Done
save_surplus_change c =
    modify
      λ g. record g { surplus_changes = save_entity c.change.sequence_number c g.surplus_changes }

unfoldable pub change_surplus : Event → UserEntity → ℤ → Handler Done
change_surplus event user new_surplus = do
  change ← begin_change event
  let surplus_change : SurplusChangeEntity = record {
    change = change;
    user = user.id;
    coll_surplus_before = user.coll_surplus;
    coll_surplus_change = new_surplus -ℤ user.coll_surplus;
    coll_surplus_after = new_surplus;
  }
  update_system_state_by_coll_surplus_change surplus_change
  finished ← finish_change change
  save_surplus_change (record surplus_change { change = finished })
  save_user (record user { coll_surplus = new_surplus })

unfoldable pub update_user_claim_coll : Event → ℕ → ℤ → Handler Done
update_user_claim_coll event borrower coll_surplus = do
  user ← get_user borrower
  unless (eq_ℤ (decimalize coll_surplus) user.coll_surplus)
      (change_surplus event user (decimalize coll_surplus))
