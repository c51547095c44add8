-- ===== src/Subgraph/Troves.antt =====
-- The Troves (packages/subgraph/src/entities/Trove.ts).
use stability_protocol.Base.{ℕ, Bool, true, false, ◌&&◌, if◌then◌else◌, Option, none, some}
use stability_protocol.Base.Int.{ℤ, pos, ◌+ℤ◌, ◌-ℤ◌, ◌*ℤ◌, ◌/ℤ◌, eq_ℤ}
use stability_protocol.Base.Maps.{number_key, load_entity, save_entity}
use stability_protocol.Subgraph.Entities.{
  Global, TroveStatus, opened, closed_by_owner, closed_by_liquidation, closed_by_redemption,
  UserEntity, TroveEntity, TroveOperation, accrue_rewards, TroveChangeEntity,
}
use stability_protocol.Subgraph.Operations.{
  is_liquidation, is_redemption, bigint_scaling_factor, decimalize, calculate_collateral_ratio,
}
use stability_protocol.Subgraph.Graph.{
  Handler, pure, gets, get_or_abort, ◌>>=◌, ◌>>◌, Done, unless, modify, Event, get_global,
  get_last_change_sequence_number, found_or, save_user, get_user,
}
use stability_protocol.Subgraph.Counters.{
  increase_number_of_open_troves, increase_number_of_liquidated_troves,
  decrease_number_of_liquidated_troves, increase_number_of_redeemed_troves,
  decrease_number_of_redeemed_troves, increase_number_of_troves_closed_by_owner,
  decrease_number_of_troves_closed_by_owner,
}
use stability_protocol.Subgraph.Changes.{
  get_current_price, begin_change, finish_change, update_system_state_by_trove_change,
}
use stability_protocol.Subgraph.Closings.{get_current_liquidation, get_current_redemption}

abbrev pub new_trove : ℕ → TroveEntity
new_trove address = record {
  id = address;
  owner = address;
  status = opened;
  collateral = decimalize (pos 0);
  debt = decimalize (pos 0);
  raw_collateral = none;
  raw_debt = none;
  raw_stake = none;
  raw_snapshot_of_total_redistributed_collateral = none;
  raw_snapshot_of_total_redistributed_debt = none;
  collateral_ratio_sort_key = none;
}

-- The part of `getTrove` after the owner is read.
unfoldable pub create_after_user : ℕ → UserEntity → Handler TroveEntity
create_after_user address owner = do
  increase_number_of_open_troves
  save_user (record owner { trove = some address })
  pure (record (new_trove address) { owner = owner.id })

unfoldable pub create_trove : ℕ → Handler TroveEntity
create_trove address = do owner ← get_user address; create_after_user address owner

unfoldable pub get_trove : ℕ → Handler TroveEntity
get_trove address = do
  trove_or_none ← gets λ g. load_entity address g.troves
  found_or trove_or_none (create_trove address)

abbrev pub same_status : TroveStatus → TroveStatus → Bool
same_status opened opened = true
same_status closed_by_owner closed_by_owner = true
same_status closed_by_liquidation closed_by_liquidation = true
same_status closed_by_redemption closed_by_redemption = true
same_status _ _ = false

-- The counters when a Trove opens again, and when it closes.
abbrev pub count_reopened : TroveStatus → Handler Done
count_reopened opened = pure tt
count_reopened closed_by_owner = decrease_number_of_troves_closed_by_owner
count_reopened closed_by_liquidation = decrease_number_of_liquidated_troves
count_reopened closed_by_redemption = decrease_number_of_redeemed_troves

abbrev pub count_status : TroveStatus → TroveStatus → Handler Done
count_status before opened = count_reopened before
count_status before closed_by_owner = increase_number_of_troves_closed_by_owner
count_status before closed_by_liquidation = increase_number_of_liquidated_troves
count_status before closed_by_redemption = increase_number_of_redeemed_troves

-- `setTroveStatus` gives the Trove with its new status.
unfoldable pub set_trove_status : TroveEntity → TroveStatus → Handler TroveEntity
set_trove_status trove status =
    if same_status status trove.status
    then pure trove
    else do count_status trove.status status; pure (record trove { status = status })

unfoldable pub save_trove_change : TroveChangeEntity → Handler Done
save_trove_change c =
    modify λ g. record g { trove_changes = save_entity c.change.sequence_number c g.trove_changes }

unfoldable pub save_trove : ℕ → TroveEntity → Handler Done
save_trove id trove = modify λ g. record g { troves = save_entity id trove g.troves }

-- The closing that a change belongs to, if it belongs to one.
unfoldable pub liquidation_id : Event → Handler (Option ℕ)
liquidation_id event = do
  current ← get_current_liquidation event
  pure (some current.sequence_number)

unfoldable pub liquidation_of : Event → TroveOperation → Handler (Option ℕ)
liquidation_of event operation =
    if is_liquidation operation then liquidation_id event else pure none

unfoldable pub redemption_id : Event → Handler (Option ℕ)
redemption_id event = do current ← get_current_redemption event; pure (some current.sequence_number)

unfoldable pub redemption_of : Event → TroveOperation → Handler (Option ℕ)
redemption_of event operation = if is_redemption operation then redemption_id event else pure none

-- The part of `updateTrove` that records the change, from `createTroveChange` to `finishTroveChange`.
unfoldable pub record_trove_change : Event → TroveOperation → TroveEntity → ℤ → ℤ → Handler Done
record_trove_change event operation trove new_collateral new_debt = do
  change ← begin_change event
  price ← get_current_price
  liquidation ← liquidation_of event operation
  redemption ← redemption_of event operation
  let trove_change : TroveChangeEntity = record {
    change = change;
    trove = trove.id;
    operation = operation;
    collateral_before = trove.collateral;
    collateral_change = new_collateral -ℤ trove.collateral;
    collateral_after = new_collateral;
    debt_before = trove.debt;
    debt_change = new_debt -ℤ trove.debt;
    debt_after = new_debt;
    borrowing_fee = none;
    collateral_ratio_before = calculate_collateral_ratio trove.collateral trove.debt price;
    collateral_ratio_after = calculate_collateral_ratio new_collateral new_debt price;
    liquidation = liquidation;
    redemption = redemption;
  }
  update_system_state_by_trove_change trove_change
  finished ← finish_change change
  save_trove_change (record trove_change { change = finished })

-- The amounts, the stake and the snapshots that `updateTrove` writes.
unfoldable pub updated_trove : Global → TroveEntity → ℤ → ℤ → ℤ → TroveEntity
updated_trove global trove coll debt stake =
    let staked = if eq_ℤ stake (pos 0) then false else true in
    record trove {
      collateral = decimalize coll;
      debt = decimalize debt;
      raw_collateral = some coll;
      raw_debt = some debt;
      raw_stake = some stake;
      raw_snapshot_of_total_redistributed_collateral =
          some (if staked then global.raw_total_redistributed_collateral else pos 0);
      raw_snapshot_of_total_redistributed_debt =
          some (if staked then global.raw_total_redistributed_debt else pos 0);
      collateral_ratio_sort_key =
          if staked
          then some (debt *ℤ bigint_scaling_factor /ℤ stake -ℤ global.raw_total_redistributed_debt)
          else none;
    }

unfoldable pub status_after : TroveOperation → ℤ → TroveStatus
status_after operation coll =
    if eq_ℤ coll (pos 0)
    then if is_liquidation operation
      then closed_by_liquidation
      else if is_redemption operation
      then closed_by_redemption
      else closed_by_owner
    else opened

-- The part of `updateTrove` after the change is recorded.
unfoldable pub set_status : TroveOperation → ℕ → Global → TroveEntity → ℤ → ℤ → ℤ → Handler Done
set_status operation borrower global trove coll debt stake = do
  with_status ←
      set_trove_status (updated_trove global trove coll debt stake) (status_after operation coll)
  save_trove borrower with_status

unfoldable pub write_trove :
    Event → TroveOperation → ℕ → Global → TroveEntity → ℤ → ℤ → ℤ → Handler Done
write_trove event operation borrower global trove coll debt stake = do
  record_trove_change event operation trove (decimalize coll) (decimalize debt)
  set_status operation borrower global trove coll debt stake

unfoldable pub update_trove : Event → TroveOperation → ℕ → ℤ → ℤ → ℤ → Handler Done
update_trove event operation borrower coll debt stake = do
  global ← get_global
  trove ← get_trove borrower
  unless (eq_ℤ (decimalize coll) trove.collateral && eq_ℤ (decimalize debt) trove.debt)
      (write_trove event operation borrower global trove coll debt stake)

unfoldable pub set_borrowing_fee_of_last_trove_change : ℤ → Handler Done
set_borrowing_fee_of_last_trove_change fee = do
  last ← get_last_change_sequence_number
  change_or_none ← gets λ g. load_entity last g.trove_changes
  change ← get_or_abort change_or_none
  save_trove_change (record change { borrowing_fee = some (decimalize fee) })

-- An amount with what was redistributed to it since the snapshot.
unfoldable pub with_redistributed : ℤ → ℤ → ℤ → ℤ → ℤ
with_redistributed amount total snapshot stake =
    amount +ℤ ((total -ℤ snapshot) *ℤ stake /ℤ bigint_scaling_factor)

-- The amounts of a Trove with what was redistributed to it; reading an amount that is not set aborts.
abbrev pub accrued_from :
    Global → Option ℤ → Option ℤ → Option ℤ → Option ℤ → Option ℤ → Option (ℤ × ℤ)
accrued_from global (some collateral_snapshot) (some debt_snapshot) (some stake) (some collateral)
      (some debt) =
    some (
      with_redistributed collateral global.raw_total_redistributed_collateral collateral_snapshot
          stake,
      with_redistributed debt global.raw_total_redistributed_debt debt_snapshot stake,
    )
accrued_from global _ _ _ _ _ = none

abbrev pub accrued_amounts : Global → TroveEntity → Option (ℤ × ℤ)
accrued_amounts global trove =
    accrued_from global trove.raw_snapshot_of_total_redistributed_collateral
      trove.raw_snapshot_of_total_redistributed_debt trove.raw_stake trove.raw_collateral
      trove.raw_debt

unfoldable pub apply_redistribution_to_trove_before_liquidation : Event → ℕ → Handler Done
apply_redistribution_to_trove_before_liquidation event borrower = do
  global ← get_global
  trove ← get_trove borrower
  amounts ← get_or_abort (accrued_amounts global trove)
  update_trove event accrue_rewards borrower amounts.0 amounts.1 (pos 0)
