-- ===== src/Store/Tests.antt =====
-- A store that is loaded, and updated with a new price.
use stability_protocol.Base.{
  ℕ, ◌*◌, ◌+◌, ◌^◌, ◌≤◌, ◌<◌, ◌≡◌, refl, false, true, some, none, List, [], ◌∷◌, ok, arith,
}
use stability_protocol.Base.Lists.{length}
use stability_protocol.Decimal.{digits, mul, mul_div, min, pow, pow_loop, pow_end, rounded_mul, add}
use stability_protocol.Fees.{
  Fees, minutes_since, set_recovery_mode, new_fees, base_rate, borrowing_rate, redemption_rate,
}
use stability_protocol.Trove
use stability_protocol.Trove.{
  Trove, trove, empty_trove, collateral_ratio, is_below_critical, is_below_minimum,
}
use stability_protocol.Trove.User.{PendingTrove, opened, apply_redistribution}
use stability_protocol.Store.State.{BaseState, BaseStateUpdate, DerivedState, reduce, derive}
use stability_protocol.Store.Reduce.{IsMerged, reduce-IsMerged}
use stability_protocol.Store.Derived.{IsDerived, derive_total}
use stability_protocol.Store.Lifecycle.{
  Store, new_store, state, stop, update, run, Operation, load_op, update_op, stop_op, fire_op,
}
use stability_protocol.Store.Updated.{IsTaken, update_total}
use stability_protocol.Store.Consistent.{IsReported, update-IsReported}
use stability_protocol.Store.Listeners.{unsubscribe}
use stability_protocol.Store.Timer.{run-one_timer}

abbrev fees : Fees
fees = record {
  base_rate_without_decay = 10 ^ 16;
  minute_decay_factor = 999037758833783000;
  beta = 2 * digits;
  last_fee_operation = 1_600_000_000_000;
  time_of_latest_block = 1_600_000_060_000;
  recovery_mode = false;
}

abbrev vault : PendingTrove
vault = record {
  user = record { base = trove digits (2000 * digits); owner_address = "0x01"; status = opened };
  stake = digits;
  snapshot_of_total_redistributed = empty_trove;
}

abbrev base : BaseState
base = record {
  number_of_troves = 2;
  account_balance = 0;
  thusd_balance = 0;
  erc20_token_balance = 0;
  erc20_token_allowance = 0;
  is_stability_pools = true;
  is_borrower_operations = true;
  is_trove_manager = true;
  collateral_surplus_balance = 0;
  price = 4000 * digits;
  market_price = digits;
  pi_redemption_rate = 0;
  deviation_factor = 0;
  thusd_in_stability_pool = 0;
  pcv_balance = 0;
  total = trove (2 * digits) (4000 * digits);
  total_redistributed = empty_trove;
  trove_before_redistribution = vault;
  symbol = "ETH";
  collateral_address = "0x02";
  stable_address = "0x03";
  stability_deposit = record { initial_thusd = 0; current_thusd = 0; collateral_gain = 0 };
  bamm_deposit = record {
    bamm_pool_share = 0;
    pool_share = 0;
    initial_thusd = 0;
    current_usd = 0;
    current_thusd = 0;
    collateral_gain = 0;
    total_collateral_in_bamm = record { identity = 0; value = 0 };
    total_thusd_in_bamm = record { identity = 1; value = 0 };
  };
  mint_list = true;
  fees_in_normal_mode = fees;
  riskiest_trove_before_redistribution = vault;
}

-- The price falls, and a balance is read again.
abbrev price_falls : BaseStateUpdate
price_falls = record {
  number_of_troves = none;
  account_balance = some 0;
  thusd_balance = none;
  erc20_token_balance = none;
  erc20_token_allowance = none;
  collateral_surplus_balance = none;
  price = some (1000 * digits);
  market_price = none;
  pi_redemption_rate = none;
  deviation_factor = none;
  thusd_in_stability_pool = none;
  pcv_balance = none;
  total = none;
  total_redistributed = none;
  trove_before_redistribution = none;
  stability_deposit = none;
  bamm_deposit = none;
  fees_in_normal_mode = none;
  riskiest_trove_before_redistribution = none;
  is_stability_pools = none;
  is_borrower_operations = none;
  is_trove_manager = none;
  symbol = none;
  collateral_address = none;
  stable_address = none;
  mint_list = some false;
}

reduce-IsMerged_example : IsMerged base price_falls (reduce base price_falls)
reduce-IsMerged_example = reduce-IsMerged base price_falls

in_time : minutes_since fees none < 2 ^ 32
unfolding minutes_since
in_time = omega arith

derive_total_example : (d : DerivedState) × (derive base ≡ ok d) × IsDerived base d
derive_total_example = derive_total base (omega arith) in_time

abbrev derived : DerivedState
derived = record {
  trove = record { base = trove digits (2000 * digits); owner_address = "0x01"; status = opened };
  fees = fees;
  borrowing_rate = 14990377588337830;
  redemption_rate = 14990377588337830;
  have_undercollateralized_troves = false;
}

base_derives : derive base ≡ ok derived
unfolding derive set_recovery_mode new_fees borrowing_rate redemption_rate base_rate minutes_since
    pow pow_loop pow_end rounded_mul mul add min is_below_critical is_below_minimum collateral_ratio
    mul_div apply_redistribution Trove.add Trove.multiply Trove.subtract
base_derives = refl

-- A store whose subclass keeps a number.
abbrev empty_store : Store ℕ
empty_store = new_store true 7

abbrev loaded_store : Store ℕ
loaded_store = (record empty_store {
  loaded = true;
  base_state = some base;
  derived_state = some derived;
  extra_state = some 0;
})

update-IsReported_example :
    IsReported ◌+◌ (state loaded_store) (update ◌+◌ (some price_falls) (some 3) loaded_store)
update-IsReported_example = update-IsReported ◌+◌ (some price_falls) (some 3) loaded_store

update_total_example :
    IsTaken ◌+◌
      (some price_falls)
      (some 3)
      base
      loaded_store
      (update ◌+◌ (some price_falls) (some 3) loaded_store)
update_total_example =
    update_total ◌+◌ (some price_falls) (some 3) loaded_store base derived refl refl (omega arith)
      in_time

abbrev operations : List (Operation ◌+◌)
operations =
    load_op base (some 0)
    ∷ update_op (some price_falls) (some 3)
    ∷ fire_op 8
    ∷ stop_op
    ∷ update_op none none
    ∷ []

run-one_timer_example :
    (length (run ◌+◌ operations (new_store true 7)).timers.pending ≤ 1)
    × ((stop (run ◌+◌ operations (new_store true 7))).store.timers.pending ≡ [])
run-one_timer_example = run-one_timer ◌+◌ operations true 7

-- Each listener unsubscribes itself and the one with the number 2, and subscribes none.
abbrev reaction : ℕ → List ℕ → List ℕ
reaction k listeners = unsubscribe 2 (unsubscribe k listeners)
