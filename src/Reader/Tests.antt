-- ===== src/Reader/Tests.antt =====
-- A concrete node, and the store that loads a block of it.
use stability_protocol.Base.{◌*◌, ◌^◌, ◌≡◌, true, false, none, some, [], refl, ok, inl, inr}
use stability_protocol.Decimal.{
  digits, div, mul, mul_div, min, add, pow, pow_loop, pow_end, rounded_mul,
}
use stability_protocol.Fees.{
  Fees, new_fees, set_recovery_mode, borrowing_rate, redemption_rate, base_rate, minutes_since,
}
use stability_protocol.Trove
use stability_protocol.Trove.{
  Trove, trove, multiply, subtract, is_below_critical, is_below_minimum, collateral_ratio,
}
use stability_protocol.Trove.User.{opened, non_existent, PendingTrove, apply_redistribution}
use stability_protocol.Deposit.Stability.{new_deposit}
use stability_protocol.Store.State.{BaseState, DerivedState, derive}
use stability_protocol.Store.Lifecycle.{load, new_store}
use stability_protocol.Ethers.Chain.{minute_decay_factor, beta, fees_factory}
use stability_protocol.Reader.{
  Answers, Reader, bare_trove, address_zero, user_trove_status_from, pending_trove,
  get_total_redistributed, get_trove_before_redistribution, get_total, get_user_deposit,
  get_thusd_balance, get_erc20_token_balance, get_erc20_token_allowance,
  get_collateral_surplus_balance, get_fees_factory,
}
use stability_protocol.Reader.Listing.{
  expect_positive_int, start_index, get_troves_before_redistribution,
}
use stability_protocol.Reader.Polled.{
  UserState, zero_bamm_deposit, base_state, extra_state, get_riskiest_trove_before_redistribution,
  get_user_state, get_state,
}
use stability_protocol.Reader.Agree.{IsFaithful}
use stability_protocol.Reader.Loaded.{load-IsFaithful}

abbrev some_answers : Answers
some_answers = record {
  block_timestamp = 1_600_000_000;
  l_collateral = 0;
  l_thusd_debt = 0;
  troves = λ a. record { status = 1; coll = 3 * digits; debt = 2500 * digits; stake = 3 * digits };
  reward_snapshots = λ a. (0, 0);
  trove_owners_count = 1;
  get_multiple_sorted_troves = λ start count. [];
  fetch_price = 1500 * digits;
  market_price = none;
  redemption_rate = 0;
  deviation_factor = 0;
  active_collateral = 100 * digits;
  active_debt = 5000 * digits;
  default_collateral = 0;
  default_debt = 0;
  collateral_address = "0x01";
  erc20_symbol = "TST";
  stable_address = "0x02";
  deposits = λ a. 9 * digits;
  compounded_deposit = λ a. 8 * digits;
  collateral_gain = λ a. digits;
  total_thusd_deposits = 9 * digits;
  thusd_balance = λ a. 700 * digits;
  native_balance = λ a. 2 * digits;
  erc20_balance = λ a. 6 * digits;
  erc20_allowance = λ a. 0;
  is_stability_pools = true;
  is_borrower_operations = true;
  is_trove_manager = true;
  mint_list = true;
  collateral_surplus = λ a. 0;
  last_fee_operation_time = 1_600_000_000;
  base_rate = 0;
  bamm_total = 0;
  bamm_stake = λ a. 0;
}

abbrev some_reader : Reader
some_reader = record {
  answers = λ tag. some_answers;
  user_address = some "0x05";
  pcv_address = "0x06";
  bamm_address = "0x07";
}

abbrev normal_fees : Fees
normal_fees = record {
  base_rate_without_decay = 0;
  minute_decay_factor = minute_decay_factor;
  beta = beta;
  last_fee_operation = 1_600_000_000_000;
  time_of_latest_block = 1_600_000_000_000;
  recovery_mode = false;
}

abbrev own_trove : PendingTrove
own_trove = record {
  user = record {
    base = trove (3 * digits) (2500 * digits);
    owner_address = "0x05";
    status = opened;
  };
  stake = 3 * digits;
  snapshot_of_total_redistributed = trove 0 0;
}

abbrev own_state : UserState
own_state = record {
  account_balance = 2 * digits;
  thusd_balance = 700 * digits;
  erc20_token_balance = 6 * digits;
  erc20_token_allowance = 0;
  collateral_surplus_balance = 0;
  trove_before_redistribution = own_trove;
  stability_deposit = record {
    initial_thusd = 9 * digits;
    current_thusd = 8 * digits;
    collateral_gain = digits;
  };
  bamm_deposit = zero_bamm_deposit;
}

abbrev block_state : BaseState
block_state =
    base_state some_reader (some 7) own_state (bare_trove address_zero non_existent) normal_fees

block_is_read : get_state some_reader (some 7) ≡ ok (block_state, extra_state some_reader (some 7))
unfolding get_state get_riskiest_trove_before_redistribution get_troves_before_redistribution
    expect_positive_int start_index get_user_state get_thusd_balance get_erc20_token_balance
    get_erc20_token_allowance get_collateral_surplus_balance get_trove_before_redistribution
    user_trove_status_from pending_trove get_user_deposit new_deposit get_fees_factory fees_factory
    new_fees
block_is_read = refl

abbrev block_derived : DerivedState
block_derived = record {
  trove = own_trove.user;
  fees = normal_fees;
  borrowing_rate = 5 * 10 ^ 15;
  redemption_rate = 5 * 10 ^ 15;
  have_undercollateralized_troves = false;
}

block_derives : derive block_state ≡ ok block_derived
unfolding derive set_recovery_mode new_fees borrowing_rate redemption_rate base_rate minutes_since
    apply_redistribution is_below_critical is_below_minimum collateral_ratio mul_div div mul add min
    pow pow_loop pow_end rounded_mul multiply subtract Trove.add get_total get_total_redistributed
block_derives = refl

load-IsFaithful_example :
    IsFaithful some_reader
      (some 7)
      "0x05"
      (load block_state (some (extra_state some_reader (some 7))) (new_store true 0)).store
      (some (some 7))
      none
load-IsFaithful_example =
    load-IsFaithful some_reader (some 7) "0x05" (new_store true 0) block_state
      (extra_state some_reader (some 7)) block_derived refl refl block_is_read block_derives
      (some (some 7)) none (inr refl) (inl refl)
