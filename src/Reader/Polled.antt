-- ===== src/Reader/Polled.antt =====
-- The store that follows the blocks (packages/lib-ethers/src/BlockPolledLiquityStore.ts). `Decimal.ZERO` is one object, which
-- has the identity 0.
use Prim.Native.String.{String}
use stability_protocol.Base.{
  ℕ, Bool, false, Option, none, some, List, [], ◌∷◌, Result, ok, ◌>>=◌, if◌then◌else◌,
}
use stability_protocol.Base.Int.{pos}
use stability_protocol.Decimal.{Decimal}
use stability_protocol.Fees.{Fees}
use stability_protocol.Trove.User.{non_existent, PendingTrove}
use stability_protocol.Deposit.Stability.{StabilityDeposit, new_deposit}
use stability_protocol.Deposit.Bamm.{DecimalObject, BammDeposit}
use stability_protocol.Store.State.{BaseState, BaseStateUpdate}
use stability_protocol.Store.Lifecycle.{Store, Outcome, load, update}
use stability_protocol.Reader.{
  Reader, address_zero, bare_trove, get_total_redistributed, get_trove_before_redistribution,
  get_number_of_troves, get_price, get_market_price, get_redemption_rate, get_deviation_factor,
  get_total, get_symbol, get_collateral_address, get_stable_address, get_user_deposit,
  get_thusd_in_stability_pool, get_thusd_balance, get_erc20_token_balance,
  get_erc20_token_allowance, get_collateral_surplus_balance, get_block_timestamp, get_fees_factory,
}
use stability_protocol.Reader.Listing.{ascending_collateral_ratio, get_troves_before_redistribution}

-- `BlockPolledLiquityStoreExtraState`.
pub record ExtraState : Type 0 where
  pub block_tag : Option ℕ
  pub block_timestamp : ℕ
  pub fees_factory : ℕ → Bool → Result Fees
  pub bamm_allowance : Decimal

abbrev pub zero_object : DecimalObject
zero_object = record { identity = 0; value = 0 }

abbrev pub zero_bamm_deposit : BammDeposit
zero_bamm_deposit = record {
  bamm_pool_share = 0;
  pool_share = 0;
  initial_thusd = 0;
  current_usd = 0;
  current_thusd = 0;
  collateral_gain = 0;
  total_collateral_in_bamm = zero_object;
  total_thusd_in_bamm = zero_object;
}

abbrev pub first_or_bare : List PendingTrove → PendingTrove
first_or_bare [] = bare_trove address_zero non_existent
first_or_bare (t ∷ ts) = t

unfoldable pub get_riskiest_trove_before_redistribution : Reader → Option ℕ → Result PendingTrove
get_riskiest_trove_before_redistribution r tag = do
  troves ←
      get_troves_before_redistribution r
        (record { first = pos 1; sorted_by = ascending_collateral_ratio; starting_at = none }) tag
  ok (first_or_bare troves)

-- The properties that depend on the connected user.
pub record UserState : Type 0 where
  pub account_balance : Decimal
  pub thusd_balance : Decimal
  pub erc20_token_balance : Decimal
  pub erc20_token_allowance : Decimal
  pub collateral_surplus_balance : Decimal
  pub trove_before_redistribution : PendingTrove
  pub stability_deposit : StabilityDeposit
  pub bamm_deposit : BammDeposit

unfoldable pub get_user_state : Reader → Option String → Option ℕ → Result UserState
get_user_state r none tag = do
  empty_deposit ← new_deposit (record { initial_thusd = 0; current_thusd = 0; collateral_gain = 0 })
  ok (record {
    account_balance = 0;
    thusd_balance = 0;
    erc20_token_balance = 0;
    erc20_token_allowance = 0;
    collateral_surplus_balance = 0;
    trove_before_redistribution = bare_trove address_zero non_existent;
    stability_deposit = empty_deposit;
    bamm_deposit = zero_bamm_deposit;
  })
get_user_state r (some user) tag = do
  thusd_balance ← get_thusd_balance r (some user) tag
  token_balance ← get_erc20_token_balance r (some user) tag
  allowance ← get_erc20_token_allowance r (some user) tag
  surplus ← get_collateral_surplus_balance r (some user) tag
  before ← get_trove_before_redistribution r (some user) tag
  deposit ← get_user_deposit r (some user) tag
  ok (record {
    account_balance = (r.answers tag).native_balance user;
    thusd_balance = thusd_balance;
    erc20_token_balance = token_balance;
    erc20_token_allowance = allowance;
    collateral_surplus_balance = surplus;
    trove_before_redistribution = before;
    stability_deposit = deposit;
    bamm_deposit = zero_bamm_deposit;
  })

abbrev pub base_state : Reader → Option ℕ → UserState → PendingTrove → Fees → BaseState
base_state r tag u riskiest fees = record {
  number_of_troves = get_number_of_troves r tag;
  account_balance = u.account_balance;
  thusd_balance = u.thusd_balance;
  erc20_token_balance = u.erc20_token_balance;
  erc20_token_allowance = u.erc20_token_allowance;
  is_stability_pools = (r.answers tag).is_stability_pools;
  is_borrower_operations = (r.answers tag).is_borrower_operations;
  is_trove_manager = (r.answers tag).is_trove_manager;
  collateral_surplus_balance = u.collateral_surplus_balance;
  price = get_price r tag;
  market_price = get_market_price r tag;
  pi_redemption_rate = get_redemption_rate r tag;
  deviation_factor = get_deviation_factor r tag;
  thusd_in_stability_pool = get_thusd_in_stability_pool r tag;
  pcv_balance = 0;
  total = get_total r tag;
  total_redistributed = get_total_redistributed r tag;
  trove_before_redistribution = u.trove_before_redistribution;
  symbol = get_symbol r tag;
  collateral_address = get_collateral_address r tag;
  stable_address = get_stable_address r tag;
  stability_deposit = u.stability_deposit;
  bamm_deposit = u.bamm_deposit;
  mint_list = (r.answers tag).mint_list;
  fees_in_normal_mode = fees;
  riskiest_trove_before_redistribution = riskiest;
}

abbrev pub extra_state : Reader → Option ℕ → ExtraState
extra_state r tag = record {
  block_tag = tag;
  block_timestamp = get_block_timestamp r tag;
  fees_factory = get_fees_factory r tag;
  bamm_allowance = 0;
}

-- `_get`.
unfoldable pub get_state : Reader → Option ℕ → Result (BaseState × ExtraState)
get_state r tag = do
  riskiest ← get_riskiest_trove_before_redistribution r tag
  user ← get_user_state r r.user_address tag
  fees ← get_fees_factory r tag (get_block_timestamp r tag) false
  ok (base_state r tag user riskiest fees, extra_state r tag)

-- A whole state as an update.
abbrev pub as_update : BaseState → BaseStateUpdate
as_update b = record {
  number_of_troves = some b.number_of_troves;
  account_balance = some b.account_balance;
  thusd_balance = some b.thusd_balance;
  erc20_token_balance = some b.erc20_token_balance;
  erc20_token_allowance = some b.erc20_token_allowance;
  collateral_surplus_balance = some b.collateral_surplus_balance;
  price = some b.price;
  market_price = some b.market_price;
  pi_redemption_rate = some b.pi_redemption_rate;
  deviation_factor = some b.deviation_factor;
  thusd_in_stability_pool = some b.thusd_in_stability_pool;
  pcv_balance = some b.pcv_balance;
  total = some b.total;
  total_redistributed = some b.total_redistributed;
  trove_before_redistribution = some b.trove_before_redistribution;
  stability_deposit = some b.stability_deposit;
  bamm_deposit = some b.bamm_deposit;
  fees_in_normal_mode = some b.fees_in_normal_mode;
  riskiest_trove_before_redistribution = some b.riskiest_trove_before_redistribution;
  is_stability_pools = some b.is_stability_pools;
  is_borrower_operations = some b.is_borrower_operations;
  is_trove_manager = some b.is_trove_manager;
  symbol = some b.symbol;
  collateral_address = some b.collateral_address;
  stable_address = some b.stable_address;
  mint_list = some b.mint_list;
}

abbrev pub tag_or : Option ℕ → Option ℕ → Option ℕ
tag_or (some tag) old = some tag
tag_or none old = old

-- `_reduceExtra`: only the tag may be missing from a state that was read.
unfoldable pub reduce_extra : ExtraState → ExtraState → ExtraState
reduce_extra old new = record {
  block_tag = tag_or new.block_tag old.block_tag;
  block_timestamp = new.block_timestamp;
  fees_factory = new.fees_factory;
  bamm_allowance = new.bamm_allowance;
}

-- What becomes of the store when a state that `_doStart` asked for comes, at the start and at a new block.
unfoldable pub on_first_state : BaseState × ExtraState → Store ExtraState → Outcome ExtraState
on_first_state (base, extra) s =
    if s.loaded then record { store = s; error = none; notices = [] } else load base (some extra) s

unfoldable pub on_block_state : BaseState × ExtraState → Store ExtraState → Outcome ExtraState
on_block_state (base, extra) s =
    if s.loaded
    then update reduce_extra (some (as_update base)) (some extra) s
    else load base (some extra) s
