-- ===== src/Reader.antt =====
-- What the reader of the SDK makes of the contracts' answers (packages/lib-ethers/src/ReadableEthersLiquity.ts). The answers of a
-- block are a record; a block tag that is missing means the latest block. An address is a text.
pub mod Listing
pub mod Bamm
pub mod Polled
pub mod Stored
pub mod Agree
pub mod Loaded
mod Tests
use Prim.Native.String.{String}
use text.Mathlib.Text.{◌==◌ as str_eq}
use stability_protocol.Base.{
  ℕ, ◌+◌, ◌*◌, ◌/◌, ◌^◌, Bool, true, false, ltb, ◌==◌, Option, none, some, List, Result, ok, err,
  ◌>>=◌, no_address, call_exception, if◌then◌else◌,
}
use stability_protocol.Decimal
use stability_protocol.Base.Int.{ℤ}
use stability_protocol.Decimal.{Decimal, digits, div, mul, mul_div}
use stability_protocol.Fees.{Fees}
use stability_protocol.Trove
use stability_protocol.Trove.{Trove, trove, empty_trove, is_below_critical}
use stability_protocol.Trove.User.{
  UserTroveStatus, non_existent, opened, closed_by_owner, closed_by_liquidation,
  closed_by_redemption, UserTrove, PendingTrove, apply_redistribution,
}
use stability_protocol.Deposit.Stability.{StabilityDeposit, new_deposit}
use stability_protocol.Deposit.Bamm.{BammDeposit}
use stability_protocol.Ethers.Chain.{fees_factory}

pub record BackendTrove : Type 0 where
  pub status : ℕ
  pub coll : ℕ
  pub debt : ℕ
  pub stake : ℕ

pub record ListedTrove : Type 0 where
  pub owner : String
  pub coll : ℕ
  pub debt : ℕ
  pub stake : ℕ
  pub snapshot_collateral : ℕ
  pub snapshot_thusd_debt : ℕ

-- What the contracts answer at one block, of the accounts where they are asked of one.
pub record Answers : Type 0 where
  pub block_timestamp : ℕ
  pub l_collateral : ℕ
  pub l_thusd_debt : ℕ
  pub troves : String → BackendTrove
  pub reward_snapshots : String → ℕ × ℕ
  pub trove_owners_count : ℕ
  pub get_multiple_sorted_troves : (start : ℤ) → (count : ℕ) → List ListedTrove
  pub fetch_price : ℕ
  pub market_price : Option ℕ
  pub redemption_rate : ℕ
  pub deviation_factor : ℕ
  pub active_collateral : ℕ
  pub active_debt : ℕ
  pub default_collateral : ℕ
  pub default_debt : ℕ
  pub collateral_address : String
  pub erc20_symbol : String
  pub stable_address : String
  pub deposits : String → ℕ
  pub compounded_deposit : String → ℕ
  pub collateral_gain : String → ℕ
  pub total_thusd_deposits : ℕ
  pub thusd_balance : String → ℕ
  pub native_balance : String → ℕ
  pub erc20_balance : String → ℕ
  pub erc20_allowance : String → ℕ
  pub is_stability_pools : Bool
  pub is_borrower_operations : Bool
  pub is_trove_manager : Bool
  pub mint_list : Bool
  pub collateral_surplus : String → ℕ
  pub last_fee_operation_time : ℕ
  pub base_rate : ℕ
  pub bamm_total : ℕ
  pub bamm_stake : String → ℕ

-- The node, with the user of the connection.
pub record Reader : Type 0 where
  pub answers : Option ℕ → Answers
  pub user_address : Option String
  pub pcv_address : String
  pub bamm_address : String

abbrev pub address_zero : String
address_zero = "0x0000000000000000000000000000000000000000"

unfoldable pub user_trove_status_from : ℕ → Result UserTroveStatus
user_trove_status_from status =
    if status == 0
    then ok non_existent
    else if status == 1
    then ok opened
    else if status == 2
    then ok closed_by_owner
    else if status == 3
    then ok closed_by_liquidation
    else if status == 4
    then ok closed_by_redemption
    else err call_exception

-- The constructor of a Trove without collateral, debt and stake.
abbrev pub bare_trove : String → UserTroveStatus → PendingTrove
bare_trove address status = record {
  user = record { base = empty_trove; owner_address = address; status = status };
  stake = 0;
  snapshot_of_total_redistributed = empty_trove;
}

-- `address ??= _requireAddress(connection)`.
abbrev pub address_or_user : Option String → Option String → Result String
address_or_user (some address) user = ok address
address_or_user none (some user) = ok user
address_or_user none none = err no_address

unfoldable pub pending_trove : String → UserTroveStatus → BackendTrove → ℕ × ℕ → PendingTrove
pending_trove address status t snapshot =
    if t.status == 1
    then record {
      user = record { base = trove t.coll t.debt; owner_address = address; status = status };
      stake = t.stake;
      snapshot_of_total_redistributed = trove snapshot.0 snapshot.1;
    }
    else bare_trove address status

module _ (r : Reader) where
  unfoldable pub get_total_redistributed : Option ℕ → Trove
  get_total_redistributed tag = trove (r.answers tag).l_collateral (r.answers tag).l_thusd_debt

  unfoldable pub get_trove_before_redistribution : Option String → Option ℕ → Result PendingTrove
  get_trove_before_redistribution address tag = do
    owner ← address_or_user address r.user_address
    status ← user_trove_status_from ((r.answers tag).troves owner).status
    ok (
        pending_trove owner status ((r.answers tag).troves owner)
          ((r.answers tag).reward_snapshots owner))

  unfoldable pub get_user_trove : Option String → Option ℕ → Result UserTrove
  get_user_trove address tag = do
    before ← get_trove_before_redistribution address tag
    ok (apply_redistribution before (get_total_redistributed tag))

  abbrev pub get_number_of_troves : Option ℕ → ℕ
  get_number_of_troves tag = (r.answers tag).trove_owners_count

  abbrev pub get_price : Option ℕ → Decimal
  get_price tag = (r.answers tag).fetch_price

  abbrev pub price_or_zero : Option ℕ → Decimal
  price_or_zero none = 0
  price_or_zero (some price) = price

  abbrev pub get_market_price : Option ℕ → Decimal
  get_market_price tag = price_or_zero (r.answers tag).market_price

  unfoldable pub get_redemption_rate : Option ℕ → Decimal
  get_redemption_rate tag = div (r.answers tag).redemption_rate (10 ^ 9 * digits)

  unfoldable pub get_deviation_factor : Option ℕ → Decimal
  get_deviation_factor tag = div (r.answers tag).deviation_factor (10 ^ 9 * digits)

  -- The sum of the active and the default pool.
  unfoldable pub get_total : Option ℕ → Trove
  get_total tag =
      Trove.add (trove (r.answers tag).active_collateral (r.answers tag).active_debt)
        (trove (r.answers tag).default_collateral (r.answers tag).default_debt)

  -- The collateral's address is read at the latest block.
  unfoldable pub get_symbol : Option ℕ → String
  get_symbol tag =
      if str_eq (r.answers none).collateral_address address_zero
      then "ETH"
      else (r.answers tag).erc20_symbol

  abbrev pub get_collateral_address : Option ℕ → String
  get_collateral_address tag = (r.answers tag).collateral_address

  abbrev pub get_stable_address : Option ℕ → String
  get_stable_address tag = (r.answers tag).stable_address

  unfoldable pub get_user_deposit : Option String → Option ℕ → Result StabilityDeposit
  get_user_deposit address tag = do
    owner ← address_or_user address r.user_address
    new_deposit (record {
      initial_thusd = (r.answers tag).deposits owner;
      current_thusd = (r.answers tag).compounded_deposit owner;
      collateral_gain = (r.answers tag).collateral_gain owner;
    })

  abbrev pub get_thusd_in_stability_pool : Option ℕ → Decimal
  get_thusd_in_stability_pool tag = (r.answers tag).total_thusd_deposits

  abbrev pub get_pcv_balance : Option ℕ → Decimal
  get_pcv_balance tag = (r.answers tag).thusd_balance r.pcv_address

  unfoldable pub get_thusd_balance : Option String → Option ℕ → Result Decimal
  get_thusd_balance address tag = do
    owner ← address_or_user address r.user_address
    ok ((r.answers tag).thusd_balance owner)

  -- The balance of the chain's own currency is read at the latest block.
  unfoldable pub get_erc20_token_balance : Option String → Option ℕ → Result Decimal
  get_erc20_token_balance address tag = do
    owner ← address_or_user address r.user_address
    ok (
        if str_eq (r.answers none).collateral_address address_zero
        then (r.answers none).native_balance owner
        else (r.answers tag).erc20_balance owner)

  abbrev pub large_allowance : Decimal
  large_allowance = 0x8888888888888888888888888888888888888888888888888888888888888888

  unfoldable pub get_erc20_token_allowance : Option String → Option ℕ → Result Decimal
  get_erc20_token_allowance address tag = do
    owner ← address_or_user address r.user_address
    ok (
        if str_eq (r.answers none).collateral_address address_zero
        then large_allowance
        else (r.answers tag).erc20_allowance owner)

  unfoldable pub get_collateral_surplus_balance : Option String → Option ℕ → Result Decimal
  get_collateral_surplus_balance address tag = do
    owner ← address_or_user address r.user_address
    ok ((r.answers tag).collateral_surplus owner)

  abbrev pub get_block_timestamp : Option ℕ → ℕ
  get_block_timestamp tag = (r.answers tag).block_timestamp

  -- The function that `_getFeesFactory` returns.
  unfoldable pub get_fees_factory : Option ℕ → ℕ → Bool → Result Fees
  get_fees_factory tag =
      fees_factory (r.answers tag).last_fee_operation_time (r.answers tag).base_rate

  unfoldable pub reader_fees : Option ℕ → Result Fees
  reader_fees tag =
      get_fees_factory tag (get_block_timestamp tag)
        (is_below_critical (get_total tag) (get_price tag))
