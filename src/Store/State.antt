-- ===== src/Store/State.antt =====
-- The state of the store and its reduction (packages/lib-base/src/LiquityStore.ts). Logging is left
-- out; an update is partial, with `none` for a property that it lacks.
use Prim.Native.String.{String}
use stability_protocol.Base.{
  ℕ, Bool, not, Option, none, some, Result, ok, ◌>>=◌, ◌==◌, if◌then◌else◌,
}
use stability_protocol.Decimal.{Decimal, eq}
use stability_protocol.Fees.{Fees, set_recovery_mode, borrowing_rate, redemption_rate, same_bool}
use stability_protocol.Fees
use stability_protocol.Trove
use stability_protocol.Trove.{Trove, is_below_critical, is_below_minimum}
use stability_protocol.Trove.User.{
  UserTrove, PendingTrove, apply_redistribution, user_equals, pending_equals,
}
use stability_protocol.Deposit.Stability
use stability_protocol.Deposit.Stability.{StabilityDeposit}
use stability_protocol.Deposit.Bamm
use stability_protocol.Deposit.Bamm.{BammDeposit}

-- `LiquityStoreBaseState`.
pub record BaseState : Type 0 where
  pub number_of_troves : ℕ
  pub account_balance : Decimal
  pub thusd_balance : Decimal
  pub erc20_token_balance : Decimal
  pub erc20_token_allowance : Decimal
  pub is_stability_pools : Bool
  pub is_borrower_operations : Bool
  pub is_trove_manager : Bool
  pub collateral_surplus_balance : Decimal
  pub price : Decimal
  pub market_price : Decimal
  pub pi_redemption_rate : Decimal
  pub deviation_factor : Decimal
  pub thusd_in_stability_pool : Decimal
  pub pcv_balance : Decimal
  pub total : Trove
  pub total_redistributed : Trove
  pub trove_before_redistribution : PendingTrove
  pub symbol : String
  pub collateral_address : String
  pub stable_address : String
  pub stability_deposit : StabilityDeposit
  pub bamm_deposit : BammDeposit
  pub mint_list : Bool
  pub fees_in_normal_mode : Fees
  pub riskiest_trove_before_redistribution : PendingTrove

-- `Partial<LiquityStoreBaseState>`; `_reduce` reads none of the last seven properties.
pub record BaseStateUpdate : Type 0 where
  pub number_of_troves : Option ℕ
  pub account_balance : Option Decimal
  pub thusd_balance : Option Decimal
  pub erc20_token_balance : Option Decimal
  pub erc20_token_allowance : Option Decimal
  pub collateral_surplus_balance : Option Decimal
  pub price : Option Decimal
  pub market_price : Option Decimal
  pub pi_redemption_rate : Option Decimal
  pub deviation_factor : Option Decimal
  pub thusd_in_stability_pool : Option Decimal
  pub pcv_balance : Option Decimal
  pub total : Option Trove
  pub total_redistributed : Option Trove
  pub trove_before_redistribution : Option PendingTrove
  pub stability_deposit : Option StabilityDeposit
  pub bamm_deposit : Option BammDeposit
  pub fees_in_normal_mode : Option Fees
  pub riskiest_trove_before_redistribution : Option PendingTrove
  pub is_stability_pools : Option Bool
  pub is_borrower_operations : Option Bool
  pub is_trove_manager : Option Bool
  pub symbol : Option String
  pub collateral_address : Option String
  pub stable_address : Option String
  pub mint_list : Option Bool

-- `_updateIfChanged` and `_silentlyUpdateIfChanged`.
unfoldable pub update_if_changed {ℓ} : {A : Type ℓ} → (A → A → Bool) → A → Option A → A
update_if_changed equals prev none = prev
update_if_changed equals prev (some next) = if not (equals prev next) then next else prev

-- `_updateFees`.
unfoldable pub update_fees : Fees → Fees → Fees
update_fees prev next = if not (Fees.equals next prev) then next else prev

abbrev pub same_number : ℕ → ℕ → Bool
same_number a b = a == b

unfoldable pub reduce : BaseState → BaseStateUpdate → BaseState
reduce b u = record {
  number_of_troves = update_if_changed same_number b.number_of_troves u.number_of_troves;
  account_balance = update_if_changed eq b.account_balance u.account_balance;
  thusd_balance = update_if_changed eq b.thusd_balance u.thusd_balance;
  pcv_balance = update_if_changed eq b.pcv_balance u.pcv_balance;
  erc20_token_balance = update_if_changed eq b.erc20_token_balance u.erc20_token_balance;
  erc20_token_allowance = update_if_changed eq b.erc20_token_allowance u.erc20_token_allowance;
  is_stability_pools = b.is_stability_pools;
  is_borrower_operations = b.is_borrower_operations;
  is_trove_manager = b.is_trove_manager;
  collateral_surplus_balance =
      update_if_changed eq b.collateral_surplus_balance u.collateral_surplus_balance;
  price = update_if_changed eq b.price u.price;
  market_price = update_if_changed eq b.market_price u.market_price;
  pi_redemption_rate = update_if_changed eq b.pi_redemption_rate u.pi_redemption_rate;
  deviation_factor = update_if_changed eq b.deviation_factor u.deviation_factor;
  thusd_in_stability_pool =
      update_if_changed eq b.thusd_in_stability_pool u.thusd_in_stability_pool;
  total = update_if_changed Trove.equals b.total u.total;
  total_redistributed = update_if_changed Trove.equals b.total_redistributed u.total_redistributed;
  trove_before_redistribution =
      update_if_changed pending_equals b.trove_before_redistribution u.trove_before_redistribution;
  symbol = b.symbol;
  collateral_address = b.collateral_address;
  stable_address = b.stable_address;
  mint_list = b.mint_list;
  stability_deposit = update_if_changed Stability.equals b.stability_deposit u.stability_deposit;
  bamm_deposit = update_if_changed Bamm.equals b.bamm_deposit u.bamm_deposit;
  fees_in_normal_mode = update_if_changed Fees.equals b.fees_in_normal_mode u.fees_in_normal_mode;
  riskiest_trove_before_redistribution =
      update_if_changed pending_equals b.riskiest_trove_before_redistribution
        u.riskiest_trove_before_redistribution;
}

-- `LiquityStoreDerivedState`.
pub record DerivedState : Type 0 where
  pub trove : UserTrove
  pub fees : Fees
  pub borrowing_rate : Decimal
  pub redemption_rate : Decimal
  pub have_undercollateralized_troves : Bool

unfoldable pub derive : BaseState → Result DerivedState
derive b = do
  fees ← set_recovery_mode b.fees_in_normal_mode (is_below_critical b.total b.price)
  borrowing ← borrowing_rate fees none
  redemption ← redemption_rate fees 0 none
  ok (record {
    trove = apply_redistribution b.trove_before_redistribution b.total_redistributed;
    fees = fees;
    borrowing_rate = borrowing;
    redemption_rate = redemption;
    have_undercollateralized_troves =
        is_below_minimum
          (apply_redistribution b.riskiest_trove_before_redistribution b.total_redistributed).base
          b.price;
  })

unfoldable pub reduce_derived : DerivedState → DerivedState → DerivedState
unfolding update_fees update_if_changed
reduce_derived d u = record {
  fees = update_fees d.fees u.fees;
  trove = update_if_changed user_equals d.trove (some u.trove);
  borrowing_rate = update_if_changed eq d.borrowing_rate (some u.borrowing_rate);
  redemption_rate = update_if_changed eq d.redemption_rate (some u.redemption_rate);
  have_undercollateralized_troves =
      update_if_changed same_bool d.have_undercollateralized_troves
        (some u.have_undercollateralized_troves);
}
