-- ===== src/Subgraph/Entities.antt =====
-- The entities of the subgraph (packages/subgraph/schema.graphql). An address, a transaction hash and a
-- sequence number stand for the identifier that their text is; a 32-bit number is its residue modulo 2 ^ 32; a
-- `BigInt` is an integer, and a `BigDecimal` the integer number of its units of 10 ^ -18.
use stability_protocol.Base.{ℕ, Bool, Option, List}
use stability_protocol.Base.Int.{ℤ}

pub record Global : Type 0 where
  pub system_state_count : ℕ
  pub transaction_count : ℕ
  pub change_count : ℕ
  pub liquidation_count : ℕ
  pub redemption_count : ℕ
  pub number_of_open_troves : ℕ
  pub number_of_liquidated_troves : ℕ
  pub number_of_redeemed_troves : ℕ
  pub number_of_troves_closed_by_owner : ℕ
  pub total_number_of_troves : ℕ
  pub total_borrowing_fees_paid : ℤ
  pub total_redemption_fees_paid : ℤ
  pub raw_total_redistributed_collateral : ℤ
  pub raw_total_redistributed_debt : ℤ
  pub current_system_state : Option ℕ
  pub current_liquidation : Option ℕ
  pub current_redemption : Option ℕ
  pub tmp_deposit_update : Option ℤ

pub record SystemState : Type 0 where
  pub sequence_number : ℕ
  pub price : Option ℤ
  pub total_collateral : ℤ
  pub total_debt : ℤ
  pub total_collateral_ratio : Option ℤ
  pub tokens_in_stability_pool : ℤ
  pub coll_surplus_pool_balance : ℤ

pub record UserEntity : Type 0 where
  pub id : ℕ
  pub trove : Option ℕ
  pub stability_deposit : Option ℕ
  pub coll_surplus : ℤ

pub data TroveStatus : Type 0 where
  opened closed_by_owner closed_by_liquidation closed_by_redemption : TroveStatus

-- The raw amounts of a new Trove are not set yet.
pub record TroveEntity : Type 0 where
  pub id : ℕ
  pub owner : ℕ
  pub status : TroveStatus
  pub collateral : ℤ
  pub debt : ℤ
  pub raw_collateral : Option ℤ
  pub raw_debt : Option ℤ
  pub raw_stake : Option ℤ
  pub raw_snapshot_of_total_redistributed_collateral : Option ℤ
  pub raw_snapshot_of_total_redistributed_debt : Option ℤ
  pub collateral_ratio_sort_key : Option ℤ

pub record DepositEntity : Type 0 where
  pub id : ℕ
  pub owner : ℕ
  pub deposited_amount : ℤ

pub record TransactionEntity : Type 0 where
  pub id : ℕ
  pub sequence_number : ℕ
  pub block_number : ℕ
  pub timestamp : ℕ

-- What the interface `Change` has: the state after is set when the change is finished.
pub record ChangeEntity : Type 0 where
  pub sequence_number : ℕ
  pub transaction : ℕ
  pub system_state_before : ℕ
  pub system_state_after : Option ℕ

-- `unreached` is the text that no operation of a contract gives.
pub data TroveOperation : Type 0 where
  open_trove close_trove adjust_trove : TroveOperation
  accrue_rewards liquidate_in_normal_mode liquidate_in_recovery_mode : TroveOperation
  redeem_collateral unreached : TroveOperation

pub record TroveChangeEntity : Type 0 where
  pub change : ChangeEntity
  pub trove : ℕ
  pub operation : TroveOperation
  pub collateral_before : ℤ
  pub collateral_change : ℤ
  pub collateral_after : ℤ
  pub debt_before : ℤ
  pub debt_change : ℤ
  pub debt_after : ℤ
  pub borrowing_fee : Option ℤ
  pub collateral_ratio_before : Option ℤ
  pub collateral_ratio_after : Option ℤ
  pub liquidation : Option ℕ
  pub redemption : Option ℕ

pub data DepositOperation : Type 0 where
  deposit_tokens withdraw_tokens withdraw_collateral_gain : DepositOperation

pub record DepositChangeEntity : Type 0 where
  pub change : ChangeEntity
  pub stability_deposit : ℕ
  pub operation : DepositOperation
  pub deposited_amount_before : ℤ
  pub deposited_amount_change : ℤ
  pub deposited_amount_after : ℤ
  pub collateral_gain : Option ℤ

pub record PriceChangeEntity : Type 0 where
  pub change : ChangeEntity
  pub price_change : ℤ

pub record SurplusChangeEntity : Type 0 where
  pub change : ChangeEntity
  pub user : ℕ
  pub coll_surplus_before : ℤ
  pub coll_surplus_change : ℤ
  pub coll_surplus_after : ℤ

pub record LiquidationEntity : Type 0 where
  pub sequence_number : ℕ
  pub transaction : ℕ
  pub liquidator : ℕ
  pub liquidated_debt : ℤ
  pub liquidated_collateral : ℤ
  pub coll_gas_compensation : ℤ
  pub token_gas_compensation : ℤ

pub record RedemptionEntity : Type 0 where
  pub sequence_number : ℕ
  pub transaction : ℕ
  pub redeemer : ℕ
  pub tokens_attempted_to_redeem : ℤ
  pub tokens_actually_redeemed : ℤ
  pub collateral_redeemed : ℤ
  pub partial : Bool
  pub fee : ℤ

pub record TokenEntity : Type 0 where
  pub id : ℕ
  pub name : List ℕ
  pub symbol : List ℕ
  pub total_supply : ℤ

pub record TokenBalance : Type 0 where
  pub token : ℕ
  pub owner : ℕ
  pub balance : ℤ

pub record TokenAllowance : Type 0 where
  pub token : ℕ
  pub owner : ℕ
  pub spender : ℕ
  pub value : ℤ
