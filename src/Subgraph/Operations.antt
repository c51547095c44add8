-- ===== src/Subgraph/Operations.antt =====
-- The kinds of operation on a Trove, the numbers of the subgraph, and the collateral ratio
-- (packages/subgraph/src/types/TroveOperation.ts, utils/bignumbers.ts, utils/collateralRatio.ts).
use stability_protocol.Base.{ℕ, Bool, true, false, ◌==◌, if◌then◌else◌, Option, none, some, ◌^◌}
use stability_protocol.Base.Int.{ℤ, pos, ◌*ℤ◌, ◌/ℤ◌, eq_ℤ}
use stability_protocol.Subgraph.Entities.{
  TroveOperation, open_trove, close_trove, adjust_trove, accrue_rewards, liquidate_in_normal_mode,
  liquidate_in_recovery_mode, redeem_collateral, unreached,
}

abbrev pub trove_operation_from_borrower_operation : ℕ → TroveOperation
trove_operation_from_borrower_operation n =
    if n == 0
    then open_trove
    else if n == 1
    then close_trove
    else if n == 2
    then adjust_trove
    else unreached

abbrev pub trove_operation_from_trove_manager_operation : ℕ → TroveOperation
trove_operation_from_trove_manager_operation n =
    if n == 0
    then accrue_rewards
    else if n == 1
    then liquidate_in_normal_mode
    else if n == 2
    then liquidate_in_recovery_mode
    else if n == 3
    then redeem_collateral
    else unreached

abbrev pub is_borrower_operation : TroveOperation → Bool
is_borrower_operation open_trove = true
is_borrower_operation close_trove = true
is_borrower_operation adjust_trove = true
is_borrower_operation _ = false

abbrev pub is_liquidation : TroveOperation → Bool
is_liquidation liquidate_in_normal_mode = true
is_liquidation liquidate_in_recovery_mode = true
is_liquidation _ = false

abbrev pub is_recovery_mode_liquidation : TroveOperation → Bool
is_recovery_mode_liquidation liquidate_in_recovery_mode = true
is_recovery_mode_liquidation _ = false

abbrev pub is_redemption : TroveOperation → Bool
is_redemption redeem_collateral = true
is_redemption _ = false

-- One, in units of 10 ^ -18.
abbrev pub bigint_scaling_factor : ℤ
bigint_scaling_factor = pos (10 ^ 18)

-- `divDecimal(10 ^ 18)`: the same number of units.
abbrev pub decimalize : ℤ → ℤ
decimalize amount = amount

unfoldable pub calculate_collateral_ratio : ℤ → ℤ → ℤ → Option ℤ
calculate_collateral_ratio collateral debt price =
    if eq_ℤ debt (pos 0) then none else some (collateral *ℤ price /ℤ debt)
