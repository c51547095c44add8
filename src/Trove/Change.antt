-- ===== src/Trove/Change.antt =====
-- The changes between two Troves: `whatChanged` and `apply` (packages/lib-base/src/Trove.ts). A missing
-- property of a parameter object is `none`.
use stability_protocol.Base.{
  ◌-◌, ◌&&◌, Option, none, some, Result, ok, ◌>>=◌, ◌>>◌, throw_if, not, create_onto_existing,
  close_empty, if◌then◌else◌,
}
use stability_protocol.Decimal
use stability_protocol.Decimal.{Decimal, one, mul, div_ceil, lt, eq, gt, is_zero}
use stability_protocol.Constants.{thusd_liquidation_reserve}
use stability_protocol.Trove.{
  Trove, trove, empty_trove, is_empty, net_debt, add, add_collateral, add_debt, subtract,
  subtract_collateral, subtract_debt, set_collateral, set_debt,
}

pub record CreationParams : Type 0 where
  pub deposit_collateral : Decimal
  pub borrow_thusd : Decimal

pub record ClosureParams : Type 0 where
  pub withdraw_collateral : Decimal
  pub repay_thusd : Option Decimal

pub record AdjustmentParams : Type 0 where
  pub deposit_collateral : Option Decimal
  pub withdraw_collateral : Option Decimal
  pub borrow_thusd : Option Decimal
  pub repay_thusd : Option Decimal

pub data CreationError : Type 0 where
  missing_liquidation_reserve : CreationError

pub data SetToZero : Type 0 where
  collateral debt : SetToZero

pub data TroveChange : Type 0 where
  invalid_creation : Trove → CreationError → TroveChange
  creation : CreationParams → TroveChange
  closure : ClosureParams → TroveChange
  adjustment : AdjustmentParams → Option SetToZero → TroveChange

unfoldable pub apply_fee : Decimal → Decimal → Decimal
apply_fee rate increase = mul increase (Decimal.add one rate)

unfoldable pub unapply_fee : Decimal → Decimal → Decimal
unapply_fee rate increase = div_ceil increase (Decimal.add one rate)

abbrev pub no_change : AdjustmentParams
no_change = record {
  deposit_collateral = none;
  withdraw_collateral = none;
  borrow_thusd = none;
  repay_thusd = none;
}

-- `{ ...params, ..._debtChange(that) }`; neither difference is negative where it is taken.
unfoldable pub debt_change : Trove → Trove → Decimal → AdjustmentParams → AdjustmentParams
debt_change this that rate params =
    if gt that.debt this.debt
    then record params { borrow_thusd = some (unapply_fee rate (that.debt - this.debt)) }
    else record params { repay_thusd = some (this.debt - that.debt) }

unfoldable pub collateral_change : Trove → Trove → AdjustmentParams → AdjustmentParams
collateral_change this that params =
    if gt that.collateral this.collateral
    then record params { deposit_collateral = some (that.collateral - this.collateral) }
    else record params { withdraw_collateral = some (this.collateral - that.collateral) }

-- `that.debt.zero && "debt"`, and the same of the collateral.
abbrev pub zero_debt : Trove → Option SetToZero
zero_debt that = if is_zero that.debt then some debt else none

abbrev pub zero_collateral : Trove → Option SetToZero
zero_collateral that = if is_zero that.collateral then some collateral else none

abbrev pub zero_debt_or_collateral : Trove → Option SetToZero
zero_debt_or_collateral that = if is_zero that.debt then some debt else zero_collateral that

unfoldable pub creation_change : Trove → Decimal → Result (Option TroveChange)
creation_change that rate =
    if lt that.debt thusd_liquidation_reserve
    then ok (some (invalid_creation that missing_liquidation_reserve))
    else (do
      net ← net_debt that
      ok (
          some (
            creation (record {
              deposit_collateral = that.collateral;
              borrow_thusd = unapply_fee rate net;
            }))))

unfoldable pub closure_change : Trove → Result (Option TroveChange)
closure_change this = do
  net ← net_debt this
  ok (
      some (
        closure
          (record { withdraw_collateral = this.collateral; repay_thusd = Decimal.non_zero net })))

unfoldable pub adjustment_change : Trove → Trove → Decimal → TroveChange
adjustment_change this that rate =
    if eq this.collateral that.collateral
    then adjustment (debt_change this that rate no_change) (zero_debt that)
    else if eq this.debt that.debt
    then adjustment (collateral_change this that no_change) (zero_collateral that)
    else adjustment (collateral_change this that (debt_change this that rate no_change))
        (zero_debt_or_collateral that)

unfoldable pub what_changed : Trove → Trove → Decimal → Result (Option TroveChange)
what_changed this that rate =
    if eq this.collateral that.collateral && eq this.debt that.debt
    then ok none
    else if is_empty this
    then creation_change that rate
    else if is_empty that
    then closure_change this
    else ok (some (adjustment_change this that rate))

-- `amount ?? Decimal.ZERO`.
abbrev pub or_zero : Option Decimal → Decimal
or_zero none = 0
or_zero (some a) = a

abbrev pub fee_or_zero : Decimal → Option Decimal → Decimal
fee_or_zero rate none = 0
fee_or_zero rate (some a) = apply_fee rate a

unfoldable pub apply_adjustment : Trove → AdjustmentParams → Decimal → Option SetToZero → Trove
apply_adjustment t p rate (some collateral) =
    subtract_debt (add_debt (set_collateral t 0) (fee_or_zero rate p.borrow_thusd))
      (or_zero p.repay_thusd)
apply_adjustment t p rate (some debt) =
    subtract_collateral (add_collateral (set_debt t 0) (or_zero p.deposit_collateral))
      (or_zero p.withdraw_collateral)
apply_adjustment t p rate none =
    subtract (add t (trove (or_zero p.deposit_collateral) (fee_or_zero rate p.borrow_thusd)))
      (trove (or_zero p.withdraw_collateral) (or_zero p.repay_thusd))

unfoldable pub apply_to : Trove → TroveChange → Decimal → Result Trove
apply_to t (invalid_creation invalid error) rate = do
  throw_if (not (is_empty t)) create_onto_existing
  ok invalid
apply_to t (creation params) rate = do
  throw_if (not (is_empty t)) create_onto_existing
  ok (
      trove params.deposit_collateral
        (Decimal.add thusd_liquidation_reserve (apply_fee rate params.borrow_thusd)))
apply_to t (closure params) rate = do throw_if (is_empty t) close_empty; ok empty_trove
apply_to t (adjustment params set_to_zero) rate = ok (apply_adjustment t params rate set_to_zero)

unfoldable pub apply : Trove → Option TroveChange → Decimal → Result Trove
apply t none rate = ok t
apply t (some change) rate = apply_to t change rate
