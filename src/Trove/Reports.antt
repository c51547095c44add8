-- ===== src/Trove/Reports.antt =====
-- Which change `whatChanged` reports, and when it and `apply` throw (packages/lib-base/src/Trove.ts).
use stability_protocol.Base.{
  ◌+◌, ◌-◌, ◌<◌, ◌≡◌, ◌≢◌, ◌↔◌, ◌⊎◌, true, false, Option, none, some, ok, err, Error, arith,
  net_debt_below_reserve, create_onto_existing, close_empty,
}
use stability_protocol.Decimal
use stability_protocol.Decimal.{Decimal, digits, one, mul, div_ceil, gt, eq, sub, is_zero}
use stability_protocol.Decimal.Rounding.{div_ceil_bounds}
use stability_protocol.Constants.{thusd_liquidation_reserve}
use stability_protocol.Trove.{Trove, is_empty, net_debt}
use stability_protocol.Trove.Change.{
  AdjustmentParams, TroveChange, invalid_creation, creation, closure, adjustment, unapply_fee,
  debt_change, collateral_change, creation_change, closure_change, adjustment_change, what_changed,
  apply_to, SetToZero, no_change,
}

-- `whatChanged` reports no change exactly for equal Troves.
pub what_changed-none_iff :
    (this that : Trove) (rate : Decimal) → (what_changed this that rate ≡ ok none) ↔ (this ≡ that)
unfolding what_changed creation_change closure_change net_debt sub
what_changed-none_iff this that rate = (λ h. ground arith, λ h. ground arith)

-- `whatChanged` throws exactly when a Trove is closed whose debt is below the liquidation reserve.
pub what_changed-err_iff :
    (this that : Trove) (rate : Decimal) (e : Error)
    → (what_changed this that rate ≡ err e) ↔ (
        (e ≡ net_debt_below_reserve)
        × (is_empty this ≡ false)
        × (is_empty that ≡ true)
        × (this.debt < thusd_liquidation_reserve))
unfolding what_changed creation_change closure_change net_debt sub
what_changed-err_iff this that rate e = (λ h. ground arith, λ h. ground arith)

-- A change is refused exactly when it creates a Trove onto one that is not empty, or closes an empty
-- one.
abbrev pub Refused : Trove → TroveChange → Error → Type 0
Refused t (invalid_creation _ _) e = (is_empty t ≡ false) × (e ≡ create_onto_existing)
Refused t (creation _) e = (is_empty t ≡ false) × (e ≡ create_onto_existing)
Refused t (closure _) e = (is_empty t ≡ true) × (e ≡ close_empty)
Refused t (adjustment _ _) e = ⊥

pub apply_to-err_iff :
    (t : Trove) (c : TroveChange) (rate : Decimal) (e : Error)
    → (apply_to t c rate ≡ err e) ↔ Refused t c e
unfolding apply_to
apply_to-err_iff t (invalid_creation _ _) rate e = (λ h. ground arith, λ h. ground arith)
apply_to-err_iff t (creation _) rate e = (λ h. ground arith, λ h. ground arith)
apply_to-err_iff t (closure _) rate e = (λ h. ground arith, λ h. ground arith)
apply_to-err_iff t (adjustment _ _) rate e = (λ h. ground arith, λ h. ground arith)

-- What the types of the source demand of an adjustment: not both directions of one kind, some amount,
-- and no amount of zero.
abbrev pub IsPositive : Option Decimal → Type 0
IsPositive none = Unit
IsPositive (some a) = 0 < a

pub record IsWellFormed (p : AdjustmentParams) : Type 0 where
  pub one_collateral : (p.deposit_collateral ≡ none) ⊎ (p.withdraw_collateral ≡ none)
  pub one_debt : (p.borrow_thusd ≡ none) ⊎ (p.repay_thusd ≡ none)
  pub deposit_pos : IsPositive p.deposit_collateral
  pub withdraw_pos : IsPositive p.withdraw_collateral
  pub borrow_pos : IsPositive p.borrow_thusd
  pub repay_pos : IsPositive p.repay_thusd
  pub some_amount : p ≢ no_change

unapply_fee_pos : (rate d : Decimal) → 0 < d → 0 < unapply_fee rate d
unfolding unapply_fee Decimal.add
unapply_fee_pos rate d h = grind (arith, div_ceil_bounds d (one + rate))

-- Every adjustment that `whatChanged` reports is well formed.
pub what_changed-IsWellFormed :
    (this that : Trove) (rate : Decimal) {p : AdjustmentParams} {z : Option SetToZero}
    → what_changed this that rate ≡ ok (some (adjustment p z))
    → IsWellFormed p
unfolding what_changed creation_change closure_change net_debt sub adjustment_change debt_change
    collateral_change
what_changed-IsWellFormed this that rate h =
    ground (arith, unapply_fee_pos rate (that.debt - this.debt))
