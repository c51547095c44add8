-- ===== src/Trove.antt =====
-- `class Trove` without its changes (packages/lib-base/src/Trove.ts). Where the source tests that a
-- difference is not negative before it calls `Decimal.sub`, the model subtracts at once.
pub mod Change
pub mod Ratio
pub mod RoundTrip
pub mod Params
pub mod User
pub mod Redistribution
pub mod Reports
mod Tests
use stability_protocol.Base.{
  ◌-◌, ◌*◌, Bool, not, ◌&&◌, Result, ok, err, net_debt_below_reserve, if◌then◌else◌,
}
use stability_protocol.Decimal
use stability_protocol.Decimal.{Decimal, digits, mul, mul_div, sub, lt, eq, gt, gte, is_zero}
use stability_protocol.Constants.{
  minimum_collateral_ratio, critical_collateral_ratio, thusd_liquidation_reserve,
}

pub record Trove : Type 0 where
  pub collateral : Decimal
  pub debt : Decimal

-- `new Trove(collateral, debt)`.
abbrev pub trove : Decimal → Decimal → Trove
trove c d = record { collateral = c; debt = d }

abbrev pub empty_trove : Trove
empty_trove = trove 0 0

abbrev pub is_empty : Trove → Bool
is_empty t = is_zero t.collateral && is_zero t.debt

unfoldable pub net_debt : Trove → Result Decimal
unfolding sub
net_debt t =
    if lt t.debt thusd_liquidation_reserve
    then err net_debt_below_reserve
    else sub t.debt thusd_liquidation_reserve

abbrev pub nominal_collateral_ratio_precision : Decimal
nominal_collateral_ratio_precision = 100 * digits

unfoldable pub nominal_collateral_ratio : Trove → Decimal
nominal_collateral_ratio t = mul_div t.collateral nominal_collateral_ratio_precision t.debt

unfoldable pub collateral_ratio : Trove → Decimal → Decimal
collateral_ratio t price = mul_div t.collateral price t.debt

unfoldable pub is_below_minimum : Trove → Decimal → Bool
is_below_minimum t price = lt (collateral_ratio t price) minimum_collateral_ratio

unfoldable pub is_below_critical : Trove → Decimal → Bool
is_below_critical t price = lt (collateral_ratio t price) critical_collateral_ratio

unfoldable pub is_openable_in_recovery_mode : Trove → Decimal → Bool
is_openable_in_recovery_mode t price = gte (collateral_ratio t price) critical_collateral_ratio

abbrev pub equals : Trove → Trove → Bool
equals a b = eq a.collateral b.collateral && eq a.debt b.debt

unfoldable pub add : Trove → Trove → Trove
unfolding Decimal.add
add a b = trove (Decimal.add a.collateral b.collateral) (Decimal.add a.debt b.debt)

unfoldable pub add_collateral : Trove → Decimal → Trove
unfolding Decimal.add
add_collateral t c = trove (Decimal.add t.collateral c) t.debt

unfoldable pub add_debt : Trove → Decimal → Trove
unfolding Decimal.add
add_debt t d = trove t.collateral (Decimal.add t.debt d)

-- `a.gt(b) ? a.sub(b) : Decimal.ZERO`.
abbrev pub sub_or_zero : Decimal → Decimal → Decimal
sub_or_zero a b = if gt a b then a - b else 0

unfoldable pub subtract : Trove → Trove → Trove
subtract a b = trove (sub_or_zero a.collateral b.collateral) (sub_or_zero a.debt b.debt)

unfoldable pub subtract_collateral : Trove → Decimal → Trove
subtract_collateral t c = trove (sub_or_zero t.collateral c) t.debt

unfoldable pub subtract_debt : Trove → Decimal → Trove
subtract_debt t d = trove t.collateral (sub_or_zero t.debt d)

unfoldable pub multiply : Trove → Decimal → Trove
multiply t m = trove (mul t.collateral m) (mul t.debt m)

unfoldable pub set_collateral : Trove → Decimal → Trove
set_collateral t c = trove c t.debt

unfoldable pub set_debt : Trove → Decimal → Trove
set_debt t d = trove t.collateral d
