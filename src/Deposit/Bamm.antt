-- ===== src/Deposit/Bamm.antt =====
-- `class BammDeposit` (packages/lib-base/src/BammDeposit.ts). The two totals are compared by `===`, which
-- compares objects: such a field is an object's identity beside its value.
use stability_protocol.Base.{
  ℕ, ◌-◌, ◌<◌, ◌≡◌, ◌≢◌, ◌↔◌, Bool, ◌&&◌, ◌||◌, Option, none, some, Result, ok, err, if◌then◌else◌,
  arith, false, ◌==◌, negative_decimal,
}
use stability_protocol.Decimal.{Decimal, add, sub, lt, gt, lte, eq, is_zero}
use stability_protocol.Deposit.Stability.{DepositChange, deposit, withdraw}

pub record DecimalObject : Type 0 where
  pub identity : ℕ
  pub value : Decimal

abbrev pub same_object : DecimalObject → DecimalObject → Bool
same_object a b = a.identity == b.identity

pub record BammDeposit : Type 0 where
  pub bamm_pool_share : Decimal
  pub pool_share : Decimal
  pub initial_thusd : Decimal
  pub current_usd : Decimal
  pub current_thusd : Decimal
  pub collateral_gain : Decimal
  pub total_collateral_in_bamm : DecimalObject
  pub total_thusd_in_bamm : DecimalObject

abbrev pub is_empty : BammDeposit → Bool
is_empty d = is_zero d.initial_thusd && is_zero d.current_thusd && is_zero d.collateral_gain

abbrev pub equals : BammDeposit → BammDeposit → Bool
equals a b =
    eq a.bamm_pool_share b.bamm_pool_share
    && eq a.pool_share b.pool_share
    && eq a.current_usd b.current_usd
    && eq a.initial_thusd b.initial_thusd
    && eq a.current_thusd b.current_thusd
    && eq a.collateral_gain b.collateral_gain
    && same_object a.total_collateral_in_bamm b.total_collateral_in_bamm
    && same_object a.total_thusd_in_bamm b.total_thusd_in_bamm

unfoldable pub what_changed : BammDeposit → Decimal → Option DepositChange
what_changed d that =
    if lt that d.current_thusd
    then some (withdraw (d.current_thusd - that) (is_zero that))
    else if gt that d.current_thusd
    then some (deposit (that - d.current_thusd))
    else none

unfoldable pub apply : BammDeposit → Option DepositChange → Result Decimal
unfolding sub add
apply d none = ok d.current_usd
apply d (some (withdraw amount all)) =
    if all || lte d.current_usd amount then ok 0 else sub d.current_thusd amount
apply d (some (deposit amount)) = ok (add d.current_thusd amount)

-- Applying the change that `whatChanged` describes gives the wanted amount exactly in these cases: it is
-- above the current thUSD, or zero and below it, or equal to it and to the current USD, or below it with a USD
-- amount above the difference.
pub apply-what_changed_iff :
    (d : BammDeposit) (that : Decimal)
    → (apply d (what_changed d that) ≡ ok that) ↔ (
        (that ≡ d.current_thusd → d.current_usd ≡ that)
        × (that < d.current_thusd → 0 < that → d.current_thusd - that < d.current_usd))
unfolding apply what_changed
apply-what_changed_iff d that = (λ h. ground arith, λ h. ground arith)

-- Outside no change and a withdrawal of all, `apply` throws exactly on a withdrawal of more thUSD than there is
-- and less than the current USD.
pub apply-err_iff :
    (d : BammDeposit) (amount : Decimal)
    → (apply d (some (withdraw amount false)) ≡ err negative_decimal)
      ↔ ((d.current_thusd < amount) × (amount < d.current_usd))
unfolding apply
apply-err_iff d amount = (λ h. ground arith, λ h. ground arith)

-- Two deposits are never `equals` if a total is not the same object, whatever the values.
pub equals_of_fresh :
    (a b : BammDeposit)
    → a.total_thusd_in_bamm.identity ≢ b.total_thusd_in_bamm.identity
    → equals a b ≡ false
equals_of_fresh a b h = ground arith
