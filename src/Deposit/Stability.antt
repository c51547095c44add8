-- ===== src/Deposit/Stability.antt =====
-- `class StabilityDeposit` (packages/lib-base/src/StabilityDeposit.ts).
use stability_protocol.Base.{
  ◌-◌, ◌≤◌, ◌<◌, ◌≡◌, ◌↔◌, Bool, ◌&&◌, ◌||◌, Option, none, some, Result, ok, ◌>>◌, throw_if,
  current_above_initial, if◌then◌else◌, arith, true,
}
use stability_protocol.Decimal.{Decimal, add, sub, lt, gt, lte, eq, is_zero}

pub record StabilityDeposit : Type 0 where
  pub initial_thusd : Decimal
  pub current_thusd : Decimal
  pub collateral_gain : Decimal

pub data DepositChange : Type 0 where
  deposit : Decimal → DepositChange
  withdraw : (amount : Decimal) (all : Bool) → DepositChange

-- The constructor's check.
unfoldable pub new_deposit : StabilityDeposit → Result StabilityDeposit
new_deposit d = do throw_if (gt d.current_thusd d.initial_thusd) current_above_initial; ok d

abbrev pub is_empty : StabilityDeposit → Bool
is_empty d = is_zero d.initial_thusd && is_zero d.current_thusd && is_zero d.collateral_gain

abbrev pub equals : StabilityDeposit → StabilityDeposit → Bool
equals a b =
    eq a.initial_thusd b.initial_thusd
    && eq a.current_thusd b.current_thusd
    && eq a.collateral_gain b.collateral_gain

-- Neither difference is negative where it is taken.
unfoldable pub what_changed : StabilityDeposit → Decimal → Option DepositChange
what_changed d that =
    if lt that d.current_thusd
    then some (withdraw (d.current_thusd - that) (is_zero that))
    else if gt that d.current_thusd
    then some (deposit (that - d.current_thusd))
    else none

unfoldable pub apply : StabilityDeposit → Option DepositChange → Result Decimal
unfolding sub add
apply d none = ok d.current_thusd
apply d (some (withdraw amount all)) =
    if all || lte d.current_thusd amount then ok 0 else sub d.current_thusd amount
apply d (some (deposit amount)) = ok (add d.current_thusd amount)

-- Applying the change to an amount that `whatChanged` describes gives that amount.
pub apply-what_changed_deposit :
    (d : StabilityDeposit) (that : Decimal) → apply d (what_changed d that) ≡ ok that
unfolding apply what_changed
apply-what_changed_deposit d that = ground arith

-- `apply` never throws, and a withdrawal leaves at most what was there.
pub apply_total :
    (d : StabilityDeposit) (c : Option DepositChange)
    → (r : Decimal) × (apply d c ≡ ok r)
      × ((amount : Decimal) (all : Bool) → c ≡ some (withdraw amount all) → r ≤ d.current_thusd)
unfolding apply
apply_total d none = (d.current_thusd, ground arith, λ amount all e. cc)
apply_total d (some (deposit a)) = (add d.current_thusd a, ground arith, λ amount all e. cc)
apply_total d (some (withdraw a all)) = (
  if all || lte d.current_thusd a then 0 else d.current_thusd - a,
  ground arith,
  λ amount _ e. ground arith,
)

-- No change is described exactly for the amount that is there, and a withdrawal of all exactly for
-- zero.
pub what_changed_iff :
    (d : StabilityDeposit) (that : Decimal)
    → ((what_changed d that ≡ none) ↔ (that ≡ d.current_thusd))
      × ((what_changed d that ≡ some (withdraw d.current_thusd true))
          ↔ ((that ≡ 0) × (0 < d.current_thusd)))
unfolding what_changed
what_changed_iff d that =
    ((λ h. ground arith, λ h. ground arith), (λ h. ground arith, λ h. ground arith))
