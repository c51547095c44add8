-- ===== src/Validation/Stability.antt =====
-- packages/dev-frontend/src/components/Stability/validation/validateStabilityDepositChange.tsx.
use stability_protocol.Base.{◌<◌, ◌≡◌, ◌↔◌, Bool, false, Option, none, some, arith, if◌then◌else◌}
use stability_protocol.Decimal.{Decimal, is_zero}
use stability_protocol.Deposit.Stability.{
  StabilityDeposit, DepositChange, deposit, withdraw, what_changed,
}

pub data Description : Type 0 where
  needs_balance withdraws_while_undercollateralized : Description
  action : StabilityDeposit → DepositChange → Description

abbrev pub Verdict : Type 0
Verdict = Option DepositChange × Option Description

-- `thusdBalance == 0` compares the text of the balance with the number, which is true of zero alone.
unfoldable pub verdict_of : StabilityDeposit → Option DepositChange → Decimal → Bool → Verdict
verdict_of original none balance undercollateralized = (none, none)
verdict_of original (some (deposit amount)) balance undercollateralized =
    if is_zero balance
    then (none, some needs_balance)
    else (some (deposit amount), some (action original (deposit amount)))
verdict_of original (some (withdraw amount all)) balance undercollateralized =
    if undercollateralized
    then (none, some withdraws_while_undercollateralized)
    else (some (withdraw amount all), some (action original (withdraw amount all)))

unfoldable pub validate_stability_deposit_change :
    StabilityDeposit → Decimal → Decimal → Bool → Verdict
unfolding verdict_of
validate_stability_deposit_change original edited balance undercollateralized =
    verdict_of original (what_changed original edited) balance undercollateralized

-- A change is accepted exactly if the edited amount differs from the current one and, where it is higher, the
-- user has some thUSD, and, where it is lower, no vault is undercollateralized.
pub validate_stability_deposit_change_iff :
    (original : StabilityDeposit) (edited balance : Decimal) (undercollateralized : Bool)
    (c : DepositChange)
    → ((validate_stability_deposit_change original edited balance undercollateralized).0 ≡ some c)
      ↔ ((what_changed original edited ≡ some c)
          × (original.current_thusd < edited → 0 < balance)
          × (edited < original.current_thusd → undercollateralized ≡ false))
unfolding validate_stability_deposit_change what_changed
validate_stability_deposit_change_iff original edited balance undercollateralized c =
    (λ h. ground arith, λ h. ground arith)
