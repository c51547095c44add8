-- ===== src/Validation/Vault/Allowed.antt =====
-- Which changes the front end lets through
-- (packages/dev-frontend/src/components/Vault/validation/validateVaultChange.tsx), written as
-- inequalities between amounts.
use stability_protocol.Base.{◌≤◌, ◌≡◌, ◌≢◌, ◌↔◌, true, false, Option, none, some, arith}
use stability_protocol.Decimal.{Decimal}
use stability_protocol.Constants.{
  thusd_minimum_debt, thusd_minimum_net_debt, critical_collateral_ratio, minimum_collateral_ratio,
}
use stability_protocol.Trove.{collateral_ratio}
use stability_protocol.Trove.Ratio.{
  Covers, not_below_critical_iff, not_below_minimum_iff, is_openable_iff,
}
use stability_protocol.Trove.Change.{CreationParams, ClosureParams, AdjustmentParams}
use stability_protocol.Validation.Vault.{
  Context, Problem, validate_vault_creation, validate_vault_adjustment, validate_vault_closure,
  repayment_problem, recovery_problem,
}

-- An amount that is given is at most the balance.
abbrev pub AtMost : Option Decimal → Decimal → Type 0
AtMost none balance = Unit
AtMost (some a) balance = a ≤ balance

-- Outside recovery mode: the vault and the whole system stay covered.
abbrev pub StaysCovered : Context → Type 0
StaysCovered c =
    Covers c.resulting_vault c.price minimum_collateral_ratio
    × (c.would_trigger_recovery_mode ≡ false)

pub record CreationAllowed (p : CreationParams) (c : Context) : Type 0 where
  pub borrows_enough : thusd_minimum_net_debt ≤ p.borrow_thusd
  pub in_recovery :
      c.recovery_mode ≡ true → Covers c.resulting_vault c.price critical_collateral_ratio
  pub in_normal : c.recovery_mode ≡ false → StaysCovered c
  pub in_balance : p.deposit_collateral ≤ c.erc20_token_balance

-- A vault can be created exactly if the borrowed amount reaches the minimum net debt, the deposit is at
-- hand, and the vault is covered: at the critical ratio in recovery mode, and otherwise at the minimum
-- ratio without pushing the system into recovery mode.
pub validate_vault_creation_iff :
    (p : CreationParams) (c : Context) → (validate_vault_creation p c ≡ none) ↔ CreationAllowed p c
unfolding validate_vault_creation
validate_vault_creation_iff p c =
    let (openable, _) = is_openable_iff c.resulting_vault c.price in
    let (critical_0, critical_1) = not_below_critical_iff c.resulting_vault c.price in
    let (minimum_0, minimum_1) = not_below_minimum_iff c.resulting_vault c.price in
    (λ h. ground arith, λ h. ground arith)

pub record AdjustmentAllowed (p : AdjustmentParams) (c : Context) : Type 0 where
  pub no_withdrawal : c.recovery_mode ≡ true → p.withdraw_collateral ≡ none
  pub borrowing :
      c.recovery_mode ≡ true
      → p.borrow_thusd ≢ none
      → Covers c.resulting_vault c.price critical_collateral_ratio
        × (collateral_ratio c.original_vault c.price ≤ collateral_ratio c.resulting_vault c.price)
  pub in_normal : c.recovery_mode ≡ false → StaysCovered c
  pub enough_debt : p.repay_thusd ≢ none → thusd_minimum_debt ≤ c.resulting_vault.debt
  pub repayment : AtMost p.repay_thusd c.thusd_balance
  pub in_balance : AtMost p.deposit_collateral c.erc20_token_balance

repayment_problem_iff :
    (r d : Option Decimal) (c : Context)
    → (repayment_problem r d c ≡ none) ↔ (
        (r ≢ none → thusd_minimum_debt ≤ c.resulting_vault.debt)
        × AtMost r c.thusd_balance
        × AtMost d c.erc20_token_balance)
unfolding repayment_problem
repayment_problem_iff none none c = (λ h. ground arith, λ h. ground arith)
repayment_problem_iff none (some d) c = (λ h. ground arith, λ h. ground arith)
repayment_problem_iff (some r) none c = (λ h. ground arith, λ h. ground arith)
repayment_problem_iff (some r) (some d) c = (λ h. ground arith, λ h. ground arith)

recovery_problem_iff :
    (w b : Option Decimal) (c : Context) (next : Option Problem)
    → (recovery_problem w b c next ≡ none) ↔ (
        (w ≡ none)
        × (b ≢ none
            → Covers c.resulting_vault c.price critical_collateral_ratio
              × (collateral_ratio c.original_vault c.price
                  ≤ collateral_ratio c.resulting_vault c.price))
        × (next ≡ none))
unfolding recovery_problem
recovery_problem_iff (some w) b c next = (λ h. ground arith, λ h. ground arith)
recovery_problem_iff none none c next = (λ h. ground arith, λ h. ground arith)
recovery_problem_iff none (some b) c next =
    let (critical_0, critical_1) = not_below_critical_iff c.resulting_vault c.price in
    (λ h. ground arith, λ h. ground arith)

-- A vault can be adjusted exactly if, in recovery mode, no collateral is withdrawn and a borrowing leaves the
-- vault at the critical ratio and its ratio no lower; and otherwise the vault keeps the minimum ratio without
-- pushing the system into recovery mode; and in both, a repayment is at hand and leaves the minimum
-- debt, and a deposit is at hand.
pub validate_vault_adjustment_iff :
    (p : AdjustmentParams) (c : Context)
    → (validate_vault_adjustment p c ≡ none) ↔ AdjustmentAllowed p c
unfolding validate_vault_adjustment
validate_vault_adjustment_iff p c =
    let (minimum_0, minimum_1) = not_below_minimum_iff c.resulting_vault c.price in
    let next = repayment_problem p.repay_thusd p.deposit_collateral c in
    let (repay_0, repay_1) = repayment_problem_iff p.repay_thusd p.deposit_collateral c in
    let (recovery_0, recovery_1) =
      recovery_problem_iff p.withdraw_collateral p.borrow_thusd c next in
    (λ h. ground arith, λ h. ground arith)

pub record ClosureAllowed (p : ClosureParams) (c : Context) : Type 0 where
  pub not_last : c.number_of_troves ≢ 1
  pub in_normal : c.recovery_mode ≡ false
  pub repayment : AtMost p.repay_thusd c.thusd_balance
  pub no_recovery : c.would_trigger_recovery_mode ≡ false

-- A vault can be closed exactly if it is not the only one, the system is not in recovery mode nor would
-- be, and the repayment is at hand.
pub validate_vault_closure_iff :
    (p : ClosureParams) (c : Context) → (validate_vault_closure p c ≡ none) ↔ ClosureAllowed p c
unfolding validate_vault_closure
validate_vault_closure_iff p c = (λ h. ground arith, λ h. ground arith)
