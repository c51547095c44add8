-- ===== src/Validation/Vault.antt =====
-- packages/dev-frontend/src/components/Vault/validation/validateVaultChange.tsx.
pub mod Allowed
pub mod Accepted
use Prim.Native.String.{String}
use stability_protocol.Base.{
  ℕ, ◌-◌, Bool, true, false, not, Option, none, some, Result, ok, err, ◌>>=◌, type_error, ◌==◌,
  if◌then◌else◌,
}
use stability_protocol.Decimal.{Decimal, lt, gt}
use stability_protocol.Constants.{thusd_minimum_debt, thusd_minimum_net_debt}
use stability_protocol.Trove
use stability_protocol.Trove.{
  Trove, subtract, collateral_ratio, is_below_minimum, is_below_critical,
  is_openable_in_recovery_mode,
}
use stability_protocol.Trove.Change.{
  CreationParams, ClosureParams, AdjustmentParams, TroveChange, invalid_creation, creation, closure,
  adjustment, what_changed, apply,
}

-- The sentences of `VaultChangeDescription`.
pub data Sentence : Type 0 where
  deposit_and_receive pay_and_receive deposit_and_pay receive_both : Decimal → Decimal → Sentence
  deposit_only receive_collateral receive_thusd pay_only : Decimal → Sentence

-- The texts of the `ErrorDescription`s, in the order of the source.
pub data Problem : Type 0 where
  total_debt_below_minimum borrows_too_little ratio_below_critical_to_open : Problem
  ratio_below_minimum opening_triggers_recovery : Problem
  deposit_exceeds_balance_by : Decimal → Problem
  withdraws_in_recovery ratio_below_critical_to_borrow ratio_decreases : Problem
  adjustment_triggers_recovery : Problem
  repayment_exceeds_balance_by : Decimal → Problem
  last_vault closes_in_recovery : Problem
  needs_more : Decimal → Problem
  closing_triggers_recovery : Problem

pub data Description : Type 0 where
  problem : Problem → Description
  change_description : Sentence → String → Description

pub record SelectedState : Type 0 where
  pub price : Decimal
  pub total : Trove
  pub erc20_token_balance : Decimal
  pub thusd_balance : Decimal
  pub number_of_troves : ℕ
  pub symbol : String

pub record Context : Type 0 where
  pub selected : SelectedState
  pub open selected use *
  pub original_vault : Trove
  pub resulting_vault : Trove
  pub recovery_mode : Bool
  pub would_trigger_recovery_mode : Bool

-- The parameters of any change, with `none` for a property that its type does not have.
abbrev pub params_of : TroveChange → AdjustmentParams
params_of (invalid_creation _ _) = record {
  deposit_collateral = none;
  withdraw_collateral = none;
  borrow_thusd = none;
  repay_thusd = none;
}
params_of (creation p) = record {
  deposit_collateral = some p.deposit_collateral;
  withdraw_collateral = none;
  borrow_thusd = some p.borrow_thusd;
  repay_thusd = none;
}
params_of (closure p) = record {
  deposit_collateral = none;
  withdraw_collateral = some p.withdraw_collateral;
  borrow_thusd = none;
  repay_thusd = p.repay_thusd;
}
params_of (adjustment p z) = p

-- The ladder of `VaultChangeDescription`, on the deposit, the withdrawal, the borrowing and the
-- repayment; the last branch reads the repayment unasked.
unfoldable pub sentence :
    Option Decimal → Option Decimal → Option Decimal → Option Decimal → Result Sentence
sentence (some d) w (some b) r = ok (deposit_and_receive d b)
sentence (some d) (some w) none (some r) = ok (pay_and_receive r w)
sentence none (some w) b (some r) = ok (pay_and_receive r w)
sentence (some d) none none (some r) = ok (deposit_and_pay d r)
sentence none (some w) (some b) none = ok (receive_both w b)
sentence (some d) w none none = ok (deposit_only d)
sentence none (some w) none none = ok (receive_collateral w)
sentence none none (some b) r = ok (receive_thusd b)
sentence none none none (some r) = ok (pay_only r)
sentence none none none none = err type_error

unfoldable pub describe : AdjustmentParams → Result Sentence
unfolding sentence
describe p = sentence p.deposit_collateral p.withdraw_collateral p.borrow_thusd p.repay_thusd

unfoldable pub validate_vault_creation : CreationParams → Context → Option Problem
validate_vault_creation p c =
    let deposit_problem =
      if gt p.deposit_collateral c.erc20_token_balance
      then some (deposit_exceeds_balance_by (p.deposit_collateral - c.erc20_token_balance))
      else none in
    if lt p.borrow_thusd thusd_minimum_net_debt
    then some borrows_too_little
    else if c.recovery_mode
    then (if not (is_openable_in_recovery_mode c.resulting_vault c.price)
        then some ratio_below_critical_to_open
        else deposit_problem)
    else if is_below_minimum c.resulting_vault c.price
    then some ratio_below_minimum
    else if c.would_trigger_recovery_mode
    then some opening_triggers_recovery
    else deposit_problem

-- The test on the collateral that is deposited, which comes last.
unfoldable pub deposit_problem : Option Decimal → Context → Option Problem
deposit_problem none c = none
deposit_problem (some d) c =
    if gt d c.erc20_token_balance
    then some (deposit_exceeds_balance_by (d - c.erc20_token_balance))
    else none

-- The tests on a repayment, and after them the one on a deposit.
unfoldable pub repayment_problem : Option Decimal → Option Decimal → Context → Option Problem
unfolding deposit_problem
repayment_problem none d c = deposit_problem d c
repayment_problem (some r) d c =
    if lt c.resulting_vault.debt thusd_minimum_debt
    then some total_debt_below_minimum
    else if gt r c.thusd_balance
    then some (repayment_exceeds_balance_by (r - c.thusd_balance))
    else deposit_problem d c

-- The tests of recovery mode on a withdrawal and on a borrowing, and after them `next`.
unfoldable pub recovery_problem :
    Option Decimal → Option Decimal → Context → Option Problem → Option Problem
recovery_problem (some w) b c next = some withdraws_in_recovery
recovery_problem none none c next = next
recovery_problem none (some b) c next =
    if is_below_critical c.resulting_vault c.price
    then some ratio_below_critical_to_borrow
    else if lt (collateral_ratio c.resulting_vault c.price)
        (collateral_ratio c.original_vault c.price)
    then some ratio_decreases
    else next

unfoldable pub validate_vault_adjustment : AdjustmentParams → Context → Option Problem
unfolding repayment_problem recovery_problem
validate_vault_adjustment p c =
    let next = repayment_problem p.repay_thusd p.deposit_collateral c in
    if c.recovery_mode
    then recovery_problem p.withdraw_collateral p.borrow_thusd c next
    else if is_below_minimum c.resulting_vault c.price
    then some ratio_below_minimum
    else if c.would_trigger_recovery_mode
    then some adjustment_triggers_recovery
    else next

-- `repayTHUSD?.gt(thusdBalance)`.
abbrev pub exceeds : Option Decimal → Decimal → Bool
exceeds none balance = false
exceeds (some r) balance = gt r balance

abbrev pub shortage : Option Decimal → Decimal → Decimal
shortage none balance = 0
shortage (some r) balance = r - balance

unfoldable pub validate_vault_closure : ClosureParams → Context → Option Problem
validate_vault_closure p c =
    if c.number_of_troves == 1
    then some last_vault
    else if c.recovery_mode
    then some closes_in_recovery
    else if exceeds p.repay_thusd c.thusd_balance
    then some (needs_more (shortage p.repay_thusd c.thusd_balance))
    else if c.would_trigger_recovery_mode
    then some closing_triggers_recovery
    else none

-- `total.subtract(originalVault).add(resultingVault)`.
abbrev pub total_after : Trove → Trove → Trove → Trove
total_after total original resulting = Trove.add (subtract total original) resulting

unfoldable pub context : SelectedState → Trove → Trove → Context
context s original resulting = record {
  selected = s;
  original_vault = original;
  resulting_vault = resulting;
  recovery_mode = is_below_critical s.total s.price;
  would_trigger_recovery_mode = is_below_critical (total_after s.total original resulting) s.price;
}

unfoldable pub problem_of : TroveChange → Context → Option Problem
problem_of (invalid_creation _ _) c = some total_debt_below_minimum
problem_of (creation p) c = validate_vault_creation p c
problem_of (closure p) c = validate_vault_closure p c
problem_of (adjustment p z) c = validate_vault_adjustment p c

-- The valid change and the description.
abbrev pub Verdict : Type 0
Verdict = Option TroveChange × Option Description

unfoldable pub verdict : TroveChange → String → Option Problem → Result Verdict
verdict change symbol (some p) = ok (none, some (problem p))
verdict change symbol none = do
  s ← describe (params_of change)
  ok (some change, some (change_description s symbol))

unfoldable pub verdict_of : Option TroveChange → Trove → Decimal → SelectedState → Result Verdict
verdict_of none original rate s = ok (none, none)
verdict_of (some change) original rate s = do
  resulting ← apply original (some change) rate
  verdict change s.symbol (problem_of change (context s original resulting))

unfoldable pub validate_vault_change : Trove → Trove → Decimal → SelectedState → Result Verdict
validate_vault_change original adjusted rate s = do
  change ← what_changed original adjusted rate
  verdict_of change original rate s
