-- ===== src/Validation/Tests.antt =====
-- A user's vault in a system at 2 times its debt, and a repayment of 500.
use stability_protocol.Base.{◌*◌, ◌^◌, ◌≡◌, ◌↔◌, refl, false, Option, some, none, ok, arith}
use stability_protocol.Decimal
use stability_protocol.Decimal.{Decimal, digits, mul_div}
use stability_protocol.Trove
use stability_protocol.Trove.{
  Trove, trove, subtract, collateral_ratio, is_below_minimum, is_below_critical,
}
use stability_protocol.Trove.Change.{
  CreationParams, AdjustmentParams, TroveChange, adjustment, what_changed, adjustment_change,
  collateral_change, debt_change, apply, apply_to, apply_adjustment,
}
use stability_protocol.Trove.RoundTrip.{Reaches}
use stability_protocol.Validation.Vault.{
  SelectedState, Context, Description, pay_only, change_description, context, problem_of, verdict,
  verdict_of, validate_vault_change, validate_vault_creation, validate_vault_adjustment,
  repayment_problem, recovery_problem, deposit_problem, describe, sentence,
}
use stability_protocol.Validation.Vault.Allowed.{
  CreationAllowed, AdjustmentAllowed, validate_vault_creation_iff, validate_vault_adjustment_iff,
}
use stability_protocol.Validation.Vault.Accepted.{
  IsAllowed, IsJudgedAt, validate_vault_change_accepts, validate_vault_change_complete,
}

abbrev rate : Decimal
rate = 5 * 10 ^ 15

abbrev selected : SelectedState
selected = record {
  price = 2000 * digits;
  total = trove (100 * digits) (100000 * digits);
  erc20_token_balance = 5 * digits;
  thusd_balance = 700 * digits;
  number_of_troves = 20;
  symbol = "ETH";
}

abbrev before : Trove
before = trove (3 * digits) (3000 * digits)

abbrev after : Trove
after = trove (3 * digits) (2500 * digits)

abbrev repayment : AdjustmentParams
repayment = record {
  deposit_collateral = none;
  withdraw_collateral = none;
  borrow_thusd = none;
  repay_thusd = some (500 * digits);
}

abbrev repay : TroveChange
repay = adjustment repayment none

reported : what_changed before after rate ≡ ok (some repay)
unfolding what_changed adjustment_change collateral_change debt_change
reported = refl

applied : apply before (some repay) rate ≡ ok after
unfolding apply apply_to apply_adjustment subtract Trove.add Decimal.add
applied = refl

abbrev description : Description
description = change_description (pay_only (500 * digits)) "ETH"

accepted : validate_vault_change before after rate selected ≡ ok (some repay, some description)
unfolding validate_vault_change verdict_of verdict describe sentence context problem_of
    validate_vault_adjustment repayment_problem recovery_problem deposit_problem is_below_minimum
    is_below_critical collateral_ratio mul_div what_changed adjustment_change collateral_change
    debt_change apply apply_to apply_adjustment subtract Trove.add Decimal.add
accepted = refl

validate_vault_change_accepts_example :
    (r : Trove) × (what_changed before after rate ≡ ok (some repay))
    × (apply before (some repay) rate ≡ ok r)
    × Reaches before after rate r
    × ((c : Context) × IsJudgedAt selected before r c × IsAllowed repay c)
validate_vault_change_accepts_example =
    validate_vault_change_accepts before after rate selected accepted

abbrev here : Context
here = record {
  selected = selected;
  original_vault = before;
  resulting_vault = after;
  recovery_mode = false;
  would_trigger_recovery_mode = false;
}

judged : IsJudgedAt selected before after here
judged = record {
  reads = refl;
  starts = refl;
  ends = refl;
  recovers = (λ h. cc, λ h. absurd (h (omega arith)));
  would_recover = (λ h. cc, λ h. absurd (h (omega arith)));
}

allowed : IsAllowed repay here
unfolding collateral_ratio mul_div
allowed = ground arith

validate_vault_change_complete_example :
    (d : Option Description) × (validate_vault_change before after rate selected
      ≡ ok (some repay, d))
validate_vault_change_complete_example =
    validate_vault_change_complete before after rate selected repay after here reported applied
      judged allowed

validate_vault_adjustment_iff_example :
    (validate_vault_adjustment repayment here ≡ none) ↔ AdjustmentAllowed repayment here
validate_vault_adjustment_iff_example = validate_vault_adjustment_iff repayment here

abbrev opening : CreationParams
opening = record { deposit_collateral = 3 * digits; borrow_thusd = 2500 * digits }

validate_vault_creation_iff_example :
    (validate_vault_creation opening here ≡ none) ↔ CreationAllowed opening here
validate_vault_creation_iff_example = validate_vault_creation_iff opening here
