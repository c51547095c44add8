-- ===== src/Validation/Vault/Accepted.antt =====
-- The whole of `validateVaultChange`
-- (packages/dev-frontend/src/components/Vault/validation/validateVaultChange.tsx).
use Prim.Native.String.{String}
use stability_protocol.Base.{
  ◌+◌, ◌-◌, Bool, true, false, ◌≡◌, ◌≢◌, ◌↔◌, refl, ap, sym, subst, ◌∙◌, Option, none, some, ok,
  err, Error, arith, >>=-eq-ok, Result-cases, inl, inr,
}
use stability_protocol.Decimal
use stability_protocol.Decimal.{Decimal}
use stability_protocol.Constants.{critical_collateral_ratio}
use stability_protocol.Trove
use stability_protocol.Trove.{Trove, trove, subtract, is_below_critical}
use stability_protocol.Trove.Ratio.{Covers, is_below_critical_iff}
use stability_protocol.Trove.Change.{
  AdjustmentParams, TroveChange, CreationError, invalid_creation, creation, closure, adjustment,
  what_changed, apply, no_change,
}
use stability_protocol.Trove.Reports.{what_changed-IsWellFormed}
use stability_protocol.Trove.RoundTrip.{Reaches, apply-what_changed}
use stability_protocol.Validation.Vault.{
  SelectedState, Context, Problem, Sentence, Description, change_description, context, total_after,
  problem_of, verdict, verdict_of, validate_vault_change, describe, params_of,
}
use stability_protocol.Validation.Vault.Allowed.{
  CreationAllowed, AdjustmentAllowed, ClosureAllowed, validate_vault_creation_iff,
  validate_vault_adjustment_iff, validate_vault_closure_iff,
}

-- What the front end asks of a change, by its kind.
abbrev pub IsAllowed : TroveChange → Context → Type 0
IsAllowed (invalid_creation _ _) c = ⊥
IsAllowed (creation p) c = CreationAllowed p c
IsAllowed (closure p) c = ClosureAllowed p c
IsAllowed (adjustment p z) c = AdjustmentAllowed p c

-- The circumstances of a change that leads from a vault to another: the state that is read, with recovery mode where the
-- system does not cover 150% of its debt, and what it would be with the one vault in place of the other.
pub record IsJudgedAt (s : SelectedState) (original resulting : Trove) (c : Context) : Type 0 where
  pub reads : c.selected ≡ s
  pub starts : c.original_vault ≡ original
  pub ends : c.resulting_vault ≡ resulting
  pub recovers : (c.recovery_mode ≡ true) ↔ ¬ Covers s.total s.price critical_collateral_ratio
  pub would_recover :
      (c.would_trigger_recovery_mode ≡ true)
      ↔ ¬ Covers
          (trove
            (s.total.collateral - original.collateral + resulting.collateral)
            (s.total.debt - original.debt + resulting.debt))
          s.price
          critical_collateral_ratio

total_after-trove :
    (total original resulting : Trove)
    → total_after total original resulting
      ≡ trove
          (total.collateral - original.collateral + resulting.collateral)
          (total.debt - original.debt + resulting.debt)
unfolding subtract Trove.add Decimal.add
total_after-trove total original resulting = ground arith

context-IsJudgedAt :
    (s : SelectedState) (original resulting : Trove)
    → IsJudgedAt s original resulting (context s original resulting)
unfolding context
context-IsJudgedAt s original resulting = record {
  reads = refl;
  starts = refl;
  ends = refl;
  recovers = (is_below_critical_iff s.total s.price).0;
  would_recover =
      subst
        (λ t.
          (is_below_critical (total_after s.total original resulting) s.price ≡ true)
          ↔ ¬ Covers t s.price critical_collateral_ratio)
        (total_after-trove s.total original resulting)
        (is_below_critical_iff (total_after s.total original resulting) s.price).0;
}

same_test : {P : Type 0} (a b : Bool) → (a ≡ true) ↔ P → (b ≡ true) ↔ P → a ≡ b
same_test true true h k = refl
same_test true false h k = sym (k.1 (h.0 refl))
same_test false true h k = h.1 (k.0 refl)
same_test false false h k = refl

IsJudgedAt-context :
    (s : SelectedState) (original resulting : Trove) (c : Context)
    → IsJudgedAt s original resulting c
    → c ≡ context s original resulting
unfolding context
IsJudgedAt-context s original resulting c at =
    let here = context-IsJudgedAt s original resulting in
    λ i. record {
      selected = at.reads i;
      original_vault = at.starts i;
      resulting_vault = at.ends i;
      recovery_mode = same_test c.recovery_mode _ at.recovers here.recovers i;
      would_trigger_recovery_mode =
          same_test c.would_trigger_recovery_mode _ at.would_recover here.would_recover i;
    }

problem_of_iff :
    (change : TroveChange) (c : Context) → (problem_of change c ≡ none) ↔ IsAllowed change c
unfolding problem_of
problem_of_iff (invalid_creation _ _) c = (λ h. cc, λ h. absurd h)
problem_of_iff (creation p) c = validate_vault_creation_iff p c
problem_of_iff (closure p) c = validate_vault_closure_iff p c
problem_of_iff (adjustment p z) c = validate_vault_adjustment_iff p c

describe_fails : (p : AdjustmentParams) (e : Error) → describe p ≡ err e → p ≡ no_change
unfolding describe
describe_fails p e h = ground arith

describe_total : (p : AdjustmentParams) → p ≢ no_change → (s : Sentence) × (describe p ≡ ok s)
describe_total p h = elim (Result-cases (describe p)) [
  | inl found ↦ found
  | inr (e, fails) ↦ absurd (h (describe_fails p e fails))
]

-- A change that is reported, but for an invalid creation, has something to describe.
params_of_reported :
    (this that : Trove) (rate : Decimal) (change : TroveChange)
    → what_changed this that rate ≡ ok (some change)
    → ((t : Trove) (e : CreationError) → change ≢ invalid_creation t e)
    → params_of change ≢ no_change
params_of_reported this that rate (invalid_creation t e) h valid = absurd (valid t e refl)
params_of_reported this that rate (creation p) h valid =
    λ e. cc (ap (λ (q : AdjustmentParams). q.borrow_thusd) e)
params_of_reported this that rate (closure p) h valid =
    λ e. cc (ap (λ (q : AdjustmentParams). q.withdraw_collateral) e)
params_of_reported this that rate (adjustment p z) h valid =
    (what_changed-IsWellFormed this that rate h).some_amount

allowed_is_valid :
    (change : TroveChange) (c : Context)
    → IsAllowed change c
    → (t : Trove) (e : CreationError) → change ≢ invalid_creation t e
allowed_is_valid (invalid_creation t e) c h t' e' = absurd h
allowed_is_valid (creation p) c h t e = cc
allowed_is_valid (closure p) c h t e = cc
allowed_is_valid (adjustment p z) c h t e = cc

verdict_accepts :
    (change shown : TroveChange) (symbol : String) (p : Option Problem) (d : Option Description)
    → verdict change symbol p ≡ ok (some shown, d)
    → (p ≡ none) × (change ≡ shown)
unfolding verdict
verdict_accepts change shown symbol (some q) d h = ground arith
verdict_accepts change shown symbol none d h =
    let (s, _, e) = >>=-eq-ok (describe (params_of change)) _ h in ground arith

-- A verdict on a reported change that leads to `r`.
module _ (original r : Trove) (rate : Decimal) (s : SelectedState) where
  accepts :
      (c : Option TroveChange) {change : TroveChange} {d : Option Description}
      → apply original c rate ≡ ok r
      → verdict_of c original rate s ≡ ok (some change, d)
      → (c ≡ some change) × IsAllowed change (context s original r)
  unfolding verdict_of
  accepts none applied e = cc
  accepts (some shown) {change} {d} applied e =
      let here = context s original r in
      let (passed, same) =
        verdict_accepts shown change s.symbol (problem_of shown here) d (rw applied at e) in
      (ap some same, subst (λ x. IsAllowed x here) same ((problem_of_iff shown here).0 passed))

  accepted :
      (change : TroveChange)
      → apply original (some change) rate ≡ ok r
      → params_of change ≢ no_change
      → IsAllowed change (context s original r)
      → (d : Option Description) × (verdict_of (some change) original rate s ≡ ok (some change, d))
  unfolding verdict_of verdict
  accepted change applied shown allowed =
      let (t, described) = describe_total (params_of change) shown in
      (
        some (change_description t s.symbol),
        rw (applied, (problem_of_iff change (context s original r)).1 allowed, described) refl,
      )

-- A change that the front end accepts is the one that `whatChanged` reports; it leads to the vault that the user
-- asked for, up to the rounding of the fee, and it is allowed at the vault in which it ends: recovery mode is that of the
-- whole system, and the mode that the change would trigger is that of the system with the new vault in place of the old.
pub validate_vault_change_accepts :
    (original adjusted : Trove) (rate : Decimal) (s : SelectedState) {change : TroveChange}
    {d : Option Description}
    → validate_vault_change original adjusted rate s ≡ ok (some change, d)
    → (r : Trove) × (what_changed original adjusted rate ≡ ok (some change))
      × (apply original (some change) rate ≡ ok r)
      × Reaches original adjusted rate r
      × ((c : Context) × IsJudgedAt s original r c × IsAllowed change c)
unfolding validate_vault_change
validate_vault_change_accepts original adjusted rate s h =
    let (c, reported, judged) = >>=-eq-ok (what_changed original adjusted rate) _ h in
    let (r, applied, there) = apply-what_changed original adjusted rate reported in
    let (same, allowed) = accepts original r rate s c applied judged in
    (
      r,
      reported ∙ ap ok same,
      ap (λ o. apply original o rate) (sym same) ∙ applied,
      there,
      (context s original r, context-IsJudgedAt s original r, allowed),
    )

-- Conversely, a reported change that is allowed at the vault in which it ends is accepted.
pub validate_vault_change_complete :
    (original adjusted : Trove) (rate : Decimal) (s : SelectedState) (change : TroveChange)
    (r : Trove) (c : Context)
    → what_changed original adjusted rate ≡ ok (some change)
    → apply original (some change) rate ≡ ok r
    → IsJudgedAt s original r c
    → IsAllowed change c
    → (d : Option Description) × (validate_vault_change original adjusted rate s
        ≡ ok (some change, d))
unfolding validate_vault_change
validate_vault_change_complete original adjusted rate s change r c reported applied at allowed_at =
    let here = context s original r in
    let allowed : IsAllowed change here =
      subst (IsAllowed change) (IsJudgedAt-context s original r c at) allowed_at in
    let (d, e) =
      accepted original r rate s change applied
        (params_of_reported original adjusted rate change reported
          (allowed_is_valid change here allowed))
        allowed in
    (d, rw reported e)
