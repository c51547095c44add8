-- ===== src/Trove/Params/Normal.antt =====
-- What normalising accepts, and the round trips of `recreate` with `create` and of `adjustTo` with
-- `adjust` (packages/lib-base/src/Trove.ts).
use Prim.Native.String.{String}
use stability_protocol.Base.{◌≡◌, refl, Option, none, some, [], ◌∷◌, ok, arith, >>=-eq-ok}
use stability_protocol.Decimal.{Decimal, sub}
use stability_protocol.Decimal.Text.{Decimalish, decimal, from}
use stability_protocol.Trove.{Trove, empty_trove, net_debt}
use stability_protocol.Trove.Change.{
  CreationParams, AdjustmentParams, TroveChange, invalid_creation, creation, closure, adjustment,
  what_changed, apply, apply_to, apply_adjustment, SetToZero, adjustment_change, creation_change,
  closure_change,
}
use stability_protocol.Trove.Reports.{IsPositive, IsWellFormed, what_changed-IsWellFormed}
use stability_protocol.Trove.RoundTrip.{Reaches, apply-what_changed, adjustment-Reaches}
use stability_protocol.Trove.Params.{
  Entries, defined, has_bad_key, check_allowed_keys, decimalize, non_zero_entries, field,
  creation_params_from, normalize_trove_creation, adjustment_params_from, fields,
  normalize_trove_adjustment, rate_or_default, allowed_adjustment_key, create, recreate, adjust,
  adjust_to, assert_creation, assert_adjustment,
}

field-IsPositive : (k : String) (m : Entries Decimal) → IsPositive (field k (non_zero_entries m))
unfolding field non_zero_entries
field-IsPositive k [] = tt
field-IsPositive k ((j, v) ∷ m) = ground (arith, field-IsPositive k m)

adjustment_params_from-IsWellFormed :
    (p q : AdjustmentParams)
    → IsPositive p.deposit_collateral
    → IsPositive p.withdraw_collateral
    → IsPositive p.borrow_thusd
    → IsPositive p.repay_thusd
    → adjustment_params_from p ≡ ok q
    → IsWellFormed q
unfolding adjustment_params_from
adjustment_params_from-IsWellFormed p q hd hw hb hr h = ground arith

-- Whatever the entries, the parameters of an adjustment that pass the normalisation are well formed.
pub normalize_trove_adjustment-IsWellFormed :
    (params : Entries (Option Decimalish)) {q : AdjustmentParams}
    → normalize_trove_adjustment params ≡ ok q
    → IsWellFormed q
unfolding normalize_trove_adjustment fields
normalize_trove_adjustment-IsWellFormed params {q} h =
    let (_, _, h') = >>=-eq-ok (check_allowed_keys allowed_adjustment_key (defined params)) _ h in
    let (entries, _, e) = >>=-eq-ok (decimalize (defined params)) _ h' in
    adjustment_params_from-IsWellFormed (fields (non_zero_entries entries)) q
      (field-IsPositive "depositCollateral" entries) (field-IsPositive "withdrawCollateral" entries)
      (field-IsPositive "borrowTHUSD" entries) (field-IsPositive "repayTHUSD" entries) e

-- The objects that `recreate` and `adjustTo` return, as entries.
abbrev pub creation_entries : CreationParams → Entries (Option Decimalish)
creation_entries p =
    ("depositCollateral", some (decimal p.deposit_collateral))
    ∷ ("borrowTHUSD", some (decimal p.borrow_thusd))
    ∷ []

abbrev pub as_decimalish : Option Decimal → Option Decimalish
as_decimalish none = none
as_decimalish (some d) = some (decimal d)

abbrev pub adjustment_entries : AdjustmentParams → Entries (Option Decimalish)
adjustment_entries p =
    ("depositCollateral", as_decimalish p.deposit_collateral)
    ∷ ("withdrawCollateral", as_decimalish p.withdraw_collateral)
    ∷ ("borrowTHUSD", as_decimalish p.borrow_thusd)
    ∷ ("repayTHUSD", as_decimalish p.repay_thusd)
    ∷ []

pub normalize-creation_entries :
    (p : CreationParams) → normalize_trove_creation (creation_entries p) ≡ ok p
unfolding normalize_trove_creation check_allowed_keys has_bad_key defined decimalize from field
    creation_params_from
normalize-creation_entries p = refl

pub normalize-adjustment_entries :
    (p : AdjustmentParams)
    → IsWellFormed p
    → normalize_trove_adjustment (adjustment_entries p) ≡ ok p
unfolding normalize_trove_adjustment check_allowed_keys has_bad_key defined decimalize from field
    adjustment_params_from fields non_zero_entries
normalize-adjustment_entries p w = ground arith

assert_creation_inv :
    (c : Option TroveChange) (p : CreationParams) → assert_creation c ≡ ok p → c ≡ some (creation p)
assert_creation_inv c p h = ground arith

assert_adjustment_inv :
    (c : Option TroveChange) (p : AdjustmentParams)
    → assert_adjustment c ≡ ok p
    → (z : Option SetToZero) × (c ≡ some (adjustment p z))
assert_adjustment_inv none p h = cc
assert_adjustment_inv (some (invalid_creation t e)) p h = cc
assert_adjustment_inv (some (creation q)) p h = cc
assert_adjustment_inv (some (closure q)) p h = cc
assert_adjustment_inv (some (adjustment q z)) p h = (z, ground arith)

-- The parameters that `recreate` gives for a Trove create that Trove: its collateral, and a debt that
-- exceeds its debt by less than one unit and the borrowing rate in units.
pub create-recreate :
    (that : Trove) (rate : Option Decimal) {p : CreationParams}
    → recreate that rate ≡ ok p
    → (r : Trove) × (create (creation_entries p) rate ≡ ok r)
      × Reaches empty_trove that (rate_or_default rate) r
unfolding recreate create
create-recreate that rate {p} h =
    let (c, e, made) = >>=-eq-ok (what_changed empty_trove that (rate_or_default rate)) _ h in
    let c' : c ≡ some (creation p) = assert_creation_inv c p made in
    let (r, applied, there) = apply-what_changed empty_trove that (rate_or_default rate) e in
    (r, rw (normalize-creation_entries p) (rw c' at applied), there)

adjustment_reported :
    (this that : Trove) (rate : Decimal) (p : AdjustmentParams) (z : Option SetToZero)
    → what_changed this that rate ≡ ok (some (adjustment p z))
    → adjustment_change this that rate ≡ adjustment p z
unfolding what_changed creation_change closure_change net_debt sub
adjustment_reported this that rate p z h = ground arith

adjusts :
    (this that : Trove) (rate : Decimal) (p : AdjustmentParams) (z : Option SetToZero)
    → what_changed this that rate ≡ ok (some (adjustment p z))
    → Reaches this that rate (apply_adjustment this p rate none)
adjusts this that rate p z h =
    let (q, y, e, _, there) = adjustment-Reaches this that rate in
    let same : q ≡ p = cc (adjustment_reported this that rate p z h) in rw (← same) there

-- The parameters that `adjustTo` gives adjust the Trove to the desired one: its collateral, and a debt
-- that exceeds the desired debt by less than one unit and the borrowing rate in units, or that is the
-- desired debt where the debt does not grow.
pub adjust-adjust_to :
    (this that : Trove) (rate : Option Decimal) {p : AdjustmentParams}
    → adjust_to this that rate ≡ ok p
    → (r : Trove) × (adjust this (adjustment_entries p) rate ≡ ok r)
      × Reaches this that (rate_or_default rate) r
unfolding adjust_to adjust apply apply_to
adjust-adjust_to this that rate {p} h =
    let (c, e, made) = >>=-eq-ok (what_changed this that (rate_or_default rate)) _ h in
    let (z, c') = assert_adjustment_inv c p made in
    let e' : what_changed this that (rate_or_default rate) ≡ ok (some (adjustment p z)) =
      rw c' at e in
    (
      apply_adjustment this p (rate_or_default rate) none,
      rw
          (normalize-adjustment_entries p
            (what_changed-IsWellFormed this that (rate_or_default rate) e'))
          refl,
      adjusts this that (rate_or_default rate) p z e',
    )
