-- ===== src/Trove/Tests.antt =====
-- Concrete Troves: an open one, and one with less collateral and more debt.
use Prim.Native.String.{String}
use stability_protocol.Base.{
  ◌+◌, ◌*◌, ◌^◌, ◌-◌, ◌≤◌, ◌<◌, ◌≡◌, ◌↔◌, refl, false, true, some, none, List, [], ◌∷◌, ok, err,
  net_debt_below_reserve,
}
use stability_protocol.Decimal
use stability_protocol.Decimal.{Decimal, digits, mul, div_ceil, mul_div, sub}
use stability_protocol.Decimal.Text.{from}
use stability_protocol.Constants.{thusd_liquidation_reserve}
use stability_protocol.Trove.{Trove, trove, empty_trove, is_empty, net_debt}
use stability_protocol.Trove.Change.{
  CreationParams, AdjustmentParams, adjustment, unapply_fee, debt_change, collateral_change,
  creation_change, adjustment_change, what_changed, apply,
}
use stability_protocol.Trove.Params.{
  normalize_trove_adjustment, check_allowed_keys, has_bad_key, defined, decimalize, field, fields,
  non_zero_entries, adjustment_params_from, create, recreate, adjust, adjust_to,
}
use stability_protocol.Trove.Params.Normal.{
  creation_entries, adjustment_entries, create-recreate, adjust-adjust_to,
}
use stability_protocol.Trove.RoundTrip.{Reaches, apply-what_changed}
use stability_protocol.Trove.Reports.{what_changed-err_iff}
use stability_protocol.Trove.User.{PendingTrove, opened, apply_redistribution}
use stability_protocol.Trove.Redistribution.{sum, redistribution_bounded}

abbrev rate : Decimal
rate = 5 * 10 ^ 15

abbrev small : Trove
small = trove digits (2000 * digits)

abbrev large : Trove
large = trove (digits - 1) (3000 * digits)

-- Less collateral by one unit, and 1000 more debt, of which the fee is a part.
abbrev borrowing : AdjustmentParams
borrowing = record {
  deposit_collateral = none;
  withdraw_collateral = some 1;
  borrow_thusd = some 995024875621890547264;
  repay_thusd = none;
}

small_to_large : what_changed small large rate ≡ ok (some (adjustment borrowing none))
unfolding what_changed adjustment_change collateral_change debt_change unapply_fee div_ceil
    Decimal.add
small_to_large = refl

apply-what_changed_example :
    (r : Trove) × (apply small (some (adjustment borrowing none)) rate ≡ ok r)
    × Reaches small large rate r
apply-what_changed_example = apply-what_changed small large rate small_to_large

adjust_to-small : adjust_to small large none ≡ ok borrowing
unfolding adjust_to what_changed adjustment_change collateral_change debt_change unapply_fee
    div_ceil Decimal.add
adjust_to-small = refl

adjust-adjust_to_example :
    (r : Trove) × (adjust small (adjustment_entries borrowing) none ≡ ok r)
    × Reaches small large rate r
adjust-adjust_to_example = adjust-adjust_to small large none adjust_to-small

abbrev opening : CreationParams
opening = record { deposit_collateral = digits; borrow_thusd = 1791044776119402985075 }

recreate-small : recreate small none ≡ ok opening
unfolding recreate what_changed creation_change net_debt sub unapply_fee div_ceil Decimal.add
recreate-small = refl

create-recreate_example :
    (r : Trove) × (create (creation_entries opening) none ≡ ok r) × Reaches empty_trove small rate r
create-recreate_example = create-recreate small none recreate-small

normalized : normalize_trove_adjustment (adjustment_entries borrowing) ≡ ok borrowing
unfolding normalize_trove_adjustment check_allowed_keys has_bad_key defined decimalize from field
    adjustment_params_from fields non_zero_entries
normalized = refl

-- Less debt than the liquidation reserve.
abbrev indebted : Trove
indebted = trove digits (100 * digits)

what_changed-err_iff_example :
    (what_changed indebted empty_trove rate ≡ err net_debt_below_reserve) ↔ (
      (net_debt_below_reserve ≡ net_debt_below_reserve)
      × (is_empty indebted ≡ false)
      × (is_empty empty_trove ≡ true)
      × (indebted.debt < thusd_liquidation_reserve))
what_changed-err_iff_example = what_changed-err_iff indebted empty_trove rate net_debt_below_reserve

abbrev price : Decimal
price = 3000 * digits

abbrev pending : String → Trove → PendingTrove
pending owner base = record {
  user = record { base = base; owner_address = owner; status = opened };
  stake = base.collateral;
  snapshot_of_total_redistributed = empty_trove;
}

abbrev pair : List PendingTrove
pair = pending "0x01" small ∷ pending "0x02" large ∷ []

redistribution_bounded_example :
    (sum (λ t. (apply_redistribution t indebted).base.collateral) pair * digits
      ≤ sum (λ t. t.user.base.collateral) pair * digits
        + (indebted.collateral - 0) * sum (λ t. t.stake) pair)
    × (sum (λ t. (apply_redistribution t indebted).base.debt) pair * digits
        ≤ sum (λ t. t.user.base.debt) pair * digits + (indebted.debt - 0) * sum (λ t. t.stake) pair)
    × (sum (λ t. t.user.base.collateral) pair
        ≤ sum (λ t. (apply_redistribution t indebted).base.collateral) pair)
    × (sum (λ t. t.user.base.debt) pair
        ≤ sum (λ t. (apply_redistribution t indebted).base.debt) pair)
redistribution_bounded_example = redistribution_bounded indebted empty_trove pair (refl, (refl, tt))
