-- ===== src/Store/Derived.antt =====
-- The state that `_derive` gives (packages/lib-base/src/LiquityStore.ts).
use stability_protocol.Base.{◌≡◌, ◌≤◌, refl, Bool, true, false, none, ok, arith}
use stability_protocol.Decimal.{one}
use stability_protocol.Constants.{
  minimum_borrowing_rate, maximum_borrowing_rate, minimum_redemption_rate,
}
use stability_protocol.Fees.{Fees, set_recovery_mode, minutes_since}
use stability_protocol.Fees.Rates.{IsValid, InTime, borrowing_rate_bounds, redemption_rate_mono}
use stability_protocol.Trove.{is_below_critical, is_below_minimum}
use stability_protocol.Trove.User.{apply_redistribution}
use stability_protocol.Store.State.{BaseState, DerivedState, derive}

set_recovery_mode-ok :
    (f : Fees) (mode : Bool)
    → IsValid f
    → set_recovery_mode f mode ≡ ok (record f { recovery_mode = mode })
unfolding set_recovery_mode
set_recovery_mode-ok f mode v = ground arith

set_recovery_mode-InTime :
    (f : Fees) (mode : Bool) → InTime f none → InTime (record f { recovery_mode = mode }) none
unfolding minutes_since
set_recovery_mode-InTime f mode t = t

-- What holds of the state that is derived from `b`.
pub record IsDerived (b : BaseState) (d : DerivedState) : Type 0 where
  pub fees_lem :
      d.fees ≡ record (b.fees_in_normal_mode) { recovery_mode = is_below_critical b.total b.price }
  pub trove_lem : d.trove ≡ apply_redistribution b.trove_before_redistribution b.total_redistributed
  pub recovery : is_below_critical b.total b.price ≡ true → d.borrowing_rate ≡ 0
  pub normal :
      is_below_critical b.total b.price ≡ false
      → (minimum_borrowing_rate ≤ d.borrowing_rate) × (d.borrowing_rate ≤ maximum_borrowing_rate)
  pub redemption : (minimum_redemption_rate ≤ d.redemption_rate) × (d.redemption_rate ≤ one)

-- From valid fees, and a time that the exponent can hold, a state is always derived. Its fees are in
-- recovery mode exactly if the system is below the critical ratio, and its rates are within their bounds.
pub derive_total :
    (b : BaseState)
    → IsValid b.fees_in_normal_mode
    → InTime b.fees_in_normal_mode none
    → (d : DerivedState) × (derive b ≡ ok d) × IsDerived b d
unfolding derive
derive_total b v t =
    let mode = is_below_critical b.total b.price in
    let f : Fees = record (b.fees_in_normal_mode) { recovery_mode = mode } in
    let t' : InTime f none = set_recovery_mode-InTime b.fees_in_normal_mode mode t in
    let (borrowing, eb, zero_rate, bounded) = borrowing_rate_bounds f none v t' in
    let (redemption, _, er, _, low, same, high) =
      redemption_rate_mono f 0 0 none (omega arith) v t' in
    (
      record {
        trove = apply_redistribution b.trove_before_redistribution b.total_redistributed;
        fees = f;
        borrowing_rate = borrowing;
        redemption_rate = redemption;
        have_undercollateralized_troves =
            is_below_minimum
              (apply_redistribution b.riskiest_trove_before_redistribution
                b.total_redistributed).base
              b.price;
      },
      rw (set_recovery_mode-ok b.fees_in_normal_mode mode v, eb, er) refl,
      record {
        fees_lem = refl;
        trove_lem = refl;
        recovery = zero_rate;
        normal = bounded;
        redemption = (low, omega arith);
      },
    )
