-- ===== src/Trove/RoundTrip.antt =====
-- Applying what `whatChanged` reports leads to the desired Trove (packages/lib-base/src/Trove.ts).
use stability_protocol.Base.{
  ◌+◌, ◌-◌, ◌*◌, ◌≤◌, ◌<◌, ◌≡◌, ◌⊎◌, true, false, ◌&&◌, Option, none, some, ok, arith, inl, inr,
  Bool-cases, refl, ltb,
}
use stability_protocol.Decimal
use stability_protocol.Decimal.{Decimal, digits, one, mul, div_ceil, gt, eq, sub, is_zero}
use stability_protocol.Decimal.Rounding.{mul-div_ceil}
use stability_protocol.Constants.{thusd_liquidation_reserve}
use stability_protocol.Trove
use stability_protocol.Trove.{
  Trove, trove, empty_trove, is_empty, net_debt, add_collateral, add_debt, subtract,
  subtract_collateral, subtract_debt, set_collateral, set_debt,
}
use stability_protocol.Trove.Change.{
  AdjustmentParams, TroveChange, adjustment, apply_fee, unapply_fee, debt_change, collateral_change,
  creation_change, closure_change, adjustment_change, what_changed, apply_adjustment, apply_to,
  apply, SetToZero, zero_debt, zero_collateral, zero_debt_or_collateral, no_change,
}

-- The borrowed amount with its fee reaches the wanted increase, and exceeds it by less than one unit
-- and the rate.
pub fee_round_trip :
    (rate d : Decimal)
    → (d ≤ apply_fee rate (unapply_fee rate d))
      × (apply_fee rate (unapply_fee rate d) * digits < d * digits + digits + rate)
unfolding apply_fee unapply_fee Decimal.add
fee_round_trip rate d = omega (arith, mul-div_ceil d (one + rate) (omega arith))

-- What a Trove `r` that is meant to be `that`, reached from `this`, satisfies.
pub record Reaches (this that : Trove) (rate : Decimal) (r : Trove) : Type 0 where
  pub same_collateral : r.collateral ≡ that.collateral
  pub enough_debt : that.debt ≤ r.debt
  pub little_more : r.debt * digits < that.debt * digits + digits + rate
  pub exact_down : that.debt ≤ this.debt → r.debt ≡ that.debt

Reaches-self : (this that : Trove) (rate : Decimal) → Reaches this that rate that
Reaches-self this that rate = omega arith

-- An adjustment, with the reported zeroing or with none, leads to the desired Trove.
module _ (this that : Trove) (rate : Decimal) where
  abbrev both : AdjustmentParams
  both = collateral_change this that (debt_change this that rate no_change)

  adjust_debt :
      (z : Option SetToZero)
      → (z ≡ none) ⊎ (z ≡ zero_debt that)
      → this.collateral ≡ that.collateral
      → Reaches this that rate (apply_adjustment this (debt_change this that rate no_change) rate z)
  unfolding apply_adjustment debt_change subtract Trove.add set_debt add_collateral
      subtract_collateral
  adjust_debt z h e = ground (arith, fee_round_trip rate (that.debt - this.debt))

  adjust_collateral :
      (z : Option SetToZero)
      → (z ≡ none) ⊎ (z ≡ zero_collateral that)
      → this.debt ≡ that.debt
      → Reaches this that rate
          (apply_adjustment this (collateral_change this that no_change) rate z)
  unfolding apply_adjustment collateral_change subtract Trove.add set_collateral add_debt
      subtract_debt
  adjust_collateral z h e = ground arith

  adjust_both :
      (z : Option SetToZero)
      → (z ≡ none) ⊎ (z ≡ zero_debt_or_collateral that)
      → Reaches this that rate (apply_adjustment this both rate z)
  unfolding apply_adjustment debt_change collateral_change subtract Trove.add set_debt
      set_collateral add_collateral subtract_collateral add_debt subtract_debt
  adjust_both z h = ground (arith, fee_round_trip rate (that.debt - this.debt))

  Reaches-creation :
      {c : Option TroveChange}
      → is_empty this ≡ true
      → creation_change that rate ≡ ok c
      → (r : Trove) × (apply this c rate ≡ ok r) × Reaches this that rate r
  unfolding creation_change apply apply_to net_debt Decimal.add sub
  Reaches-creation {c} e h = elim (Bool-cases (ltb that.debt thusd_liquidation_reserve)) [
    | inl small ↦ (that, ground arith, Reaches-self this that rate)
    | inr large ↦ (
      trove that.collateral (
          thusd_liquidation_reserve
          + apply_fee rate (unapply_fee rate (that.debt - thusd_liquidation_reserve))),
      ground arith,
      ground (arith, fee_round_trip rate (that.debt - thusd_liquidation_reserve)),
    )
  ]

  Reaches-closure :
      {c : Option TroveChange}
      → is_empty this ≡ false
      → is_empty that ≡ true
      → closure_change this ≡ ok c
      → (r : Trove) × (apply this c rate ≡ ok r) × Reaches this that rate r
  unfolding closure_change apply apply_to net_debt sub
  Reaches-closure {c} e z h = (empty_trove, ground arith, ground arith)

  -- The reported adjustment leads there with its zeroing and without.
  pub adjustment-Reaches :
      (p : AdjustmentParams) × (z : Option SetToZero) × (adjustment_change this that rate
        ≡ adjustment p z)
      × Reaches this that rate (apply_adjustment this p rate z)
      × Reaches this that rate (apply_adjustment this p rate none)
  unfolding adjustment_change
  adjustment-Reaches = elim (Bool-cases (eq this.collateral that.collateral)) [
    | inl same ↦
        let e : this.collateral ≡ that.collateral = ground arith in
        (
          debt_change this that rate no_change,
          zero_debt that,
          rw same,
          adjust_debt (zero_debt that) (inr refl) e,
          adjust_debt none (inl refl) e,
        )
    | inr other ↦ elim (Bool-cases (eq this.debt that.debt)) [
      | inl same ↦
          let e : this.debt ≡ that.debt = ground arith in
          (
            collateral_change this that no_change,
            zero_collateral that,
            rw (other, same),
            adjust_collateral (zero_collateral that) (inr refl) e,
            adjust_collateral none (inl refl) e,
          )
      | inr also ↦ (
        both,
        zero_debt_or_collateral that,
        rw (other, also),
        adjust_both (zero_debt_or_collateral that) (inr refl),
        adjust_both none (inl refl),
      )
    ]
  ]

  pub Reaches-adjustment :
      (r : Trove) × (apply this (some (adjustment_change this that rate)) rate ≡ ok r)
      × Reaches this that rate r
  unfolding apply apply_to
  Reaches-adjustment =
      let (p, z, e, there, _) = adjustment-Reaches in
      (apply_adjustment this p rate z, ground arith, there)

apply-none : (t : Trove) (rate : Decimal) → apply t none rate ≡ ok t
unfolding apply
apply-none t rate = refl

Reaches-refl :
    (this that : Trove) (rate : Decimal)
    → (eq this.collateral that.collateral && eq this.debt that.debt) ≡ true
    → Reaches this that rate this
Reaches-refl this that rate e = ground arith

-- Whenever `whatChanged` reports a change (or none), `apply` accepts it and leads to the desired Trove:
-- the same collateral, and a debt that is at least the desired one and exceeds it by less than one
-- unit and the borrowing rate in units. If the debt does not grow, the result is exact.
pub apply-what_changed :
    (this that : Trove) (rate : Decimal) {c : Option TroveChange}
    → what_changed this that rate ≡ ok c
    → (r : Trove) × (apply this c rate ≡ ok r) × Reaches this that rate r
unfolding what_changed
apply-what_changed this that rate {c} h =
    elim (Bool-cases (eq this.collateral that.collateral && eq this.debt that.debt)) [
      | inl same ↦
          let c' : c ≡ none = ground arith in
          (this, rw c' (apply-none this rate), Reaches-refl this that rate same)
      | inr other ↦ elim (Bool-cases (is_empty this)) [
        | inl e ↦ Reaches-creation this that rate e (ground arith)
        | inr full ↦ elim (Bool-cases (is_empty that)) [
          | inl z ↦ Reaches-closure this that rate full z (ground arith)
          | inr open_one ↦
              let c' : c ≡ some (adjustment_change this that rate) = ground arith in
              rw c' (Reaches-adjustment this that rate)
        ]
      ]
    ]
