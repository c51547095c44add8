-- ===== src/Trove/Ratio.antt =====
-- Collateral ratios, which `class Trove` computes by one truncating division
-- (packages/lib-base/src/Trove.ts), as inequalities between products.
use stability_protocol.Base.{
  ◌*◌, ◌/◌, ◌≤◌, ◌<◌, ◌≡◌, ◌↔◌, true, false, not, arith, ltb, ltb→lt, pos-cases, Bool-cases, inl,
  inr, ℕ,
}
use native.Mathlib.Decide.{dec_le}
use stability_protocol.Decimal
use stability_protocol.Decimal.{Decimal, infinity, mul_div, lt}
use stability_protocol.Decimal.Rounding.{div-lt}
use stability_protocol.Constants.{minimum_collateral_ratio, critical_collateral_ratio}
use stability_protocol.Trove
use stability_protocol.Trove.{
  Trove, collateral_ratio, is_below_minimum, is_below_critical, is_openable_in_recovery_mode,
}

-- The collateral's value reaches the multiple `k` of the debt.
abbrev pub Covers : Trove → Decimal → Decimal → Type 0
Covers t price k = k * t.debt ≤ t.collateral * price

div_lt_iff : (n d k : ℕ) → 0 < d → (ltb (n / d) k ≡ true) ↔ (n < k * d)
div_lt_iff n d k p =
    (λ h. let small : n / d < k = ground arith in less small, λ h. ground (arith, div-lt k n d p h))
  where
    less : n / d < k → n < k * d
    less s = grind arith

ratio_without_debt :
    (t : Trove) (price : Decimal) → t.debt ≡ 0 → collateral_ratio t price ≡ infinity
unfolding collateral_ratio mul_div
ratio_without_debt t price z = ground arith

ratio_with_debt :
    (t : Trove) (price : Decimal)
    → 0 < t.debt
    → collateral_ratio t price ≡ t.collateral * price / t.debt
unfolding collateral_ratio mul_div
ratio_with_debt t price p = ground arith

covers_without_debt : (t : Trove) (price k : Decimal) → t.debt ≡ 0 → Covers t price k
covers_without_debt t price k z = rw z (omega arith)

-- A Trove is below a threshold exactly when its collateral's value does not reach that multiple of its
-- debt; a Trove without debt never is.
pub ratio_below_iff :
    (t : Trove) (price k : Decimal)
    → k ≤ infinity
    → (lt (collateral_ratio t price) k ≡ true) ↔ ¬ Covers t price k
ratio_below_iff t price k h = elim (pos-cases t.debt) [
  | inl z ↦ (
    λ e.
        absurd (omega (arith, ltb→lt (collateral_ratio t price) k e, ratio_without_debt t price z)),
    λ not_covers. absurd (not_covers (covers_without_debt t price k z)),
  )
  | inr p ↦
      let (below, above) = div_lt_iff (t.collateral * price) t.debt k p in
      rw (ratio_with_debt t price p)
        (λ e c. omega (arith, below e), λ not_covers. above (omega arith))
]

Covers-of_not_below :
    (t : Trove) (price k : Decimal)
    → k ≤ infinity
    → lt (collateral_ratio t price) k ≡ false
    → Covers t price k
Covers-of_not_below t price k h e = elim (dec_le (k * t.debt) (t.collateral * price)) [
  | yes c ↦ c
  | no n ↦ cc (e, (ratio_below_iff t price k h).1 n)
]

-- Two Troves of which neither is below a threshold are together not below it.
ratio-add :
    (a b : Trove) (price k : Decimal)
    → k ≤ infinity
    → lt (collateral_ratio a price) k ≡ false
    → lt (collateral_ratio b price) k ≡ false
    → lt (collateral_ratio (Trove.add a b) price) k ≡ false
unfolding Trove.add Decimal.add
ratio-add a b price k h ea eb = elim (Bool-cases (lt (collateral_ratio (Trove.add a b) price) k)) [
  | inl e ↦ absurd (
      (ratio_below_iff (Trove.add a b) price k h).0 e
        (omega (arith, Covers-of_not_below a price k h ea, Covers-of_not_below b price k h eb)))
  | inr e ↦ e
]

-- Joining Troves of which neither is below the critical (or the minimum) ratio gives none that is.
pub is_below_critical-add :
    (a b : Trove) (price : Decimal)
    → (is_below_critical a price ≡ false
        → is_below_critical b price ≡ false
        → is_below_critical (Trove.add a b) price ≡ false)
      × (is_below_minimum a price ≡ false
          → is_below_minimum b price ≡ false
          → is_below_minimum (Trove.add a b) price ≡ false)
unfolding is_below_critical is_below_minimum
is_below_critical-add a b price = (
  ratio-add a b price critical_collateral_ratio (omega arith),
  ratio-add a b price minimum_collateral_ratio (omega arith),
)

-- A Trove can be opened in recovery mode exactly when it is not below the critical ratio, and one that
-- can is not below the minimum ratio either.
pub is_openable_iff :
    (t : Trove) (price : Decimal)
    → (is_openable_in_recovery_mode t price ≡ not (is_below_critical t price))
      × (is_openable_in_recovery_mode t price ≡ true → is_below_minimum t price ≡ false)
unfolding is_openable_in_recovery_mode is_below_critical is_below_minimum
is_openable_iff t price = ground arith

-- A Trove is below the critical ratio exactly when its collateral is worth less than 1.5 times its
-- debt, and below the minimum ratio exactly when it is worth less than 1.1 times its debt.
pub is_below_critical_iff :
    (t : Trove) (price : Decimal)
    → ((is_below_critical t price ≡ true) ↔ ¬ Covers t price critical_collateral_ratio)
      × ((is_below_minimum t price ≡ true) ↔ ¬ Covers t price minimum_collateral_ratio)
unfolding is_below_critical is_below_minimum
is_below_critical_iff t price = (
  ratio_below_iff t price critical_collateral_ratio (omega arith),
  ratio_below_iff t price minimum_collateral_ratio (omega arith),
)

ratio_not_below_iff :
    (t : Trove) (price k : Decimal)
    → k ≤ infinity
    → (lt (collateral_ratio t price) k ≡ false) ↔ Covers t price k
ratio_not_below_iff t price k h = (Covers-of_not_below t price k h, above)
  where
    above : Covers t price k → lt (collateral_ratio t price) k ≡ false
    above c = elim (Bool-cases (lt (collateral_ratio t price) k)) [
      | inl e ↦ absurd ((ratio_below_iff t price k h).0 e c)
      | inr e ↦ e
    ]

pub not_below_critical_iff :
    (t : Trove) (price : Decimal)
    → (is_below_critical t price ≡ false) ↔ Covers t price critical_collateral_ratio
unfolding is_below_critical
not_below_critical_iff t price = ratio_not_below_iff t price critical_collateral_ratio (omega arith)

pub not_below_minimum_iff :
    (t : Trove) (price : Decimal)
    → (is_below_minimum t price ≡ false) ↔ Covers t price minimum_collateral_ratio
unfolding is_below_minimum
not_below_minimum_iff t price = ratio_not_below_iff t price minimum_collateral_ratio (omega arith)
