-- ===== src/Trove/Redistribution.antt =====
-- What Troves receive from redistributions (`applyRedistribution` in packages/lib-base/src/Trove.ts).
use text.Mathlib.TextEquality.{eq_iff}
use stability_protocol.Base.{ℕ, ◌+◌, ◌-◌, ◌*◌, ◌≤◌, ◌≡◌, ◌↔◌, true, List, [], ◌∷◌, arith}
use stability_protocol.Decimal
use stability_protocol.Decimal.{Decimal, digits, mul}
use stability_protocol.Decimal.Rounding.{mul_bounds}
use stability_protocol.Trove
use stability_protocol.Trove.{Trove, multiply, subtract, sub_or_zero}
use stability_protocol.Trove.User.{PendingTrove, apply_redistribution, pending_equals}

-- The sum of an amount over a list of Troves.
abbrev pub sum {ℓ} : {A : Type ℓ} → (A → ℕ) → List A → ℕ
sum f [] = 0
sum f (x ∷ xs) = f x + sum f xs

-- Every Trove of the list was last changed at the totals `s`.
abbrev pub AllAt : Trove → List PendingTrove → Type 0
AllAt s [] = Unit
AllAt s (t ∷ ts) = (t.snapshot_of_total_redistributed ≡ s) × AllAt s ts

one_share :
    (total s : Trove) (t : PendingTrove)
    → t.snapshot_of_total_redistributed ≡ s
    → let after = (apply_redistribution t total).base in
      (after.collateral * digits
        ≤ t.user.base.collateral * digits + (total.collateral - s.collateral) * t.stake)
      × (after.debt * digits ≤ t.user.base.debt * digits + (total.debt - s.debt) * t.stake)
      × (t.user.base.collateral ≤ after.collateral)
      × (t.user.base.debt ≤ after.debt)
unfolding apply_redistribution Trove.add multiply subtract Decimal.add
one_share total s t e = ground (
  arith,
  mul_bounds (total.collateral - s.collateral) t.stake,
  mul_bounds (total.debt - s.debt) t.stake,
  mul_bounds 0 t.stake,
)

-- Troves with one snapshot receive together no more than the growth of the total per stake, times
-- their stakes, in collateral and in debt; no Trove loses any.
pub redistribution_bounded :
    (total s : Trove) (ts : List PendingTrove)
    → AllAt s ts
    → (sum (λ t. (apply_redistribution t total).base.collateral) ts * digits
        ≤ sum (λ t. t.user.base.collateral) ts * digits
          + (total.collateral - s.collateral) * sum (λ t. t.stake) ts)
      × (sum (λ t. (apply_redistribution t total).base.debt) ts * digits
          ≤ sum (λ t. t.user.base.debt) ts * digits + (total.debt - s.debt) * sum (λ t. t.stake) ts)
      × (sum (λ t. t.user.base.collateral) ts
          ≤ sum (λ t. (apply_redistribution t total).base.collateral) ts)
      × (sum (λ t. t.user.base.debt) ts ≤ sum (λ t. (apply_redistribution t total).base.debt) ts)
redistribution_bounded total s [] h = omega arith
redistribution_bounded total s (t ∷ ts) (e, es) =
    omega (arith, one_share total s t e, redistribution_bounded total s ts es)

-- Two Troves with a pending redistribution are `equals` exactly when every field agrees.
pub pending_equals_iff : (a b : PendingTrove) → (pending_equals a b ≡ true) ↔ (a ≡ b)
pending_equals_iff a b = (
  λ h. ground (arith, eq_iff a.user.owner_address b.user.owner_address),
  λ h. ground (arith, eq_iff a.user.owner_address b.user.owner_address),
)
