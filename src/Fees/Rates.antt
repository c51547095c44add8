-- ===== src/Fees/Rates.antt =====
-- Bounds of the rates that `class Fees` computes (packages/lib-base/src/Fees.ts).
use stability_protocol.Base.{
  ℕ, ◌*◌, ◌^◌, ◌≤◌, ◌<◌, ◌≡◌, ◌↔◌, Bool, true, false, Option, ok, err, arith, inl, inr, Bool-cases,
  pos-cases, ◌/◌, assertion_failed, if◌then◌else◌,
}
use native.Mathlib.Nat.{mul-le-mul, le_refl}
use stability_protocol.Decimal.{Decimal, digits, one, add, mul, div, pow, min, is_zero}
use stability_protocol.Decimal.Rounding.{mul_bounds, div_by, le-div}
use stability_protocol.Decimal.Power.{pow-le-one}
use stability_protocol.Constants.{
  minimum_borrowing_rate, maximum_borrowing_rate, minimum_redemption_rate,
}
use stability_protocol.Fees.{
  Fees, new_fees, equals, minutes_since, base_rate, borrowing_rate, redemption_rate, same_bool,
}

-- What the constructor asserts.
abbrev pub IsValid : Fees → Type 0
IsValid f = f.minute_decay_factor < one

-- The elapsed time fits the exponent that `Decimal.pow` accepts: some eight thousand years.
abbrev pub InTime : Fees → Option ℕ → Type 0
InTime f when = minutes_since f when < 2 ^ 32

-- A factor of at most 1 does not raise an amount.
mul-le : (a b : Decimal) → a ≤ one → mul a b ≤ b
mul-le a b h = omega (arith, mul_bounds a b, mul-le-mul h (le_refl b))

-- The decayed base rate exists and is at most the base rate without decay.
pub base_rate-le :
    (f : Fees) (when : Option ℕ)
    → IsValid f
    → InTime f when
    → (r : Decimal) × (base_rate f when ≡ ok r) × (r ≤ f.base_rate_without_decay)
unfolding base_rate
base_rate-le f when v t =
    let (decay, e, small) =
      pow-le-one f.minute_decay_factor (minutes_since f when) (omega arith) t in
    (
      mul decay f.base_rate_without_decay,
      ground arith,
      mul-le decay f.base_rate_without_decay small,
    )

-- The constructor accepts exactly the valid fees, and keeps them as they are.
pub new_fees_lem : (f g : Fees) → (new_fees f ≡ ok g) ↔ (IsValid f × (f ≡ g))
unfolding new_fees
new_fees_lem f g = (λ h. (ground arith, ground arith), λ h. ground arith)

-- The borrowing rate of valid fees, at a time that the exponent can hold, is 0 in recovery mode, and
-- otherwise lies between the minimum and the maximum borrowing rate.
pub borrowing_rate_bounds :
    (f : Fees) (when : Option ℕ)
    → IsValid f
    → InTime f when
    → (r : Decimal) × (borrowing_rate f when ≡ ok r)
      × (f.recovery_mode ≡ true → r ≡ 0)
      × (f.recovery_mode ≡ false → (minimum_borrowing_rate ≤ r) × (r ≤ maximum_borrowing_rate))
unfolding borrowing_rate min add
borrowing_rate_bounds f when v t =
    let (rate, e, _) = base_rate-le f when v t in
    elim (Bool-cases f.recovery_mode) [
      | inl on ↦ (0, ground arith, ground arith, ground arith)
      | inr off ↦ (
        min (add minimum_borrowing_rate rate) maximum_borrowing_rate,
        ground arith,
        ground arith,
        ground arith,
      )
    ]

-- Neither a later time nor anything else makes the borrowing rate fail but an exponent of more than 32
-- bits, outside recovery mode.
pub borrowing_rate_late :
    (f : Fees) (when : Option ℕ)
    → 2 ^ 32 ≤ minutes_since f when
    → f.recovery_mode ≡ false
    → borrowing_rate f when ≡ err assertion_failed
unfolding borrowing_rate base_rate pow
borrowing_rate_late f when h off = ground arith

-- What the base rate becomes when a fraction of the supply is redeemed.
abbrev raised : Fees → Decimal → Decimal → Decimal
raised f fraction decayed = if is_zero fraction then decayed else add (div fraction f.beta) decayed

div_mono : (a b d : ℕ) → a ≤ b → div a d ≤ div b d
unfolding div
div_mono a b d h = elim (pos-cases d) [
  | inl z ↦ ground arith
  | inr p ↦
      ground
        (arith, le-div (a * digits / d) (b * digits) d p (omega (arith, div_by (a * digits) d p)))
]

raised_mono : (f : Fees) (a b decayed : Decimal) → a ≤ b → raised f a decayed ≤ raised f b decayed
unfolding add
raised_mono f a b decayed h = ground (arith, div_mono a b f.beta h)

abbrev capped : Decimal → Decimal
capped raise = min (add minimum_redemption_rate raise) one

capped_mono : (a b : Decimal) → a ≤ b → capped a ≤ capped b
unfolding min add
capped_mono a b h = ground arith

capped_bounds : (a : Decimal) → (minimum_redemption_rate ≤ capped a) × (capped a ≤ one)
unfolding min add
capped_bounds a = ground arith

-- The redemption rate of valid fees, at a time that the exponent can hold, lies between the minimum
-- redemption rate and 1, and redeeming a larger fraction of the supply never costs a lower rate.
pub redemption_rate_mono :
    (f : Fees) (a b : Decimal) (when : Option ℕ)
    → a ≤ b
    → IsValid f
    → InTime f when
    → (r s : Decimal) × (redemption_rate f a when ≡ ok r)
      × (redemption_rate f b when ≡ ok s)
      × (minimum_redemption_rate ≤ r)
      × (r ≤ s)
      × (s ≤ one)
unfolding redemption_rate
redemption_rate_mono f a b when h v t =
    let (decayed, e, _) = base_rate-le f when v t in
    (
      capped (raised f a decayed),
      capped (raised f b decayed),
      ground arith,
      ground arith,
      (capped_bounds (raised f a decayed)).0,
      capped_mono _ _ (raised_mono f a b decayed h),
      (capped_bounds (raised f b decayed)).1,
    )

same_bool-eq : (a b : Bool) → same_bool a b ≡ true → a ≡ b
same_bool-eq a b h = ground arith

-- Two fees are `equals` exactly when every field agrees.
pub equals_iff : (a b : Fees) → (equals a b ≡ true) ↔ (a ≡ b)
unfolding equals
equals_iff a b = (λ h. ground arith, λ h. ground arith)
