-- ===== src/Decimal/Rounding.antt =====
-- How the truncating operations of `class Decimal` round, and the adjunction between `mul` and
-- `_divCeil` on which the borrowing fee rests (packages/lib-base/src/Decimal.ts).
use stability_protocol.Base.{ℕ, ◌+◌, ◌-◌, ◌*◌, ◌/◌, ◌≤◌, ◌<◌, ◌≡◌, ◌↔◌, ok, arith}
use native.Mathlib.Nat.{le_refl}
use stability_protocol.Decimal.{Decimal, digits, add, sub, mul, div, div_ceil}

-- `mul` rounds down by less than one unit.
pub mul_bounds : (a b : Decimal) → (mul a b * digits ≤ a * b) × (a * b < mul a b * digits + digits)
unfolding mul
mul_bounds a b = omega arith

-- A quotient by a variable, as its two inequalities.
pub div_by : (n d : ℕ) → 0 < d → (n / d * d ≤ n) × (n < n / d * d + d)
div_by n d h = grind arith

pub le-div : (q n d : ℕ) → 0 < d → q * d ≤ n → q ≤ n / d
le-div q n d h k = grind arith

pub div-lt : (q n d : ℕ) → 0 < d → n < q * d → n / d < q
div-lt q n d h k = grind arith

pub div_ceil_bounds :
    (a b : Decimal) → 0 < b → (a * digits ≤ div_ceil a b * b) × (div_ceil a b * b < a * digits + b)
unfolding div_ceil
div_ceil_bounds a b h = ground (arith, div_by (a * digits + (b - 1)) b)

pub mul_mono : {a b : ℕ} → a ≤ b → (f : ℕ) → a * f ≤ b * f
mul_mono h f = grind arith

mul_cancel_le : (a b f : ℕ) → a * f < b * f + f → a ≤ b
mul_cancel_le a b f h = grind arith

-- `_divCeil` by a positive factor is the lower adjoint of `mul`: it gives the least amount whose product
-- with the factor, rounded down, reaches `a`.
pub div_ceil-le_iff : (a b f : Decimal) → 0 < f → (div_ceil a f ≤ b) ↔ (a ≤ mul b f)
unfolding mul
div_ceil-le_iff a b f h = (
  λ p. omega (arith, div_ceil_bounds a f h, mul_mono p f),
  λ p. ground (arith, div_ceil_bounds a f h, mul_cancel_le (div_ceil a f) b f),
)

-- The source's pair of fee functions: what `div_ceil` gives, multiplied back, is `a` or exceeds it by
-- less than the factor in units.
pub mul-div_ceil :
    (a f : Decimal)
    → 0 < f
    → (a ≤ mul (div_ceil a f) f) × (mul (div_ceil a f) f * digits < a * digits + f)
mul-div_ceil a f h = omega (
  arith,
  div_ceil_bounds a f h,
  mul_bounds (div_ceil a f) f,
  (div_ceil-le_iff a (div_ceil a f) f h).0 (le_refl _),
)

-- A quotient multiplied back falls short, and by less than the divisor's weight and one unit.
pub mul-div :
    (a b : Decimal)
    → 0 < b
    → (mul (div a b) b ≤ a) × (a * digits < mul (div a b) b * digits + digits + b)
unfolding div
mul-div a b h = ground (arith, div_by (a * digits) b, mul_bounds (a * digits / b) b)

-- A difference, added back, is the minuend; there is one exactly when the result is not negative.
pub add-sub : (a b : Decimal) → b ≤ a → (d : Decimal) × (sub a b ≡ ok d) × (add d b ≡ a)
unfolding sub add
add-sub a b h = (a - b, ground arith, omega arith)
