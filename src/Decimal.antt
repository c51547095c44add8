-- ===== src/Decimal.antt =====
-- The arithmetic of `class Decimal` (packages/lib-base/src/Decimal.ts). A `Decimal` is the integer
-- that its `_bigNumber` holds, in units of 10 ^ -18. BigNumber's integers have no bound, so no
-- operation wraps; a negative result is the error of the constructor. An argument that the source
-- calls `Decimalish` has gone through `Decimal.from`, which leaves a `Decimal` as it is.
pub mod Rounding
pub mod Power
pub mod Text
pub mod Difference
mod Tests
use stability_protocol.Base.{
  ℕ, zero, suc, ◌+◌, ◌-◌, ◌*◌, ◌/◌, ◌%◌, ◌^◌, Bool, Option, none, some, Result, ok, err,
  negative_decimal, assertion_failed, out_of_fuel, ltb, leb, ◌==◌, if◌then◌else◌,
}

abbrev pub Decimal : Type 0
Decimal = ℕ

abbrev pub precision : ℕ
precision = 18

-- `DIGITS`, the number 1 as a decimal.
abbrev pub digits : ℕ
digits = 10 ^ 18

abbrev pub infinity : Decimal
infinity = 2 ^ 256 - 1

abbrev pub half : Decimal
half = 5 * 10 ^ 17

abbrev pub one : Decimal
one = digits

-- The constructor: the difference of two integers, an error if it is negative.
unfoldable pub sub : Decimal → Decimal → Result Decimal
sub a b = if ltb a b then err negative_decimal else ok (a - b)

unfoldable pub add : Decimal → Decimal → Decimal
add a b = a + b

unfoldable pub mul : Decimal → Decimal → Decimal
mul a b = a * b / digits

unfoldable pub div : Decimal → Decimal → Decimal
div a b = if b == 0 then infinity else a * digits / b

unfoldable pub div_ceil : Decimal → Decimal → Decimal
div_ceil a b = if b == 0 then infinity else (a * digits + (b - 1)) / b

unfoldable pub mul_div : Decimal → Decimal → Decimal → Decimal
mul_div a multiplier divider = if divider == 0 then infinity else a * multiplier / divider

unfoldable pub rounded_mul : ℕ → ℕ → ℕ
rounded_mul x y = (x * y + half) / digits

-- The `for` loop of `pow`, which halves the exponent until it is 1 or less; `none` means that the
-- fuel ran out.
unfoldable pub pow_loop : ℕ → ℕ → ℕ → ℕ → Option (ℕ × ℕ)
pow_loop zero e x y = none
pow_loop (suc fuel) e x y =
    let rest =
      pow_loop fuel (e / 2) (rounded_mul x x) (if e % 2 == 1 then rounded_mul x y else y) in
    if ltb 1 e then rest else some (x, y)

unfoldable pub pow_end : Option (ℕ × ℕ) → Result Decimal
pow_end none = err out_of_fuel
pow_end (some (x, y)) = ok (rounded_mul x y)

-- The exponent is a whole number that is not negative; a larger one than 32 bits is refused.
unfoldable pub pow : Decimal → ℕ → Result Decimal
pow a e =
    if ltb 0xffffffff e
    then err assertion_failed
    else if e == 0
    then ok one
    else if e == 1
    then ok a
    else pow_end (pow_loop 32 e a digits)

abbrev pub is_zero : Decimal → Bool
is_zero a = a == 0

abbrev pub infinite : Decimal → Bool
infinite a = a == infinity

abbrev pub lt : Decimal → Decimal → Bool
lt a b = ltb a b

abbrev pub eq : Decimal → Decimal → Bool
eq a b = a == b

abbrev pub gt : Decimal → Decimal → Bool
gt a b = ltb b a

abbrev pub gte : Decimal → Decimal → Bool
gte a b = leb b a

abbrev pub lte : Decimal → Decimal → Bool
lte a b = leb a b

-- `get zero` and `get nonZero`.
abbrev pub zero_value : Decimal → Option Decimal
zero_value a = if is_zero a then some a else none

abbrev pub non_zero : Decimal → Option Decimal
non_zero a = if is_zero a then none else some a

unfoldable pub min : Decimal → Decimal → Decimal
min a b = if lt a b then a else b

unfoldable pub max : Decimal → Decimal → Decimal
max a b = if gt a b then a else b
