-- ===== src/Decimal/Power.antt =====
-- `Decimal.pow` (packages/lib-base/src/Decimal.ts): repeated squaring with rounded products.
use native.Mathlib.Nat.{pow-suc, pow-zero, mul-le-mul, mul-one}
use native.Mathlib.Numerals.{add-one}
use stability_protocol.Base.{
  ℕ, zero, suc, ◌+◌, ◌*◌, ◌/◌, ◌%◌, ◌^◌, ◌≤◌, ◌<◌, ◌≡◌, refl, ap, ◌∙◌, ok, some, arith, ltb, ◌==◌,
  if◌then◌else◌, Bool-cases, inl, inr,
}
use stability_protocol.Decimal.{Decimal, digits, rounded_mul, pow_loop, pow_end, pow}

rounded_mul-le : (x y : ℕ) → x ≤ digits → y ≤ digits → rounded_mul x y ≤ digits
unfolding rounded_mul
rounded_mul-le x y hx hy = omega (arith, mul-le-mul hx hy)

-- What the loop does to its second variable in a round.
abbrev factor : ℕ → ℕ → ℕ → ℕ
factor e x y = if e % 2 == 1 then rounded_mul x y else y

factor-le : (e x y : ℕ) → x ≤ digits → y ≤ digits → factor e x y ≤ digits
factor-le e x y hx hy = ground (arith, rounded_mul-le x y hx hy)

pow_loop-more :
    (f e x y : ℕ)
    → 1 < e
    → pow_loop (suc f) e x y ≡ pow_loop f (e / 2) (rounded_mul x x) (factor e x y)
unfolding pow_loop
pow_loop-more f e x y h = ground arith

pow_loop-done : (f e x y : ℕ) → e ≤ 1 → pow_loop (suc f) e x y ≡ some (x, y)
unfolding pow_loop
pow_loop-done f e x y h = ground arith

pow_end-some : (u v : ℕ) → pow_end (some (u, v)) ≡ ok (rounded_mul u v)
unfolding pow_end
pow_end-some u v = refl

half-lt : (f e : ℕ) → e < 2 ^ suc f → e / 2 < 2 ^ f
half-lt f e h = omega (arith, pow-suc 2 f)

small : (e : ℕ) → e < 2 ^ 1 → e ≤ 1
small e h = omega (arith, pow-suc 2 0, pow-zero 2)

-- The loop ends within the fuel, and the bound that squaring keeps holds at its end.
pow_loop-le :
    (f e x y : ℕ)
    → e < 2 ^ suc f
    → x ≤ digits
    → y ≤ digits
    → (u v : ℕ) × (pow_loop (suc f) e x y ≡ some (u, v)) × (u ≤ digits) × (v ≤ digits)
pow_loop-le zero e x y h hx hy = (x, y, pow_loop-done zero e x y (small e h), hx, hy)
pow_loop-le (suc f) e x y h hx hy = elim (Bool-cases (ltb 1 e)) [
  | inl more ↦ rw (pow_loop-more (suc f) e x y (ground arith)) (
      pow_loop-le f (e / 2) (rounded_mul x x) (factor e x y) (half-lt (suc f) e h)
        (rounded_mul-le x x hx hx) (factor-le e x y hx hy))
  | inr done ↦ (x, y, pow_loop-done (suc f) e x y (ground arith), hx, hy)
]

-- The three cases of `pow` on exponents of at most 32 bits.
pow-zero_lem : (a : Decimal) → pow a 0 ≡ ok digits
unfolding pow
pow-zero_lem a = refl

pow-one_lem : (a : Decimal) → pow a 1 ≡ ok a
unfolding pow
pow-one_lem a = refl

pow-more : (a : Decimal) (e : ℕ) → 1 < e → e < 2 ^ 32 → pow a e ≡ pow_end (pow_loop 32 e a digits)
unfolding pow
pow-more a e h k = ground arith

-- For a base of at most 1 and an exponent of at most 32 bits, `pow` gives a result of at most 1.
pub pow-le-one :
    (a : Decimal) (e : ℕ)
    → a ≤ digits
    → e < 2 ^ 32
    → (r : Decimal) × (pow a e ≡ ok r) × (r ≤ digits)
pow-le-one a zero ha he = (digits, pow-zero_lem a, omega arith)
pow-le-one a (suc zero) ha he = (a, pow-one_lem a, ha)
pow-le-one a (suc (suc e)) ha he =
    let (u, v, ends, hu, hv) = pow_loop-le 31 (suc (suc e)) a digits he ha (omega arith) in
    (
      rounded_mul u v,
      pow-more a (suc (suc e)) (omega arith) he ∙ ap pow_end ends ∙ pow_end-some u v,
      rounded_mul-le u v hu hv,
    )

-- Whole numbers, which as decimals are multiples of `digits`.
rounded_mul_whole : (a b : ℕ) → rounded_mul (a * digits) (b * digits) ≡ (a * b) * digits
unfolding rounded_mul
rounded_mul_whole a b = omega arith

pow-one : (n : ℕ) → n ^ 1 ≡ n
pow-one n = rw (pow-suc, pow-zero) (omega arith)

power_of_one : (e n m : ℕ) → 0 < e → e ≤ 1 → n * m ≡ n ^ e * m
power_of_one e n m p h = let e' : e ≡ 1 = omega arith in rw e' (rw (pow-one n) refl)

pow-square : (n k : ℕ) → (n * n) ^ k ≡ n ^ k * n ^ k
pow-square n zero = rw (pow-zero, pow-zero) refl
pow-square n (suc k) = rw (pow-suc, pow-square n k, pow-suc) (omega arith)

pow-twice : (n k : ℕ) → n ^ (2 * k) ≡ n ^ k * n ^ k
pow-twice n zero = rw (pow-zero) refl
pow-twice n (suc k) =
    ap (λ (j : ℕ). n ^ j) (twice-suc k)
    ∙ rw (pow-suc, pow-suc, pow-twice n k, pow-suc) (omega arith)
  where
    twice-suc : (j : ℕ) → 2 * suc j ≡ suc (suc (2 * j))
    twice-suc j = omega arith

pow-odd : (n k : ℕ) → n ^ (2 * k + 1) ≡ n ^ k * n ^ k * n
pow-odd n k = rw (add-one, pow-suc, pow-twice n k) refl

-- One round keeps the product of the power and the second variable.
round_keeps : (e n m : ℕ) → (n * n) ^ (e / 2) * (if e % 2 == 1 then n * m else m) ≡ n ^ e * m
round_keeps e n m = elim (Bool-cases (e % 2 == 1)) [
  | inl odd ↦
      let e' : e ≡ 2 * (e / 2) + 1 = ground arith in
      rw (odd, pow-square n (e / 2))
        (omega (arith, ap (λ (j : ℕ). n ^ j * m) e', ap (λ (j : ℕ). j * m) (pow-odd n (e / 2))))
  | inr even ↦
      let e' : e ≡ 2 * (e / 2) = ground arith in
      rw (even, pow-square n (e / 2))
        (omega (arith, ap (λ (j : ℕ). n ^ j * m) e', ap (λ (j : ℕ). j * m) (pow-twice n (e / 2))))
]

factor_whole :
    (e n m : ℕ) → factor e (n * digits) (m * digits) ≡ (if e % 2 == 1 then n * m else m) * digits
factor_whole e n m = ground (arith, rounded_mul_whole n m)

pow_loop-whole :
    (f e n m : ℕ)
    → 0 < e
    → e < 2 ^ suc f
    → (u v : ℕ) × (pow_loop (suc f) e (n * digits) (m * digits) ≡ some (u * digits, v * digits))
      × (u * v ≡ n ^ e * m)
pow_loop-whole zero e n m p h = (
  n,
  m,
  pow_loop-done zero e (n * digits) (m * digits) (small e h),
  power_of_one e n m p (small e h),
)
pow_loop-whole (suc f) e n m p h = elim (Bool-cases (ltb 1 e)) [
  | inl more ↦
      let m' : ℕ = if e % 2 == 1 then n * m else m in
      let (u, v, ends, product) =
        pow_loop-whole f (e / 2) (n * n) m' (ground arith) (half-lt (suc f) e h) in
      (
        u,
        v,
        pow_loop-more (suc f) e (n * digits) (m * digits) (ground arith)
            ∙ rw (rounded_mul_whole n n, factor_whole e n m) ends,
        product ∙ round_keeps e n m,
      )
  | inr done ↦ (
    n,
    m,
    pow_loop-done (suc f) e (n * digits) (m * digits) (ground arith),
    power_of_one e n m p (ground arith),
  )
]

-- On whole numbers `pow` is exact: it is the power of the numbers, for every exponent of at most 32
-- bits.
pub pow_whole : (n e : ℕ) → e < 2 ^ 32 → pow (n * digits) e ≡ ok (n ^ e * digits)
pow_whole n zero h = pow-zero_lem (n * digits) ∙ rw (pow-zero) (ap ok (omega arith))
pow_whole n (suc zero) h = pow-one_lem (n * digits) ∙ rw (pow-one n) refl
pow_whole n (suc (suc e)) h =
    let (u, v, ends, product) = pow_loop-whole 31 (suc (suc e)) n 1 (omega arith) h in
    pow-more (n * digits) (suc (suc e)) (omega arith) h
    ∙ ap pow_end ends
    ∙ pow_end-some (u * digits) (v * digits)
    ∙ ap ok (rounded_mul_whole u v ∙ ap (λ (j : ℕ). j * digits) (product ∙ mul-one _))
