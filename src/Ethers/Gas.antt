-- ===== src/Ethers/Gas.antt =====
-- What the SDK adds to the gas estimates (packages/lib-ethers/src/PopulatableEthersLiquity.ts). `Math.log2`
-- and `Math.sqrt` are taken exactly, which `Math.ceil` of them is for arguments below 2 ^ 44.
use native.Mathlib.Nat.{le_trans, mul-le-mul, pow-suc, pow-zero}
use stability_protocol.Base.{
  ℕ, zero, suc, ◌+◌, ◌*◌, ◌^◌, ◌≤◌, ◌<◌, ◌≡◌, Bool, true, leb, ltb, Option, none, some, arith,
  if◌then◌else◌, refl, Result, ok, err, number_overflow, Bool-cases, inl, inr, ◌↔◌, pos-cases,
}
use stability_protocol.Decimal.{Decimal}

-- The first number from `k` on that passes, `fuel` numbers being tried before the last.
unfoldable pub first_from : (ℕ → Bool) → ℕ → ℕ → ℕ
first_from p zero k = k
first_from p (suc fuel) k = let rest = first_from p fuel (suc k) in if p k then k else rest

-- `Math.ceil(Math.log2(n))`.
unfoldable pub ceil_log2 : ℕ → ℕ
ceil_log2 n = first_from (λ k. leb n (2 ^ k)) n 0

-- `Math.ceil(10 * Math.sqrt(n))`.
unfoldable pub ceil_ten_sqrt : ℕ → ℕ
ceil_ten_sqrt n = first_from (λ k. leb (100 * n) (k * k)) (10 * n) 0

abbrev pub redeem_max_iterations : ℕ
redeem_max_iterations = 70

abbrev pub default_borrowing_rate_slippage_tolerance : Decimal
default_borrowing_rate_slippage_tolerance = 5000000000000000

abbrev pub default_redemption_rate_slippage_tolerance : Decimal
default_redemption_rate_slippage_tolerance = 1000000000000000

abbrev pub default_borrowing_fee_decay_tolerance_minutes : ℕ
default_borrowing_fee_decay_tolerance_minutes = 10

unfoldable pub big_number_max : ℕ → Option ℕ → ℕ
big_number_max a none = a
big_number_max a (some b) = if ltb a b then b else a

unfoldable pub add_gas_for_base_rate_update : ℕ → ℕ → ℕ
add_gas_for_base_rate_update minutes gas = gas + (10000 + 1414 * ceil_log2 (minutes + 1))

unfoldable pub add_gas_for_potential_list_traversal : ℕ → ℕ
add_gas_for_potential_list_traversal gas = gas + 80000

unfoldable pub add_gas_for_issuance : ℕ → ℕ
add_gas_for_issuance gas = gas + 50000

unfoldable pub simple_add_gas : ℕ → ℕ
simple_add_gas gas = gas + 1000

-- `BigNumber.toNumber` throws on what is not a safe integer.
unfoldable pub to_number : ℕ → Result ℕ
to_number n = if ltb n (2 ^ 53) then ok n else err number_overflow

pub first_from-passes :
    (p : ℕ → Bool) (fuel k : ℕ) → p (k + fuel) ≡ true → p (first_from p fuel k) ≡ true
unfolding first_from
first_from-passes p zero k h = ground arith
first_from-passes p (suc fuel) k h = elim (Bool-cases (p k)) [
  | inl passes ↦ rw passes passes
  | inr fails ↦ rw fails (first_from-passes p fuel (suc k) (ground arith))
]

pub first_from-le : (p : ℕ → Bool) (fuel k j : ℕ) → k ≤ j → p j ≡ true → first_from p fuel k ≤ j
unfolding first_from
first_from-le p zero k j le h = le
first_from-le p (suc fuel) k j le h = elim (Bool-cases (p k)) [
  | inl passes ↦ rw passes le
  | inr fails ↦ rw fails (first_from-le p fuel (suc k) j (ground arith) h)
]

-- The root that is rounded up: it is at most the numbers whose square is at least a hundredfold of `n`.
pub ceil_ten_sqrt-le_iff : (n k : ℕ) → (ceil_ten_sqrt n ≤ k) ↔ (100 * n ≤ k * k)
unfolding ceil_ten_sqrt
ceil_ten_sqrt-le_iff n k = (
  λ le. le_square (ten_sqrt-passes n) le,
  λ enough. first_from-le (λ j. leb (100 * n) (j * j)) (10 * n) 0 k (omega arith) (ground arith),
)
  where
    ten_sqrt-passes :
        (n : ℕ)
        → leb (100 * n) (
            first_from (λ j. leb (100 * n) (j * j)) (10 * n) 0
            * first_from (λ j. leb (100 * n) (j * j)) (10 * n) 0)
          ≡ true
    ten_sqrt-passes zero = first_from-passes (λ j. leb (100 * 0) (j * j)) (10 * 0) 0 refl
    ten_sqrt-passes (suc m) =
        first_from-passes (λ j. leb (100 * suc m) (j * j)) (10 * suc m) 0 (ground arith)

    le_square : {a b c : ℕ} → leb a (b * b) ≡ true → b ≤ c → a ≤ c * c
    le_square {a} {b} {c} passes le =
        le_trans (let e : a ≤ b * b = ground arith in e) (mul-le-mul le le)

pub ceil_ten_sqrt-pos : (n : ℕ) → 0 < n → 0 < ceil_ten_sqrt n
ceil_ten_sqrt-pos n pos = elim (pos-cases (ceil_ten_sqrt n)) [
  | inl nil ↦
      let le : 100 * n ≤ 0 * 0 = (ceil_ten_sqrt-le_iff n 0).0 (omega arith) in absurd (omega arith)
  | inr above ↦ above
]

pub ceil_log2-le : (n : ℕ) → ceil_log2 n ≤ n
unfolding ceil_log2
ceil_log2-le n =
    first_from-le (λ k. leb n (2 ^ k)) n 0 n (omega arith) (le→leb (omega (arith, below_power n)))
  where
    le→leb : {a b : ℕ} → a ≤ b → leb a b ≡ true
    le→leb h = ground arith

    below_power : (n : ℕ) → n < 2 ^ n
    below_power zero = omega (arith, pow-zero 2)
    below_power (suc n) = omega (arith, below_power n, pow-suc 2 n)

-- The limit covers both estimates, and what updating the base rate costs.
pub base_rate_update_covers :
    (minutes now later : ℕ)
    → (now + 90000
        ≤ add_gas_for_base_rate_update minutes
            (big_number_max (add_gas_for_potential_list_traversal now) (some later)))
      × (later + 10000
          ≤ add_gas_for_base_rate_update minutes
              (big_number_max (add_gas_for_potential_list_traversal now) (some later)))
unfolding add_gas_for_base_rate_update big_number_max add_gas_for_potential_list_traversal
base_rate_update_covers minutes now later = ground arith

pub base_rate_update_bounded :
    (minutes now later : ℕ)
    → now < 2 ^ 52
    → later < 2 ^ 52
    → minutes < 2 ^ 40
    → add_gas_for_base_rate_update minutes
        (big_number_max (add_gas_for_potential_list_traversal now) (some later))
      < 2 ^ 53
unfolding add_gas_for_base_rate_update big_number_max add_gas_for_potential_list_traversal
base_rate_update_bounded minutes now later few small short =
    ground (arith, ceil_log2-le (minutes + 1))

pub to_number-ok : (n : ℕ) → n < 2 ^ 53 → to_number n ≡ ok n
unfolding to_number
to_number-ok n small = ground arith

-- The limit of an adjustment, whose second estimate may be missing.
pub traversal_covers :
    (now : ℕ) (later : Option ℕ)
    → (now + 80000 ≤ big_number_max (add_gas_for_potential_list_traversal now) later)
      × ((gas : ℕ)
          → later ≡ some gas
          → gas ≤ big_number_max (add_gas_for_potential_list_traversal now) later)
unfolding big_number_max add_gas_for_potential_list_traversal
traversal_covers now later = ground arith

pub traversal_bounded :
    (now : ℕ) (later : Option ℕ)
    → now < 2 ^ 52
    → ((gas : ℕ) → later ≡ some gas → gas < 2 ^ 52)
    → big_number_max (add_gas_for_potential_list_traversal now) later < 2 ^ 52 + 80000
unfolding big_number_max add_gas_for_potential_list_traversal
traversal_bounded now none few small = omega arith
traversal_bounded now (some later) few small = ground (arith, small later refl)

pub base_rate_update_grows :
    (minutes gas : ℕ)
    → minutes < 2 ^ 40
    → (gas ≤ add_gas_for_base_rate_update minutes gas)
      × (add_gas_for_base_rate_update minutes gas < gas + 2 ^ 51)
unfolding add_gas_for_base_rate_update
base_rate_update_grows minutes gas short = omega (arith, ceil_log2-le (minutes + 1))
