-- ===== src/Ethers/Tests/Chains.antt =====
-- A list of two Troves, a contract that answers of it, and a chain.
use stability_protocol.Base.{
  ℕ, ◌+◌, ◌-◌, ◌*◌, ◌≡◌, ◌⊎◌, false, leb, ◌==◌, some, List, [], ◌∷◌, ◌++◌, if◌then◌else◌, refl,
  arith, inl, inr, Bool-cases,
}
use stability_protocol.Decimal.{digits}
use stability_protocol.Trove.{trove}
use stability_protocol.Ethers.Hints.{HintContracts}
use stability_protocol.Ethers.Hints.Position.{IsPosition, ListLaws, without, first_of, last_of}
use stability_protocol.Ethers.Chain.{Chain}

abbrev pub two_troves : List ℕ
two_troves = 5 ∷ 3 ∷ []

abbrev pub ratio_of : ℕ → ℕ
ratio_of a = a

abbrev place : ℕ → ℕ × ℕ
place ratio = if leb ratio 3 then (3, 0) else if leb ratio 5 then (5, 3) else (0, 5)

abbrev pub two_contracts : HintContracts
two_contracts = record {
  number_of_troves = 2;
  price = 1500 * digits;
  get_first = 5;
  get_prev = λ a. if a == 3 then 5 else 0;
  get_next = λ a. if a == 5 then 3 else 0;
  find_insert_position = λ ratio prev next. place ratio;
  get_approx_hint = λ ratio number_of_trials seed. record {
    hint_address = 5;
    diff = seed;
    latest_random_seed = seed + 1;
  };
  get_redemption_hints = λ amount price iterations. record {
    first_redemption_hint = 3;
    partial_redemption_hint_nicr = 4;
    truncated_thusd_amount = amount - 1;
  };
}

-- Where a Trove stands in the list.
place_cases :
    (a : ℕ) (xs ys : List ℕ)
    → two_troves ≡ xs ++ a ∷ ys
    → ((xs ≡ []) × (a ≡ 5) × (ys ≡ 3 ∷ [])) ⊎ ((xs ≡ 5 ∷ []) × (a ≡ 3) × (ys ≡ []))
place_cases a [] ys e = inl (refl, cc, cc)
place_cases a (x ∷ []) ys e = inr (cc, cc, cc)
place_cases a (x ∷ y ∷ []) ys e = cc
place_cases a (x ∷ y ∷ z ∷ zs) ys e = cc

two_distinct :
    (a : ℕ) (xs ys : List ℕ) → two_troves ≡ xs ++ a ∷ ys → (without a xs ≡ xs) × (without a ys ≡ ys)
two_distinct a xs ys e = elim (place_cases a xs ys e) [
  | inl (x, is_a, y) ↦ rw (x, is_a, y) (refl, refl)
  | inr (x, is_a, y) ↦ rw (x, is_a, y) (refl, refl)
]

two_prev :
    (a : ℕ) (xs ys : List ℕ) → two_troves ≡ xs ++ a ∷ ys → two_contracts.get_prev a ≡ last_of xs
two_prev a xs ys e = elim (place_cases a xs ys e) [
  | inl (x, is_a, y) ↦ rw (x, is_a) refl
  | inr (x, is_a, y) ↦ rw (x, is_a) refl
]

two_next :
    (a : ℕ) (xs ys : List ℕ) → two_troves ≡ xs ++ a ∷ ys → two_contracts.get_next a ≡ first_of ys
two_next a xs ys e = elim (place_cases a xs ys e) [
  | inl (x, is_a, y) ↦ rw (is_a, y) refl
  | inr (x, is_a, y) ↦ rw (is_a, y) refl
]

place-IsPosition : (ratio : ℕ) → IsPosition ratio_of two_troves ratio (place ratio)
place-IsPosition ratio = elim (Bool-cases (leb ratio 3)) [
  | inl low ↦ rw low (record {
    before = two_troves;
    after = [];
    cut = refl;
    above = ground arith;
    below = tt;
    prev_is_last = refl;
    next_is_first = refl;
  })
  | inr above_low ↦ elim (Bool-cases (leb ratio 5)) [
    | inl between ↦
        rw (above_low, between)
          (record {
            before = 5 ∷ [];
            after = 3 ∷ [];
            cut = refl;
            above = ground arith;
            below = ground arith;
            prev_is_last = refl;
            next_is_first = refl;
          })
    | inr high ↦
        rw (above_low, high)
          (record {
            before = [];
            after = two_troves;
            cut = refl;
            above = tt;
            below = ground arith;
            prev_is_last = refl;
            next_is_first = refl;
          })
  ]
]

pub two_laws : ListLaws two_contracts two_troves ratio_of
two_laws = record {
  counted = refl;
  no_zero = ground arith;
  distinct = two_distinct;
  first_law = refl;
  prev_law = two_prev;
  next_law = two_next;
  insert_law = λ ratio prev next. place-IsPosition ratio;
}

-- The node estimates 300000 gas of every call, and the base rate is 0.
abbrev pub sample_chain : Chain
sample_chain = record {
  contracts = two_contracts;
  estimate = λ t. some 300000;
  last_fee_operation_time = 1_600_000_000;
  base_rate_without_decay = 0;
  block_timestamp = 1_600_000_000;
  total = trove (1000 * digits) (5000 * digits);
  collateral_address = 9;
  get_trove = λ a. trove (3 * digits) (2500 * digits);
  get_stability_deposit = λ a. record {
    initial_thusd = 100 * digits;
    current_thusd = 90 * digits;
    collateral_gain = 1 * digits;
  };
  get_bamm_deposit = λ a. record {
    bamm_pool_share = 0;
    pool_share = 0;
    initial_thusd = 0;
    current_usd = 0;
    current_thusd = 0;
    collateral_gain = 2 * digits;
    total_collateral_in_bamm = record { identity = 0; value = 0 };
    total_thusd_in_bamm = record { identity = 1; value = 0 };
  };
  bamm_stake = λ a. 100 * digits;
  user_address = some 5;
  bamm_address = 20;
  borrower_operations_address = 21;
  price_feed_is_testnet = false;
}
