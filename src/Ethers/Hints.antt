-- ===== src/Ethers/Hints.antt =====
-- The search for hints (packages/lib-ethers/src/PopulatableEthersLiquity.ts). An address is a number, `AddressZero`
-- is 0. The contracts that the search calls are a record of functions, which answer of one block.
pub mod Position
pub mod Found
use stability_protocol.Base.{
  ℕ, ◌+◌, ◌≡◌, Bool, true, false, ltb, ◌==◌, Option, none, some, List, [], ◌∷◌, ◌++◌, if◌then◌else◌,
  Result, ok, err, ◌>>=◌, ◌>>◌, type_error, rewards_not_applied,
}
use stability_protocol.Decimal.{Decimal, infinite}
use stability_protocol.Trove.{Trove, nominal_collateral_ratio}
use stability_protocol.Trove.User.{PendingTrove}
use stability_protocol.Ethers.Gas.{ceil_ten_sqrt, redeem_max_iterations}
use stability_protocol.Ethers.Trials.{generate_trials}

pub record ApproxHint : Type 0 where
  pub hint_address : ℕ
  pub diff : ℕ
  pub latest_random_seed : ℕ

pub record RedemptionHints : Type 0 where
  pub first_redemption_hint : ℕ
  pub partial_redemption_hint_nicr : ℕ
  pub truncated_thusd_amount : ℕ

-- `SortedTroves`, `HintHelpers` and the readable interface, as far as the search calls them.
pub record HintContracts : Type 0 where
  pub number_of_troves : ℕ
  pub price : Decimal
  pub get_first : ℕ
  pub get_prev : ℕ → ℕ
  pub get_next : ℕ → ℕ
  pub find_insert_position : (nicr prev next : ℕ) → ℕ × ℕ
  pub get_approx_hint : (nicr number_of_trials seed : ℕ) → ApproxHint
  pub get_redemption_hints : (amount price iterations : ℕ) → RedemptionHints

pub record SearchState : Type 0 where
  pub latest_random_seed : ℕ
  pub results : List ApproxHint

unfoldable pub collect_approx_hint : HintContracts → Decimal → SearchState → ℕ → SearchState
collect_approx_hint c ratio state number_of_trials =
    let result = c.get_approx_hint ratio number_of_trials state.latest_random_seed in
    record {
      latest_random_seed = result.latest_random_seed;
      results = state.results ++ (result ∷ []);
    }

-- `restOfTrials.reduce(...)`.
unfoldable pub collect_all : HintContracts → Decimal → SearchState → List ℕ → SearchState
collect_all c ratio state [] = state
collect_all c ratio state (n ∷ ns) = collect_all c ratio (collect_approx_hint c ratio state n) ns

abbrev pub closer : ApproxHint → ApproxHint → ApproxHint
closer a b = if ltb a.diff b.diff then a else b

unfoldable pub closest_from : ApproxHint → List ApproxHint → ApproxHint
closest_from a [] = a
closest_from a (b ∷ results) = closest_from (closer a b) results

-- `results.reduce(...)`, which throws on an empty array.
unfoldable pub closest : List ApproxHint → Result ApproxHint
closest [] = err type_error
closest (a ∷ results) = ok (closest_from a results)

unfoldable pub approx_hint : HintContracts → Decimal → (seed : ℕ) → List ℕ → Result ApproxHint
approx_hint c ratio seed [] = err type_error
approx_hint c ratio seed (first_trials ∷ rest_of_trials) =
    closest
      (collect_all c ratio
        (collect_approx_hint c ratio (record { latest_random_seed = seed; results = [] })
          first_trials)
        rest_of_trials).results

-- "Jump over" the Trove that is reinserted.
unfoldable pub jump_over : HintContracts → Option ℕ → ℕ × ℕ → ℕ × ℕ
jump_over c none (prev, next) = (prev, next)
jump_over c (some own_address) (prev, next) =
    if prev == own_address
    then (c.get_prev prev, next)
    else if next == own_address
    then (prev, c.get_next next)
    else (prev, next)

unfoldable pub without_zero : ℕ × ℕ → ℕ × ℕ
without_zero (prev, next) =
    if prev == 0 then (next, next) else if next == 0 then (prev, prev) else (prev, next)

-- The search in a list with a Trove, for a ratio that is not infinite.
unfoldable pub search_hints : HintContracts → (seed : ℕ) → Decimal → Option ℕ → Result (ℕ × ℕ)
search_hints c seed ratio own_address = do
  trials ← generate_trials (ceil_ten_sqrt c.number_of_troves)
  hint ← approx_hint c ratio seed trials
  ok (
      without_zero (
        jump_over c own_address (c.find_insert_position ratio hint.hint_address hint.hint_address)))

unfoldable pub find_hints_for_nominal_collateral_ratio :
    HintContracts → (seed : ℕ) → Decimal → Option ℕ → Result (ℕ × ℕ)
find_hints_for_nominal_collateral_ratio c seed ratio own_address =
    if c.number_of_troves == 0
    then ok (0, 0)
    else if infinite ratio
    then ok (0, c.get_first)
    else search_hints c seed ratio own_address

-- A `Trove`, or the instance of it whose rewards are not applied.
pub data AnyTrove : Type 0 where
  applied : (trove : Trove) → AnyTrove
  pending : (trove : PendingTrove) → AnyTrove

unfoldable pub find_hints : HintContracts → (seed : ℕ) → AnyTrove → Option ℕ → Result (ℕ × ℕ)
find_hints c seed (pending trove) own_address = err rewards_not_applied
find_hints c seed (applied trove) own_address =
    find_hints_for_nominal_collateral_ratio c seed (nominal_collateral_ratio trove) own_address

pub record FoundRedemptionHints : Type 0 where
  pub truncated_amount : Decimal
  pub first_redemption_hint : ℕ
  pub partial_redemption_hints : ℕ × ℕ
  pub partial_redemption_hint_nicr : ℕ

unfoldable pub partial_hints : HintContracts → (seed : ℕ) → (nicr : ℕ) → Result (ℕ × ℕ)
partial_hints c seed nicr =
    if nicr == 0 then ok (0, 0) else find_hints_for_nominal_collateral_ratio c seed nicr none

unfoldable pub find_redemption_hints :
    HintContracts → (seed : ℕ) → Decimal → Result FoundRedemptionHints
find_redemption_hints c seed amount =
    let found = c.get_redemption_hints amount c.price redeem_max_iterations in
    do
      hints ← partial_hints c seed found.partial_redemption_hint_nicr
      ok (record {
        truncated_amount = found.truncated_thusd_amount;
        first_redemption_hint = found.first_redemption_hint;
        partial_redemption_hints = hints;
        partial_redemption_hint_nicr = found.partial_redemption_hint_nicr;
      })
