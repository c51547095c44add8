-- ===== src/Reader/Listing.antt =====
-- `getTroves` (packages/lib-ethers/src/ReadableEthersLiquity.ts), of numbers that are whole.
use stability_protocol.Base.{
  ℕ, Bool, true, false, Option, none, some, List, map, Result, ok, ◌>>=◌, ◌>>◌, throw_if,
  property_not_allowed,
}
use stability_protocol.Base.Int.{ℤ, pos, negsuc, pos_part}
use stability_protocol.Trove.{trove}
use stability_protocol.Trove.User.{opened, UserTrove, PendingTrove, apply_redistribution}
use stability_protocol.Reader.{ListedTrove, Reader, get_total_redistributed}

pub data Sorting : Type 0 where
  ascending_collateral_ratio descending_collateral_ratio invalid_sorting : Sorting

pub record ListingParams : Type 0 where
  pub first : ℤ
  pub sorted_by : Sorting
  pub starting_at : Option ℤ

abbrev pub is_negative : ℤ → Bool
is_negative (pos n) = false
is_negative (negsuc n) = true

-- `expectPositiveInt`.
unfoldable pub expect_positive_int : Option ℤ → Result (Unit {0})
expect_positive_int none = ok tt
expect_positive_int (some n) = throw_if (is_negative n) property_not_allowed

abbrev pub is_invalid : Sorting → Bool
is_invalid invalid_sorting = true
is_invalid _ = false

abbrev pub start_or_zero : Option ℤ → ℕ
start_or_zero none = 0
start_or_zero (some n) = pos_part n

-- The contract counts from the start of the list, or from its end with numbers below zero.
unfoldable pub start_index : Sorting → ℕ → ℤ
start_index descending_collateral_ratio start = pos start
start_index _ start = negsuc start

-- `mapBackendTroves`.
abbrev pub from_list : ListedTrove → PendingTrove
from_list t = record {
  user = record { base = trove t.coll t.debt; owner_address = t.owner; status = opened };
  stake = t.stake;
  snapshot_of_total_redistributed = trove t.snapshot_collateral t.snapshot_thusd_debt;
}

unfoldable pub get_troves_before_redistribution :
    Reader → ListingParams → Option ℕ → Result (List PendingTrove)
get_troves_before_redistribution r params tag = do
  expect_positive_int (some params.first)
  expect_positive_int params.starting_at
  throw_if (is_invalid params.sorted_by) property_not_allowed
  ok (
      map from_list (
        (r.answers tag).get_multiple_sorted_troves
          (start_index params.sorted_by (start_or_zero params.starting_at))
          (pos_part params.first)))

unfoldable pub get_troves : Reader → ListingParams → Option ℕ → Result (List UserTrove)
get_troves r params tag = do
  troves ← get_troves_before_redistribution r params tag
  ok (map (λ t. apply_redistribution t (get_total_redistributed r tag)) troves)
