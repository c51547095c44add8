-- ===== src/Trove/Params.antt =====
-- Normalising the parameters of a transaction, and `create`, `recreate`, `adjust` and `adjustTo`, which
-- rest on it (packages/lib-base/src/Trove.ts). An object of parameters is the list of its entries;
-- `undefined` is `none`.
pub mod Normal
use Prim.Native.String.{String}
use text.Mathlib.Text.{◌==◌ as str_eq}
use stability_protocol.Base.{
  Bool, true, false, not, ◌||◌, Option, none, some, List, [], ◌∷◌, Result, ok, err, ◌>>=◌, ◌>>◌,
  guard, throw_if, property_not_allowed, property_missing, both_collateral_changes,
  both_debt_changes, no_nonzero_parameter, assertion_failed, if◌then◌else◌,
}
use stability_protocol.Decimal.{Decimal, is_zero}
use stability_protocol.Decimal.Text.{Decimalish, from}
use stability_protocol.Constants.{minimum_borrowing_rate}
use stability_protocol.Trove.{Trove, empty_trove}
use stability_protocol.Trove.Change.{
  CreationParams, AdjustmentParams, TroveChange, invalid_creation, creation, closure, adjustment,
  what_changed, apply,
}

abbrev pub Entries : Type 0 → Type 0
Entries A = List (String × A)

-- `Object.entries(params).filter(valueIsDefined)`.
unfoldable pub defined : Entries (Option Decimalish) → Entries Decimalish
defined [] = []
defined ((k, none) ∷ m) = defined m
defined ((k, some v) ∷ m) = (k, v) ∷ defined m

abbrev pub allowed_creation_key : String → Bool
allowed_creation_key k = str_eq k "depositCollateral" || str_eq k "borrowTHUSD"

abbrev pub allowed_adjustment_key : String → Bool
allowed_adjustment_key k =
    str_eq k "depositCollateral"
    || str_eq k "withdrawCollateral"
    || str_eq k "borrowTHUSD"
    || str_eq k "repayTHUSD"

unfoldable pub has_bad_key : (String → Bool) → Entries Decimalish → Bool
has_bad_key allowed [] = false
has_bad_key allowed ((k, v) ∷ m) = not (allowed k) || has_bad_key allowed m

unfoldable pub check_allowed_keys : (String → Bool) → Entries Decimalish → Result (Unit {0})
check_allowed_keys allowed m = throw_if (has_bad_key allowed m) property_not_allowed

unfoldable pub decimalize : Entries Decimalish → Result (Entries Decimal)
decimalize [] = ok []
decimalize ((k, v) ∷ m) = do d ← from v; rest ← decimalize m; ok ((k, d) ∷ rest)

-- `.filter(nonZero)`.
unfoldable pub non_zero_entries : Entries Decimal → Entries Decimal
non_zero_entries [] = []
non_zero_entries ((k, v) ∷ m) =
    if is_zero v then non_zero_entries m else (k, v) ∷ non_zero_entries m

abbrev pub or_else : Option Decimal → Option Decimal → Option Decimal
or_else (some v) other = some v
or_else none other = other

-- A property of `Object.fromEntries(entries)`: the last entry of a key counts.
unfoldable pub field : String → Entries Decimal → Option Decimal
field key [] = none
field key ((k, v) ∷ m) = or_else (field key m) (if str_eq k key then some v else none)

unfoldable pub creation_params_from : Option Decimal → Option Decimal → Result CreationParams
creation_params_from (some c) (some b) = ok (record { deposit_collateral = c; borrow_thusd = b })
creation_params_from _ _ = err property_missing

unfoldable pub normalize_trove_creation : Entries (Option Decimalish) → Result CreationParams
normalize_trove_creation params = do
  check_allowed_keys allowed_creation_key (defined params)
  entries ← decimalize (defined params)
  creation_params_from (field "depositCollateral" entries) (field "borrowTHUSD" entries)

abbrev pub both_present : Option Decimal → Option Decimal → Bool
both_present (some a) (some b) = true
both_present _ _ = false

abbrev pub all_absent : Option Decimal → Option Decimal → Option Decimal → Option Decimal → Bool
all_absent none none none none = true
all_absent _ _ _ _ = false

-- `troveAdjustmentParamsFromEntries`, with its two helpers: the collateral is checked first.
unfoldable pub adjustment_params_from : AdjustmentParams → Result AdjustmentParams
adjustment_params_from p = do
  throw_if (both_present p.deposit_collateral p.withdraw_collateral) both_collateral_changes
  throw_if (both_present p.borrow_thusd p.repay_thusd) both_debt_changes
  throw_if (all_absent p.deposit_collateral p.withdraw_collateral p.borrow_thusd p.repay_thusd)
      no_nonzero_parameter
  ok p

unfoldable pub fields : Entries Decimal → AdjustmentParams
fields entries = record {
  deposit_collateral = field "depositCollateral" entries;
  withdraw_collateral = field "withdrawCollateral" entries;
  borrow_thusd = field "borrowTHUSD" entries;
  repay_thusd = field "repayTHUSD" entries;
}

unfoldable pub normalize_trove_adjustment : Entries (Option Decimalish) → Result AdjustmentParams
normalize_trove_adjustment params = do
  check_allowed_keys allowed_adjustment_key (defined params)
  entries ← decimalize (defined params)
  adjustment_params_from (fields (non_zero_entries entries))

-- The default of the borrowing rate in `whatChanged` and `apply`.
abbrev pub rate_or_default : Option Decimal → Decimal
rate_or_default none = minimum_borrowing_rate
rate_or_default (some rate) = rate

unfoldable pub create : Entries (Option Decimalish) → Option Decimal → Result Trove
create params rate = do
  p ← normalize_trove_creation params
  apply empty_trove (some (creation p)) (rate_or_default rate)

abbrev pub assert_creation : Option TroveChange → Result CreationParams
assert_creation (some (creation p)) = ok p
assert_creation _ = err assertion_failed

unfoldable pub recreate : Trove → Option Decimal → Result CreationParams
recreate that rate = do
  change ← what_changed empty_trove that (rate_or_default rate)
  assert_creation change

unfoldable pub adjust : Trove → Entries (Option Decimalish) → Option Decimal → Result Trove
adjust this params rate = do
  p ← normalize_trove_adjustment params
  apply this (some (adjustment p none)) (rate_or_default rate)

abbrev pub assert_adjustment : Option TroveChange → Result AdjustmentParams
assert_adjustment (some (adjustment p z)) = ok p
assert_adjustment _ = err assertion_failed

unfoldable pub adjust_to : Trove → Trove → Option Decimal → Result AdjustmentParams
adjust_to this that rate = do
  change ← what_changed this that (rate_or_default rate)
  assert_adjustment change
