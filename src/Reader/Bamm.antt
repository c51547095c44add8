-- ===== src/Reader/Bamm.antt =====
-- `getBammDeposit` (packages/lib-ethers/src/ReadableEthersLiquity.ts). The two totals are fresh objects, with the identities that
-- are given.
use Prim.Native.String.{String}
use stability_protocol.Base.{ℕ, ◌+◌, ◌*◌, ◌/◌, ltb, Option, none, Result, ok, ◌>>=◌, if◌then◌else◌}
use stability_protocol.Decimal.{Decimal, digits, div, mul, mul_div}
use stability_protocol.Deposit.Bamm.{BammDeposit}
use stability_protocol.Reader.{Reader, address_or_user}

-- `stake.mul(amount).div(total)` of a total above zero, and zero otherwise.
abbrev pub part_of : (total stake amount : ℕ) → ℕ
part_of total stake amount = if ltb 0 total then stake * amount / total else 0

unfoldable pub bamm_share : (current_bamm total_in_sp : ℕ) → Decimal
bamm_share current_bamm total_in_sp =
    if ltb 0 total_in_sp then div (mul current_bamm (100 * digits)) total_in_sp else 0

-- The balance of the B.AMM's account is read at the latest block.
unfoldable pub bamm_collateral : Reader → Option ℕ → ℕ
bamm_collateral r tag =
    (r.answers none).native_balance r.bamm_address + (r.answers tag).collateral_gain r.bamm_address

unfoldable pub bamm_deposit_of : Reader → (ids : ℕ × ℕ) → String → Option ℕ → BammDeposit
bamm_deposit_of r ids owner tag =
    let total = (r.answers tag).bamm_total in
    let stake = (r.answers tag).bamm_stake owner in
    let current_bamm = (r.answers tag).compounded_deposit r.bamm_address in
    let current_thusd = part_of total stake current_bamm in
    let current_collateral = part_of total stake (bamm_collateral r tag) in
    record {
      bamm_pool_share = if ltb 0 total then mul_div stake (100 * digits) total else 0;
      pool_share =
          if ltb 0 total
          then div (mul (bamm_share current_bamm (r.answers tag).total_thusd_deposits) stake) total
          else 0;
      initial_thusd = (r.answers tag).deposits owner;
      current_usd = current_thusd + current_collateral * (r.answers tag).fetch_price / digits;
      current_thusd = current_thusd;
      collateral_gain = current_collateral;
      total_collateral_in_bamm = record { identity = ids.0; value = bamm_collateral r tag };
      total_thusd_in_bamm = record { identity = ids.1; value = current_bamm };
    }

unfoldable pub get_bamm_deposit :
    Reader → (ids : ℕ × ℕ) → Option String → Option ℕ → Result BammDeposit
get_bamm_deposit r ids address tag = do
  owner ← address_or_user address r.user_address
  ok (bamm_deposit_of r ids owner tag)
