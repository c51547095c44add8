-- ===== src/Reader/Stored.antt =====
-- The reader that answers from the store of its blocks (packages/lib-ethers/src/ReadableEthersLiquity.ts). What the store does not hold
-- yet is `undefined`.
use Prim.Native.String.{String}
use text.Mathlib.Text.{◌==◌ as str_eq}
use stability_protocol.Base.{
  ℕ, Bool, true, false, ◌&&◌, ◌==◌, Option, none, some, Result, ok, ◌>>=◌,
}
use stability_protocol.Decimal.{Decimal}
use stability_protocol.Fees.{Fees}
use stability_protocol.Trove.{Trove}
use stability_protocol.Trove.User.{UserTrove, PendingTrove}
use stability_protocol.Deposit.Stability.{StabilityDeposit}
use stability_protocol.Deposit.Bamm.{BammDeposit}
use stability_protocol.Store.State.{BaseState, DerivedState}
use stability_protocol.Store.Lifecycle.{Store}
use stability_protocol.Reader.{
  Reader, get_total_redistributed, get_trove_before_redistribution, get_user_trove,
  get_number_of_troves, get_price, get_total, get_symbol, get_collateral_address, get_user_deposit,
  get_thusd_in_stability_pool, get_pcv_balance, get_thusd_balance, get_erc20_token_balance,
  get_erc20_token_allowance, get_collateral_surplus_balance, get_block_timestamp, reader_fees,
}
use stability_protocol.Reader.Bamm.{get_bamm_deposit}
use stability_protocol.Reader.Polled.{ExtraState}

-- `overrides?.blockTag`: no overrides, or overrides with a tag or without.
abbrev pub CallOverrides : Type 0
CallOverrides = Option (Option ℕ)

abbrev pub tag_of : CallOverrides → Option ℕ
tag_of none = none
tag_of (some tag) = tag

abbrev pub same_tag : ℕ → Option ℕ → Bool
same_tag tag none = false
same_tag tag (some other) = tag == other

abbrev pub block_tag_of : Option ExtraState → Option ℕ
block_tag_of none = none
block_tag_of (some e) = e.block_tag

abbrev pub mapped : {A B : Type 0} → (A → B) → Option A → Option B
mapped f none = none
mapped f (some a) = some (f a)

abbrev pub same_user : String → Option String → Bool
same_user address none = false
same_user address (some user) = str_eq address user

abbrev pub is_user : Option String → Option String → Bool
is_user none user = true
is_user (some address) user = same_user address user

abbrev pub hits : Option ℕ → Option ExtraState → Bool
hits none extra = true
hits (some tag) extra = same_tag tag (block_tag_of extra)

module _ (r : Reader) (s : Store ExtraState) where
  unfoldable pub block_hit : CallOverrides → Bool
  block_hit overrides = hits (tag_of overrides) s.extra_state

  unfoldable pub user_hit : Option String → CallOverrides → Bool
  user_hit address overrides = block_hit overrides && is_user address r.user_address

-- The store's value where it is the one that is asked for, and the reader's otherwise.
abbrev pub stored_or : {A : Type 0} → Bool → Option A → Result A → Result (Option A)
stored_or true stored fresh = ok stored
stored_or false stored fresh = do value ← fresh; ok (some value)

module _ (r : Reader) (s : Store ExtraState) where
  abbrev pub at_block :
      {A : Type 0} → CallOverrides → (BaseState → A) → Result A → Result (Option A)
  at_block overrides field fresh =
      stored_or (block_hit r s overrides) (mapped field s.base_state) fresh

  abbrev pub of_user :
      {A : Type 0} → Option String → CallOverrides → (BaseState → A) → Result A → Result (Option A)
  of_user address overrides field fresh =
      stored_or (user_hit r s address overrides) (mapped field s.base_state) fresh

  unfoldable pub stored_total_redistributed : CallOverrides → Result (Option Trove)
  stored_total_redistributed overrides =
      at_block overrides (λ b. b.total_redistributed)
        (ok (get_total_redistributed r (tag_of overrides)))

  unfoldable pub stored_number_of_troves : CallOverrides → Result (Option ℕ)
  stored_number_of_troves overrides =
      at_block overrides (λ b. b.number_of_troves) (ok (get_number_of_troves r (tag_of overrides)))

  unfoldable pub stored_price : CallOverrides → Result (Option Decimal)
  stored_price overrides = at_block overrides (λ b. b.price) (ok (get_price r (tag_of overrides)))

  unfoldable pub stored_total : CallOverrides → Result (Option Trove)
  stored_total overrides = at_block overrides (λ b. b.total) (ok (get_total r (tag_of overrides)))

  unfoldable pub stored_symbol : CallOverrides → Result (Option String)
  stored_symbol overrides =
      at_block overrides (λ b. b.symbol) (ok (get_symbol r (tag_of overrides)))

  unfoldable pub stored_collateral_address : CallOverrides → Result (Option String)
  stored_collateral_address overrides =
      at_block overrides (λ b. b.collateral_address)
        (ok (get_collateral_address r (tag_of overrides)))

  unfoldable pub stored_thusd_in_stability_pool : CallOverrides → Result (Option Decimal)
  stored_thusd_in_stability_pool overrides =
      at_block overrides (λ b. b.thusd_in_stability_pool)
        (ok (get_thusd_in_stability_pool r (tag_of overrides)))

  unfoldable pub stored_pcv_balance : CallOverrides → Result (Option Decimal)
  stored_pcv_balance overrides =
      at_block overrides (λ b. b.pcv_balance) (ok (get_pcv_balance r (tag_of overrides)))

  unfoldable pub stored_is_stability_pools : CallOverrides → Result (Option Bool)
  stored_is_stability_pools overrides =
      at_block overrides (λ b. b.is_stability_pools)
        (ok (r.answers (tag_of overrides)).is_stability_pools)

  unfoldable pub stored_is_borrower_operations : CallOverrides → Result (Option Bool)
  stored_is_borrower_operations overrides =
      at_block overrides (λ b. b.is_borrower_operations)
        (ok (r.answers (tag_of overrides)).is_borrower_operations)

  unfoldable pub stored_is_trove_manager : CallOverrides → Result (Option Bool)
  stored_is_trove_manager overrides =
      at_block overrides (λ b. b.is_trove_manager)
        (ok (r.answers (tag_of overrides)).is_trove_manager)

  unfoldable pub stored_mint_list : CallOverrides → Result (Option Bool)
  stored_mint_list overrides =
      at_block overrides (λ b. b.mint_list) (ok (r.answers (tag_of overrides)).mint_list)

  unfoldable pub stored_trove_before_redistribution :
      Option String → CallOverrides → Result (Option PendingTrove)
  stored_trove_before_redistribution address overrides =
      of_user address overrides (λ b. b.trove_before_redistribution)
        (get_trove_before_redistribution r address (tag_of overrides))

  unfoldable pub stored_stability_deposit :
      Option String → CallOverrides → Result (Option StabilityDeposit)
  stored_stability_deposit address overrides =
      of_user address overrides (λ b. b.stability_deposit)
        (get_user_deposit r address (tag_of overrides))

  unfoldable pub stored_bamm_deposit :
      (ids : ℕ × ℕ) → Option String → CallOverrides → Result (Option BammDeposit)
  stored_bamm_deposit ids address overrides =
      of_user address overrides (λ b. b.bamm_deposit)
        (get_bamm_deposit r ids address (tag_of overrides))

  unfoldable pub stored_thusd_balance : Option String → CallOverrides → Result (Option Decimal)
  stored_thusd_balance address overrides =
      of_user address overrides (λ b. b.thusd_balance)
        (get_thusd_balance r address (tag_of overrides))

  unfoldable pub stored_erc20_token_balance :
      Option String → CallOverrides → Result (Option Decimal)
  stored_erc20_token_balance address overrides =
      of_user address overrides (λ b. b.erc20_token_balance)
        (get_erc20_token_balance r address (tag_of overrides))

  unfoldable pub stored_erc20_token_allowance :
      Option String → CallOverrides → Result (Option Decimal)
  stored_erc20_token_allowance address overrides =
      of_user address overrides (λ b. b.erc20_token_allowance)
        (get_erc20_token_allowance r address (tag_of overrides))

  unfoldable pub stored_collateral_surplus_balance :
      Option String → CallOverrides → Result (Option Decimal)
  stored_collateral_surplus_balance address overrides =
      of_user address overrides (λ b. b.collateral_surplus_balance)
        (get_collateral_surplus_balance r address (tag_of overrides))

  unfoldable pub stored_trove : Option String → CallOverrides → Result (Option UserTrove)
  stored_trove address overrides =
      stored_or (user_hit r s address overrides)
        (mapped (λ (d : DerivedState). d.trove) s.derived_state)
        (get_user_trove r address (tag_of overrides))

  unfoldable pub stored_fees : CallOverrides → Result (Option Fees)
  stored_fees overrides =
      stored_or (block_hit r s overrides) (mapped (λ (d : DerivedState). d.fees) s.derived_state)
        (reader_fees r (tag_of overrides))

  unfoldable pub stored_block_timestamp : CallOverrides → Result (Option ℕ)
  stored_block_timestamp overrides =
      stored_or (block_hit r s overrides)
        (mapped (λ (e : ExtraState). e.block_timestamp) s.extra_state)
        (ok (get_block_timestamp r (tag_of overrides)))
