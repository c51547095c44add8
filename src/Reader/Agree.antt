-- ===== src/Reader/Agree.antt =====
-- The store that was loaded from a block answers as the reader does at that block
-- (packages/lib-ethers/src/ReadableEthersLiquity.ts, packages/lib-ethers/src/BlockPolledLiquityStore.ts).
use Prim.Native.String.{String}
use text.Mathlib.TextEquality.{eq_iff}
use stability_protocol.Base.{
  ℕ, true, false, ==-refl, Option, none, some, Result, ok, ◌>>=◌, ◌≡◌, ◌⊎◌, inl, inr, refl,
}
use stability_protocol.Store.State.{BaseState, DerivedState, derive}
use stability_protocol.Store.Lifecycle.{Store, load, schedule_update}
use stability_protocol.Reader.{
  Reader, get_total_redistributed, get_trove_before_redistribution, get_user_trove,
  get_number_of_troves, get_price, get_total, get_symbol, get_collateral_address, get_user_deposit,
  get_thusd_in_stability_pool, get_thusd_balance, get_erc20_token_balance,
  get_erc20_token_allowance, get_collateral_surplus_balance, get_block_timestamp, reader_fees,
}
use stability_protocol.Reader.Polled.{ExtraState, zero_bamm_deposit, extra_state}
use stability_protocol.Reader.Stored.{
  CallOverrides, tag_of, block_hit, user_hit, stored_total_redistributed, stored_number_of_troves,
  stored_price, stored_total, stored_symbol, stored_collateral_address,
  stored_thusd_in_stability_pool, stored_pcv_balance, stored_is_stability_pools,
  stored_is_borrower_operations, stored_is_trove_manager, stored_mint_list,
  stored_trove_before_redistribution, stored_stability_deposit, stored_bamm_deposit,
  stored_thusd_balance, stored_erc20_token_balance, stored_erc20_token_allowance,
  stored_collateral_surplus_balance, stored_trove, stored_fees, stored_block_timestamp,
}

-- No tag, or that of the block.
abbrev pub AtBlock : Option ℕ → CallOverrides → Type 0
AtBlock tag overrides = (tag_of overrides ≡ none) ⊎ (tag_of overrides ≡ tag)

-- No address, or that of the user.
abbrev pub OfUser : String → Option String → Type 0
OfUser user address = (address ≡ none) ⊎ (address ≡ some user)

-- What the reader returns, as what is there.
abbrev pub present : {A : Type 0} → Result A → Result (Option A)
present fresh = do value ← fresh; ok (some value)

-- Each read through the store is the reader's at the block, but for two that are always zero.
pub record IsFaithful (r : Reader) (tag : Option ℕ) (user : String) (s : Store ExtraState)
    (overrides : CallOverrides) (address : Option String) : Type 0 where
  pub same_total_redistributed :
      stored_total_redistributed r s overrides ≡ present (ok (get_total_redistributed r tag))
  pub same_number_of_troves :
      stored_number_of_troves r s overrides ≡ present (ok (get_number_of_troves r tag))
  pub same_price : stored_price r s overrides ≡ present (ok (get_price r tag))
  pub same_total : stored_total r s overrides ≡ present (ok (get_total r tag))
  pub same_symbol : stored_symbol r s overrides ≡ present (ok (get_symbol r tag))
  pub same_collateral_address :
      stored_collateral_address r s overrides ≡ present (ok (get_collateral_address r tag))
  pub same_thusd_in_stability_pool :
      stored_thusd_in_stability_pool r s overrides
      ≡ present (ok (get_thusd_in_stability_pool r tag))
  pub same_is_stability_pools :
      stored_is_stability_pools r s overrides ≡ present (ok (r.answers tag).is_stability_pools)
  pub same_is_borrower_operations :
      stored_is_borrower_operations r s overrides
      ≡ present (ok (r.answers tag).is_borrower_operations)
  pub same_is_trove_manager :
      stored_is_trove_manager r s overrides ≡ present (ok (r.answers tag).is_trove_manager)
  pub same_mint_list : stored_mint_list r s overrides ≡ present (ok (r.answers tag).mint_list)
  pub same_timestamp :
      stored_block_timestamp r s overrides ≡ present (ok (get_block_timestamp r tag))
  pub same_fees : stored_fees r s overrides ≡ present (reader_fees r tag)
  pub same_trove_before_redistribution :
      stored_trove_before_redistribution r s address overrides
      ≡ present (get_trove_before_redistribution r (some user) tag)
  pub same_stability_deposit :
      stored_stability_deposit r s address overrides ≡ present (get_user_deposit r (some user) tag)
  pub same_thusd_balance :
      stored_thusd_balance r s address overrides ≡ present (get_thusd_balance r (some user) tag)
  pub same_erc20_token_balance :
      stored_erc20_token_balance r s address overrides
      ≡ present (get_erc20_token_balance r (some user) tag)
  pub same_erc20_token_allowance :
      stored_erc20_token_allowance r s address overrides
      ≡ present (get_erc20_token_allowance r (some user) tag)
  pub same_collateral_surplus_balance :
      stored_collateral_surplus_balance r s address overrides
      ≡ present (get_collateral_surplus_balance r (some user) tag)
  pub same_trove : stored_trove r s address overrides ≡ present (get_user_trove r (some user) tag)
  pub zero_pcv_balance : stored_pcv_balance r s overrides ≡ ok (some 0)
  pub zero_bamm :
      (ids : ℕ × ℕ) → stored_bamm_deposit r s ids address overrides ≡ ok (some zero_bamm_deposit)

-- A store with these three parts.
abbrev pub Holds : Store ExtraState → BaseState → DerivedState → ExtraState → Type 0
Holds s base d extra =
    (s.base_state ≡ some base) × (s.derived_state ≡ some d) × (s.extra_state ≡ some extra)

pub load-Holds :
    (s : Store ExtraState) (base : BaseState) (extra : ExtraState) (d : DerivedState)
    → s.loaded ≡ false
    → derive base ≡ ok d
    → Holds (load base (some extra) s).store base d extra
unfolding load schedule_update
load-Holds s base extra d fresh e = rw (fresh, e) (refl, refl, refl)

pub block_hit-AtBlock :
    (r : Reader) (s : Store ExtraState) (tag : Option ℕ) (overrides : CallOverrides)
    → s.extra_state ≡ some (extra_state r tag)
    → AtBlock tag overrides
    → block_hit r s overrides ≡ true
unfolding block_hit
block_hit-AtBlock r s tag overrides e (inl latest) = rw (e, latest) refl
block_hit-AtBlock r s none overrides e (inr same) = rw (e, same) refl
block_hit-AtBlock r s (some t) overrides e (inr same) = rw (e, same) (==-refl t)

pub user_hit-OfUser :
    (r : Reader) (s : Store ExtraState) (user : String) (address : Option String)
    (overrides : CallOverrides)
    → r.user_address ≡ some user
    → block_hit r s overrides ≡ true
    → OfUser user address
    → user_hit r s address overrides ≡ true
unfolding user_hit
user_hit-OfUser r s user address overrides connected hit (inl nobody) = rw (hit, nobody) refl
user_hit-OfUser r s user address overrides connected hit (inr same) =
    rw (hit, same, connected) ((eq_iff user user).1 refl)
