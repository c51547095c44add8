-- ===== src/Reader/Loaded.antt =====
-- The store that loads the state of a block is faithful to the reader (packages/lib-ethers/src/BlockPolledLiquityStore.ts).
use Prim.Native.String.{String}
use stability_protocol.Base.{
  ℕ, true, false, Option, none, some, ok, ◌≡◌, refl, sym, ap, subst, >>=-eq-ok,
}
use stability_protocol.Fees.{Fees, new_fees, set_recovery_mode, borrowing_rate, redemption_rate}
use stability_protocol.Trove.{is_below_critical}
use stability_protocol.Trove.User.{PendingTrove, apply_redistribution}
use stability_protocol.Store.State.{BaseState, DerivedState, derive}
use stability_protocol.Store.Lifecycle.{Store, load}
use stability_protocol.Ethers.Chain.{fees_factory}
use stability_protocol.Reader.{
  Reader, get_total_redistributed, get_trove_before_redistribution, get_user_trove, get_price,
  get_total, get_user_deposit, get_thusd_balance, get_erc20_token_balance,
  get_erc20_token_allowance, get_collateral_surplus_balance, get_block_timestamp, get_fees_factory,
  reader_fees,
}
use stability_protocol.Reader.Polled.{
  ExtraState, UserState, zero_bamm_deposit, get_riskiest_trove_before_redistribution,
  get_user_state, base_state, extra_state, get_state,
}
use stability_protocol.Reader.Stored.{
  CallOverrides, block_hit, user_hit, stored_total_redistributed, stored_number_of_troves,
  stored_price, stored_total, stored_symbol, stored_collateral_address,
  stored_thusd_in_stability_pool, stored_pcv_balance, stored_is_stability_pools,
  stored_is_borrower_operations, stored_is_trove_manager, stored_mint_list,
  stored_trove_before_redistribution, stored_stability_deposit, stored_bamm_deposit,
  stored_thusd_balance, stored_erc20_token_balance, stored_erc20_token_allowance,
  stored_collateral_surplus_balance, stored_trove, stored_fees, stored_block_timestamp,
}
use stability_protocol.Reader.Agree.{
  AtBlock, OfUser, IsFaithful, Holds, load-Holds, block_hit-AtBlock, user_hit-OfUser,
}

ok_inj : {A : Type 0} {a b : A} → ok a ≡ ok b → a ≡ b
ok_inj e = cc

-- What the state of a connected user was read from.
record IsUserState (r : Reader) (tag : Option ℕ) (user : String) (u : UserState) : Type 0 where
  pub read_trove_before_redistribution :
      get_trove_before_redistribution r (some user) tag ≡ ok u.trove_before_redistribution
  pub read_stability_deposit : get_user_deposit r (some user) tag ≡ ok u.stability_deposit
  pub read_thusd_balance : get_thusd_balance r (some user) tag ≡ ok u.thusd_balance
  pub read_erc20_token_balance :
      get_erc20_token_balance r (some user) tag ≡ ok u.erc20_token_balance
  pub read_erc20_token_allowance :
      get_erc20_token_allowance r (some user) tag ≡ ok u.erc20_token_allowance
  pub read_collateral_surplus_balance :
      get_collateral_surplus_balance r (some user) tag ≡ ok u.collateral_surplus_balance
  pub read_bamm : u.bamm_deposit ≡ zero_bamm_deposit

get_user_state-IsUserState :
    (r : Reader) (tag : Option ℕ) (user : String) (u : UserState)
    → get_user_state r (some user) tag ≡ ok u
    → IsUserState r tag user u
unfolding get_user_state
get_user_state-IsUserState r tag user u h =
    let (balance, e1, h1) = >>=-eq-ok (get_thusd_balance r (some user) tag) _ h in
    let (token, e2, h2) = >>=-eq-ok (get_erc20_token_balance r (some user) tag) _ h1 in
    let (allowance, e3, h3) = >>=-eq-ok (get_erc20_token_allowance r (some user) tag) _ h2 in
    let (surplus, e4, h4) = >>=-eq-ok (get_collateral_surplus_balance r (some user) tag) _ h3 in
    let (before, e5, h5) = >>=-eq-ok (get_trove_before_redistribution r (some user) tag) _ h4 in
    let (deposit, e6, h6) = >>=-eq-ok (get_user_deposit r (some user) tag) _ h5 in
    subst (IsUserState r tag user) (ok_inj h6) (record {
      read_trove_before_redistribution = e5;
      read_stability_deposit = e6;
      read_thusd_balance = e1;
      read_erc20_token_balance = e2;
      read_erc20_token_allowance = e3;
      read_collateral_surplus_balance = e4;
      read_bamm = refl;
    })

-- What a state of a block was read from.
record IsState (r : Reader) (tag : Option ℕ) (user : String) (base : BaseState) (extra : ExtraState)
    : Type 0 where
  pub user_state : UserState
  pub riskiest : PendingTrove
  pub fees : Fees
  pub is_user : IsUserState r tag user user_state
  pub read_fees : get_fees_factory r tag (get_block_timestamp r tag) false ≡ ok fees
  pub is_base : base ≡ base_state r tag user_state riskiest fees
  pub is_extra : extra ≡ extra_state r tag

get_state-IsState :
    (r : Reader) (tag : Option ℕ) (user : String) (base : BaseState) (extra : ExtraState)
    → r.user_address ≡ some user
    → get_state r tag ≡ ok (base, extra)
    → IsState r tag user base extra
unfolding get_state
get_state-IsState r tag user base extra connected h =
    let (riskiest, e1, h1) = >>=-eq-ok (get_riskiest_trove_before_redistribution r tag) _ h in
    let (u, e2, h2) = >>=-eq-ok (get_user_state r r.user_address tag) _ h1 in
    let (fees, e3, h3) =
      >>=-eq-ok (get_fees_factory r tag (get_block_timestamp r tag) false) _ h2 in
    record {
      user_state = u;
      riskiest = riskiest;
      fees = fees;
      is_user =
          get_user_state-IsUserState r tag user u
            (subst (λ o. get_user_state r o tag ≡ ok u) connected e2);
      read_fees = e3;
      is_base = sym (ap (λ p. p.0) (ok_inj h3));
      is_extra = sym (ap (λ p. p.1) (ok_inj h3));
    }

recovery_fees :
    (r : Reader) (tag : Option ℕ) (fees found : Fees)
    → get_fees_factory r tag (get_block_timestamp r tag) false ≡ ok fees
    → set_recovery_mode fees (is_below_critical (get_total r tag) (get_price r tag)) ≡ ok found
    → reader_fees r tag ≡ ok found
unfolding reader_fees get_fees_factory fees_factory new_fees set_recovery_mode
recovery_fees r tag fees found read e = rw (← ok_inj read) at e

-- The fees and the Trove that the store derives are those that the reader works out.
derive-reads :
    (r : Reader) (tag : Option ℕ) (u : UserState) (riskiest : PendingTrove) (fees : Fees)
    (d : DerivedState)
    → get_fees_factory r tag (get_block_timestamp r tag) false ≡ ok fees
    → derive (base_state r tag u riskiest fees) ≡ ok d
    → (d.trove ≡ apply_redistribution u.trove_before_redistribution (get_total_redistributed r tag))
      × (reader_fees r tag ≡ ok d.fees)
unfolding derive
derive-reads r tag u riskiest fees d read h =
    let (found, e, h1) =
      >>=-eq-ok (set_recovery_mode fees (is_below_critical (get_total r tag) (get_price r tag))) _
        h in
    let (borrowing, e1, h2) = >>=-eq-ok (borrowing_rate found none) _ h1 in
    let (redemption, e2, h3) = >>=-eq-ok (redemption_rate found 0 none) _ h2 in
    subst
      (λ (x : DerivedState).
        (x.trove
          ≡ apply_redistribution u.trove_before_redistribution (get_total_redistributed r tag))
        × (reader_fees r tag ≡ ok x.fees))
      (ok_inj h3) (refl, recovery_fees r tag fees found read e)

Holds-IsFaithful :
    (r : Reader) (tag : Option ℕ) (user : String) (s : Store ExtraState) (overrides : CallOverrides)
    (address : Option String) (u : UserState) (riskiest : PendingTrove) (fees : Fees)
    (d : DerivedState)
    → Holds s (base_state r tag u riskiest fees) d (extra_state r tag)
    → IsUserState r tag user u
    → get_fees_factory r tag (get_block_timestamp r tag) false ≡ ok fees
    → derive (base_state r tag u riskiest fees) ≡ ok d
    → block_hit r s overrides ≡ true
    → user_hit r s address overrides ≡ true
    → IsFaithful r tag user s overrides address
unfolding stored_total_redistributed stored_number_of_troves stored_price stored_total stored_symbol
    stored_collateral_address stored_thusd_in_stability_pool stored_is_stability_pools
    stored_is_borrower_operations stored_is_trove_manager stored_mint_list stored_pcv_balance
    stored_bamm_deposit stored_trove stored_fees stored_block_timestamp get_user_trove
    stored_trove_before_redistribution stored_stability_deposit stored_thusd_balance
    stored_erc20_token_balance stored_erc20_token_allowance stored_collateral_surplus_balance
Holds-IsFaithful r tag user s overrides address u riskiest fees d (b, v, x) is_user read derived hit
      user_is =
    let (trove, found) = derive-reads r tag u riskiest fees d read derived in
    record {
      same_total_redistributed = rw (hit, b) refl;
      same_number_of_troves = rw (hit, b) refl;
      same_price = rw (hit, b) refl;
      same_total = rw (hit, b) refl;
      same_symbol = rw (hit, b) refl;
      same_collateral_address = rw (hit, b) refl;
      same_thusd_in_stability_pool = rw (hit, b) refl;
      same_is_stability_pools = rw (hit, b) refl;
      same_is_borrower_operations = rw (hit, b) refl;
      same_is_trove_manager = rw (hit, b) refl;
      same_mint_list = rw (hit, b) refl;
      same_timestamp = rw (hit, x) refl;
      same_fees = rw (hit, v, found) refl;
      same_trove_before_redistribution =
          rw (user_is, b, is_user.read_trove_before_redistribution) refl;
      same_stability_deposit = rw (user_is, b, is_user.read_stability_deposit) refl;
      same_thusd_balance = rw (user_is, b, is_user.read_thusd_balance) refl;
      same_erc20_token_balance = rw (user_is, b, is_user.read_erc20_token_balance) refl;
      same_erc20_token_allowance = rw (user_is, b, is_user.read_erc20_token_allowance) refl;
      same_collateral_surplus_balance =
          rw (user_is, b, is_user.read_collateral_surplus_balance) refl;
      same_trove = rw (user_is, v, is_user.read_trove_before_redistribution, trove) refl;
      zero_pcv_balance = rw (hit, b) refl;
      zero_bamm = λ ids. rw (user_is, b, is_user.read_bamm) refl;
    }

-- Where the store is not loaded, a user is connected, the state of a block can be read and the derived state follows from it,
-- then the store that loads it answers a read at that block, or at none, of the user, or of nobody, as the reader does of
-- the user at that block: but the balance of the PCV and the deposit in the B.AMM are zero, whatever the chain holds.
pub load-IsFaithful :
    (r : Reader) (tag : Option ℕ) (user : String) (s : Store ExtraState) (base : BaseState)
    (extra : ExtraState) (d : DerivedState)
    → s.loaded ≡ false
    → r.user_address ≡ some user
    → get_state r tag ≡ ok (base, extra)
    → derive base ≡ ok d
    → (overrides : CallOverrides) (address : Option String) → AtBlock tag overrides
    → OfUser user address
    → IsFaithful r tag user (load base (some extra) s).store overrides address
load-IsFaithful r tag user s base extra d fresh connected read derived overrides address at is =
    let st = get_state-IsState r tag user base extra connected read in
    let made = rw st.is_base at derived in
    let holds =
      load-Holds s (base_state r tag st.user_state st.riskiest st.fees) (extra_state r tag) d fresh
        made in
    let loaded =
      (load (base_state r tag st.user_state st.riskiest st.fees) (some (extra_state r tag))
        s).store in
    let hit = block_hit-AtBlock r loaded tag overrides holds.2 at in
    rw (st.is_base, st.is_extra)
      (Holds-IsFaithful r tag user loaded overrides address st.user_state st.riskiest st.fees d
        holds st.is_user st.read_fees made hit
        (user_hit-OfUser r loaded user address overrides connected hit is))
