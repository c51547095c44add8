-- ===== src/Store/Reduce.antt =====
-- What merging an update into the state does (`_reduce` and `_reduceDerived` in
-- packages/lib-base/src/LiquityStore.ts).
use text.Mathlib.TextEquality.{eq_iff}
use stability_protocol.Base.{
  ◌≡◌, ◌↔◌, refl, sym, Bool, true, Option, none, some, arith, Bool-cases, inl, inr,
}
use stability_protocol.Decimal.{eq}
use stability_protocol.Fees
use stability_protocol.Fees.{
  Fees, set_recovery_mode, new_fees, minutes_since, borrowing_rate, redemption_rate, same_bool,
}
use stability_protocol.Fees.Rates.{equals_iff}
use stability_protocol.Trove
use stability_protocol.Trove.{Trove, is_below_critical, is_below_minimum}
use stability_protocol.Trove.User.{user_equals, pending_equals}
use stability_protocol.Trove.Redistribution.{pending_equals_iff}
use stability_protocol.Deposit.Stability
use stability_protocol.Deposit.Stability.{StabilityDeposit}
use stability_protocol.Deposit.Bamm
use stability_protocol.Deposit.Bamm.{BammDeposit}
use stability_protocol.Store.State.{
  BaseState, BaseStateUpdate, DerivedState, update_if_changed, update_fees, same_number, reduce,
  reduce_derived,
}

-- The value that an update leaves: the new one, if there is one.
abbrev pub latest {ℓ} : {A : Type ℓ} → A → Option A → A
latest prev none = prev
latest prev (some next) = next

-- An equality test is exact.
abbrev pub IsExact : {A : Type 0} → (A → A → Bool) → Type 0
IsExact {A} equals = (a b : A) → (equals a b ≡ true) ↔ (a ≡ b)

update_if_changed-latest :
    {A : Type 0} (equals : A → A → Bool) (prev : A) (next : Option A)
    → IsExact equals
    → update_if_changed equals prev next ≡ latest prev next
unfolding update_if_changed
update_if_changed-latest equals prev none exact = refl
update_if_changed-latest equals prev (some next) exact = elim (Bool-cases (equals prev next)) [
  | inl same ↦ rw same ((exact prev next).0 same)
  | inr other ↦ rw other refl
]

IsExact-number : IsExact same_number
IsExact-number a b = (λ h. ground arith, λ h. ground arith)

IsExact-bool : IsExact same_bool
IsExact-bool a b = (λ h. ground arith, λ h. ground arith)

IsExact-trove : IsExact Trove.equals
IsExact-trove a b = (λ h. ground arith, λ h. ground arith)

IsExact-user : IsExact user_equals
IsExact-user a b = (
  λ h. ground (arith, eq_iff a.owner_address b.owner_address),
  λ h. ground (arith, eq_iff a.owner_address b.owner_address),
)

IsExact-deposit : IsExact Stability.equals
IsExact-deposit a b = (λ h. ground arith, λ h. ground arith)

-- The state `r` is `b` with every property replaced that the update holds, the deposit in the B.AMM up to its `equals`;
-- but seven properties are those of `b`.
pub record IsMerged (b : BaseState) (u : BaseStateUpdate) (r : BaseState) : Type 0 where
  pub number_of_troves : r.number_of_troves ≡ latest b.number_of_troves u.number_of_troves
  pub account_balance : r.account_balance ≡ latest b.account_balance u.account_balance
  pub thusd_balance : r.thusd_balance ≡ latest b.thusd_balance u.thusd_balance
  pub erc20_token_balance :
      r.erc20_token_balance ≡ latest b.erc20_token_balance u.erc20_token_balance
  pub erc20_token_allowance :
      r.erc20_token_allowance ≡ latest b.erc20_token_allowance u.erc20_token_allowance
  pub collateral_surplus_balance :
      r.collateral_surplus_balance
      ≡ latest b.collateral_surplus_balance u.collateral_surplus_balance
  pub price : r.price ≡ latest b.price u.price
  pub market_price : r.market_price ≡ latest b.market_price u.market_price
  pub pi_redemption_rate : r.pi_redemption_rate ≡ latest b.pi_redemption_rate u.pi_redemption_rate
  pub deviation_factor : r.deviation_factor ≡ latest b.deviation_factor u.deviation_factor
  pub thusd_in_stability_pool :
      r.thusd_in_stability_pool ≡ latest b.thusd_in_stability_pool u.thusd_in_stability_pool
  pub pcv_balance : r.pcv_balance ≡ latest b.pcv_balance u.pcv_balance
  pub total : r.total ≡ latest b.total u.total
  pub total_redistributed :
      r.total_redistributed ≡ latest b.total_redistributed u.total_redistributed
  pub trove_before_redistribution :
      r.trove_before_redistribution
      ≡ latest b.trove_before_redistribution u.trove_before_redistribution
  pub stability_deposit : r.stability_deposit ≡ latest b.stability_deposit u.stability_deposit
  pub fees_in_normal_mode :
      r.fees_in_normal_mode ≡ latest b.fees_in_normal_mode u.fees_in_normal_mode
  pub riskiest_trove_before_redistribution :
      r.riskiest_trove_before_redistribution
      ≡ latest b.riskiest_trove_before_redistribution u.riskiest_trove_before_redistribution
  pub bamm_deposit : Bamm.equals r.bamm_deposit (latest b.bamm_deposit u.bamm_deposit) ≡ true
  pub kept :
      (r.is_stability_pools ≡ b.is_stability_pools)
      × (r.is_borrower_operations ≡ b.is_borrower_operations)
      × (r.is_trove_manager ≡ b.is_trove_manager)
      × (r.symbol ≡ b.symbol)
      × (r.collateral_address ≡ b.collateral_address)
      × (r.stable_address ≡ b.stable_address)
      × (r.mint_list ≡ b.mint_list)

bamm_equals_refl : (d : BammDeposit) → Bamm.equals d d ≡ true
bamm_equals_refl d = ground arith

bamm_latest :
    (b : BammDeposit) (u : Option BammDeposit)
    → Bamm.equals (update_if_changed Bamm.equals b u) (latest b u) ≡ true
unfolding update_if_changed
bamm_latest b none = bamm_equals_refl b
bamm_latest b (some n) = elim (Bool-cases (Bamm.equals b n)) [
  | inl same ↦ rw same same
  | inr other ↦ rw other (bamm_equals_refl n)
]

-- Merging an update replaces exactly the properties that it holds, the deposit in the B.AMM up to its `equals`; but
-- seven properties stay as they are, whatever the update holds of them: the three flags of the deployment, the symbol, the
-- addresses of the collateral and of the stablecoin, and the mint list.
pub reduce-IsMerged : (b : BaseState) (u : BaseStateUpdate) → IsMerged b u (reduce b u)
unfolding reduce
reduce-IsMerged b u = record {
  number_of_troves = update_if_changed-latest same_number _ _ IsExact-number;
  account_balance = update_if_changed-latest eq _ _ IsExact-number;
  thusd_balance = update_if_changed-latest eq _ _ IsExact-number;
  erc20_token_balance = update_if_changed-latest eq _ _ IsExact-number;
  erc20_token_allowance = update_if_changed-latest eq _ _ IsExact-number;
  collateral_surplus_balance = update_if_changed-latest eq _ _ IsExact-number;
  price = update_if_changed-latest eq _ _ IsExact-number;
  market_price = update_if_changed-latest eq _ _ IsExact-number;
  pi_redemption_rate = update_if_changed-latest eq _ _ IsExact-number;
  deviation_factor = update_if_changed-latest eq _ _ IsExact-number;
  thusd_in_stability_pool = update_if_changed-latest eq _ _ IsExact-number;
  pcv_balance = update_if_changed-latest eq _ _ IsExact-number;
  total = update_if_changed-latest Trove.equals _ _ IsExact-trove;
  total_redistributed = update_if_changed-latest Trove.equals _ _ IsExact-trove;
  trove_before_redistribution = update_if_changed-latest pending_equals _ _ pending_equals_iff;
  stability_deposit = update_if_changed-latest Stability.equals _ _ IsExact-deposit;
  fees_in_normal_mode = update_if_changed-latest Fees.equals _ _ equals_iff;
  riskiest_trove_before_redistribution =
      update_if_changed-latest pending_equals _ _ pending_equals_iff;
  bamm_deposit = bamm_latest b.bamm_deposit u.bamm_deposit;
  kept = (refl, refl, refl, refl, refl, refl, refl);
}

update_fees-latest : (prev next : Fees) → update_fees prev next ≡ next
unfolding update_fees
update_fees-latest prev next = elim (Bool-cases (Fees.equals next prev)) [
  | inl same ↦ rw same (sym ((equals_iff next prev).0 same))
  | inr other ↦ rw other refl
]

-- Reducing the derived state gives the newly derived one: it only keeps what has not changed.
pub reduce_derived-eq : (d u : DerivedState) → reduce_derived d u ≡ u
unfolding reduce_derived
reduce_derived-eq d u = λ i. record {
  fees = update_fees-latest d.fees u.fees i;
  trove = update_if_changed-latest user_equals d.trove (some u.trove) IsExact-user i;
  borrowing_rate =
      update_if_changed-latest eq d.borrowing_rate (some u.borrowing_rate) IsExact-number i;
  redemption_rate =
      update_if_changed-latest eq d.redemption_rate (some u.redemption_rate) IsExact-number i;
  have_undercollateralized_troves =
      update_if_changed-latest same_bool d.have_undercollateralized_troves
        (some u.have_undercollateralized_troves) IsExact-bool i;
}
