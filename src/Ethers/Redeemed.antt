-- ===== src/Ethers/Redeemed.antt =====
-- What `redeemTHUSD` populates (packages/lib-ethers/src/PopulatableEthersLiquity.ts).
use stability_protocol.Base.{
  ℕ, ◌+◌, ◌^◌, ◌≤◌, ◌<◌, ◌≡◌, ◌⊎◌, ◌==◌, true, false, Option, none, some, List, ok, err, refl,
  arith, amount_too_low, not_truncated, Bool-cases, inl, inr,
}
use stability_protocol.Decimal
use stability_protocol.Decimal.{Decimal, infinite, one, add, div, is_zero}
use stability_protocol.Decimal.Text.{Decimalish, from}
use stability_protocol.Constants.{thusd_minimum_net_debt, minimum_redemption_rate}
use stability_protocol.Fees.{Fees, redemption_rate}
use stability_protocol.Fees.Rates.{IsValid, redemption_rate_mono}
use stability_protocol.Fees.Rates
use stability_protocol.Ethers.Gas.{default_redemption_rate_slippage_tolerance}
use stability_protocol.Ethers.Hints.{
  HintContracts, RedemptionHints, partial_hints, find_redemption_hints,
}
use stability_protocol.Ethers.Hints.Position.{ListLaws}
use stability_protocol.Ethers.Hints.Found.{AreHints, find_hints-AreHints}
use stability_protocol.Ethers.Transaction.{
  Overrides, redeem_collateral_call, Transaction, with_limit,
}
use stability_protocol.Ethers.Chain.{Chain, get_fees}
use stability_protocol.Ethers.Redemption.{
  RedemptionScope, PopulatedRedemption, default_max_redemption_rate,
  increase_amount_by_minimum_net_debt, redemption_scope, redeem_thusd,
}

-- The fees are valid, at a time that the exponent can hold, and the node estimates every redemption.
pub record CanRedeem (s : RedemptionScope) : Type 0 where
  pub valid : IsValid s.fees
  pub in_time : Rates.InTime s.fees none
  pub free : s.overrides.gas_limit ≡ none
  pub accepts : (t : Transaction) → (gas : ℕ) × (s.estimate t ≡ some gas)

-- The rate is the one of redeeming the amount and a tolerance of 0.1%, and at most 1.
pub record IsDefaultRate (s : RedemptionScope) (amount rate : Decimal) : Type 0 where
  pub fee : Decimal
  pub charged : redemption_rate s.fees (div amount s.total_debt) none ≡ ok fee
  pub tolerates : (rate ≡ fee + 10 ^ 15) ⊎ (rate ≡ one)
  pub at_most_tolerant : rate ≤ fee + 10 ^ 15
  pub at_most_one : rate ≤ one

-- The maximum rate is the one that the amount makes and the tolerance, and at most 1.
pub default_max_redemption_rate_bounds :
    (s : RedemptionScope) (amount : Decimal)
    → CanRedeem s
    → (rate : Decimal) × (default_max_redemption_rate s amount ≡ ok rate)
      × (minimum_redemption_rate ≤ rate)
      × IsDefaultRate s amount rate
unfolding default_max_redemption_rate Decimal.min add
default_max_redemption_rate_bounds s amount can =
    let fraction = div amount s.total_debt in
    let (r, _, e, _, lower, _, upper) =
      redemption_rate_mono s.fees fraction fraction none (omega arith) can.valid can.in_time in
    (
      Decimal.min (add r default_redemption_rate_slippage_tolerance) one,
      rw e refl,
      ground arith,
      record {
        fee = r;
        charged = e;
        tolerates = ground arith;
        at_most_tolerant = ground arith;
        at_most_one = ground arith;
      },
    )

-- A redemption of an amount, at the default maximum rate, with 15656 more gas than the node estimates of it.
pub record IsRedemption (s : RedemptionScope) (attempted amount : Decimal) (hints : ℕ × ℕ)
    (hint_nicr : ℕ) (r : PopulatedRedemption) : Type 0 where
  pub max_rate : Decimal
  pub gas : ℕ
  pub at_least : minimum_redemption_rate ≤ max_rate
  pub is_default : IsDefaultRate s amount max_rate
  pub estimate :
      s.estimate (record {
        call = redeem_collateral_call amount s.first_redemption_hint hints hint_nicr 70 max_rate;
        value = none;
        overrides = s.overrides;
      })
      ≡ some gas
  pub sends :
      r.transaction
      ≡ with_limit
          (redeem_collateral_call amount s.first_redemption_hint hints hint_nicr 70 max_rate)
          s.overrides
          (gas + 15656)
  pub attempts : r.attempted_thusd_amount ≡ attempted
  pub redeems : r.redeemable_thusd_amount ≡ amount
  pub truncates : (r.is_truncated ≡ true) → amount < attempted
  pub untruncated : (r.is_truncated ≡ false) → r.increase ≡ none
  pub truncated :
      amount < attempted
      → r.increase ≡ some (record { truncated_amount = amount; max_redemption_rate = none })
  pub whole : attempted ≤ amount → (r.is_truncated ≡ false)

-- The hints of the Trove that is redeemed in part, if one is.
abbrev pub ArePartialHints : (ℕ → ℕ) → List ℕ → ℕ → ℕ × ℕ → Type 0
ArePartialHints ratio_of list nicr hints =
    ((nicr ≡ 0) × (hints ≡ (0, 0))) ⊎ AreHints ratio_of list nicr hints

partial_hints-ArePartialHints :
    (c : HintContracts) (list : List ℕ) (ratio_of : ℕ → ℕ)
    → ListLaws c list ratio_of
    → (seed nicr : ℕ) → infinite nicr ≡ false
    → (hints : ℕ × ℕ) × (partial_hints c seed nicr ≡ ok hints)
      × ArePartialHints ratio_of list nicr hints
unfolding partial_hints
partial_hints-ArePartialHints c list ratio_of laws seed nicr finite =
    elim (Bool-cases (nicr == 0)) [
      | inl whole ↦ ((0, 0), rw whole refl, inl (ground arith, refl))
      | inr partial ↦
          let (hints, e, found) =
            find_hints-AreHints c list ratio_of laws seed nicr none finite tt in
          (hints, rw (partial, e) refl, inr found)
    ]

-- Increasing it gives a redemption of the truncated amount and the minimum net debt, which is not truncated again.
abbrev pub CanIncrease : RedemptionScope → PopulatedRedemption → Type 0
CanIncrease s r =
    (more : PopulatedRedemption) × (increase_amount_by_minimum_net_debt s r none ≡ ok more)
    × (more.redeemable_thusd_amount ≡ r.redeemable_thusd_amount + thusd_minimum_net_debt)
    × (more.is_truncated ≡ false)
    × (increase_amount_by_minimum_net_debt s more none ≡ err not_truncated)

-- What `HintHelpers` finds of an amount.
abbrev pub found_of : Chain → Decimal → RedemptionHints
found_of c attempted = c.contracts.get_redemption_hints attempted c.contracts.price 70

abbrev pub scope_of : Chain → Fees → Decimal → Overrides → RedemptionScope
scope_of c fees attempted overrides =
    redemption_scope c fees (found_of c attempted).first_redemption_hint overrides

module _ (c : Chain) (list : List ℕ) (ratio_of : ℕ → ℕ) (laws : ListLaws c.contracts list ratio_of)
    (seed : ℕ) (amount : Decimalish) (overrides : Overrides) (attempted : Decimal) (fees : Fees)
    (read : from amount ≡ ok attempted) (charged : get_fees c ≡ ok fees)
    (finite : infinite (found_of c attempted).partial_redemption_hint_nicr ≡ false) where
  -- Nothing is populated if nothing can be redeemed, whatever maximum rate is given.
  pub redeem_thusd-err :
      (max_rate : Option Decimalish)
      → (found_of c attempted).truncated_thusd_amount ≡ 0
      → redeem_thusd c seed amount max_rate overrides ≡ err amount_too_low
  unfolding redeem_thusd find_redemption_hints
  redeem_thusd-err max_rate nothing_left =
      let found = found_of c attempted in
      let (hints, h, are_hints) =
        partial_hints-ArePartialHints c.contracts list ratio_of laws seed
          found.partial_redemption_hint_nicr finite in
      let left : is_zero found.truncated_thusd_amount ≡ true = ground arith in
      rw (read, charged, h, left) refl
