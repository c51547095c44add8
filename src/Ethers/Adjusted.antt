-- ===== src/Ethers/Adjusted.antt =====
-- What `adjustTrove` populates (packages/lib-ethers/src/PopulatableEthersLiquity.ts).
use stability_protocol.Base.{
  ℕ, ◌+◌, ◌-◌, ◌*◌, ◌^◌, ◌≤◌, ◌<◌, ◌≡◌, ◌≢◌, ◌⊎◌, Bool, true, false, Option, none, some, List, ok,
  err, refl, arith, debt_might_fall,
}
use stability_protocol.Decimal.{Decimal, infinite, lt}
use stability_protocol.Decimal.Text.{Decimalish}
use stability_protocol.Constants.{thusd_minimum_debt}
use stability_protocol.Trove.{Trove, nominal_collateral_ratio}
use stability_protocol.Trove.Change.{AdjustmentParams, apply_adjustment, apply, apply_to}
use stability_protocol.Trove.Params.{
  Entries, normalize_trove_adjustment, rate_or_default, adjust, adjust_to,
}
use stability_protocol.Trove.Params.Normal.{
  adjustment_entries, normalize-adjustment_entries, normalize_trove_adjustment-IsWellFormed,
}
use stability_protocol.Trove.RoundTrip.{Reaches}
use stability_protocol.Ethers.Gas.{big_number_max, add_gas_for_potential_list_traversal}
use stability_protocol.Ethers.Hints.{find_hints}
use stability_protocol.Ethers.Hints.Position.{ListLaws}
use stability_protocol.Ethers.Hints.Found.{AreHints, find_hints-AreHints, others}
use stability_protocol.Ethers.Transaction.{Overrides, adjust_trove_call, Transaction, Populated}
use stability_protocol.Ethers.Chain.{Chain, require_address}
use stability_protocol.Ethers.Borrowing.{
  RateOrParams, BorrowingOptions, normalize_optional_params, with_gas,
}
use stability_protocol.Ethers.Adjusting.{
  rate_if_borrowing, adjusting_limit, adjusting_gas, adjust_trove,
}

-- The Trove that an adjustment leads to.
abbrev pub adjusted : Trove → AdjustmentParams → Option Decimal → Trove
adjusted t p rate = apply_adjustment t p (rate_or_default rate) none

adjust-adjusted :
    (t : Trove) (entries : Entries (Option Decimalish)) (p : AdjustmentParams)
    (rate : Option Decimal)
    → normalize_trove_adjustment entries ≡ ok p
    → adjust t (adjustment_entries p) rate ≡ ok (adjusted t p rate)
unfolding adjust apply apply_to
adjust-adjusted t entries p rate e =
    rw (normalize-adjustment_entries p (normalize_trove_adjustment-IsWellFormed entries e)) refl

-- An amount that is given, or else zero.
abbrev pub IsAmount : Option Decimal → Decimal → Type 0
IsAmount given amount = (given ≡ some amount) ⊎ (given ≡ none) × (amount ≡ 0)

-- The change of the debt with its direction: an increase by what is borrowed, or else a decrease by what is repaid.
abbrev pub IsDebtChange :
    AdjustmentParams → (borrow : Option Decimal) → (change : Decimal) → (increase : Bool) → Type 0
IsDebtChange p borrow change increase =
    (borrow ≡ some change) × (increase ≡ true)
    ⊎ (borrow ≡ none) × (increase ≡ false) × IsAmount p.repay_thusd change

-- The deposit is sent as the value where the collateral is ether, whose address is zero, and otherwise it is an argument.
abbrev pub IsPaid : Chain → (deposit argument value : Decimal) → Type 0
IsPaid c deposit argument value =
    (c.collateral_address ≡ 0) × (argument ≡ 0) × (value ≡ deposit)
    ⊎ (c.collateral_address ≢ 0) × (argument ≡ deposit) × (value ≡ 0)

-- The call adjusts the Trove by the parameters, with an amount to borrow, at most at the maximum rate and between the hints.
pub record IsAdjusting (c : Chain) (p : AdjustmentParams) (max_rate : Decimal) (hints : ℕ × ℕ)
    (overrides : Overrides) (borrow : Option Decimal) (t : Transaction) : Type 0 where
  pub withdrawal : Decimal
  pub debt_change : Decimal
  pub increase : Bool
  pub deposit : Decimal
  pub argument : Decimal
  pub value : Decimal
  pub withdraws : IsAmount p.withdraw_collateral withdrawal
  pub changes_debt : IsDebtChange p borrow debt_change increase
  pub deposits : IsAmount p.deposit_collateral deposit
  pub pays : IsPaid c deposit argument value
  pub is_call : t ≡ record {
    call = adjust_trove_call max_rate withdrawal debt_change increase argument hints;
    value = some value;
    overrides = overrides;
  }

-- The node is asked for the gas of a second transaction only if something is borrowed.
abbrev pub IsAsked : Chain → (borrowed : Option Decimal) → Transaction → (gas : Option ℕ) → Type 0
IsAsked c borrowed t gas =
    (borrowed ≡ none) × (gas ≡ none) ⊎ (borrowed ≢ none) × (gas ≢ none) × (c.estimate t ≡ gas)

-- The transaction adjusts the Trove to its place in the list without it, and its gas covers what the node estimates of it now,
-- and of the adjustment that leads to the Trove of a rate that has decayed.
pub record IsAdjusted (c : Chain) (list : List ℕ) (ratio_of : ℕ → ℕ) (address : ℕ)
    (p simulated : AdjustmentParams) (current decayed : Option Decimal) (max_rate : Decimal)
    (overrides : Overrides) (populated : Populated AdjustmentParams) : Type 0 where
  pub hints : ℕ × ℕ
  pub gas_now : ℕ
  pub gas_later : Option ℕ
  pub gas_limit : ℕ
  pub reached : Trove
  pub are_hints :
      AreHints ratio_of
        (others (some address) list)
        (nominal_collateral_ratio (adjusted (c.get_trove address) p current))
        hints
  pub sends :
      IsAdjusting c p max_rate hints
        (record overrides { gas_limit = some gas_limit })
        p.borrow_thusd
        populated.transaction
  pub same_params : populated.params ≡ p
  pub asked_now : Transaction
  pub asked_later : Transaction
  pub asks_now : IsAdjusting c p max_rate hints overrides p.borrow_thusd asked_now
  pub asks_later : IsAdjusting c p max_rate hints overrides simulated.borrow_thusd asked_later
  pub headroom : populated.gas_headroom ≡ some (gas_limit - gas_now)
  pub estimate_now : c.estimate asked_now ≡ some gas_now
  pub estimate_later : IsAsked c p.borrow_thusd asked_later gas_later
  pub enough_now : gas_now + 80000 ≤ gas_limit
  pub enough_later : (gas : ℕ) → gas_later ≡ some gas → gas ≤ gas_limit
  pub simulation : adjust (c.get_trove address) (adjustment_entries simulated) current ≡ ok reached
  pub reaches :
      Reaches
        (c.get_trove address)
        (adjusted (c.get_trove address) p decayed)
        (rate_or_default current)
        reached

-- The node estimates every such adjustment, and not absurdly high.
abbrev pub Accepts : Chain → AdjustmentParams → Decimal → Overrides → Type 0
Accepts c p max_rate overrides =
    (hints : ℕ × ℕ) (borrow : Option Decimal) (t : Transaction)
    → IsAdjusting c p max_rate hints overrides borrow t
    → (gas : ℕ) × (c.estimate t ≡ some gas) × (gas < 2 ^ 52)

module _ (c : Chain) (list : List ℕ) (ratio_of : ℕ → ℕ) (laws : ListLaws c.contracts list ratio_of)
    (seed : ℕ) (entries : Entries (Option Decimalish)) (optional : RateOrParams)
    (overrides : Overrides) (address : ℕ) (p : AdjustmentParams) (current decayed : Option Decimal)
    (simulated : AdjustmentParams) (options : BorrowingOptions)
    (connected : require_address c overrides ≡ ok address) (valid : address ≢ 0)
    (normalized : normalize_trove_adjustment entries ≡ ok p)
    (rate_now : rate_if_borrowing c p.borrow_thusd 0 ≡ ok current)
    (rate_later : rate_if_borrowing c p.borrow_thusd (60 * options.tolerance_minutes) ≡ ok decayed)
    (optioned : normalize_optional_params optional current ≡ ok options)
    (finite : infinite (nominal_collateral_ratio (adjusted (c.get_trove address) p current))
      ≡ false)
    (simulates : adjust_to (c.get_trove address) (adjusted (c.get_trove address) p decayed) current
      ≡ ok simulated)
    (free : overrides.gas_limit ≡ none) where
  abbrev limit_of : ℕ → Option ℕ → ℕ
  limit_of now later =
      adjusting_limit p.borrow_thusd options.tolerance_minutes
        (big_number_max (add_gas_for_potential_list_traversal now) later)

  -- Otherwise nothing is populated, and no gas is estimated.
  pub adjust_trove-err :
      (adjusted (c.get_trove address) p decayed).debt < thusd_minimum_debt
      → adjust_trove c seed entries optional overrides ≡ err debt_might_fall
  unfolding adjust_trove find_hints with_gas adjusting_gas
  adjust_trove-err small =
      let t = c.get_trove address in
      let (hints, e, _) =
        find_hints-AreHints c.contracts list ratio_of laws seed
          (nominal_collateral_ratio (adjusted t p current)) (some address) finite valid in
      let falls : lt (adjusted t p decayed).debt thusd_minimum_debt ≡ true = ground arith in
      rw
        (
          connected,
          normalized,
          rate_now,
          adjust-adjusted t entries p current normalized,
          e,
          optioned,
          rate_later,
          adjust-adjusted t entries p decayed normalized,
          simulates,
          falls,
          free,
        )
        refl
