-- ===== src/Ethers/Opened.antt =====
-- What `openTrove` populates (packages/lib-ethers/src/PopulatableEthersLiquity.ts).
use stability_protocol.Base.{
  ℕ, ◌+◌, ◌-◌, ◌*◌, ◌/◌, ◌^◌, ◌≤◌, ◌<◌, ◌≡◌, ◌≢◌, ◌⊎◌, true, false, Option, none, some, List, ok,
  err, refl, arith, debt_might_fall,
}
use stability_protocol.Decimal.{Decimal, infinite, add, lt, sub}
use stability_protocol.Decimal.Text.{Decimalish}
use stability_protocol.Constants.{thusd_minimum_debt, thusd_liquidation_reserve}
use stability_protocol.Fees.{Fees, new_fees, minutes_since}
use stability_protocol.Fees.Rates.{borrowing_rate_bounds}
use stability_protocol.Trove.{
  Trove, trove, empty_trove, nominal_collateral_ratio, is_below_critical, net_debt,
}
use stability_protocol.Trove.Change.{
  CreationParams, apply_fee, apply, apply_to, what_changed, creation_change, unapply_fee,
}
use stability_protocol.Trove.Params.{Entries, normalize_trove_creation, create, recreate}
use stability_protocol.Trove.Params.Normal.{creation_entries, normalize-creation_entries}
use stability_protocol.Trove.RoundTrip.{Reaches}
use stability_protocol.Ethers.Hints.{find_hints}
use stability_protocol.Ethers.Hints.Position.{ListLaws}
use stability_protocol.Ethers.Hints.Found.{AreHints, find_hints-AreHints}
use stability_protocol.Ethers.Transaction.{Overrides, open_trove_call, Transaction, Populated}
use stability_protocol.Ethers.Chain.{Chain, fees_factory, minute_decay_factor}
use stability_protocol.Ethers.Borrowing.{
  RateOrParams, BorrowingOptions, normalize_optional_params, decay_borrowing_rate, opening_gas,
  with_gas, open_trove,
}

-- The time of a block, and `seconds` after it, that the exponent of the decay can hold.
abbrev pub InTime : Chain → ℕ → Type 0
InTime c seconds = c.block_timestamp + seconds < 60 * 2 ^ 32

late_enough : (a b : ℕ) → a < 60 * 2 ^ 32 → (a * 1000 - b * 1000) / 60000 < 2 ^ 32
late_enough a b h = ground arith

pub decay_borrowing_rate-total :
    (c : Chain) (seconds : ℕ)
    → InTime c seconds
    → (rate : Decimal) × (decay_borrowing_rate c seconds ≡ ok rate)
unfolding decay_borrowing_rate fees_factory new_fees minutes_since
decay_borrowing_rate-total c seconds t =
    let fees : Fees = record {
      base_rate_without_decay = c.base_rate_without_decay;
      minute_decay_factor = minute_decay_factor;
      beta = 2 * 10 ^ 18;
      last_fee_operation = c.last_fee_operation_time * 1000;
      time_of_latest_block = (c.block_timestamp + seconds) * 1000;
      recovery_mode = is_below_critical c.total c.contracts.price;
    } in
    let (rate, e, _, _) =
      borrowing_rate_bounds fees none (omega arith)
        (late_enough (c.block_timestamp + seconds) c.last_fee_operation_time t) in
    (rate, e)

-- The Trove that opens at a borrowing rate.
abbrev pub opened : CreationParams → Decimal → Trove
opened p rate =
    trove p.deposit_collateral (thusd_liquidation_reserve + apply_fee rate p.borrow_thusd)

create-opened :
    (p : CreationParams) (rate : Decimal)
    → create (creation_entries p) (some rate) ≡ ok (opened p rate)
unfolding create apply apply_to add
create-opened p rate = rw (normalize-creation_entries p) refl

recreate-opened :
    (p : CreationParams) (decayed current : Decimal)
    → (q : CreationParams) × (recreate (opened p decayed) (some current) ≡ ok q)
unfolding recreate what_changed creation_change net_debt sub
recreate-opened p decayed current = (
  record {
    deposit_collateral = p.deposit_collateral;
    borrow_thusd = unapply_fee current (apply_fee decayed p.borrow_thusd);
  },
  ground arith,
)

-- The call opens a Trove that borrows an amount, at most at the maximum rate and between the hints: the collateral is sent as the
-- value where it is ether, whose address is zero, and otherwise it is an argument.
abbrev pub IsOpening :
    Chain
    → CreationParams
    → (max_rate : Decimal) → (hints : ℕ × ℕ) → Overrides
    → (borrow : Decimal) → Transaction
    → Type 0
IsOpening c p max_rate hints overrides borrow t =
    (c.collateral_address ≡ 0)
      × (t ≡ record {
        call = open_trove_call max_rate borrow 0 hints;
        value = some p.deposit_collateral;
        overrides = overrides;
      })
    ⊎ (c.collateral_address ≢ 0)
      × (t ≡ record {
        call = open_trove_call max_rate borrow p.deposit_collateral hints;
        value = some 0;
        overrides = overrides;
      })

-- The transaction opens the Trove at its place in the list, and its gas covers what the node estimates of it now, and of the
-- opening that leads to the Trove of a rate that has decayed.
pub record IsOpened (c : Chain) (list : List ℕ) (ratio_of : ℕ → ℕ) (p : CreationParams)
    (current decayed max_rate : Decimal) (overrides : Overrides)
    (populated : Populated CreationParams) : Type 0 where
  pub hints : ℕ × ℕ
  pub gas_now : ℕ
  pub gas_later : ℕ
  pub gas_limit : ℕ
  pub simulated : CreationParams
  pub reached : Trove
  pub are_hints : AreHints ratio_of list (nominal_collateral_ratio (opened p current)) hints
  pub same_params : populated.params ≡ p
  pub sends :
      IsOpening c p max_rate hints
        (record overrides { gas_limit = some gas_limit })
        p.borrow_thusd
        populated.transaction
  pub asked_now : Transaction
  pub asked_later : Transaction
  pub asks_now : IsOpening c p max_rate hints overrides p.borrow_thusd asked_now
  pub asks_later : IsOpening c p max_rate hints overrides simulated.borrow_thusd asked_later
  pub headroom : populated.gas_headroom ≡ some (gas_limit - gas_now)
  pub estimate_now : c.estimate asked_now ≡ some gas_now
  pub estimate_later : c.estimate asked_later ≡ some gas_later
  pub enough_now : gas_now + 90000 ≤ gas_limit
  pub enough_later : gas_later + 10000 ≤ gas_limit
  pub simulation : create (creation_entries simulated) (some current) ≡ ok reached
  pub reaches : Reaches empty_trove (opened p decayed) current reached

-- The node estimates every such opening, and not absurdly high.
abbrev pub Accepts : Chain → CreationParams → Decimal → Overrides → Type 0
Accepts c p max_rate overrides =
    (hints : ℕ × ℕ) (borrow : Decimal) (t : Transaction)
    → IsOpening c p max_rate hints overrides borrow t
    → (gas : ℕ) × (c.estimate t ≡ some gas) × (gas < 2 ^ 52)

module _ (c : Chain) (list : List ℕ) (ratio_of : ℕ → ℕ) (laws : ListLaws c.contracts list ratio_of)
    (seed : ℕ) (entries : Entries (Option Decimalish)) (optional : RateOrParams)
    (overrides : Overrides) (p : CreationParams) (current decayed : Decimal)
    (options : BorrowingOptions) (normalized : normalize_trove_creation entries ≡ ok p)
    (rate_now : decay_borrowing_rate c 0 ≡ ok current)
    (rate_later : decay_borrowing_rate c (60 * options.tolerance_minutes) ≡ ok decayed)
    (optioned : normalize_optional_params optional (some current) ≡ ok options)
    (finite : infinite (nominal_collateral_ratio (opened p current)) ≡ false)
    (free : overrides.gas_limit ≡ none) where
  -- Otherwise nothing is populated, and no gas is estimated.
  pub open_trove-err :
      (opened p decayed).debt < thusd_minimum_debt
      → open_trove c seed entries optional overrides ≡ err debt_might_fall
  unfolding open_trove find_hints with_gas opening_gas
  open_trove-err small =
      let (hints, e, _) =
        find_hints-AreHints c.contracts list ratio_of laws seed
          (nominal_collateral_ratio (opened p current)) none finite tt in
      let (simulated, s) = recreate-opened p decayed current in
      let falls : lt (opened p decayed).debt thusd_minimum_debt ≡ true = ground arith in
      rw
        (
          normalized,
          rate_now,
          create-opened p current,
          e,
          optioned,
          rate_later,
          create-opened p decayed,
          s,
          falls,
          free,
        )
        refl
