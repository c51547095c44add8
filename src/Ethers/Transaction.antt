-- ===== src/Ethers/Transaction.antt =====
-- What a populated transaction is, and `estimateAndPopulate` (packages/lib-ethers/src/contracts.ts,
-- packages/lib-ethers/src/types.ts). A transaction is the method that it calls with its arguments, the ether that it sends and its
-- overrides; Ethers encodes them.
use stability_protocol.Base.{
  ◌≡◌, refl, ℕ, Bool, Option, none, some, List, Result, ok, err, ◌>>=◌, call_exception,
}

pub record Overrides : Type 0 where
  pub sender : Option ℕ
  pub nonce : Option ℕ
  pub gas_limit : Option ℕ
  pub gas_price : Option ℕ

abbrev pub no_overrides : Overrides
no_overrides = record { sender = none; nonce = none; gas_limit = none; gas_price = none }

-- `hints` are the upper and the lower one.
pub data Call : Type 0 where
  open_trove_call : (max_borrowing_rate borrow_thusd collateral : ℕ) (hints : ℕ × ℕ) → Call
  adjust_trove_call :
      (max_borrowing_rate withdraw_collateral debt_change : ℕ)
      → (is_debt_increase : Bool) (deposit_collateral : ℕ) (hints : ℕ × ℕ) → Call
  close_trove_call claim_collateral_call : Call
  set_price_call : (price : ℕ) → Call
  liquidate_call : (address : ℕ) → Call
  batch_liquidate_troves_call : (addresses : List ℕ) → Call
  liquidate_troves_call : (maximum : ℕ) → Call
  approve_thusd_call : (spender amount : ℕ) → Call
  approve_erc20_call : (spender amount : ℕ) → Call
  mint_erc20_call : (receiver amount : ℕ) → Call
  transfer_thusd_call : (receiver amount : ℕ) → Call
  bamm_deposit_call bamm_withdraw_call : (amount : ℕ) → Call
  provide_to_sp_call withdraw_from_sp_call : (amount : ℕ) → Call
  withdraw_collateral_gain_to_trove_call : (hints : ℕ × ℕ) → Call
  redeem_collateral_call :
      (amount first_hint : ℕ) (hints : ℕ × ℕ) (hint_nicr iterations max_redemption_rate : ℕ) → Call

pub record Transaction : Type 0 where
  pub call : Call
  pub value : Option ℕ
  pub overrides : Overrides

-- The node's estimate of the gas, if it does not find that the call reverts.
abbrev pub Estimate : Type 0
Estimate = Transaction → Option ℕ

abbrev pub estimated : Option ℕ → Result ℕ
estimated none = err call_exception
estimated (some gas) = ok gas

unfoldable pub estimate_if_free : Estimate → Transaction → (ℕ → ℕ) → Option ℕ → Result Transaction
estimate_if_free estimate t adjust_estimate (some gas_limit) = ok t
estimate_if_free estimate t adjust_estimate none = do
  gas ← estimated (estimate t)
  ok (record t { overrides = record t.overrides { gas_limit = some (adjust_estimate gas) } })

unfoldable pub estimate_and_populate : Estimate → Overrides → (ℕ → ℕ) → Call → Result Transaction
estimate_and_populate estimate overrides adjust_estimate call =
    estimate_if_free estimate (record { call = call; value = none; overrides = overrides })
      adjust_estimate overrides.gas_limit

estimate_if_free-none :
    (estimate : Estimate) (t : Transaction) (adjust_estimate : ℕ → ℕ) (limit : Option ℕ) (gas : ℕ)
    → limit ≡ none
    → estimate t ≡ some gas
    → estimate_if_free estimate t adjust_estimate limit
      ≡ ok (record t { overrides = record t.overrides { gas_limit = some (adjust_estimate gas) } })
unfolding estimate_if_free
estimate_if_free-none estimate t adjust_estimate limit gas free e = rw (free, e) refl

-- What is populated where no gas limit is given.
abbrev pub with_limit : Call → Overrides → ℕ → Transaction
with_limit call overrides limit = record {
  call = call;
  value = none;
  overrides = record overrides { gas_limit = some limit };
}

pub estimate_and_populate-free :
    (estimate : Estimate) (overrides : Overrides) (adjust_estimate : ℕ → ℕ) (call : Call) (gas : ℕ)
    → overrides.gas_limit ≡ none
    → estimate (record { call = call; value = none; overrides = overrides }) ≡ some gas
    → estimate_and_populate estimate overrides adjust_estimate call
      ≡ ok (with_limit call overrides (adjust_estimate gas))
unfolding estimate_and_populate
estimate_and_populate-free estimate overrides adjust_estimate call gas free e =
    estimate_if_free-none estimate (record { call = call; value = none; overrides = overrides })
      adjust_estimate overrides.gas_limit gas free e

-- A transaction with what its receipt reports besides, and the gas beyond the estimate.
pub record Populated {ℓ} (P : Type ℓ) : Type ℓ where
  pub params : P
  pub transaction : Transaction
  pub gas_headroom : Option ℕ

abbrev pub simple {ℓ} : {P : Type ℓ} → P → Transaction → Populated P
simple params t = record { params = params; transaction = t; gas_headroom = none }
