-- ===== src/Ethers/Receipts.antt =====
-- What becomes of a transaction that was sent (packages/lib-ethers/src/PopulatableEthersLiquity.ts,
-- packages/lib-base/src/SendableLiquity.ts).
use stability_protocol.Base.{
  ℕ, Bool, true, false, not, Option, none, some, List, Result, ok, err, ◌>>=◌, ◌>>◌, guard,
  assertion_failed, transaction_cancelled, call_exception, if◌then◌else◌,
}
use stability_protocol.Base.{Error}

pub data RawErrorReason : Type 0 where
  transaction_failed cancelled replaced repriced other_reason : RawErrorReason

pub data ErrorCode : Type 0 where
  call_exception_code transaction_replaced_code other_code : ErrorCode

-- An event as the interface of its contract parses it.
pub data ParsedEvent : Type 0 where
  trove_updated : (coll debt : ℕ) → ParsedEvent
  borrowing_fee_paid : (fee : ℕ) → ParsedEvent
  transfer : (sender receiver value : ℕ) → ParsedEvent
  collateral_sent : (receiver amount : ℕ) → ParsedEvent
  trove_liquidated : (borrower : ℕ) → ParsedEvent
  liquidation :
      (liquidated_debt liquidated_coll coll_compensation thusd_compensation : ℕ) → ParsedEvent
  user_deposit_changed : (new_deposit : ℕ) → ParsedEvent
  collateral_gain_withdrawn : (collateral thusd_loss : ℕ) → ParsedEvent
  redemption : (attempted actual collateral_sent collateral_fee : ℕ) → ParsedEvent
  other_event : ParsedEvent

pub record Log : Type 0 where
  pub address : ℕ
  pub event : ParsedEvent

pub record RawReceipt : Type 0 where
  pub status : Bool
  pub sender : ℕ
  pub logs : List Log

-- What `wait` throws: an error of Ethers, whose properties may be missing, or anything else.
pub data Thrown : Type 0 where
  ethers_error :
      (code : Option ErrorCode) (reason : Option RawErrorReason) (was_cancelled : Bool)
      (receipt : RawReceipt)
      → Thrown
  other_thrown : Error → Thrown

-- How the promise of `wait` settles: no receipt yet is `null`.
pub data Waited : Type 0 where
  got : Option RawReceipt → Waited
  threw : Thrown → Waited

abbrev pub is_replacement_reason : Option RawErrorReason → Bool
is_replacement_reason (some cancelled) = true
is_replacement_reason (some replaced) = true
is_replacement_reason (some repriced) = true
is_replacement_reason _ = false

unfoldable pub is_transaction_failed_error : Thrown → Bool
is_transaction_failed_error
      (ethers_error (some call_exception_code) (some transaction_failed) c r) =
    true
is_transaction_failed_error _ = false

unfoldable pub is_transaction_replaced_error : Thrown → Bool
is_transaction_replaced_error (ethers_error (some transaction_replaced_code) reason c r) =
    is_replacement_reason reason
is_transaction_replaced_error _ = false

-- The constructor of `EthersTransactionCancelledError` asserts that the transaction was not only repriced.
unfoldable pub cancelled_error : Option RawErrorReason → Error
cancelled_error (some repriced) = assertion_failed
cancelled_error _ = transaction_cancelled

abbrev pub rethrown : Thrown → Error
rethrown (ethers_error code reason c r) = call_exception
rethrown (other_thrown e) = e

-- The `catch` of `_waitForRawReceipt`.
unfoldable pub recover : Thrown → Result (Option RawReceipt)
recover (other_thrown e) = err e
recover (ethers_error code reason was_cancelled receipt) =
    let thrown = ethers_error code reason was_cancelled receipt in
    if is_transaction_failed_error thrown
    then ok (some receipt)
    else if is_transaction_replaced_error thrown
    then if was_cancelled then err (cancelled_error reason) else ok (some receipt)
    else err (rethrown thrown)

unfoldable pub wait_for_raw_receipt : Waited → Result (Option RawReceipt)
wait_for_raw_receipt (got receipt) = ok receipt
wait_for_raw_receipt (threw thrown) = recover thrown

pub data Receipt {ℓ} (D : Type ℓ) : Type ℓ where
  pending_receipt : Receipt D
  failed_receipt : RawReceipt → Receipt D
  successful_receipt : RawReceipt → D → Receipt D

abbrev pub is_pending {ℓ} : {D : Type ℓ} → Receipt D → Bool
is_pending pending_receipt = true
is_pending _ = false

module _ {ℓ} {D : Type ℓ} (parse : RawReceipt → Result D) where
  unfoldable pub mined_from : RawReceipt → Result (Receipt D)
  mined_from raw =
      if raw.status
      then (do details ← parse raw; ok (successful_receipt raw details))
      else ok (failed_receipt raw)

  unfoldable pub receipt_from : Option RawReceipt → Result (Receipt D)
  receipt_from none = ok pending_receipt
  receipt_from (some raw) = mined_from raw

  unfoldable pub get_receipt : Waited → Result (Receipt D)
  get_receipt waited = do raw ← wait_for_raw_receipt waited; receipt_from raw

  unfoldable pub wait_for_receipt : Waited → Result (Receipt D)
  wait_for_receipt waited = do
    receipt ← get_receipt waited
    guard (not (is_pending receipt)) assertion_failed
    ok receipt
