-- ===== src/Ethers/Mined.antt =====
-- When waiting for a receipt returns one (packages/lib-ethers/src/PopulatableEthersLiquity.ts).
use stability_protocol.Base.{Bool, true, false, Option, some, Result, ok, ◌≡◌, ◌⊎◌}
use stability_protocol.Ethers.Receipts.{
  RawErrorReason, transaction_failed, call_exception_code, transaction_replaced_code, RawReceipt,
  ethers_error, Waited, got, threw, is_replacement_reason, Receipt, failed_receipt,
  successful_receipt,
}

-- The receipt of the transaction, of its failure, or of the transaction that took its place without cancelling it.
pub data IsFinal : Waited → RawReceipt → Type 0 where
  was_mined : (raw : RawReceipt) → IsFinal (got (some raw)) raw
  has_failed :
      (was_cancelled : Bool) (raw : RawReceipt)
      → IsFinal
          (threw
            (ethers_error (some call_exception_code) (some transaction_failed) was_cancelled raw))
          raw
  was_replaced :
      (reason : Option RawErrorReason) (raw : RawReceipt)
      → is_replacement_reason reason ≡ true
      → IsFinal (threw (ethers_error (some transaction_replaced_code) reason false raw)) raw

module _ {D : Type 0} (parse : RawReceipt → Result D) where
  -- The receipt of a mined transaction: it failed, or it succeeded with the details that its logs hold.
  abbrev pub IsReceipt : RawReceipt → Receipt D → Type 0
  IsReceipt raw receipt =
      (raw.status ≡ false) × (receipt ≡ failed_receipt raw)
      ⊎ (raw.status ≡ true)
        × ((details : D) × (parse raw ≡ ok details) × (receipt ≡ successful_receipt raw details))
