-- ===== src/Ethers/Tests/Ends.antt =====
-- A receipt, its details, and a withdrawal on the concrete chain.
use stability_protocol.Base.{◌≡◌, true, [], ◌∷◌}
use stability_protocol.Trove.{Trove}
use stability_protocol.Ethers.Receipts.{RawReceipt, trove_updated, borrowing_fee_paid}
use stability_protocol.Ethers.Details.{
  Addresses, trove_change_details, trove_closure_details, liquidation_details, gains_details,
  withdrawal_details, gain_transfer_details, redemption_details,
}
use stability_protocol.Ethers.Foreign.{own_logs, own_receipt, details-own}
use stability_protocol.Ethers.Tests.Chains.{sample_chain}

-- The transaction was repriced, and its receipt is that of the replacement.
abbrev sample_receipt : RawReceipt
sample_receipt = record {
  status = true;
  sender = 5;
  logs =
      record { address = 66; event = borrowing_fee_paid 9 }
      ∷ record { address = 1; event = borrowing_fee_paid 7 }
      ∷ record { address = 1; event = trove_updated 30 20 }
      ∷ [];
}

abbrev sample_trove : Trove
sample_trove = sample_chain.get_trove 5

abbrev sample_addresses : Addresses
sample_addresses = record {
  borrower_operations = 1;
  trove_manager = 2;
  thusd_token = 3;
  active_pool = 4;
  stability_pool = 6;
}

details-own_example :
    (trove_change_details sample_addresses sample_trove
        (own_receipt sample_addresses sample_receipt)
      ≡ trove_change_details sample_addresses sample_trove sample_receipt)
    × (trove_closure_details sample_addresses (own_receipt sample_addresses sample_receipt)
        ≡ trove_closure_details sample_addresses sample_receipt)
    × (liquidation_details sample_addresses (own_receipt sample_addresses sample_receipt)
        ≡ liquidation_details sample_addresses sample_receipt)
    × (gains_details sample_addresses (own_logs sample_addresses sample_receipt.logs)
        ≡ gains_details sample_addresses sample_receipt.logs)
    × (withdrawal_details sample_addresses (own_receipt sample_addresses sample_receipt)
        ≡ withdrawal_details sample_addresses sample_receipt)
    × (gain_transfer_details sample_addresses (own_receipt sample_addresses sample_receipt)
        ≡ gain_transfer_details sample_addresses sample_receipt)
    × (redemption_details sample_addresses (own_receipt sample_addresses sample_receipt)
        ≡ redemption_details sample_addresses sample_receipt)
details-own_example = details-own sample_addresses sample_trove sample_receipt
