-- ===== src/Ethers/Tests/Runs.antt =====
-- Runs of the transactions on the concrete chain.
use stability_protocol.Base.{ℕ, ◌*◌, ◌^◌, ◌≡◌, some, List, refl, arith, ok}
use stability_protocol.Decimal.{Decimal, digits}
use stability_protocol.Trove.Change.{CreationParams}
use stability_protocol.Ethers.Trials.{generate_trials, generate_trials-total, IsCut}
use stability_protocol.Ethers.Hints.{find_hints_for_nominal_collateral_ratio}
use stability_protocol.Ethers.Hints.Found.{AreHints, others, find_hints-AreHints}
use stability_protocol.Ethers.Borrowing.{BorrowingOptions}
use stability_protocol.Ethers.Tests.Chains.{two_troves, ratio_of, two_contracts, two_laws}

generate_trials-total_example : (ns : List ℕ) × (generate_trials 6000 ≡ ok ns) × IsCut 6000 ns
generate_trials-total_example = generate_trials-total 6000 (omega arith)

-- The Trove at 5 is reinserted between the ends of a list of which it is the first.
find_hints-AreHints_example :
    (hints : ℕ × ℕ) × (find_hints_for_nominal_collateral_ratio two_contracts 77 4 (some 5)
      ≡ ok hints)
    × AreHints ratio_of (others (some 5) two_troves) 4 hints
find_hints-AreHints_example =
    find_hints-AreHints two_contracts two_troves ratio_of two_laws 77 4 (some 5) refl (ground arith)

abbrev sample_creation : CreationParams
sample_creation = record { deposit_collateral = 2 * digits; borrow_thusd = 2000 * digits }

abbrev sample_rate : Decimal
sample_rate = 5 * 10 ^ 15

abbrev sample_options : BorrowingOptions
sample_options = record { max_borrowing_rate = 10 ^ 16; tolerance_minutes = 10 }
