-- ===== src/Ethers.antt =====
-- The transactions of the SDK (packages/lib-ethers/src/PopulatableEthersLiquity.ts): the search for hints, the gas
-- that is added to an estimate, and the operations that populate a transaction.
pub mod Gas
pub mod Trials
pub mod Hints
pub mod Transaction
pub mod Chain
pub mod Borrowing
pub mod Adjusting
pub mod Opened
pub mod Adjusted
pub mod Redemption
pub mod Redeemed
pub mod Receipts
pub mod Details
pub mod Foreign
pub mod Mined
pub mod Operations
pub mod Transfers
mod Tests
