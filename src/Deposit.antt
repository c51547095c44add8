-- ===== src/Deposit.antt =====
-- Deposits in the Stability Pool and in the B.AMM, and the changes that both describe
-- (packages/lib-base/src/StabilityDeposit.ts and BammDeposit.ts).
pub mod Stability
pub mod Bamm
mod Tests
