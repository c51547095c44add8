-- ===== src/Ethers/Tests.antt =====
-- A concrete chain with two Troves, and runs of the transactions on it.
mod Chains
mod Runs
mod Others
mod Ends
