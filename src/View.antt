-- ===== src/View.antt =====
-- The view state machines of the web front end (packages/dev-frontend/src/components/Vault/context and
-- Stability/context): a view for each vault or deposit, moved by events.
pub mod Dispatch
pub mod Vault
pub mod Stability
mod Tests
