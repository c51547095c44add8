-- ===== src/Validation.antt =====
-- What the front end lets a user do (packages/dev-frontend/src/components/Vault/validation and
-- Stability/validation). An element that is shown is a value that says which text it holds, and with
-- which amounts.
pub mod Vault
pub mod Stability
mod Tests
