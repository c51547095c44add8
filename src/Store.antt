-- ===== src/Store.antt =====
-- `class LiquityStore` (packages/lib-base/src/LiquityStore.ts): the state that it keeps, how an update
-- is merged and the derived state follows, its timer and its listeners.
pub mod State
pub mod Reduce
pub mod Derived
pub mod Lifecycle
pub mod Consistent
pub mod Updated
pub mod Timer
pub mod Listeners
mod Tests
