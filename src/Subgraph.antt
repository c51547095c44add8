-- ===== src/Subgraph.antt =====
-- The subgraph (packages/subgraph/src): the handlers that index the protocol's events into entities.
pub mod Entities
pub mod Graph
pub mod Operations
pub mod Changes
pub mod Closings
pub mod Tokens
pub mod Counters
pub mod Troves
pub mod Census
pub mod Deposits
pub mod Handlers
pub mod Frame
mod Tests
