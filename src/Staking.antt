-- ===== src/Staking.antt =====
-- squids/staking/src: what is staked, and what staking earns.
pub mod State
pub mod History
pub mod Handlers
pub mod Checkpoint
pub mod Events
pub mod Books
mod Tests
