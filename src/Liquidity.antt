-- ===== src/Liquidity.antt =====
-- squids/liquidity: the pools of OLAS, their reserves, their supply and their fees.
pub mod State
pub mod Metrics
pub mod Transfers
pub mod Swaps
pub mod Events
pub mod Books
mod Tests
