-- ===== src/Marketplace.antt =====
-- squids/marketplace: the mechs of the marketplace, the requests to them, and what is delivered and paid.
pub mod State
pub mod Fees
pub mod Books
pub mod Mechs
pub mod Registry
pub mod Requests
pub mod MechRequests
pub mod Deliveries
pub mod Signed
pub mod Direct
pub mod Events
pub mod Tally
pub mod Finality
pub mod Links
mod Tests
