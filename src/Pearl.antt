-- ===== src/Pearl.antt =====
-- squids/pearl-transactions/src: the funds ledger of Pearl wallets.
pub mod Model
pub mod Classify
pub mod BondQueue
pub mod State
pub mod Ledger
pub mod Transfer
pub mod Safes
pub mod Bonds
pub mod Registry
pub mod Staking
pub mod Execution
pub mod MultiSend
pub mod Events
mod Tests
