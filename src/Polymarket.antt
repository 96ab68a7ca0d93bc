-- ===== src/Polymarket.antt =====
-- squids/predict-polymarket/src: the bets, settlements and claims of prediction-market agents.
pub mod Brier
pub mod State
pub mod PositionId
pub mod Trade
pub mod Resolution
pub mod Redemption
pub mod Registry
pub mod Fills
pub mod Results
pub mod Events
pub mod Decode
pub mod Cases
pub mod Ledger
pub mod Days
pub mod Finality
mod Tests
pub mod Scores
