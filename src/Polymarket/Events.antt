-- ===== src/Polymarket/Events.antt =====
-- squids/predict-polymarket/src/main.ts: the decoded logs, and a batch of them.
mod SameBooks
pub mod Kept
use autonolas_subgraph.Prelude.{ℕ, Bool, List, [], ◌∷◌}
use autonolas_subgraph.Prelude.Int.{ℤ}
use autonolas_subgraph.Polymarket.PositionId.{HexText}
use autonolas_subgraph.Polymarket.State.{Address, ConditionId, Meta, State}
use autonolas_subgraph.Polymarket.Redemption.{process_redemption}
use autonolas_subgraph.Polymarket.Registry.{
  Chain, MarketText, handle_register_instance, handle_create_multisig_with_agents,
  handle_wallet_deployed, handle_condition_preparation, handle_question_initialization,
  handle_question_prepared, handle_request_registered, handle_token_registered,
}
use autonolas_subgraph.Polymarket.Fills.{OrderFill, handle_order_fill, handle_position_fill}
use autonolas_subgraph.Polymarket.Results.{
  handle_question_resolution, handle_outcome_reported, handle_condition_resolved,
  handle_position_redeemed,
}

pub data Event : Type 0 where
  register_instance : Address → ℕ → ℕ → Event
  create_multisig_with_agents : ℕ → Address → Event
  wallet_deployed : Address → Address → Event
  condition_preparation : ConditionId → Address → ℕ → ℕ → Event
  payout_redemption : Address → ConditionId → ℕ → Event
  question_initialized : ℕ → MarketText → Event
  question_resolved : ℕ → ℤ → List ℕ → Event
  question_prepared : ℕ → ℕ → MarketText → Event
  outcome_reported : ℕ → Bool → Event
  order_filled position_filled : OrderFill → Event
  token_registered : ℕ → ℕ → ConditionId → Event
  condition_resolved : HexText → List ℕ → Event
  position_redeemed : Address → ℕ → Address → ℕ → Event
  request_registered : ℕ → MarketText → Event

module _ (chain : Chain) where
  unfoldable pub handle : State → Meta → Event → State
  handle s m (Event.register_instance a service agent) =
      handle_register_instance s m a service agent
  handle s m (Event.create_multisig_with_agents service multisig) =
      handle_create_multisig_with_agents s m service multisig
  handle s m (Event.wallet_deployed wallet owner) = handle_wallet_deployed s m wallet owner
  handle s m (Event.condition_preparation condition oracle question slots) =
      handle_condition_preparation chain s m condition oracle question slots
  handle s m (Event.payout_redemption redeemer condition payout) =
      process_redemption s redeemer condition payout m
  handle s m (Event.question_initialized question text) =
      handle_question_initialization s m question text
  handle s m (Event.question_resolved question price payouts) =
      handle_question_resolution s m question price payouts
  handle s m (Event.question_prepared question market text) =
      handle_question_prepared s m question market text
  handle s m (Event.outcome_reported question outcome) =
      handle_outcome_reported s m question outcome
  handle s m (Event.order_filled p) = handle_order_fill s m p
  handle s m (Event.position_filled p) = handle_position_fill chain s m p
  handle s m (Event.token_registered token0 token1 condition) =
      handle_token_registered s m token0 token1 condition
  handle s m (Event.condition_resolved condition result) =
      handle_condition_resolved s m condition result
  handle s m (Event.position_redeemed initiator position recipient payout) =
      handle_position_redeemed chain s m initiator position recipient payout
  handle s m (Event.request_registered request rules) = handle_request_registered s request rules

  unfoldable pub run : List (Meta × Event) → State → State
  run [] s = s
  run ((m, e) ∷ logs) s = run logs (handle s m e)
