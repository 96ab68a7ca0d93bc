-- ===== src/Polymarket/Results.antt =====
-- squids/predict-polymarket/src/handlers.ts and resolution.ts: the results of markets and the claims.
use autonolas_subgraph.Prelude.{
  ℕ, ◌+◌, ◌*◌, ◌/◌, Bool, not, none, some, List, [], ◌∷◌, ltb, ◌==◌, if◌then◌else◌, get_or,
}
use autonolas_subgraph.Prelude.Int.{ℤ, pos, neg_ℤ}
use autonolas_subgraph.Prelude.Equality.{nat_eq, pair_eq}
use autonolas_subgraph.Prelude.Table.{get}
use autonolas_subgraph.Polymarket.Brier.{probability_scale}
use autonolas_subgraph.Polymarket.State.{Address, Meta, State}
use autonolas_subgraph.Polymarket.Trade.{is_none}
use autonolas_subgraph.Polymarket.Resolution.{process_market_resolution}
use autonolas_subgraph.Polymarket.Redemption.{process_redemption}
use autonolas_subgraph.Polymarket.Registry.{Chain}
use autonolas_subgraph.Polymarket.PositionId.{HexText, key_of, decode_position_id, pad_condition_id}
use autonolas_subgraph.Polymarket.Fills.{resolve_maker_agent}

-- The outcome with the larger of the first two payouts, -1 where there are fewer or they are equal.
unfoldable pub winning_outcome_of : List ℕ → ℤ
winning_outcome_of (first ∷ second ∷ _) =
    if ltb first second then pos 1 else if ltb second first then pos 0 else neg_ℤ (pos 1)
winning_outcome_of _ = neg_ℤ (pos 1)

unfoldable pub handle_question_resolution : State → Meta → ℕ → ℤ → List ℕ → State
handle_question_resolution s m question_id settled_price payouts =
    elim (get question_id s.bridges) [
      | none ↦ s
      | some bridge ↦
          process_market_resolution s bridge.condition_id
            (record {
              winning_outcome = winning_outcome_of payouts;
              settled_price = settled_price;
              payouts = payouts;
            })
            m
    ]

-- `true` is YES, outcome 0.
unfoldable pub handle_outcome_reported : State → Meta → ℕ → Bool → State
handle_outcome_reported s m question_id is_yes = elim (get question_id s.bridges) [
  | none ↦ s
  | some bridge ↦
      process_market_resolution s bridge.condition_id
        (record {
          winning_outcome = if is_yes then pos 0 else pos 1;
          settled_price = if is_yes then pos 1 else pos 0;
          payouts = if is_yes then 1 ∷ 0 ∷ [] else 0 ∷ 1 ∷ [];
        })
        m
]

abbrev pub result_denominator : ℕ
result_denominator = 1000000

-- `result.indexOf(…)`, the list from place `i` on.
unfoldable pub winning_from : ℕ → List ℕ → ℤ
winning_from i [] = neg_ℤ (pos 1)
winning_from i (payout ∷ result) =
    let later = winning_from (i + 1) result in if payout == result_denominator then pos i else later

unfoldable pub winning_outcome_from_result : List ℕ → ℤ
winning_outcome_from_result result = winning_from 0 result

unfoldable pub handle_condition_resolved : State → Meta → HexText → List ℕ → State
handle_condition_resolved s m condition result =
    process_market_resolution s (key_of (pad_condition_id condition))
      (record {
        winning_outcome = winning_outcome_from_result result;
        settled_price = pos (get_or result 0 0 * probability_scale / result_denominator);
        payouts = result;
      })
      m

-- A claim through the Router, for a market whose result is recorded.
unfoldable pub handle_position_redeemed : Chain → State → Meta → Address → ℕ → Address → ℕ → State
handle_position_redeemed chain s m initiator position_id recipient payout =
    let condition = key_of (pad_condition_id (decode_position_id position_id).condition_id) in
    if not (initiator == chain.router) then s else elim (resolve_maker_agent s recipient) [
      | none ↦ s
      | some (id, agent) ↦
          if is_none (get condition s.resolutions)
          then s
          else process_redemption s id condition payout m
    ]
