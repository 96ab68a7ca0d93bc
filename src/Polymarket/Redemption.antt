-- ===== src/Polymarket/Redemption.antt =====
-- squids/predict-polymarket/src/logic.ts, `processRedemption`: a claim, counted in the payout totals.
use autonolas_subgraph.Prelude.{ℕ, none, some}
use autonolas_subgraph.Prelude.Int.{pos, ◌+ℤ◌}
use autonolas_subgraph.Prelude.Equality.{nat_eq, pair_eq}
use autonolas_subgraph.Prelude.Table.{get, set}
use autonolas_subgraph.Polymarket.State.{
  Address, ConditionId, Meta, State, TraderAgent, MarketParticipant, get_global, daily_id,
  get_daily_profit_statistic,
}

-- The writes, once the agent and its part of the market are known.
unfoldable pub redeem :
    State → Address → TraderAgent → ConditionId → MarketParticipant → ℕ → Meta → State
redeem s redeemer agent condition participant amount m =
    let g = get_global s in
    let d = get_daily_profit_statistic s redeemer m.block_timestamp in
    record s {
      redemptions =
          set (m.transaction_hash, m.log_index)
            (record {
              redeemer = redeemer;
              condition_id = condition;
              payout_amount = amount;
              block_number = m.block_number;
              block_timestamp = m.block_timestamp;
              transaction_hash = m.transaction_hash;
            })
            s.redemptions;
      agents =
          set redeemer (record agent { total_payout = agent.total_payout +ℤ pos amount }) s.agents;
      participants =
          set (redeemer, condition)
            (record participant { total_payout = participant.total_payout +ℤ pos amount })
            s.participants;
      totals = some (record g { total_payout = g.total_payout +ℤ pos amount });
      daily =
          set (daily_id redeemer m.block_timestamp)
            (record d { total_payout = d.total_payout +ℤ pos amount }) s.daily;
    }

unfoldable pub process_redemption : State → Address → ConditionId → ℕ → Meta → State
process_redemption s redeemer condition amount m = elim (get redeemer s.agents) [
  | none ↦ s
  | some agent ↦ elim (get condition s.questions) [
    | none ↦ s
    | some _ ↦ elim (get (redeemer, condition) s.participants) [
      | none ↦ s
      | some participant ↦ redeem s redeemer agent condition participant amount m
    ]
  ]
]
