-- ===== src/Polymarket/Trade.antt =====
-- squids/predict-polymarket/src/logic.ts, `processTradeActivity`: the totals of a fill, for the squid,
-- the agent and the agent's part of the market.
use autonolas_subgraph.Prelude.{ℕ, ◌+◌, Bool, false, Option, none, some, ◌==◌, if◌then◌else◌}
use autonolas_subgraph.Prelude.Int.{ℤ, pos, ◌+ℤ◌}
use autonolas_subgraph.Prelude.Equality.{nat_eq, pair_eq}
use autonolas_subgraph.Prelude.Table.{get, set}
use autonolas_subgraph.Polymarket.State.{
  Address, ConditionId, Meta, State, TraderAgent, MarketParticipant, Global, get_global,
}

-- Whether the row is missing.
abbrev pub is_none {ℓ} : {A : Type ℓ} → Option A → Bool
is_none none = Bool.true
is_none (some _) = false

unfoldable pub trade_agent : TraderAgent → ℤ → Meta → TraderAgent
trade_agent a amount m = record a {
  first_participation = elim a.first_participation [
    | none ↦ some m.block_timestamp
    | some t ↦ some t
  ];
  total_bets = a.total_bets + 1;
  last_active = some m.block_timestamp;
  total_traded = a.total_traded +ℤ amount;
}

unfoldable pub new_participant : Option ConditionId → Meta → MarketParticipant
new_participant question m = record {
  question = question;
  total_bets = 0;
  total_traded = pos 0;
  total_traded_settled = pos 0;
  total_payout = pos 0;
  outcome_shares_0 = pos 0;
  outcome_shares_1 = pos 0;
  expected_payout = pos 0;
  settled = false;
  created_at = m.block_timestamp;
  block_number = m.block_number;
  block_timestamp = m.block_timestamp;
  transaction_hash = m.transaction_hash;
}

abbrev pub or_participant : Option MarketParticipant → MarketParticipant → MarketParticipant
or_participant none new = new
or_participant (some p) new = p

unfoldable pub trade_participant : MarketParticipant → ℤ → ℕ → ℤ → Meta → MarketParticipant
trade_participant p amount outcome_index shares m = record p {
  total_bets = p.total_bets + 1;
  total_traded = p.total_traded +ℤ amount;
  outcome_shares_0 =
      if outcome_index == 0 then p.outcome_shares_0 +ℤ shares else p.outcome_shares_0;
  outcome_shares_1 =
      if outcome_index == 0 then p.outcome_shares_1 else p.outcome_shares_1 +ℤ shares;
  block_timestamp = m.block_timestamp;
  block_number = m.block_number;
  transaction_hash = m.transaction_hash;
}

-- The first participation of an agent, and the first of any agent in the market, are counted.
unfoldable pub trade_global : Global → ℤ → Bool → Bool → Global
trade_global g amount first_trade first_in_market = record g {
  total_bets = g.total_bets + 1;
  total_traded = g.total_traded +ℤ amount;
  total_active_trader_agents =
      if first_trade then g.total_active_trader_agents + 1 else g.total_active_trader_agents;
  total_markets_participated =
      if first_in_market then g.total_markets_participated + 1 else g.total_markets_participated;
}

-- `agent` is the row of `id`, and `question` the id of the market's question, where there is one.
unfoldable pub process_trade_activity :
    State → Address → TraderAgent → ConditionId → Option ConditionId → ℤ → ℕ → ℤ → Meta → State
process_trade_activity s id agent condition question amount outcome_index shares m =
    let old = get (id, condition) s.participants in
    let first_in_market = if is_none old then is_none (get condition s.participated) else false in
    record s {
      totals =
          some (
            trade_global (get_global s) amount (is_none agent.first_participation) first_in_market);
      agents = set id (trade_agent agent amount m) s.agents;
      participants =
          set (id, condition)
            (trade_participant (or_participant old (new_participant question m)) amount
              outcome_index shares m)
            s.participants;
      participated = if first_in_market then set condition tt s.participated else s.participated;
    }
