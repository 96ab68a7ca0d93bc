-- ===== src/Polymarket/Ledger/Batch.antt =====
-- squids/predict-polymarket/src/main.ts: a batch of logs keeps the ledger.
use autonolas_subgraph.Prelude.{
  ℕ, ◌≡◌, refl, sym, ◌∙◌, Option, some, List, arith, Option-cases, inl, inr,
}
use autonolas_subgraph.Prelude.Int.{ℤ, pos, add_zero}
use autonolas_subgraph.Prelude.Equality.{nat_eq, pair_eq}
use autonolas_subgraph.Prelude.Table.{get, set, sum_by, value_at, sum_by-add}
use autonolas_subgraph.Polymarket.State.{
  Address, ConditionId, Meta, State, TraderAgent, Bet, get_daily_profit_statistic, daily_id,
}
use autonolas_subgraph.Polymarket.Trade.{process_trade_activity}
use autonolas_subgraph.Polymarket.Registry.{Chain, new_agent, add_agent}
use autonolas_subgraph.Polymarket.Fills.{
  usdc_amount, shares_amount, OrderFill, bet_statistic, question_id_of, bet_row, tie_bet,
  record_bet,
}
use autonolas_subgraph.Polymarket.Events.{Event, run}
use autonolas_subgraph.Polymarket.Ledger.{IsLedger}
use autonolas_subgraph.Polymarket.Ledger.Trade.{trade-IsLedger}
use autonolas_subgraph.Polymarket.Ledger.Redemption.{redemption-IsLedger}
use autonolas_subgraph.Polymarket.Ledger.Resolution.{resolution-IsLedger}
use autonolas_subgraph.Polymarket.Events.Kept.{IsKept, run-kept}

-- Rows that the ledger speaks of are the same.
same-IsLedger :
    (s t : State)
    → (t.totals ≡ s.totals) × (t.agents ≡ s.agents) × (t.participants ≡ s.participants)
    → IsLedger s
    → IsLedger t
same-IsLedger s t (totals, agents, parts) h = rw (totals, agents, parts) h

tie-same :
    (s : State) (m : Meta) (id : Address × ConditionId) (bet : Bet)
    → let t = tie_bet s m id bet in
      (t.totals ≡ s.totals) × (t.agents ≡ s.agents) × (t.participants ≡ s.participants)
unfolding tie_bet
tie-same s m id bet = (ground arith, ground arith, ground arith)

-- A new agent starts with zeros.
add_agent-IsLedger :
    (s : State) (m : Meta) (service : ℕ) (multisig : Address)
    → IsLedger s
    → IsLedger (add_agent s m service multisig)
unfolding add_agent new_agent value_at
add_agent-IsLedger s m service multisig h = elim (Option-cases (get multisig s.agents)) [
  | inr (a, known) ↦ rw (known, add_agent) h
  | inl new ↦
      let row = new_agent service m in
      let by_agents =
        λ (f : TraderAgent → ℤ) (total : ℤ) (zero : f row ≡ pos 0) (e : total ≡ sum_by f s.agents).
          sym (add_zero total)
          ∙ sum_by-add f multisig row s.agents total (pos 0)
              (rw new (zero ∙ sym (add_zero (pos 0)))) e in
      rw (new, add_agent)
        (record {
          keyed = h.keyed;
          bets_by_agents = by_agents (λ a. pos a.total_bets) _ refl h.bets_by_agents;
          bets_by_parts = h.bets_by_parts;
          traded_by_agents = by_agents (λ a. a.total_traded) _ refl h.traded_by_agents;
          traded_by_parts = h.traded_by_parts;
          payout_by_agents = by_agents (λ a. a.total_payout) _ refl h.payout_by_agents;
          payout_by_parts = h.payout_by_parts;
          settled_by_agents = by_agents (λ a. a.total_traded_settled) _ refl h.settled_by_agents;
          settled_by_parts = h.settled_by_parts;
          expected_by_agents = by_agents (λ a. a.total_expected_payout) _ refl h.expected_by_agents;
          expected_by_parts = h.expected_by_parts;
          unsettled = h.unsettled;
        })
]

record_bet-IsLedger :
    (s : State) (m : Meta) (id : Address) (agent : TraderAgent) (p : OrderFill)
    (condition : ConditionId) (index : ℕ) (collateral : Option Address)
    → get id s.agents ≡ some agent
    → IsLedger s
    → IsLedger (record_bet s m id agent p condition index collateral)
unfolding record_bet
record_bet-IsLedger s m id agent p condition index collateral known h =
    let d = bet_statistic (get_daily_profit_statistic s id m.block_timestamp) (usdc_amount p) in
    let question = question_id_of condition (get condition s.questions) in
    let bet = bet_row m id p question index collateral in
    let written : State = record s {
      daily = set (daily_id id m.block_timestamp) d s.daily;
      bets = set (m.transaction_hash, m.log_index) bet s.bets;
    } in
    let traded =
      process_trade_activity written id agent condition question (usdc_amount p) index
        (shares_amount p) m in
    same-IsLedger traded (tie_bet traded m (id, condition) bet)
      (tie-same traded m (id, condition) bet)
      (trade-IsLedger written id agent condition question (usdc_amount p) index (shares_amount p) m
        known h)

IsLedger-IsKept : IsKept IsLedger
IsLedger-IsKept = record {
  same = λ s t h. same-IsLedger s t (h.0, h.1, h.2);
  agent_added = add_agent-IsLedger;
  bet_recorded = record_bet-IsLedger;
  market_resolved = resolution-IsLedger;
  payout_claimed = redemption-IsLedger;
}

-- Any batch of logs keeps the ledger: where the squid's numbers of bets and totals traded, paid out,
-- settled and expected are the sums over the agents' rows and over the rows of their parts of the
-- markets, with each part stored once and nothing expected by a part that is not settled, all this
-- holds after the batch too.
pub run-IsBalanced :
    (chain : Chain) (logs : List (Meta × Event)) (s : State)
    → IsLedger s
    → IsLedger (run chain logs s)
run-IsBalanced chain = run-kept IsLedger IsLedger-IsKept chain
