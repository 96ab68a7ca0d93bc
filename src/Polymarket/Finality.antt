-- ===== src/Polymarket/Finality.antt =====
-- squids/predict-polymarket/src/main.ts: a result that is recorded is final.
use autonolas_subgraph.Prelude.{ℕ, ◌≡◌, Option, some, List, arith}
use autonolas_subgraph.Prelude.Equality.{nat_eq, pair_eq}
use autonolas_subgraph.Prelude.Table.{get}
use autonolas_subgraph.Polymarket.State.{
  Address, ConditionId, Meta, State, TraderAgent, QuestionResolution,
}
use autonolas_subgraph.Polymarket.Trade.{process_trade_activity}
use autonolas_subgraph.Polymarket.Registry.{Chain, add_agent}
use autonolas_subgraph.Polymarket.Fills.{OrderFill, tie_bet, record_bet}
use autonolas_subgraph.Polymarket.Resolution.Once.{resolution-kept}
use autonolas_subgraph.Polymarket.Redemption.{redeem, process_redemption}
use autonolas_subgraph.Polymarket.Cases.{redemption-cases}
use autonolas_subgraph.Polymarket.Events.{Event, run}
use autonolas_subgraph.Polymarket.Events.Kept.{IsKept, run-kept}

module _ (c : ConditionId) (r : QuestionResolution) where
  abbrev IsFinal : State → Type 0
  IsFinal s = get c s.resolutions ≡ some r

  agent-IsFinal :
      (s : State) (m : Meta) (service : ℕ) (multisig : Address)
      → IsFinal s
      → IsFinal (add_agent s m service multisig)
  unfolding add_agent
  agent-IsFinal s m service multisig h = ground arith

  bet-IsFinal :
      (s : State) (m : Meta) (id : Address) (agent : TraderAgent) (p : OrderFill)
      (condition : ConditionId) (index : ℕ) (collateral : Option Address)
      → get id s.agents ≡ some agent
      → IsFinal s
      → IsFinal (record_bet s m id agent p condition index collateral)
  unfolding record_bet process_trade_activity tie_bet
  bet-IsFinal s m id agent p condition index collateral known h = ground arith

  redemption-IsFinal :
      (s : State) (id : Address) (condition : ConditionId) (amount : ℕ) (m : Meta)
      → IsFinal s
      → IsFinal (process_redemption s id condition amount m)
  unfolding redeem
  redemption-IsFinal s id condition amount m h =
      redemption-cases IsFinal s condition m h id amount (λ a p known part. h)

  IsFinal-IsKept : IsKept IsFinal
  IsFinal-IsKept = record {
    same = λ s t same h. rw same.5 h;
    agent_added = agent-IsFinal;
    bet_recorded = bet-IsFinal;
    market_resolved = λ s condition v m h. resolution-kept s c r condition v m h;
    payout_claimed = redemption-IsFinal;
  }

  -- A result that is recorded for a market is never changed or removed by any batch of logs, whatever
  -- results, fills and claims the batch holds.
  pub run-IsFinal :
      (chain : Chain) (logs : List (Meta × Event)) (s : State)
      → get c s.resolutions ≡ some r
      → get c (run chain logs s).resolutions ≡ some r
  run-IsFinal chain = run-kept IsFinal IsFinal-IsKept chain
