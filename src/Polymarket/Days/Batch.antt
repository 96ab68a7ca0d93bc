-- ===== src/Polymarket/Days/Batch.antt =====
-- squids/predict-polymarket/src/logic.ts and main.ts: a batch of logs keeps the days.
use autonolas_subgraph.Polymarket.Cases.{redemption-cases}
use autonolas_subgraph.Prelude.{ℕ, refl, ◌∙◌, Option, List, Option-cases, inl, inr}
use autonolas_subgraph.Prelude.Int.{pos, pos_suc}
use autonolas_subgraph.Prelude.Equality.{nat_eq, pair_eq}
use autonolas_subgraph.Prelude.Table.{get, set}
use autonolas_subgraph.Polymarket.State.{
  Address, ConditionId, Meta, State, TraderAgent, MarketParticipant, daily_id,
  get_daily_profit_statistic,
}
use autonolas_subgraph.Polymarket.Trade.{trade_global, process_trade_activity}
use autonolas_subgraph.Polymarket.Registry.{Chain, add_agent}
use autonolas_subgraph.Polymarket.Fills.{
  OrderFill, usdc_amount, shares_amount, bet_statistic, question_id_of, bet_row, tie_bet,
  record_bet,
}
use autonolas_subgraph.Polymarket.Redemption.{redeem, process_redemption}
use autonolas_subgraph.Polymarket.Events.{Event, run}
use autonolas_subgraph.Polymarket.Events.Kept.{IsKept, run-kept}
use autonolas_subgraph.Polymarket.Days.{IsBooked, day-add, day-same, same-IsBooked, tie-days}
use autonolas_subgraph.Polymarket.Days.Settlement.{resolution-IsBooked}

module _ (s : State) (m : Meta) (h : IsBooked s) where
  redeem-IsBooked :
      (id : Address) (a : TraderAgent) (condition : ConditionId) (p : MarketParticipant)
      (amount : ℕ)
      → IsBooked (redeem s id a condition p amount m)
  unfolding redeem get_daily_profit_statistic
  redeem-IsBooked id a condition p amount =
      let k = daily_id id m.block_timestamp in
      record {
        bets_by_days = day-same (λ d. pos d.total_bets) s.daily k _ _ refl refl h.bets_by_days;
        traded_by_days = day-same (λ d. d.total_traded) s.daily k _ _ refl refl h.traded_by_days;
        payout_by_days =
            day-add (λ d. d.total_payout) s.daily k _ _ (pos amount) refl refl h.payout_by_days;
        settled_by_days =
            day-same (λ d. d.daily_traded_settled) s.daily k _ _ refl refl h.settled_by_days;
        profit_by_days = day-same (λ d. d.daily_profit) s.daily k _ _ refl refl h.profit_by_days;
      }

  redemption-IsBooked :
      (id : Address) (condition : ConditionId) (amount : ℕ)
      → IsBooked (process_redemption s id condition amount m)
  redemption-IsBooked id condition amount =
      redemption-cases IsBooked s condition m h id amount
        (λ a p known part. redeem-IsBooked id a condition p amount)

  agent-IsBooked : (service : ℕ) (multisig : Address) → IsBooked (add_agent s m service multisig)
  unfolding add_agent
  agent-IsBooked service multisig = elim (Option-cases (get multisig s.agents)) [
    | inr (a, known) ↦ rw (known, add_agent) h
    | inl new ↦
        rw (new, add_agent)
          (record {
            bets_by_days = h.bets_by_days;
            traded_by_days = h.traded_by_days;
            payout_by_days = h.payout_by_days;
            settled_by_days = h.settled_by_days;
            profit_by_days = h.profit_by_days;
          })
  ]

  bet-IsBooked :
      (id : Address) (agent : TraderAgent) (p : OrderFill) (condition : ConditionId) (index : ℕ)
      (collateral : Option Address)
      → IsBooked (record_bet s m id agent p condition index collateral)
  unfolding record_bet get_daily_profit_statistic bet_statistic process_trade_activity trade_global
  bet-IsBooked id agent p condition index collateral =
      let k = daily_id id m.block_timestamp in
      let d = bet_statistic (get_daily_profit_statistic s id m.block_timestamp) (usdc_amount p) in
      let question = question_id_of condition (get condition s.questions) in
      let bet = bet_row m id p question index collateral in
      let written : State = record s {
        daily = set k d s.daily;
        bets = set (m.transaction_hash, m.log_index) bet s.bets;
      } in
      let traded =
        process_trade_activity written id agent condition question (usdc_amount p) index
          (shares_amount p) m in
      let booked : IsBooked traded = record {
        bets_by_days =
            pos_suc _
            ∙ day-add (λ d. pos d.total_bets) s.daily k _ _ (pos 1) refl (pos_suc _) h.bets_by_days;
        traded_by_days =
            day-add (λ d. d.total_traded) s.daily k _ _ (usdc_amount p) refl refl h.traded_by_days;
        payout_by_days = day-same (λ d. d.total_payout) s.daily k _ _ refl refl h.payout_by_days;
        settled_by_days =
            day-same (λ d. d.daily_traded_settled) s.daily k _ _ refl refl h.settled_by_days;
        profit_by_days = day-same (λ d. d.daily_profit) s.daily k _ _ refl refl h.profit_by_days;
      } in
      same-IsBooked traded (tie_bet traded m (id, condition) bet)
        (tie-days traded m (id, condition) bet) booked

IsBooked-IsKept : IsKept IsBooked
IsBooked-IsKept = record {
  same = λ s t h. same-IsBooked s t (h.0, h.3);
  agent_added = λ s m service multisig h. agent-IsBooked s m h service multisig;
  bet_recorded = λ s m id agent p condition index collateral known h.
      bet-IsBooked s m h id agent p condition index collateral;
  market_resolved = resolution-IsBooked;
  payout_claimed = λ s id condition amount m h. redemption-IsBooked s m h id condition amount;
}

-- Any batch of logs keeps the days: where the squid's number of bets and its totals traded, paid out and
-- settled are the sums over the agents' days, and the profits of all days are what is expected less what
-- is settled, all this holds after the batch too.
pub run-IsBooked :
    (chain : Chain) (logs : List (Meta × Event)) (s : State)
    → IsBooked s
    → IsBooked (run chain logs s)
run-IsBooked chain = run-kept IsBooked IsBooked-IsKept chain
