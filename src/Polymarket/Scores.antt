-- ===== src/Polymarket/Scores.antt =====
-- squids/predict-polymarket/src/logic.ts and brier.ts: the prices of bets and the scores of days.
use autonolas_subgraph.Polymarket.Cases.{settle_next-cases, resolution-cases, redemption-cases}
use autonolas_subgraph.Prelude.{
  ℕ, ◌+◌, ◌*◌, ◌≤◌, ◌≡◌, Option, some, List, [], ◌∷◌, arith, Option-cases, Bool-cases, inl, inr,
}
use autonolas_subgraph.Prelude.Int.{pos}
use autonolas_subgraph.Prelude.Equality.{nat_eq, pair_eq}
use autonolas_subgraph.Prelude.Table.{Table, get, set}
use autonolas_subgraph.Prelude.Rows.{AllRows, set-AllRows, get-AllRows}
use autonolas_subgraph.Polymarket.Brier.{probability_scale}
use autonolas_subgraph.Polymarket.Brier.Bounds.{probability-le-scale, brier_contribution-le}
use autonolas_subgraph.Polymarket.State.{
  Address, ConditionId, Meta, State, TraderAgent, MarketParticipant, DailyProfitStatistic, Bet,
  daily_id, get_daily_profit_statistic, add_profit_participant,
}
use autonolas_subgraph.Polymarket.Trade.{process_trade_activity}
use autonolas_subgraph.Polymarket.Registry.{Chain, add_agent}
use autonolas_subgraph.Polymarket.Fills.{
  OrderFill, usdc_amount, shares_amount, bet_statistic, question_id_of, bet_row, tie_bet,
  record_bet,
}
use autonolas_subgraph.Polymarket.Resolution.{
  Verdict, Deltas, is_of, actual_of, count_bet, score_bet, settle_bets, settled_statistic, settle,
  settle_next, settle_all, participants_by_question, apply_deltas, resolve, resolution_row,
  process_market_resolution,
}
use autonolas_subgraph.Polymarket.Resolution.Bounds.{actual_of-le}
use autonolas_subgraph.Polymarket.Redemption.{redeem, process_redemption}
use autonolas_subgraph.Polymarket.Events.{Event, run}
use autonolas_subgraph.Polymarket.Events.Kept.{IsKept, run-kept}

-- A price is at most 1, and the scores of a day are at most 1 for each bet that is scored.
abbrev pub IsPriced : Bet → Type 0
IsPriced b = b.implied_probability ≤ probability_scale

abbrev pub IsScored : DailyProfitStatistic → Type 0
IsScored d = d.brier_sum ≤ d.brier_count * probability_scale

abbrev pub AreFair : State → Type 0
AreFair s = AllRows IsPriced s.bets × AllRows IsScored s.daily

get_daily-IsScored :
    (s : State) (id time : ℕ)
    → AllRows IsScored s.daily
    → IsScored (get_daily_profit_statistic s id time)
unfolding get_daily_profit_statistic
get_daily-IsScored s id time h = elim (Option-cases (get (daily_id id time) s.daily)) [
  | inl new ↦ rw new (omega arith)
  | inr (d, found) ↦ rw found (get-AllRows IsScored (daily_id id time) d s.daily h found)
]

one_more : (n s k x : ℕ) → s ≤ n * k → x ≤ k → s + x ≤ (n + 1) * k
one_more n s k x h g = omega arith

score_bet-IsScored :
    (v : Verdict) (b : Bet) (d : DailyProfitStatistic)
    → IsPriced b
    → IsScored d
    → IsScored (score_bet v b d)
unfolding score_bet
score_bet-IsScored v b d price h =
    let score =
      brier_contribution-le b.implied_probability (actual_of v b.outcome_index) price
        (actual_of-le v b.outcome_index) in
    let more = one_more d.brier_count d.brier_sum probability_scale _ h score in ground arith

count_bet-price : (b : Bet) → (count_bet b).implied_probability ≡ b.implied_probability
unfolding count_bet
count_bet-price b = ground arith

settle_bets-fair :
    (v : Verdict) (id : Address × ConditionId) (bets : Table (ℕ × ℕ) Bet) (d : DailyProfitStatistic)
    → AllRows IsPriced bets
    → IsScored d
    → AllRows IsPriced (settle_bets v id bets d).0 × IsScored (settle_bets v id bets d).1
unfolding settle_bets
settle_bets-fair v id [] d prices h = (tt, h)
settle_bets-fair v id ((k, b) ∷ bets) d prices h =
    elim (Bool-cases (is_of b.market_participant id)) [
      | inl own ↦
          let rest =
            settle_bets-fair v id bets (score_bet v b d) prices.1
              (score_bet-IsScored v b d prices.0 h) in
          rw (own, settle_bets) ((rw (count_bet-price b) prices.0, rest.0), rest.1)
      | inr other ↦
          let rest = settle_bets-fair v id bets d prices.1 h in
          rw (other, settle_bets) ((prices.0, rest.0), rest.1)
    ]

settled_statistic-IsScored :
    (v : Verdict) (c : ConditionId) (p : MarketParticipant) (d : DailyProfitStatistic)
    → IsScored d
    → IsScored (settled_statistic v c p d)
unfolding settled_statistic add_profit_participant
settled_statistic-IsScored v c p d h = ground arith

module _ (v : Verdict) (m : Meta) (condition : ConditionId) where
  settle_next-fair :
      (s : State) (d : Deltas) (id : Address × ConditionId) (p : MarketParticipant)
      → AreFair s
      → AreFair (settle_next v m condition (s, d) id p).0
  unfolding settle
  settle_next-fair s d id p (prices, scores) =
      let day = get_daily-IsScored s id.0 m.block_timestamp scores in
      let (prices', day') =
        settle_bets-fair v id s.bets _ prices (settled_statistic-IsScored v condition p _ day) in
      settle_next-cases (λ sd. AreFair sd.0) v m condition s d id p (prices, scores)
        (λ a due known. (prices', set-AllRows IsScored _ _ s.daily day' scores))

  settle_all-fair :
      (rows : Table (Address × ConditionId) MarketParticipant) (s : State) (d : Deltas)
      → AreFair s
      → AreFair (settle_all v m condition rows (s, d)).0
  unfolding settle_all
  settle_all-fair [] s d h = h
  settle_all-fair ((id, p) ∷ rows) s d h =
      let (s', d') = settle_next v m condition (s, d) id p in
      settle_all-fair rows s' d' (settle_next-fair s d id p h)

-- Writes that leave the bets and the days alone.
same-fair : (s t : State) → (t.bets ≡ s.bets) × (t.daily ≡ s.daily) → AreFair s → AreFair t
same-fair s t (bets, days) h = rw (bets, days) h

apply_deltas-fair :
    (s : State) (d : Deltas)
    → ((apply_deltas (s, d)).bets ≡ s.bets) × ((apply_deltas (s, d)).daily ≡ s.daily)
unfolding apply_deltas
apply_deltas-fair s d = ground arith

agent-fair :
    (s : State) (m : Meta) (service : ℕ) (multisig : Address)
    → let t = add_agent s m service multisig in (t.bets ≡ s.bets) × (t.daily ≡ s.daily)
unfolding add_agent
agent-fair s m service multisig = ground arith

resolution-AreFair :
    (s : State) (condition : ConditionId) (v : Verdict) (m : Meta)
    → AreFair s
    → AreFair (process_market_resolution s condition v m)
unfolding resolve
resolution-AreFair s condition v m h =
    let s1 : State = record s { resolutions = set condition (resolution_row v m) s.resolutions } in
    let zero : Deltas = record { traded_settled = pos 0; expected_payout = pos 0 } in
    let rows = participants_by_question condition s.participants in
    let (s', d) = settle_all v m condition rows (s1, zero) in
    resolution-cases AreFair s condition m h v (
      same-fair s' (apply_deltas (s', d)) (apply_deltas-fair s' d)
        (settle_all-fair v m condition rows s1 zero h))

redemption-AreFair :
    (s : State) (id : Address) (condition : ConditionId) (amount : ℕ) (m : Meta)
    → AreFair s
    → AreFair (process_redemption s id condition amount m)
unfolding redeem
redemption-AreFair s id condition amount m h =
    redemption-cases AreFair s condition m h id amount (λ a p known part.
      (h.0, set-AllRows IsScored _ _ s.daily (get_daily-IsScored s id m.block_timestamp h.1) h.1))

tie-AreFair :
    (s : State) (m : Meta) (id : Address × ConditionId) (b : Bet)
    → IsPriced b
    → AreFair s
    → AreFair (tie_bet s m id b)
unfolding tie_bet
tie-AreFair s m id b price h = elim (Option-cases (get id s.participants)) [
  | inl absent ↦ rw (absent, tie_bet) h
  | inr (p, part) ↦
      let tied : Bet = record b { market_participant = some id } in
      rw (part, tie_bet)
        (set-AllRows IsPriced (m.transaction_hash, m.log_index) tied s.bets price h.0, h.1)
]

bet-AreFair :
    (s : State) (m : Meta) (id : Address) (agent : TraderAgent) (p : OrderFill)
    (condition : ConditionId) (index : ℕ) (collateral : Option Address)
    → AreFair s
    → AreFair (record_bet s m id agent p condition index collateral)
unfolding record_bet process_trade_activity bet_statistic bet_row
bet-AreFair s m id agent p condition index collateral (prices, scores) =
    let k = daily_id id m.block_timestamp in
    let d = bet_statistic (get_daily_profit_statistic s id m.block_timestamp) (usdc_amount p) in
    let question = question_id_of condition (get condition s.questions) in
    let bet = bet_row m id p question index collateral in
    let written : State = record s {
      daily = set k d s.daily;
      bets = set (m.transaction_hash, m.log_index) bet s.bets;
    } in
    let traded =
      process_trade_activity written id agent condition question (usdc_amount p) index
        (shares_amount p) m in
    let price = probability-le-scale (usdc_amount p) (shares_amount p) in
    tie-AreFair traded m (id, condition) bet price
      (
        set-AllRows IsPriced (m.transaction_hash, m.log_index) bet s.bets price prices,
        set-AllRows IsScored k d s.daily (get_daily-IsScored s id m.block_timestamp scores) scores,
      )

AreFair-IsKept : IsKept AreFair
AreFair-IsKept = record {
  same = λ s t h. same-fair s t (h.4, h.3);
  agent_added = λ s m service multisig h.
      same-fair s (add_agent s m service multisig) (agent-fair s m service multisig) h;
  bet_recorded = λ s m id agent p condition index collateral known h.
      bet-AreFair s m id agent p condition index collateral h;
  market_resolved = resolution-AreFair;
  payout_claimed = redemption-AreFair;
}

-- Any batch of logs keeps the bets' prices at most 1, and the sum of each day's scores at most 1 for
-- each bet that was scored.
pub run-AreFair :
    (chain : Chain) (logs : List (Meta × Event)) (s : State)
    → AreFair s
    → AreFair (run chain logs s)
run-AreFair chain = run-kept AreFair AreFair-IsKept chain
