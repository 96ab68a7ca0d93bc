-- ===== src/Polymarket/Resolution.antt =====
-- squids/predict-polymarket/src/logic.ts, `processMarketResolution`: what a market's result pays to
-- every participant, the profit of the day, and the score of every bet.
pub mod Once
pub mod Due
pub mod Settled
pub mod Bounds
use autonolas_subgraph.Prelude.{
  ℕ, ◌+◌, ◌*◌, ◌/◌, ◌&&◌, ◌||◌, Bool, true, false, not, Option, none, some, List, [], ◌∷◌, ltb,
  ◌==◌, if◌then◌else◌, get_or,
}
use autonolas_subgraph.Prelude.Int.{ℤ, pos, pos_part, ◌+ℤ◌, ◌-ℤ◌, ltb_ℤ, eqb_ℤ, neg_ℤ}
use autonolas_subgraph.Prelude.Equality.{nat_eq, pair_eq}
use autonolas_subgraph.Prelude.Table.{Table, get, set}
use autonolas_subgraph.Polymarket.Brier.{probability_scale, brier_contribution, actual_for_outcome}
use autonolas_subgraph.Polymarket.State.{
  Address, ConditionId, Meta, State, TraderAgent, MarketParticipant, DailyProfitStatistic, Bet,
  QuestionResolution, Global, get_global, daily_id, get_daily_profit_statistic,
  add_profit_participant,
}

-- The arguments of the resolution, and the sum of the payouts.
pub record Verdict : Type 0 where
  pub winning_outcome : ℤ
  pub settled_price : ℤ
  pub payouts : List ℕ

unfoldable pub sum : List ℕ → ℕ
sum [] = 0
sum (p ∷ l) = p + sum l

abbrev pub payout_total : Verdict → ℕ
payout_total v = sum v.payouts

-- What the shares of one outcome get where no outcome wins alone.
unfoldable pub part : Verdict → ℤ → ℕ → ℤ
part v shares i =
    if ltb_ℤ (pos 0) shares && ltb 0 (payout_total v)
    then pos (pos_part shares * get_or v.payouts i 0 / payout_total v)
    else pos 0

abbrev pub clamped : ℤ → ℤ
clamped shares = if ltb_ℤ (pos 0) shares then shares else pos 0

unfoldable pub expected_payout_of : Verdict → MarketParticipant → ℤ
expected_payout_of v p =
    if eqb_ℤ v.winning_outcome (pos 0)
    then clamped p.outcome_shares_0
    else if eqb_ℤ v.winning_outcome (pos 1)
    then clamped p.outcome_shares_1
    else part v p.outcome_shares_0 0 +ℤ part v p.outcome_shares_1 1

-- The actual value that a bet's score compares with.
unfoldable pub actual_of : Verdict → ℕ → ℕ
actual_of v outcome_index =
    if eqb_ℤ v.winning_outcome (neg_ℤ (pos 1)) && ltb 0 (payout_total v)
    then get_or v.payouts outcome_index 0 * probability_scale / payout_total v
    else actual_for_outcome outcome_index v.winning_outcome

unfoldable pub count_bet : Bet → Bet
count_bet b =
    if b.counted_in_profit
    then b
    else record b { counted_in_profit = true; counted_in_total = true }

unfoldable pub score_bet : Verdict → Bet → DailyProfitStatistic → DailyProfitStatistic
score_bet v b d =
    if b.is_buy && ltb 0 b.implied_probability
    then record d {
      brier_sum =
          d.brier_sum + brier_contribution b.implied_probability (actual_of v b.outcome_index);
      brier_count = d.brier_count + 1;
    }
    else d

abbrev pub is_of : Option (Address × ConditionId) → Address × ConditionId → Bool
is_of none id = false
is_of (some (a, c)) id = a == id.0 && c == id.1

-- `betsByParticipant`, and the loop over them: each bet marked, each buy scored.
unfoldable pub settle_bets :
    Verdict
    → Address × ConditionId
    → Table (ℕ × ℕ) Bet
    → DailyProfitStatistic
    → Table (ℕ × ℕ) Bet × DailyProfitStatistic
settle_bets v id [] d = ([], d)
settle_bets v id ((k, b) ∷ bets) d =
    let own = is_of b.market_participant id in
    let (bets', d') = settle_bets v id bets (if own then score_bet v b d else d) in
    ((k, (if own then count_bet b else b)) ∷ bets', d')

-- The deltas of the squid's totals.
pub record Deltas : Type 0 where
  pub traded_settled : ℤ
  pub expected_payout : ℤ

abbrev pub amount_to_settle : MarketParticipant → ℤ
amount_to_settle p = p.total_traded -ℤ p.total_traded_settled

unfoldable pub settled_participant : Verdict → MarketParticipant → MarketParticipant
settled_participant v p = record p {
  expected_payout = expected_payout_of v p;
  total_traded_settled = p.total_traded;
  settled = true;
}

unfoldable pub settled_agent : Verdict → MarketParticipant → TraderAgent → TraderAgent
settled_agent v p a = record a {
  total_traded_settled = a.total_traded_settled +ℤ amount_to_settle p;
  total_expected_payout = a.total_expected_payout +ℤ expected_payout_of v p;
}

unfoldable pub settled_statistic :
    Verdict → ConditionId → MarketParticipant → DailyProfitStatistic → DailyProfitStatistic
settled_statistic v condition p d =
    add_profit_participant
      (record d {
        daily_profit = d.daily_profit +ℤ (expected_payout_of v p -ℤ amount_to_settle p);
        daily_traded_settled = d.daily_traded_settled +ℤ amount_to_settle p;
      })
      condition

-- The body of the loop for a participant whose agent is known.
unfoldable pub settle :
    Verdict
    → Meta
    → ConditionId
    → State × Deltas
    → Address × ConditionId
    → MarketParticipant
    → TraderAgent
    → State × Deltas
settle v m condition (s, deltas) id p agent =
    let day = daily_id id.0 m.block_timestamp in
    let statistic =
      settled_statistic v condition p (get_daily_profit_statistic s id.0 m.block_timestamp) in
    let (bets, scored) = settle_bets v id s.bets statistic in
    (
      record s {
        participants = set id (settled_participant v p) s.participants;
        agents = set id.0 (settled_agent v p agent) s.agents;
        bets = bets;
        daily = set day scored s.daily;
      },
      record {
        traded_settled = deltas.traded_settled +ℤ amount_to_settle p;
        expected_payout = deltas.expected_payout +ℤ expected_payout_of v p;
      },
    )

unfoldable pub settle_next :
    Verdict
    → Meta
    → ConditionId
    → State × Deltas
    → Address × ConditionId
    → MarketParticipant
    → State × Deltas
settle_next v m condition (s, deltas) id p =
    if p.settled then (s, deltas) else elim (get id.0 s.agents) [
      | none ↦ (s, deltas)
      | some agent ↦ settle v m condition (s, deltas) id p agent
    ]

-- The loop over the participants of the market, each as it is stored.
unfoldable pub settle_all :
    Verdict
    → Meta
    → ConditionId
    → Table (Address × ConditionId) MarketParticipant
    → State × Deltas
    → State × Deltas
settle_all v m condition [] sd = sd
settle_all v m condition ((id, p) ∷ rest) sd =
    settle_all v m condition rest (settle_next v m condition sd id p)

-- `participantsByQuestion`
unfoldable pub participants_by_question :
    ConditionId
    → Table (Address × ConditionId) MarketParticipant
    → Table (Address × ConditionId) MarketParticipant
participants_by_question condition [] = []
participants_by_question condition ((id, p) ∷ rest) =
    let others = participants_by_question condition rest in
    elim p.question [ none ↦ others | some q ↦ if q == condition then (id, p) ∷ others else others ]

unfoldable pub apply_deltas : State × Deltas → State
apply_deltas (s, d) =
    if eqb_ℤ d.traded_settled (pos 0) && eqb_ℤ d.expected_payout (pos 0)
    then s
    else let g = get_global s in
      record s {
        totals = some (record g {
          total_traded_settled = g.total_traded_settled +ℤ d.traded_settled;
          total_expected_payout = g.total_expected_payout +ℤ d.expected_payout;
        });
      }

unfoldable pub resolution_row : Verdict → Meta → QuestionResolution
resolution_row v m = record {
  winning_index = v.winning_outcome;
  settled_price = v.settled_price;
  payouts = v.payouts;
  block_number = m.block_number;
  block_timestamp = m.block_timestamp;
  transaction_hash = m.transaction_hash;
}

unfoldable pub resolve : State → ConditionId → Verdict → Meta → State
resolve s condition v m =
    let s1 : State = record s { resolutions = set condition (resolution_row v m) s.resolutions } in
    apply_deltas (
      settle_all v m condition (participants_by_question condition s1.participants)
        (s1, record { traded_settled = pos 0; expected_payout = pos 0 }))

-- Nothing happens for an unknown question, or a second time.
unfoldable pub process_market_resolution : State → ConditionId → Verdict → Meta → State
process_market_resolution s condition v m = elim (get condition s.questions) [
  | none ↦ s
  | some _ ↦ elim (get condition s.resolutions) [ some _ ↦ s | none ↦ resolve s condition v m ]
]
