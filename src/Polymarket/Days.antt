-- ===== src/Polymarket/Days.antt =====
-- squids/predict-polymarket/src/logic.ts: the totals of the squid against the statistics of the days.
mod Settlement
pub mod Batch
use autonolas_subgraph.Prelude.{
  ℕ, ◌+◌, ◌≡◌, refl, sym, ap, subst, ◌∙◌, ◌&&◌, Bool, Option, none, some, List, [], ◌∷◌, arith, ltb,
  ◌==◌, if◌then◌else◌, Option-cases, Bool-cases, inl, inr,
}
use autonolas_subgraph.Prelude.Int.{ℤ, pos, ◌+ℤ◌, ◌-ℤ◌, eqb_ℤ, int_laws, add_zero, pos_suc}
use autonolas_subgraph.Prelude.Equality.{nat_eq, pair_eq}
use autonolas_subgraph.Prelude.Table.{Table, get, set, sum_by, value_at, sum_by-add}
use autonolas_subgraph.Polymarket.State.{
  Address, ConditionId, Meta, State, TraderAgent, MarketParticipant, DailyProfitStatistic, Bet,
  Global, or_new, new_statistic, or_statistic, daily_id, get_daily_profit_statistic,
  add_profit_participant,
}
use autonolas_subgraph.Polymarket.Trade.{trade_global, process_trade_activity}
use autonolas_subgraph.Polymarket.Registry.{Chain, add_agent}
use autonolas_subgraph.Polymarket.Fills.{
  OrderFill, usdc_amount, shares_amount, bet_statistic, question_id_of, bet_row, tie_bet,
  record_bet,
}
use autonolas_subgraph.Polymarket.Resolution.{
  Verdict, Deltas, is_of, amount_to_settle, expected_payout_of, score_bet, settle_bets,
  settled_statistic, settle, settle_next, settle_all, participants_by_question, apply_deltas,
  resolve, resolution_row, process_market_resolution,
}
use autonolas_subgraph.Polymarket.Redemption.{redeem, process_redemption}
use autonolas_subgraph.Polymarket.Events.{Event, run}
use autonolas_subgraph.Polymarket.Events.Kept.{IsKept, run-kept}

abbrev pub Days : Type 0
Days = Table (Address × ℕ) DailyProfitStatistic

-- What the days say, where `settled` and `expected` are still to be added to the totals: each total is
-- the sum over the days of the agents, and the profits sum up to what is expected less what is settled.
pub record IsDaily (totals : Option Global) (days : Days) (settled expected : ℤ) : Type 0 where
  pub bets_by_days : pos (or_new totals).total_bets ≡ sum_by (λ d. pos d.total_bets) days
  pub traded_by_days : (or_new totals).total_traded ≡ sum_by (λ d. d.total_traded) days
  pub payout_by_days : (or_new totals).total_payout ≡ sum_by (λ d. d.total_payout) days
  pub settled_by_days :
      (or_new totals).total_traded_settled +ℤ settled ≡ sum_by (λ d. d.daily_traded_settled) days
  pub profit_by_days :
      (or_new totals).total_expected_payout
        +ℤ expected
        -ℤ ((or_new totals).total_traded_settled +ℤ settled)
      ≡ sum_by (λ d. d.daily_profit) days

abbrev pub IsBooked : State → Type 0
IsBooked s = IsDaily s.totals s.daily (pos 0) (pos 0)

-- A column of a day that may be new, once the day is written.
pub day-add :
    (f : DailyProfitStatistic → ℤ) (days : Days) (k : Address × ℕ) (d : DailyProfitStatistic)
    (total e : ℤ)
    → f new_statistic ≡ pos 0
    → f d ≡ f (or_statistic (get k days)) +ℤ e
    → total ≡ sum_by f days
    → total +ℤ e ≡ sum_by f (set k d days)
unfolding value_at
day-add f days k d total e zero grows = elim (Option-cases (get k days)) [
  | inl new ↦ sum_by-add f k d days total e (rw new (grows ∙ rw (new, zero) refl))
  | inr (old, found) ↦ sum_by-add f k d days total e (rw found (grows ∙ rw found refl))
]

pub day-same :
    (f : DailyProfitStatistic → ℤ) (days : Days) (k : Address × ℕ) (d : DailyProfitStatistic)
    (total : ℤ)
    → f new_statistic ≡ pos 0
    → f d ≡ f (or_statistic (get k days))
    → total ≡ sum_by f days
    → total ≡ sum_by f (set k d days)
day-same f days k d total zero same h =
    sym (add_zero total) ∙ day-add f days k d total (pos 0) zero (same ∙ sym (add_zero _)) h

-- The money of a day.
abbrev pub IsSameMoney : DailyProfitStatistic → DailyProfitStatistic → Type 0
IsSameMoney d e =
    (e.total_bets ≡ d.total_bets)
    × (e.total_traded ≡ d.total_traded)
    × (e.total_payout ≡ d.total_payout)
    × (e.daily_traded_settled ≡ d.daily_traded_settled)
    × (e.daily_profit ≡ d.daily_profit)

score_bet-money :
    (v : Verdict) (b : Bet) (d : DailyProfitStatistic) → IsSameMoney d (score_bet v b d)
unfolding score_bet
score_bet-money v b d = ground arith

pub settle_bets-money :
    (v : Verdict) (id : Address × ConditionId) (bets : Table (ℕ × ℕ) Bet) (d : DailyProfitStatistic)
    → IsSameMoney d (settle_bets v id bets d).1
unfolding settle_bets
settle_bets-money v id [] d = ground arith
settle_bets-money v id ((k, b) ∷ bets) d =
    let scored = if is_of b.market_participant id then score_bet v b d else d in
    ground (arith, score_bet-money v b d, settle_bets-money v id bets scored)

pub add_profit_participant-money :
    (d : DailyProfitStatistic) (condition : ConditionId)
    → IsSameMoney d (add_profit_participant d condition)
unfolding add_profit_participant
add_profit_participant-money d condition = ground arith

pub same-IsBooked :
    (s t : State) → (t.totals ≡ s.totals) × (t.daily ≡ s.daily) → IsBooked s → IsBooked t
same-IsBooked s t (totals, days) h = rw (totals, days) h

pub tie-days :
    (s : State) (m : Meta) (id : Address × ConditionId) (bet : Bet)
    → ((tie_bet s m id bet).totals ≡ s.totals) × ((tie_bet s m id bet).daily ≡ s.daily)
unfolding tie_bet
tie-days s m id bet = ground arith
