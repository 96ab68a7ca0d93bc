-- ===== src/Polymarket/Days/Settlement.antt =====
-- squids/predict-polymarket/src/logic.ts, `processMarketResolution`: a settlement keeps the days.
use autonolas_subgraph.Polymarket.Cases.{settle_next-cases, resolution-cases}
use autonolas_subgraph.Prelude.{
  ◌≡◌, refl, ap, subst, ◌∙◌, ◌&&◌, [], ◌∷◌, arith, Bool-cases, inl, inr,
}
use autonolas_subgraph.Prelude.Int.{pos, ◌+ℤ◌, ◌-ℤ◌, eqb_ℤ, int_laws, add_zero}
use autonolas_subgraph.Prelude.Equality.{nat_eq, pair_eq}
use autonolas_subgraph.Prelude.Table.{Table, set}
use autonolas_subgraph.Polymarket.State.{
  Address, ConditionId, Meta, State, TraderAgent, MarketParticipant, DailyProfitStatistic, daily_id,
  get_daily_profit_statistic, add_profit_participant,
}
use autonolas_subgraph.Polymarket.Resolution.{
  Verdict, Deltas, amount_to_settle, expected_payout_of, settle_bets, settled_statistic, settle,
  settle_next, settle_all, participants_by_question, apply_deltas, resolve, resolution_row,
  process_market_resolution,
}
use autonolas_subgraph.Polymarket.Days.{
  IsDaily, IsBooked, day-add, day-same, settle_bets-money, add_profit_participant-money,
}

-- The statistic of a day after one part of a market is settled.
module _ (v : Verdict) (m : Meta) (condition : ConditionId) where
  settled_day-money :
      (s : State) (id : Address × ConditionId) (p : MarketParticipant)
      → let d = get_daily_profit_statistic s id.0 m.block_timestamp in
        let e = (settle_bets v id s.bets (settled_statistic v condition p d)).1 in
        (e.total_bets ≡ d.total_bets)
        × (e.total_traded ≡ d.total_traded)
        × (e.total_payout ≡ d.total_payout)
        × (e.daily_traded_settled ≡ d.daily_traded_settled +ℤ amount_to_settle p)
        × (e.daily_profit ≡ d.daily_profit +ℤ (expected_payout_of v p -ℤ amount_to_settle p))
  unfolding settled_statistic
  settled_day-money s id p =
      let d = get_daily_profit_statistic s id.0 m.block_timestamp in
      let paid : DailyProfitStatistic = record d {
        daily_profit = d.daily_profit +ℤ (expected_payout_of v p -ℤ amount_to_settle p);
        daily_traded_settled = d.daily_traded_settled +ℤ amount_to_settle p;
      } in
      let joined = add_profit_participant-money paid condition in
      let scored = settle_bets-money v id s.bets (add_profit_participant paid condition) in
      (
        scored.0 ∙ joined.0,
        scored.1 ∙ joined.1,
        scored.2 ∙ joined.2,
        scored.3 ∙ joined.3,
        scored.4 ∙ joined.4,
      )

  settle-IsDaily :
      (s : State) (d : Deltas) (id : Address × ConditionId) (p : MarketParticipant)
      (a : TraderAgent)
      → IsDaily s.totals s.daily d.traded_settled d.expected_payout
      → let (t, e) = settle v m condition (s, d) id p a in
        IsDaily t.totals t.daily e.traded_settled e.expected_payout
  unfolding settle get_daily_profit_statistic
  settle-IsDaily s d id p a h =
      let day = settled_day-money s id p in
      let k = daily_id id.0 m.block_timestamp in
      let old = get_daily_profit_statistic s id.0 m.block_timestamp in
      let new = (settle_bets v id s.bets (settled_statistic v condition p old)).1 in
      record {
        bets_by_days =
            day-same (λ d. pos d.total_bets) s.daily k new _ refl (ap pos day.0) h.bets_by_days;
        traded_by_days = day-same (λ d. d.total_traded) s.daily k new _ refl day.1 h.traded_by_days;
        payout_by_days = day-same (λ d. d.total_payout) s.daily k new _ refl day.2 h.payout_by_days;
        settled_by_days = omega (
          int_laws,
          day-add (λ d. d.daily_traded_settled) s.daily k new _ (amount_to_settle p) refl day.3
              h.settled_by_days,
        );
        profit_by_days = omega (
          int_laws,
          day-add (λ d. d.daily_profit) s.daily k new _
              (expected_payout_of v p -ℤ amount_to_settle p) refl day.4 h.profit_by_days,
        );
      }

  settle_next-IsDaily :
      (s : State) (d : Deltas) (id : Address × ConditionId) (p : MarketParticipant)
      → IsDaily s.totals s.daily d.traded_settled d.expected_payout
      → let (t, e) = settle_next v m condition (s, d) id p in
        IsDaily t.totals t.daily e.traded_settled e.expected_payout
  settle_next-IsDaily s d id p h =
      settle_next-cases (λ (t, e). IsDaily t.totals t.daily e.traded_settled e.expected_payout) v m
        condition s d id p h (λ a due known. settle-IsDaily s d id p a h)

  settle_all-IsDaily :
      (rows : Table (Address × ConditionId) MarketParticipant) (s : State) (d : Deltas)
      → IsDaily s.totals s.daily d.traded_settled d.expected_payout
      → let (t, e) = settle_all v m condition rows (s, d) in
        IsDaily t.totals t.daily e.traded_settled e.expected_payout
  unfolding settle_all
  settle_all-IsDaily [] s d h = h
  settle_all-IsDaily ((id, p) ∷ rows) s d h =
      let (s', d') = settle_next v m condition (s, d) id p in
      settle_all-IsDaily rows s' d' (settle_next-IsDaily s d id p h)

apply_deltas-IsBooked :
    (s : State) (d : Deltas)
    → IsDaily s.totals s.daily d.traded_settled d.expected_payout
    → IsBooked (apply_deltas (s, d))
unfolding apply_deltas
apply_deltas-IsBooked s d h =
    elim (Bool-cases (eqb_ℤ d.traded_settled (pos 0) && eqb_ℤ d.expected_payout (pos 0))) [
      | inl zero ↦
          let no_stakes : d.traded_settled ≡ pos 0 = ground arith in
          let no_payouts : d.expected_payout ≡ pos 0 = ground arith in
          rw (zero, apply_deltas)
            (subst (λ x. IsDaily s.totals s.daily x (pos 0)) no_stakes
              (subst (IsDaily s.totals s.daily d.traded_settled) no_payouts h))
      | inr moved ↦
          rw (moved, apply_deltas)
            (record {
              bets_by_days = h.bets_by_days;
              traded_by_days = h.traded_by_days;
              payout_by_days = h.payout_by_days;
              settled_by_days = add_zero _ ∙ h.settled_by_days;
              profit_by_days = omega (int_laws, h.profit_by_days);
            })
    ]

pub resolution-IsBooked :
    (s : State) (condition : ConditionId) (v : Verdict) (m : Meta)
    → IsBooked s
    → IsBooked (process_market_resolution s condition v m)
unfolding resolve
resolution-IsBooked s condition v m h =
    let s1 : State = record s { resolutions = set condition (resolution_row v m) s.resolutions } in
    let zero : Deltas = record { traded_settled = pos 0; expected_payout = pos 0 } in
    let rows = participants_by_question condition s.participants in
    let (s', d) = settle_all v m condition rows (s1, zero) in
    resolution-cases IsBooked s condition m h v
      (apply_deltas-IsBooked s' d (settle_all-IsDaily v m condition rows s1 zero h))
