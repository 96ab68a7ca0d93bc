-- ===== src/Polymarket/Ledger/Redemption.antt =====
-- squids/predict-polymarket/src/logic.ts, `processRedemption`: a claim keeps the ledger.
use autonolas_subgraph.Polymarket.Cases.{redemption-cases}
use autonolas_subgraph.Prelude.{ℕ, ◌≡◌, refl, sym, ◌∙◌, some}
use autonolas_subgraph.Prelude.Int.{ℤ, pos, ◌+ℤ◌, add_zero}
use autonolas_subgraph.Prelude.Equality.{nat_eq, pair_eq}
use autonolas_subgraph.Prelude.Table.{get, sum_by, value_at, sum_by-add, set-IsKeyed}
use autonolas_subgraph.Polymarket.State.{
  Address, ConditionId, Meta, State, TraderAgent, MarketParticipant,
}
use autonolas_subgraph.Polymarket.Redemption.{redeem, process_redemption}
use autonolas_subgraph.Polymarket.Ledger.{IsLedger, set-AreUnsettled}

module _ (s : State) (id : Address) (condition : ConditionId) (amount : ℕ) (m : Meta)
    (h : IsLedger s) where
  redeem-IsLedger :
      (a : TraderAgent) (p : MarketParticipant)
      → get id s.agents ≡ some a
      → get (id, condition) s.participants ≡ some p
      → IsLedger (redeem s id a condition p amount m)
  unfolding redeem value_at
  redeem-IsLedger a p known part =
      let a' : TraderAgent = record a { total_payout = a.total_payout +ℤ pos amount } in
      let p' : MarketParticipant = record p { total_payout = p.total_payout +ℤ pos amount } in
      let by_agents = λ (f : TraderAgent → ℤ) (total d : ℤ) (grows : f a' ≡ f a +ℤ d).
        sum_by-add f id a' s.agents total d (rw known grows) in
      let by_parts = λ (f : MarketParticipant → ℤ) (total d : ℤ) (grows : f p' ≡ f p +ℤ d).
        sum_by-add f (id, condition) p' s.participants total d (rw part grows) in
      let same_agents =
        λ (f : TraderAgent → ℤ) (total : ℤ) (same : f a' ≡ f a) (e : total ≡ sum_by f s.agents).
          sym (add_zero total) ∙ by_agents f total (pos 0) (same ∙ sym (add_zero (f a))) e in
      let same_parts =
        λ (f : MarketParticipant → ℤ) (total : ℤ) (same : f p' ≡ f p)
            (e : total ≡ sum_by f s.participants).
          sym (add_zero total) ∙ by_parts f total (pos 0) (same ∙ sym (add_zero (f p))) e in
      record {
        keyed = set-IsKeyed (id, condition) p' s.participants h.keyed;
        bets_by_agents = same_agents (λ a. pos a.total_bets) _ refl h.bets_by_agents;
        bets_by_parts = same_parts (λ p. pos p.total_bets) _ refl h.bets_by_parts;
        traded_by_agents = same_agents (λ a. a.total_traded) _ refl h.traded_by_agents;
        traded_by_parts = same_parts (λ p. p.total_traded) _ refl h.traded_by_parts;
        payout_by_agents = by_agents (λ a. a.total_payout) _ (pos amount) refl h.payout_by_agents;
        payout_by_parts = by_parts (λ p. p.total_payout) _ (pos amount) refl h.payout_by_parts;
        settled_by_agents = same_agents (λ a. a.total_traded_settled) _ refl h.settled_by_agents;
        settled_by_parts = same_parts (λ p. p.total_traded_settled) _ refl h.settled_by_parts;
        expected_by_agents = same_agents (λ a. a.total_expected_payout) _ refl h.expected_by_agents;
        expected_by_parts = same_parts (λ p. p.expected_payout) _ refl h.expected_by_parts;
        unsettled =
            set-AreUnsettled s.participants (id, condition) p' h.unsettled
              (h.unsettled (id, condition) p part);
      }

  pub redemption-IsLedger : IsLedger (process_redemption s id condition amount m)
  redemption-IsLedger = redemption-cases IsLedger s condition m h id amount redeem-IsLedger
