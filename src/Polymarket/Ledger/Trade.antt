-- ===== src/Polymarket/Ledger/Trade.antt =====
-- squids/predict-polymarket/src/logic.ts, `processTradeActivity`: a fill keeps the ledger.
use autonolas_subgraph.Prelude.{ℕ, ◌≡◌, refl, sym, ◌∙◌, ap, false, Option, none, some}
use autonolas_subgraph.Prelude.Int.{ℤ, add_zero, pos, ◌+ℤ◌, pos_suc}
use autonolas_subgraph.Prelude.Equality.{nat_eq, pair_eq}
use autonolas_subgraph.Prelude.Table.{get, set, sum_by, value_at, sum_by-add, set-IsKeyed}
use autonolas_subgraph.Polymarket.State.{
  Address, ConditionId, Meta, State, TraderAgent, MarketParticipant,
}
use autonolas_subgraph.Polymarket.Trade.{
  trade_agent, new_participant, or_participant, trade_participant, trade_global,
  process_trade_activity,
}
use autonolas_subgraph.Polymarket.Ledger.{IsLedger, set-AreUnsettled}

module _ (amount : ℤ) (index : ℕ) (shares : ℤ) (m : Meta) (question : Option ConditionId) where
  -- A column that is 0 in a new part, and grows by `d` with the fill.
  column :
      (f : MarketParticipant → ℤ) (d : ℤ) (o : Option MarketParticipant)
      → ((p : MarketParticipant) → f (trade_participant p amount index shares m) ≡ f p +ℤ d)
      → f (new_participant question m) ≡ pos 0
      → f (trade_participant (or_participant o (new_participant question m)) amount index shares m)
        ≡ value_at f o +ℤ d
  unfolding value_at
  column f d none grows zero = grows (new_participant question m) ∙ ap (λ x. x +ℤ d) zero
  column f d (some p) grows zero = grows p

module _ (s : State) (id : Address) (agent : TraderAgent) (condition : ConditionId)
    (question : Option ConditionId) (amount : ℤ) (index : ℕ) (shares : ℤ) (m : Meta)
    (known : get id s.agents ≡ some agent) (h : IsLedger s) where
  agent_column :
      (f : TraderAgent → ℤ) (total d : ℤ)
      → f (trade_agent agent amount m) ≡ f agent +ℤ d
      → total ≡ sum_by f s.agents
      → total +ℤ d ≡ sum_by f (set id (trade_agent agent amount m) s.agents)
  unfolding value_at
  agent_column f total d grows =
      sum_by-add f id (trade_agent agent amount m) s.agents total d (rw known grows)

  part_column :
      (f : MarketParticipant → ℤ) (total d : ℤ)
      → ((p : MarketParticipant) → f (trade_participant p amount index shares m) ≡ f p +ℤ d)
      → f (new_participant question m) ≡ pos 0
      → total ≡ sum_by f s.participants
      → total +ℤ d
        ≡ sum_by f
            (process_trade_activity s id agent condition question amount index shares
              m).participants
  unfolding process_trade_activity
  part_column f total d grows zero =
      sum_by-add f (id, condition) _ s.participants total d
        (column amount index shares m question f d (get (id, condition) s.participants) grows zero)

  open_part :
      (o : Option MarketParticipant)
      → get (id, condition) s.participants ≡ o
      → let p =
          trade_participant (or_participant o (new_participant question m)) amount index shares m in
        p.settled ≡ false → p.expected_payout ≡ pos 0
  unfolding trade_participant new_participant
  open_part none found unpaid = refl
  open_part (some p) found unpaid = h.unsettled (id, condition) p found unpaid

  pub trade-IsLedger :
      IsLedger (process_trade_activity s id agent condition question amount index shares m)
  unfolding process_trade_activity trade_agent trade_participant trade_global new_participant
  trade-IsLedger = record {
    keyed = set-IsKeyed (id, condition) _ s.participants h.keyed;
    bets_by_agents =
        pos_suc _ ∙ agent_column (λ a. pos a.total_bets) _ (pos 1) (pos_suc _) h.bets_by_agents;
    bets_by_parts =
        pos_suc _
        ∙ part_column (λ p. pos p.total_bets) _ (pos 1) (λ p. pos_suc _) refl h.bets_by_parts;
    traded_by_agents = agent_column (λ a. a.total_traded) _ amount refl h.traded_by_agents;
    traded_by_parts = part_column (λ p. p.total_traded) _ amount (λ p. refl) refl h.traded_by_parts;
    payout_by_agents =
        sym (add_zero _)
        ∙ agent_column (λ a. a.total_payout) _ (pos 0) (sym (add_zero _)) h.payout_by_agents;
    payout_by_parts =
        sym (add_zero _)
        ∙ part_column (λ p. p.total_payout) _ (pos 0) (λ p. sym (add_zero _)) refl
            h.payout_by_parts;
    settled_by_agents =
        sym (add_zero _)
        ∙ agent_column (λ a. a.total_traded_settled) _ (pos 0) (sym (add_zero _))
            h.settled_by_agents;
    settled_by_parts =
        sym (add_zero _)
        ∙ part_column (λ p. p.total_traded_settled) _ (pos 0) (λ p. sym (add_zero _)) refl
            h.settled_by_parts;
    expected_by_agents =
        sym (add_zero _)
        ∙ agent_column (λ a. a.total_expected_payout) _ (pos 0) (sym (add_zero _))
            h.expected_by_agents;
    expected_by_parts =
        sym (add_zero _)
        ∙ part_column (λ p. p.expected_payout) _ (pos 0) (λ p. sym (add_zero _)) refl
            h.expected_by_parts;
    unsettled =
        set-AreUnsettled s.participants (id, condition) _ h.unsettled
          (open_part (get (id, condition) s.participants) refl);
  }
