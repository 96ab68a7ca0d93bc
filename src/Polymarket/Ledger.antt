-- ===== src/Polymarket/Ledger.antt =====
-- squids/predict-polymarket/src/logic.ts: the totals of the squid against the rows of the agents and
-- of their parts of the markets.
pub mod Trade
pub mod Redemption
pub mod Resolution
pub mod Batch
use autonolas_subgraph.Prelude.{ℕ, ◌≡◌, false, Option, some, arith}
use autonolas_subgraph.Prelude.Int.{ℤ, pos, ◌+ℤ◌}
use autonolas_subgraph.Prelude.Equality.{nat_eq, pair_eq}
use autonolas_subgraph.Prelude.Table.{Table, get, set, get-set, sum_by, IsKeyed}
use autonolas_subgraph.Polymarket.State.{
  Address, ConditionId, State, TraderAgent, MarketParticipant, Global, or_new,
}

-- A part that is not settled expects nothing yet.
abbrev pub AreUnsettled : Table (Address × ConditionId) MarketParticipant → Type 0
AreUnsettled t =
    (id : Address × ConditionId) (p : MarketParticipant)
    → get id t ≡ some p
    → p.settled ≡ false
    → p.expected_payout ≡ pos 0

pub set-AreUnsettled :
    (t : Table (Address × ConditionId) MarketParticipant) (k : Address × ConditionId)
    (v : MarketParticipant)
    → AreUnsettled t
    → (v.settled ≡ false → v.expected_payout ≡ pos 0)
    → AreUnsettled (set k v t)
set-AreUnsettled t k v old new id p found unpaid = ground (arith, get-set k id v t, old id p)

-- What the ledger says, where `settled` and `expected` are still to be added to the totals: each
-- total is the sum over the agents, and over the parts of the markets, every part stands once, and
-- a part that is not settled expects nothing yet.
pub record IsBalanced (totals : Option Global) (agents : Table Address TraderAgent)
    (parts : Table (Address × ConditionId) MarketParticipant) (settled expected : ℤ) : Type 0 where
  pub keyed : IsKeyed parts
  pub bets_by_agents : pos (or_new totals).total_bets ≡ sum_by (λ a. pos a.total_bets) agents
  pub bets_by_parts : pos (or_new totals).total_bets ≡ sum_by (λ p. pos p.total_bets) parts
  pub traded_by_agents : (or_new totals).total_traded ≡ sum_by (λ a. a.total_traded) agents
  pub traded_by_parts : (or_new totals).total_traded ≡ sum_by (λ p. p.total_traded) parts
  pub payout_by_agents : (or_new totals).total_payout ≡ sum_by (λ a. a.total_payout) agents
  pub payout_by_parts : (or_new totals).total_payout ≡ sum_by (λ p. p.total_payout) parts
  pub settled_by_agents :
      (or_new totals).total_traded_settled +ℤ settled ≡ sum_by (λ a. a.total_traded_settled) agents
  pub settled_by_parts :
      (or_new totals).total_traded_settled +ℤ settled ≡ sum_by (λ p. p.total_traded_settled) parts
  pub expected_by_agents :
      (or_new totals).total_expected_payout +ℤ expected
      ≡ sum_by (λ a. a.total_expected_payout) agents
  pub expected_by_parts :
      (or_new totals).total_expected_payout +ℤ expected ≡ sum_by (λ p. p.expected_payout) parts
  pub unsettled : AreUnsettled parts

-- With nothing left to be added.
abbrev pub IsLedger : State → Type 0
IsLedger s = IsBalanced s.totals s.agents s.participants (pos 0) (pos 0)
