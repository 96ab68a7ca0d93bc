-- ===== src/Polymarket/State.antt =====
-- squids/predict-polymarket/src/model and logic.ts: the rows of the squid, a table for each entity
-- class, and `getGlobal` and `getDailyProfitStatistic`, which give a fresh row where none is stored.
use autonolas_subgraph.Prelude.{
  ℕ, ◌*◌, ◌/◌, Bool, false, Option, none, some, List, [], ◌∷◌, ◌++◌, ◌==◌, ◌||◌, if◌then◌else◌,
}
use autonolas_subgraph.Prelude.Int.{ℤ, pos}
use autonolas_subgraph.Prelude.Equality.{nat_eq, pair_eq}
use autonolas_subgraph.Prelude.Table.{Table, get}

-- Addresses, condition ids, question ids, hashes and texts are numbers.
abbrev pub Address : Type 0
Address = ℕ

abbrev pub ConditionId : Type 0
ConditionId = ℕ

-- `EventMeta`
pub record Meta : Type 0 where
  pub block_number : ℕ
  pub block_timestamp : ℕ
  pub transaction_hash : ℕ
  pub log_index : ℕ

pub record TraderAgent : Type 0 where
  pub service_id : ℕ
  pub first_participation : Option ℕ
  pub last_active : Option ℕ
  pub total_bets : ℕ
  pub total_traded : ℤ
  pub total_traded_settled : ℤ
  pub total_payout : ℤ
  pub total_expected_payout : ℤ
  pub created : Meta

pub record MarketParticipant : Type 0 where
  pub question : Option ConditionId
  pub total_bets : ℕ
  pub total_traded : ℤ
  pub total_traded_settled : ℤ
  pub total_payout : ℤ
  pub outcome_shares_0 : ℤ
  pub outcome_shares_1 : ℤ
  pub expected_payout : ℤ
  pub settled : Bool
  pub created_at : ℕ
  pub block_number : ℕ
  pub block_timestamp : ℕ
  pub transaction_hash : ℕ

pub record Global : Type 0 where
  pub total_trader_agents : ℕ
  pub total_active_trader_agents : ℕ
  pub total_bets : ℕ
  pub total_traded : ℤ
  pub total_traded_settled : ℤ
  pub total_payout : ℤ
  pub total_expected_payout : ℤ
  pub total_markets_participated : ℕ

pub record DailyProfitStatistic : Type 0 where
  pub total_bets : ℕ
  pub total_traded : ℤ
  pub total_payout : ℤ
  pub daily_traded_settled : ℤ
  pub daily_profit : ℤ
  pub profit_participants : List ConditionId
  pub brier_sum : ℕ
  pub brier_count : ℕ

pub record Bet : Type 0 where
  pub bettor : Address
  pub outcome_index : ℕ
  pub amount : ℤ
  pub shares : ℤ
  pub is_buy : Bool
  pub implied_probability : ℕ
  pub counted_in_total : Bool
  pub counted_in_profit : Bool
  pub question : Option ConditionId
  pub market_participant : Option (Address × ConditionId)
  pub daily_statistic : Address × ℕ
  pub builder : Option ℕ
  pub metadata : Option ℕ
  pub collateral : Option Address
  pub block_timestamp : ℕ
  pub transaction_hash : ℕ

pub record Question : Type 0 where
  pub question_id : ℕ
  pub is_neg_risk : Bool
  pub market_id : Option ℕ
  pub metadata : ℕ
  pub block_number : ℕ
  pub block_timestamp : ℕ
  pub transaction_hash : ℕ

pub record MarketMetadata : Type 0 where
  pub title : ℕ
  pub outcomes : List ℕ
  pub raw_ancillary_data : ℕ

pub record QuestionResolution : Type 0 where
  pub winning_index : ℤ
  pub settled_price : ℤ
  pub payouts : List ℕ
  pub block_number : ℕ
  pub block_timestamp : ℕ
  pub transaction_hash : ℕ

pub record PayoutRedemption : Type 0 where
  pub redeemer : Address
  pub condition_id : ConditionId
  pub payout_amount : ℕ
  pub block_number : ℕ
  pub block_timestamp : ℕ
  pub transaction_hash : ℕ

pub record AgentInstance : Type 0 where
  pub service_id : ℕ
  pub block_number : ℕ
  pub block_timestamp : ℕ
  pub transaction_hash : ℕ

pub record DepositWallet : Type 0 where
  pub trader_agent : Address
  pub agent_instance : Address
  pub block_number : ℕ
  pub block_timestamp : ℕ
  pub transaction_hash : ℕ

pub record TokenRegistry : Type 0 where
  pub condition_id : ConditionId
  pub outcome_index : ℕ
  pub transaction_hash : ℕ

-- `QuestionIdToConditionId`
pub record Bridge : Type 0 where
  pub condition_id : ConditionId
  pub oracle : Address
  pub transaction_hash : ℕ

-- The cache. A trader service is its multisig, once it is known.
pub record State : Type 0 where
  pub totals : Option Global
  pub agents : Table Address TraderAgent
  pub participants : Table (Address × ConditionId) MarketParticipant
  pub participated : Table ConditionId (Unit {0})
  pub daily : Table (Address × ℕ) DailyProfitStatistic
  pub bets : Table (ℕ × ℕ) Bet
  pub questions : Table ConditionId Question
  pub metadata : Table ℕ MarketMetadata
  pub resolutions : Table ConditionId QuestionResolution
  pub redemptions : Table (ℕ × ℕ) PayoutRedemption
  pub services : Table ℕ (Option Address)
  pub instances : Table Address AgentInstance
  pub wallets : Table Address DepositWallet
  pub tokens : Table ℕ TokenRegistry
  pub bridges : Table ℕ Bridge

abbrev pub new_global : Global
new_global = record {
  total_trader_agents = 0;
  total_active_trader_agents = 0;
  total_bets = 0;
  total_traded = pos 0;
  total_traded_settled = pos 0;
  total_payout = pos 0;
  total_expected_payout = pos 0;
  total_markets_participated = 0;
}

abbrev pub or_new : Option Global → Global
or_new none = new_global
or_new (some g) = g

abbrev pub get_global : State → Global
get_global s = or_new s.totals

unfoldable pub get_day_timestamp : ℕ → ℕ
get_day_timestamp timestamp = timestamp / 86400 * 86400

abbrev pub new_statistic : DailyProfitStatistic
new_statistic = record {
  total_bets = 0;
  total_traded = pos 0;
  total_payout = pos 0;
  daily_traded_settled = pos 0;
  daily_profit = pos 0;
  profit_participants = [];
  brier_sum = 0;
  brier_count = 0;
}

abbrev pub or_statistic : Option DailyProfitStatistic → DailyProfitStatistic
or_statistic none = new_statistic
or_statistic (some d) = d

abbrev pub daily_id : Address → ℕ → Address × ℕ
daily_id agent timestamp = (agent, get_day_timestamp timestamp)

unfoldable pub get_daily_profit_statistic : State → Address → ℕ → DailyProfitStatistic
get_daily_profit_statistic s agent timestamp = or_statistic (get (daily_id agent timestamp) s.daily)

-- `indexOf(…) !== -1`
abbrev pub includes : List ℕ → ℕ → Bool
includes [] v = false
includes (x ∷ l) v = x == v || includes l v

unfoldable pub add_profit_participant : DailyProfitStatistic → ConditionId → DailyProfitStatistic
add_profit_participant d condition =
    if includes d.profit_participants condition
    then d
    else record d { profit_participants = d.profit_participants ++ condition ∷ [] }
