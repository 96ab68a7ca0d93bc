-- ===== src/Services/State.antt =====
-- squids/service-registry/src/model/generated: the rows of the squid, a table for each entity class, apart
-- by what writes them: the registry's own rows, and those that count what the multisigs do.
use autonolas_subgraph.Prelude.{ℕ, ◌*◌, ◌/◌, Option, none, some, List}
use autonolas_subgraph.Prelude.Table.{Table}

abbrev pub Address : Type 0
Address = ℕ

-- `EventMeta`, with what a handler reads of it.
pub record Meta : Type 0 where
  pub block_number : ℕ
  pub block_timestamp : ℕ
  pub tx_hash : ℕ
  pub log_index : ℕ

pub record Service : Type 0 where
  pub multisig : Option Address
  pub agent_ids : List ℕ
  pub creation_timestamp : ℕ
  pub config_hash : Option ℕ
  pub creator : Option Address
  pub erc8004_agent : Option ℕ

pub record Multisig : Type 0 where
  pub service_id : ℕ
  pub creator : Address
  pub creation_timestamp : ℕ
  pub tx_hash : ℕ
  pub agent_ids : List ℕ

pub record AgentRegistration : Type 0 where
  pub service_id : ℕ
  pub agent_id : ℕ
  pub registration_timestamp : ℕ

pub record Creator : Type 0 where
  pub id : Address

pub record Operator : Type 0 where
  pub id : Address

pub record Erc8004Agent : Type 0 where
  pub agent_wallet : Option Address

-- A text is the number that stands for it.
pub record Erc8004Metadata : Type 0 where
  pub agent : ℕ
  pub key : ℕ
  pub value : Option ℕ

pub record Global : Type 0 where
  pub tx_count : ℕ
  pub last_updated : ℕ
  pub total_operators : ℕ

pub record AgentPerformance : Type 0 where
  pub tx_count : ℕ

pub record DailyServiceActivity : Type 0 where
  pub service : ℕ
  pub day_timestamp : ℕ
  pub agent_ids : List ℕ

-- `DailyUniqueAgents` and `DailyActiveMultisigs`
pub record DailyCount : Type 0 where
  pub day_timestamp : ℕ
  pub count : ℕ

pub record DailyUniqueAgent : Type 0 where
  pub daily_unique_agents : ℕ
  pub agent : ℕ

pub record DailyAgentPerformance : Type 0 where
  pub day_timestamp : ℕ
  pub agent_id : ℕ
  pub tx_count : ℕ
  pub active_multisig_count : ℕ

pub record DailyAgentMultisig : Type 0 where
  pub daily_agent_performance : ℕ × ℕ
  pub multisig : Address

pub record DailyActiveMultisig : Type 0 where
  pub daily_active_multisigs : ℕ
  pub multisig : Address

-- What the handlers of the registry and of the bridger write, and the known-multisig set of the process.
pub record Registry : Type 0 where
  pub services : Table ℕ Service
  pub multisigs : Table Address Multisig
  pub creators : Table Address Creator
  pub registrations : Table (ℕ × ℕ) AgentRegistration
  pub erc8004_agents : Table ℕ Erc8004Agent
  pub metadata : Table (ℕ × ℕ) Erc8004Metadata
  pub known : List Address

-- What counts; the ids are the day, or the day and the agent, service or multisig.
pub record Activity : Type 0 where
  pub totals : Option Global
  pub operators : Table Address Operator
  pub performances : Table ℕ AgentPerformance
  pub daily_activity : Table (ℕ × ℕ) DailyServiceActivity
  pub unique_agents : Table ℕ DailyCount
  pub unique_links : Table (ℕ × ℕ) DailyUniqueAgent
  pub daily_performances : Table (ℕ × ℕ) DailyAgentPerformance
  pub performance_links : Table ((ℕ × ℕ) × Address) DailyAgentMultisig
  pub active_multisigs : Table ℕ DailyCount
  pub active_links : Table (ℕ × Address) DailyActiveMultisig

pub record State : Type 0 where
  pub registry : Registry
  pub activity : Activity

abbrev pub day_of : ℕ → ℕ
day_of timestamp = timestamp / 86400 * 86400

abbrev pub new_global : Global
new_global = record { tx_count = 0; last_updated = 0; total_operators = 0 }

abbrev pub or_new : Option Global → Global
or_new none = new_global
or_new (some g) = g
