-- ===== src/Pearl/State.antt =====
-- squids/pearl-transactions/src/model and entityCache.ts: the rows that the handlers write, and the
-- cache that holds them, a table for each entity class. A relation is the id of the row it names.
use autonolas_subgraph.Prelude.{ℕ, Bool, Option, List}
use autonolas_subgraph.Prelude.Int.{ℤ}
use autonolas_subgraph.Prelude.Table.{Table}
use autonolas_subgraph.Pearl.Model.{Address, Hash, Category, Tracked}
use autonolas_subgraph.Pearl.BondQueue.{BondQueue}

-- `FundsSource`
pub data Source : Type 0 where
  semantic raw_transfer : Source

-- `ServiceBondType`
pub data BondType : Type 0 where
  security_deposit agent_bond : BondType

-- The states of a service: `SERVICE_STATE_*` of constants.ts.
pub data ServiceState : Type 0 where
  registered deployed staked unstaked terminated : ServiceState

-- The ids of FundsMovement rows, as a tag and the numbers that the text joins: `eventId`,
-- `evictionRowId`, `safeDeployedId`, `agentSafeTopUpId` and `agentSignerLegId`.
abbrev pub MovementId : Type 0
MovementId = ℕ × (ℕ × (ℕ × ℕ))

abbrev pub event_id : Hash → ℕ → MovementId
event_id tx log_index = (0, (tx, (log_index, 0)))

abbrev pub eviction_row_id : Hash → ℕ → ℕ → MovementId
eviction_row_id tx log_index slot = (1, (tx, (log_index, slot)))

abbrev pub safe_deployed_id : Address → MovementId
safe_deployed_id safe = (2, (safe, (0, 0)))

abbrev pub agent_safe_top_up_id : Hash → MovementId
agent_safe_top_up_id tx = (3, (tx, (0, 0)))

abbrev pub agent_signer_leg_id : Hash → ℕ → MovementId
agent_signer_leg_id tx leg = (4, (tx, (leg, 0)))

pub record Service : Type 0 where
  pub agent_ids : List ℕ
  pub operators : List Address
  pub state : ServiceState
  pub total_olas_rewards_claimed : ℕ
  pub registered_timestamp : ℕ
  pub updated_timestamp : ℕ
  pub master_safe : Option Address
  pub agent_safe : Option Address
  pub nft_custodian : Option Address
  pub current_staking_contract : Option Address

pub record MasterSafe : Type 0 where
  pub owners : List Address
  pub master_eoa : Address
  pub threshold : ℕ
  pub first_seen_timestamp : ℕ
  pub first_seen_block : ℕ
  pub history_floor_timestamp : ℕ
  pub history_floor_block : ℕ
  pub last_activity_timestamp : ℕ
  pub setup_transfer_seen : Bool

pub record AgentSafe : Type 0 where
  pub service : ℕ
  pub master_safe : Option Address
  pub created_timestamp : ℕ

-- A symbol as a number; the chain's configuration names the others.
abbrev pub Symbol : Type 0
Symbol = ℕ

abbrev pub olas_symbol : Symbol
olas_symbol = 0

abbrev pub unknown_symbol : Symbol
unknown_symbol = 1

pub record Token : Type 0 where
  pub symbol : Symbol
  pub decimals : ℕ

pub record TokenBalance : Type 0 where
  pub balance : ℤ
  pub last_updated_timestamp : ℕ
  pub last_updated_block : ℕ

pub record AgentFundingEvent : Type 0 where
  pub block_timestamp : ℕ
  pub total_native_amount : ℕ
  pub total_olas_amount : ℕ

pub record FundsMovement : Type 0 where
  pub service : Option ℕ
  pub master_safe : Option Address
  pub agent_safe : Option Address
  pub staking_contract : Option Address
  pub epoch : Option ℕ
  pub category : Category
  pub source : Source
  pub agent_funding_event : Option (Hash × (Address × ℕ))
  pub token : Option Address
  pub amount : ℕ
  pub from : Address
  pub to : Address
  pub block_number : ℕ
  pub block_timestamp : ℕ
  pub transaction_hash : Hash

pub record BondMovement : Type 0 where
  pub category : Category
  pub token : Address
  pub amount : ℕ
  pub from : Address
  pub to : Address
  pub master_safe : Option Address
  pub service : Option ℕ
  pub agent_safe : Option Address
  pub bond_type : Option BondType
  pub block_number : ℕ
  pub block_timestamp : ℕ
  pub transaction_hash : Hash

pub record DailyServiceFunds : Type 0 where
  pub olas_rewards_claimed : ℕ
  pub cumulative_olas_rewards_claimed : ℕ

pub record StakingContract : Type 0 where
  pub implementation : Address
  pub min_staking_deposit : ℕ
  pub num_agent_instances : ℕ
  pub created_block : ℕ
  pub created_timestamp : ℕ

-- An Agent Signer's link, and where the log that made it sits.
pub record AgentInstance : Type 0 where
  pub service : ℕ
  pub updated_block : ℕ
  pub updated_log_index : ℕ

pub record BufferedAgentInstance : Type 0 where
  pub signer : Address
  pub block : ℕ
  pub log_index : ℕ

pub record PendingRegistration : Type 0 where
  pub agent_ids : List ℕ
  pub operators : List Address
  pub agent_instances : List BufferedAgentInstance

pub record CustodyChange : Type 0 where
  pub service : ℕ
  pub from : Address
  pub to : Address
  pub block_number : ℕ
  pub block_timestamp : ℕ

-- `Ctx`: the cache and the bond queue.
pub record State : Type 0 where
  pub services : Table ℕ Service
  pub master_safes : Table Address MasterSafe
  pub agent_safes : Table Address AgentSafe
  pub tokens : Table Address Token
  pub token_balances : Table (Address × Address) TokenBalance
  pub tracked : Table Address Tracked
  pub funding_events : Table (Hash × (Address × ℕ)) AgentFundingEvent
  pub movements : Table MovementId FundsMovement
  pub bonds : Table (Hash × ℕ) BondMovement
  pub daily_funds : Table (ℕ × ℕ) DailyServiceFunds
  pub staking_contracts : Table Address StakingContract
  pub agent_instances : Table Address AgentInstance
  pub pending : Table ℕ PendingRegistration
  pub service_index : Table ℕ Address
  pub custody_changes : Table (Hash × ℕ) CustodyChange
  pub bond_queue : BondQueue

-- What `getSafeConfig` answers: the owners, at least one, and the threshold.
pub record SafeConfig : Type 0 where
  pub first_owner : Address
  pub more_owners : List Address
  pub threshold : ℕ

-- The chain's configuration (`ChainConfig` of constants.ts) and what its contracts answer (rpc.ts):
-- the owners and the threshold of a Safe at a block, `none` where the call reverts.
pub record Chain : Type 0 where
  pub srtu : Address
  pub service_registry : Address
  pub olas : Address
  pub wrapped_native : Address
  pub wrapped_native_symbol : Symbol
  pub stablecoins : Table Address Symbol
  pub safe_config : Address → ℕ → Option SafeConfig
