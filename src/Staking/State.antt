-- ===== src/Staking/State.antt =====
-- squids/staking/src/model/generated: the rows of the squid, a table for each entity class. The map of
-- the services that a batch starts with and its writes are the table of the services.
use autonolas_subgraph.Prelude.{ℕ, ◌*◌, ◌/◌, Bool, Option, none, some, List}
use autonolas_subgraph.Prelude.Int.{ℤ, pos}
use autonolas_subgraph.Prelude.Table.{Table}

abbrev pub Address : Type 0
Address = ℕ

-- `EventMeta`
pub record Meta : Type 0 where
  pub address : Address
  pub block_number : ℕ
  pub block_timestamp : ℕ
  pub tx_hash : ℕ
  pub log_index : ℕ

abbrev pub EventId : Type 0
EventId = ℕ × ℕ

-- `eventId`
abbrev pub event_id : Meta → EventId
event_id m = (m.tx_hash, m.log_index)

pub record Service : Type 0 where
  pub current_olas_staked : ℤ
  pub current_stake_amount : ℤ
  pub has_olas_stake : Bool
  pub olas_rewards_earned : ℕ
  pub olas_rewards_claimed : ℕ
  pub block_number : ℕ
  pub block_timestamp : ℕ
  pub latest_staking_contract : Option Address
  pub total_epochs_participated : ℕ

pub record Global : Type 0 where
  pub cumulative_olas_staked : ℤ
  pub cumulative_olas_unstaked : ℤ
  pub current_olas_staked : ℤ
  pub total_rewards : ℕ
  pub total_rewards_claimed : ℕ
  pub last_active_day_timestamp : ℕ

-- What the handlers read of a staking contract's configuration.
pub record StakingContract : Type 0 where
  pub is_olas_staking : Bool
  pub events_indexed : Bool

pub record ServiceRewardsHistory : Type 0 where
  pub service : ℕ
  pub epoch : ℕ
  pub contract_address : Address
  pub checkpoint : Option EventId
  pub reward_amount : ℕ
  pub checkpointed_at : Option ℕ
  pub block_number : ℕ
  pub block_timestamp : ℕ
  pub transaction_hash : ℕ

-- A history's id: the service, the contract and the epoch.
abbrev pub HistoryId : Type 0
HistoryId = ℕ × (Address × ℕ)

pub record ActiveServiceEpoch : Type 0 where
  pub contract_address : Address
  pub epoch : ℕ
  pub active_service_ids : List ℕ
  pub block_number : ℕ
  pub block_timestamp : ℕ

-- `CumulativeDailyStakingGlobal`
pub record DailySnapshot : Type 0 where
  pub timestamp : ℕ
  pub block : ℕ
  pub total_rewards : ℕ
  pub total_rewards_claimed : ℕ
  pub num_services : ℕ
  pub median_cumulative_rewards : ℕ

-- The parameters of `ServiceStaked`, `RewardClaimed` and the two ways of unstaking, 0 for the amounts
-- that an event does not have.
pub record StakingParams : Type 0 where
  pub epoch : ℕ
  pub service_id : ℕ
  pub owner : Address
  pub multisig : Address
  pub nonces : List ℕ
  pub reward : ℕ
  pub available_rewards : ℕ

-- A row of one of those events.
pub record StakingRow : Type 0 where
  pub params : StakingParams
  pub block_number : ℕ
  pub block_timestamp : ℕ
  pub transaction_hash : ℕ

pub record CheckpointParams : Type 0 where
  pub epoch : ℕ
  pub available_rewards : ℕ
  pub service_ids : List ℕ
  pub rewards : List ℕ
  pub epoch_length : ℕ

-- `Checkpoint`
pub record CheckpointRow : Type 0 where
  pub params : CheckpointParams
  pub contract_address : Address
  pub block_number : ℕ
  pub block_timestamp : ℕ
  pub transaction_hash : ℕ

pub data RewardKind : Type 0 where
  claimable claimed : RewardKind

pub record RewardUpdate : Type 0 where
  pub kind : RewardKind
  pub amount : ℕ
  pub block_number : ℕ
  pub block_timestamp : ℕ
  pub transaction_hash : ℕ

-- `Ctx`: the cache and the map of the services.
pub record State : Type 0 where
  pub totals : Option Global
  pub services : Table ℕ Service
  pub contracts : Table Address StakingContract
  pub histories : Table HistoryId ServiceRewardsHistory
  pub trackers : Table (Address × ℕ) ActiveServiceEpoch
  pub snapshots : Table ℕ DailySnapshot
  pub staked_rows : Table EventId StakingRow
  pub claimed_rows : Table EventId StakingRow
  pub unstaked_rows : Table EventId StakingRow
  pub force_unstaked_rows : Table EventId StakingRow
  pub checkpoints : Table EventId CheckpointRow
  pub reward_updates : Table EventId RewardUpdate

-- The errors that end a batch.
pub data Error : Type 0 where
  missing_staked_service missing_claimed_service missing_unstaked_service : ℕ → ℕ → Error
  length_mismatch : Error

abbrev pub new_global : Global
new_global = record {
  cumulative_olas_staked = pos 0;
  cumulative_olas_unstaked = pos 0;
  current_olas_staked = pos 0;
  total_rewards = 0;
  total_rewards_claimed = 0;
  last_active_day_timestamp = 0;
}

abbrev pub or_new : Option Global → Global
or_new none = new_global
or_new (some g) = g

abbrev pub get_or_create_global : State → Global
get_or_create_global s = or_new s.totals

abbrev pub day_of : ℕ → ℕ
day_of timestamp = timestamp / 86400 * 86400
