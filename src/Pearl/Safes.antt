-- ===== src/Pearl/Safes.antt =====
-- squids/pearl-transactions/src/handlers.ts and entityCache.ts: services, Master Safes and Agent
-- Safes on first sight, and the write-once table of tracked addresses.
pub mod WriteOnce
use autonolas_subgraph.Prelude.{
  ℕ, ◌||◌, false, not, Option, none, some, List, [], ◌∷◌, ◌==◌, if◌then◌else◌,
}
use autonolas_subgraph.Prelude.Equality.{nat_eq, pair_eq}
use autonolas_subgraph.Prelude.Table.{get, set}
use autonolas_subgraph.Pearl.Model.{Address, Role, Category, Meta, zero_address, is_none}
use autonolas_subgraph.Pearl.State.{
  State, Chain, Source, ServiceState, Service, MasterSafe, AgentSafe, FundsMovement, SafeConfig,
  safe_deployed_id,
}

-- `EntityCache.upsertTracked`: the first row of an address stays.
pub upsert_tracked : State → Address → Role → Option Address → Option ℕ → State
upsert_tracked s address role master service = elim (get address s.tracked) [
  | some _ ↦ s
  | none ↦ record s {
    tracked =
        set address
          (record { id = address; role = role; master_safe_id = master; service_id = service })
          s.tracked;
  }
]

abbrev pub new_service : Meta → Service
new_service m = record {
  agent_ids = [];
  operators = [];
  state = ServiceState.registered;
  total_olas_rewards_claimed = 0;
  registered_timestamp = m.block_timestamp;
  updated_timestamp = m.block_timestamp;
  master_safe = none;
  agent_safe = none;
  nft_custodian = none;
  current_staking_contract = none;
}

unfoldable pub get_or_create_service : State → ℕ → Meta → Service × State
get_or_create_service s id m = elim (get id s.services) [
  | some service ↦ (service, s)
  | none ↦ (new_service m, record s { services = set id (new_service m) s.services })
]

unfoldable pub set_service : State → ℕ → Service → State
set_service s id service = record s { services = set id service s.services }

abbrev pub new_master_safe : SafeConfig → Meta → MasterSafe
new_master_safe cfg m = record {
  owners = cfg.first_owner ∷ cfg.more_owners;
  master_eoa = cfg.first_owner;
  threshold = cfg.threshold;
  first_seen_timestamp = m.block_timestamp;
  first_seen_block = m.block_number;
  history_floor_timestamp = m.block_timestamp;
  history_floor_block = m.block_number;
  last_activity_timestamp = m.block_timestamp;
  setup_transfer_seen = false;
}

abbrev pub safe_deployed_row : Address → Meta → FundsMovement
safe_deployed_row address m = record {
  service = none;
  master_safe = some address;
  agent_safe = none;
  staking_contract = none;
  epoch = none;
  category = Category.safe_deployed;
  source = Source.semantic;
  agent_funding_event = none;
  token = none;
  amount = 0;
  from = zero_address;
  to = address;
  block_number = m.block_number;
  block_timestamp = m.block_timestamp;
  transaction_hash = m.tx_hash;
}

-- The rows of a Master Safe seen for the first time.
pub deploy_master_safe : State → Address → SafeConfig → Meta → State
deploy_master_safe s address cfg m =
    let written : State = record s {
      master_safes = set address (new_master_safe cfg m) s.master_safes;
      movements = set (safe_deployed_id address) (safe_deployed_row address m) s.movements;
    } in
    let s1 = upsert_tracked written address Role.master (some address) none in
    if cfg.first_owner == zero_address
    then s1
    else upsert_tracked s1 cfg.first_owner Role.master_eoa (some address) none

-- The id of the Master Safe at the address, `none` if it is no Safe.
pub get_or_create_master_safe : Chain → State → Address → Meta → Option Address × State
get_or_create_master_safe chain s address m = elim (get address s.master_safes) [
  | some ms ↦ (
    some address,
    record s {
      master_safes =
          set address (record ms { last_activity_timestamp = m.block_timestamp }) s.master_safes;
    },
  )
  | none ↦ elim (chain.safe_config address m.block_number) [
    | none ↦ (none, s)
    | some cfg ↦ (some address, deploy_master_safe s address cfg m)
  ]
]

-- The loop of `trackAgentSafe` over the operators, without the Master Safe itself.
pub track_operators : State → Address → ℕ → List Address → State
track_operators s master service [] = s
track_operators s master service (operator ∷ operators) =
    track_operators
      (if operator == master
        then s
        else upsert_tracked s operator Role.agent_eoa (some master) (some service))
      master service operators

-- Only an Agent Safe whose service has a Master Safe is tracked.
pub track_agent_safe : State → Address → ℕ → Service → State
track_agent_safe s address id service = elim service.master_safe [
  | none ↦ s
  | some master ↦
      track_operators (upsert_tracked s address Role.agent (some master) (some id)) master id
        service.operators
]

pub link_late_agent_safe : State → Address → AgentSafe → ℕ → Service → State
link_late_agent_safe s address safe id service =
    if is_none service.master_safe || not (is_none (get address s.tracked))
    then s
    else track_agent_safe
        (record s {
          agent_safes =
              set address (record safe { master_safe = service.master_safe }) s.agent_safes;
        })
        address id service

pub get_or_create_agent_safe : State → Address → ℕ → Service → Meta → State
get_or_create_agent_safe s address id service m = elim (get address s.agent_safes) [
  | some safe ↦ link_late_agent_safe s address safe id service
  | none ↦
      track_agent_safe
        (record s {
          agent_safes =
              set address
                (record {
                  service = id;
                  master_safe = service.master_safe;
                  created_timestamp = m.block_timestamp;
                })
                s.agent_safes;
        })
        address id service
]
