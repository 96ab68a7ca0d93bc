-- ===== src/Pearl/Staking.antt =====
-- squids/pearl-transactions/src/handlers.ts: the staking factory and proxies (stake, claim, unstake,
-- eviction) and the daily sums of the rewards.
pub mod Rewards
use autonolas_subgraph.Prelude.{
  ℕ, ◌+◌, ◌*◌, ◌/◌, ◌||◌, Bool, true, false, not, Option, none, some, List, [], ◌∷◌, ltb,
  if◌then◌else◌,
}
use autonolas_subgraph.Prelude.Equality.{nat_eq, pair_eq}
use autonolas_subgraph.Prelude.Table.{get, set}
use autonolas_subgraph.Pearl.Model.{Address, Role, Category, Meta, zero_address, is_none, or_else}
use autonolas_subgraph.Pearl.State.{
  State, Chain, Source, ServiceState, Service, DailyServiceFunds, MovementId, event_id,
  eviction_row_id,
}
use autonolas_subgraph.Pearl.Safes.{
  upsert_tracked, get_or_create_service, set_service, get_or_create_master_safe,
  get_or_create_agent_safe,
}

-- The staking parameters decoded from the calldata.
pub record StakingConfig : Type 0 where
  pub min_staking_deposit : ℕ
  pub num_agent_instances : ℕ

unfoldable pub handle_instance_created :
    State → Meta → Address → Address → Option StakingConfig → Bool → State
handle_instance_created s m proxy implementation config is_allowed =
    if not is_allowed || not (is_none (get proxy s.staking_contracts)) then s else elim config [
      | none ↦ s
      | some cfg ↦
          upsert_tracked
            (record s {
              staking_contracts =
                  set proxy
                    (record {
                      implementation = implementation;
                      min_staking_deposit = cfg.min_staking_deposit;
                      num_agent_instances = cfg.num_agent_instances;
                      created_block = m.block_number;
                      created_timestamp = m.block_timestamp;
                    })
                    s.staking_contracts;
            })
            proxy Role.staking none none
    ]

unfoldable pub handle_service_staked : Chain → State → Meta → ℕ → Address → Address → State
handle_service_staked chain s m id owner multisig =
    let (service, s1) = get_or_create_service s id m in
    let staked : Service = record service {
      state = ServiceState.staked;
      current_staking_contract = some m.address;
      updated_timestamp = m.block_timestamp;
    } in
    let (master, s2) = get_or_create_master_safe chain s1 owner m in
    let owned : Service = record staked { master_safe = or_else master staked.master_safe } in
    let s3 = get_or_create_agent_safe (set_service s2 id owned) multisig id owned m in
    set_service s3 id (record owned { agent_safe = some multisig })

-- `dayTimestamp`: midnight UTC.
pub day_timestamp : ℕ → ℕ
day_timestamp timestamp = timestamp / 86400 * 86400

pub or_daily : Option DailyServiceFunds → ℕ → DailyServiceFunds
or_daily none total = record { olas_rewards_claimed = 0; cumulative_olas_rewards_claimed = total }
or_daily (some d) total = d

-- `addDailyOlasReward`, with the service that it leaves.
unfoldable pub add_daily_olas_reward : State → ℕ → Service → ℕ → ℕ → Service × State
add_daily_olas_reward s id service amount timestamp =
    let key : ℕ × ℕ = (id, day_timestamp timestamp) in
    let d = or_daily (get key s.daily_funds) service.total_olas_rewards_claimed in
    let total = service.total_olas_rewards_claimed + amount in
    let paid : Service = record service { total_olas_rewards_claimed = total } in
    let written : State = record s {
      daily_funds =
          set key
            (record {
              olas_rewards_claimed = d.olas_rewards_claimed + amount;
              cumulative_olas_rewards_claimed = total;
            })
            s.daily_funds;
    } in
    (paid, set_service written id paid)

-- A relation is written only to a row that is there.
pub existing {ℓ} : {V : Type ℓ} → Address → Option V → Option Address
existing address none = none
existing address (some _) = some address

pub owner_safe : State → Option Address → Option Address
owner_safe s none = none
owner_safe s (some owner) = existing owner (get owner s.master_safes)

abbrev pub is_eviction : Category → Bool
is_eviction Category.service_evicted = true
is_eviction _ = false

unfoldable pub staking_reward_row :
    Chain
    → State
    → Meta
    → ℕ
    → Service
    → Category
    → ℕ
    → ℕ
    → Address
    → MovementId
    → Option Address
    → State
staking_reward_row chain s m id service category amount epoch to row owner = record s {
  movements =
      set row
        (record {
          service = some id;
          master_safe = or_else service.master_safe (owner_safe s owner);
          agent_safe = or_else service.agent_safe (existing to (get to s.agent_safes));
          staking_contract = some m.address;
          epoch = some epoch;
          category = category;
          source = Source.semantic;
          agent_funding_event = none;
          token = if is_eviction category then none else some chain.olas;
          amount = amount;
          from = m.address;
          to = to;
          block_number = m.block_number;
          block_timestamp = m.block_timestamp;
          transaction_hash = m.tx_hash;
        })
        s.movements;
}

-- The decoded RewardClaimed, ServiceUnstaked and ServiceForceUnstaked logs.
pub record Reward : Type 0 where
  pub service_id : ℕ
  pub owner : Address
  pub multisig : Address
  pub reward : ℕ
  pub epoch : ℕ

unfoldable pub reward_row : Chain → State → Meta → Reward → Service → Category → State
reward_row chain s m e service category =
    staking_reward_row chain s m e.service_id service category e.reward e.epoch e.multisig
      (event_id m.tx_hash m.log_index) (some e.owner)

unfoldable pub handle_reward_claimed : Chain → State → Meta → Reward → State
handle_reward_claimed chain s m e =
    let (service, s1) = get_or_create_service s e.service_id m in
    let s2 = reward_row chain s1 m e service Category.staking_reward_claim in
    let (paid, s3) = add_daily_olas_reward s2 e.service_id service e.reward m.block_timestamp in
    set_service s3 e.service_id (record paid { updated_timestamp = m.block_timestamp })

unfoldable pub handle_any_unstake : Chain → State → Meta → Reward → State
handle_any_unstake chain s m e =
    let (service, s1) = get_or_create_service s e.service_id m in
    let s2 = reward_row chain s1 m e service Category.unstake_reward in
    let (paid, s3) =
      if ltb 0 e.reward
      then add_daily_olas_reward s2 e.service_id service e.reward m.block_timestamp
      else (service, s2) in
    set_service s3 e.service_id (record paid {
      state = ServiceState.unstaked;
      current_staking_contract = none;
      updated_timestamp = m.block_timestamp;
    })

-- `multisigs[i]` and `owners[i]`, which may be shorter than the list of services.
pub first_or : Address → List Address → Address
first_or d [] = d
first_or d (x ∷ _) = x

pub first : List Address → Option Address
first [] = none
first (x ∷ _) = some x

pub tail : List Address → List Address
tail [] = []
tail (_ ∷ l) = l

-- The loop of `handleServicesEvicted` from the slot `i` on.
unfoldable pub evict_from :
    Chain → State → Meta → ℕ → ℕ → List ℕ → List Address → List Address → State
evict_from chain s m epoch i [] owners multisigs = s
evict_from chain s m epoch i (id ∷ ids) owners multisigs =
    let (service, s1) = get_or_create_service s id m in
    evict_from chain
      (staking_reward_row chain s1 m id service Category.service_evicted 0 epoch
        (first_or zero_address multisigs) (eviction_row_id m.tx_hash m.log_index i) (first owners))
      m epoch (i + 1) ids (tail owners) (tail multisigs)

unfoldable pub handle_services_evicted :
    Chain → State → Meta → List ℕ → List Address → List Address → ℕ → State
handle_services_evicted chain s m ids owners multisigs epoch =
    evict_from chain s m epoch 0 ids owners multisigs
