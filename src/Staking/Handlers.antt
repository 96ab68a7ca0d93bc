-- ===== src/Staking/Handlers.antt =====
-- squids/staking/src/handlers.ts: a service that is staked, claims and is unstaked.
use autonolas_subgraph.Prelude.{
  ℕ, ◌+◌, ◌&&◌, ◌||◌, Bool, true, false, not, Option, none, some, List, [], ◌∷◌, ◌++◌, ◌==◌,
  if◌then◌else◌,
}
use autonolas_subgraph.Prelude.Int.{ℤ, pos, ◌+ℤ◌, ◌-ℤ◌}
use autonolas_subgraph.Prelude.Equality.{nat_eq, pair_eq}
use autonolas_subgraph.Prelude.Result.{Result, throw, ok, ◌>>=◌}
use autonolas_subgraph.Prelude.Table.{Table, get, set}
use autonolas_subgraph.Staking.State.{
  Address, Meta, Service, Global, StakingContract, ActiveServiceEpoch, StakingParams, StakingRow,
  claimed, State, Error, missing_claimed_service, missing_unstaked_service, get_or_create_global,
  event_id,
}
use autonolas_subgraph.Staking.History.{
  history_id, get_or_create_history, create_reward_update, record_rewards_claimed,
}

unfoldable pub staking_row : Meta → StakingParams → StakingRow
staking_row m p = record {
  params = p;
  block_number = m.block_number;
  block_timestamp = m.block_timestamp;
  transaction_hash = m.tx_hash;
}

unfoldable pub new_service : Meta → Service
new_service m = record {
  current_olas_staked = pos 0;
  current_stake_amount = pos 0;
  has_olas_stake = false;
  olas_rewards_earned = 0;
  olas_rewards_claimed = 0;
  block_number = m.block_number;
  block_timestamp = m.block_timestamp;
  latest_staking_contract = none;
  total_epochs_participated = 0;
}

abbrev pub or_service : Option Service → Service → Service
or_service none new = new
or_service (some service) new = service

unfoldable pub staked_service : Service → Address → Bool → ℤ → Service
staked_service v contract is_olas amount = record v {
  current_olas_staked = v.current_olas_staked +ℤ amount;
  current_stake_amount = amount;
  has_olas_stake = v.has_olas_stake || is_olas;
  latest_staking_contract = some contract;
}

-- `includes`
abbrev pub has : List ℕ → ℕ → Bool
has [] v = false
has (x ∷ l) v = x == v || has l v

unfoldable pub track : Meta → ℕ → ℕ → Option ActiveServiceEpoch → ActiveServiceEpoch
track m epoch service none = record {
  contract_address = m.address;
  epoch = epoch;
  active_service_ids = service ∷ [];
  block_number = m.block_number;
  block_timestamp = m.block_timestamp;
}
track m epoch service (some tracker) =
    if has tracker.active_service_ids service
    then tracker
    else record tracker { active_service_ids = tracker.active_service_ids ++ service ∷ [] }

-- What the services and the squid's totals are after a stake of `amount`.
unfoldable pub stake : Global → ℤ → Global
stake g amount = record g {
  cumulative_olas_staked = g.cumulative_olas_staked +ℤ amount;
  current_olas_staked = g.current_olas_staked +ℤ amount;
}

unfoldable pub unstake : Global → ℤ → Global
unstake g amount = record g {
  cumulative_olas_unstaked = g.cumulative_olas_unstaked +ℤ amount;
  current_olas_staked = g.current_olas_staked -ℤ amount;
}

-- `locked` is what the chain answers for the bond of the service at the block.
unfoldable pub handle_service_staked :
    State → Meta → StakingContract → StakingParams → ℕ → Result Error State
handle_service_staked s m contract p locked =
    let amount = if contract.is_olas_staking then pos locked else pos 0 in
    let service =
      staked_service (or_service (get p.service_id s.services) (new_service m)) m.address
        contract.is_olas_staking amount in
    let staked : State = record s {
      staked_rows = set (event_id m) (staking_row m p) s.staked_rows;
      services = set p.service_id service s.services;
      trackers =
          set (m.address, p.epoch)
            (track m p.epoch p.service_id (get (m.address, p.epoch) s.trackers)) s.trackers;
    } in
    do
      (history, services) ← get_or_create_history staked m p.service_id p.epoch
      ok (record staked {
        histories = set (history_id m p.service_id p.epoch) history staked.histories;
        services = services;
        totals = some (stake (get_or_create_global s) amount);
      })

unfoldable pub claim : State → Meta → ℕ → Service → ℕ → State
claim s m id service reward =
    record_rewards_claimed
      (create_reward_update
        (record s {
          services =
              set id
                (record service { olas_rewards_claimed = service.olas_rewards_claimed + reward })
                s.services;
        })
        m claimed reward)
      m reward

unfoldable pub handle_reward_claimed :
    State → Meta → StakingContract → StakingParams → Result Error State
handle_reward_claimed s m contract p =
    let logged : State = record s {
      claimed_rows = set (event_id m) (staking_row m p) s.claimed_rows;
    } in
    if not contract.is_olas_staking then ok logged else elim (get p.service_id s.services) [
      | none ↦ throw (missing_claimed_service p.service_id m.block_number)
      | some service ↦ ok (claim logged m p.service_id service p.reward)
    ]

-- `service?.currentStakeAmount ?? 0n`
abbrev pub stake_amount : Option Service → ℤ
stake_amount none = pos 0
stake_amount (some service) = service.current_stake_amount

unfoldable pub unstaked_service : Service → Bool → ℕ → Service
unstaked_service v paid reward = record v {
  latest_staking_contract = none;
  olas_rewards_claimed = if paid then v.olas_rewards_claimed + reward else v.olas_rewards_claimed;
  current_olas_staked = v.current_olas_staked -ℤ v.current_stake_amount;
  current_stake_amount = pos 0;
}

unfoldable pub release : Table ℕ Service → ℕ → Bool → ℕ → Table ℕ Service
release services id paid reward = elim (get id services) [
  | none ↦ services
  | some service ↦ set id (unstaked_service service paid reward) services
]

abbrev pub is_missing {ℓ} : {A : Type ℓ} → Option A → Bool
is_missing none = true
is_missing (some _) = false

unfoldable pub unstaked_log : State → Meta → StakingParams → Bool → State
unstaked_log s m p forced =
    let row = staking_row m p in
    record s {
      force_unstaked_rows =
          if forced then set (event_id m) row s.force_unstaked_rows else s.force_unstaked_rows;
      unstaked_rows = if forced then s.unstaked_rows else set (event_id m) row s.unstaked_rows;
    }

unfoldable pub settle_unstaked : State → Meta → Bool → ℕ → State
settle_unstaked s m paid reward =
    if paid then record_rewards_claimed (create_reward_update s m claimed reward) m reward else s

unfoldable pub handle_service_unstaked :
    State → Meta → StakingContract → StakingParams → Bool → Result Error State
handle_service_unstaked s m contract p forced =
    let paid = not forced && contract.is_olas_staking in
    let amount = stake_amount (get p.service_id s.services) in
    let released : State = record (unstaked_log s m p forced) {
      services = release s.services p.service_id paid p.reward;
    } in
    if contract.is_olas_staking && is_missing (get p.service_id s.services)
    then throw (missing_unstaked_service p.service_id m.block_number)
    else do
      (history, services) ← get_or_create_history released m p.service_id p.epoch
      ok (
          settle_unstaked
            (record released {
              services = services;
              histories =
                  set (history_id m p.service_id p.epoch)
                    (record history { reward_amount = p.reward }) released.histories;
              totals = some (unstake (get_or_create_global s) amount);
            })
            m paid p.reward)
