-- ===== src/Staking/History.antt =====
-- squids/staking/src/handlers.ts: the rewards history of a service, the snapshot of a day, and the median.
use autonolas_subgraph.Prelude.{
  ℕ, ◌+◌, ◌-◌, ◌/◌, ◌%◌, Option, none, some, List, [], ◌∷◌, ltb, ◌==◌, if◌then◌else◌, length,
  get_or,
}
use autonolas_subgraph.Prelude.Equality.{nat_eq, pair_eq}
use autonolas_subgraph.Prelude.Result.{Result, throw, ok}
use autonolas_subgraph.Prelude.Table.{Table, get, set}
use autonolas_subgraph.Staking.State.{
  Meta, Service, Global, ServiceRewardsHistory, HistoryId, DailySnapshot, RewardKind, State, Error,
  missing_staked_service, get_or_create_global, day_of, event_id,
}

abbrev pub history_id : Meta → ℕ → ℕ → HistoryId
history_id m service epoch = (service, (m.address, epoch))

unfoldable pub new_history : Meta → ℕ → ℕ → ServiceRewardsHistory
new_history m service epoch = record {
  service = service;
  epoch = epoch;
  contract_address = m.address;
  checkpoint = none;
  reward_amount = 0;
  checkpointed_at = none;
  block_number = m.block_number;
  block_timestamp = m.block_timestamp;
  transaction_hash = m.tx_hash;
}

-- The history, and the services with one more epoch for a service whose history is new.
unfoldable pub get_or_create_history :
    State → Meta → ℕ → ℕ → Result Error (ServiceRewardsHistory × Table ℕ Service)
get_or_create_history s m service epoch = elim (get (history_id m service epoch) s.histories) [
  | some history ↦ ok (history, s.services)
  | none ↦ elim (get service s.services) [
    | none ↦ throw (missing_staked_service service m.block_number)
    | some row ↦ ok (
      new_history m service epoch,
      set service (record row { total_epochs_participated = row.total_epochs_participated + 1 })
          s.services,
    )
  ]
]

-- `values.sort`
abbrev pub insert : ℕ → List ℕ → List ℕ
insert v [] = v ∷ []
insert v (x ∷ l) = if ltb x v then x ∷ insert v l else v ∷ x ∷ l

abbrev pub sort : List ℕ → List ℕ
sort [] = []
sort (x ∷ l) = insert x (sort l)

unfoldable pub median : List ℕ → ℕ
median values =
    let sorted = sort values in
    let mid = length values / 2 in
    if length values == 0
    then 0
    else if length values % 2 == 1
    then get_or sorted mid 0
    else (get_or sorted (mid - 1) 0 + get_or sorted mid 0) / 2

-- A day's snapshot starts from that of the last active day.
abbrev pub services_of : Option DailySnapshot → ℕ
services_of none = 0
services_of (some d) = d.num_services

abbrev pub median_of : Option DailySnapshot → ℕ
median_of none = 0
median_of (some d) = d.median_cumulative_rewards

unfoldable pub new_snapshot : ℕ → Global → Option DailySnapshot → DailySnapshot
new_snapshot timestamp g prev = record {
  timestamp = timestamp;
  block = 0;
  total_rewards = g.total_rewards;
  total_rewards_claimed = g.total_rewards_claimed;
  num_services = services_of prev;
  median_cumulative_rewards = median_of prev;
}

unfoldable pub get_or_create_daily_snapshot : State → Meta → Global → DailySnapshot
get_or_create_daily_snapshot s m g =
    let prev =
      if g.last_active_day_timestamp == 0
      then none
      else get g.last_active_day_timestamp s.snapshots in
    elim (get (day_of m.block_timestamp) s.snapshots) [
      | some d ↦ record d { block = m.block_number }
      | none ↦ record (new_snapshot (day_of m.block_timestamp) g prev) { block = m.block_number }
    ]

unfoldable pub create_reward_update : State → Meta → RewardKind → ℕ → State
create_reward_update s m kind amount = record s {
  reward_updates =
      set (event_id m)
        (record {
          kind = kind;
          amount = amount;
          block_number = m.block_number;
          block_timestamp = m.block_timestamp;
          transaction_hash = m.tx_hash;
        })
        s.reward_updates;
}

unfoldable pub record_rewards_claimed : State → Meta → ℕ → State
record_rewards_claimed s m amount =
    let old = get_or_create_global s in
    let g : Global = record old { total_rewards_claimed = old.total_rewards_claimed + amount } in
    record s {
      totals = some g;
      snapshots =
          set (day_of m.block_timestamp)
            (record (get_or_create_daily_snapshot s m g) {
              total_rewards_claimed = g.total_rewards_claimed;
            })
            s.snapshots;
    }
