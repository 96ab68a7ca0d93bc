-- ===== src/Staking/Checkpoint.antt =====
-- squids/staking/src/handlers.ts, `handleCheckpoint`: the rewards of an epoch.
use autonolas_subgraph.Prelude.{
  ℕ, ◌+◌, Bool, false, not, Option, none, some, List, [], ◌∷◌, ◌++◌, length, ◌==◌, if◌then◌else◌,
}
use autonolas_subgraph.Prelude.Equality.{nat_eq, pair_eq}
use autonolas_subgraph.Prelude.Result.{Result, throw, ok, ◌>>=◌}
use autonolas_subgraph.Prelude.Table.{Table, get, set}
use autonolas_subgraph.Staking.State.{
  Address, Meta, Service, Global, StakingContract, ActiveServiceEpoch, CheckpointParams,
  CheckpointRow, claimable, State, Error, length_mismatch, get_or_create_global, day_of, event_id,
}
use autonolas_subgraph.Staking.History.{
  history_id, get_or_create_history, median, get_or_create_daily_snapshot, create_reward_update,
}
use autonolas_subgraph.Staking.Handlers.{has}

unfoldable pub checkpoint_row : Meta → CheckpointParams → CheckpointRow
checkpoint_row m p = record {
  params = p;
  contract_address = m.address;
  block_number = m.block_number;
  block_timestamp = m.block_timestamp;
  transaction_hash = m.tx_hash;
}

-- The pairs that the loop reads at one index.
abbrev pub zip : List ℕ → List ℕ → List (ℕ × ℕ)
zip (a ∷ l) (b ∷ r) = (a, b) ∷ zip l r
zip _ _ = []

-- The history of the service with the checkpoint's reward.
unfoldable pub write_history : State → Meta → ℕ → ℕ → ℕ → Result Error State
write_history s m service epoch reward = do
  (history, services) ← get_or_create_history s m service epoch
  ok (record s {
    services = services;
    histories =
        set (history_id m service epoch)
          (record history {
            reward_amount = reward;
            checkpoint = some (event_id m);
            checkpointed_at = some m.block_timestamp;
          })
          s.histories;
  })

unfoldable pub earn : Bool → Table ℕ Service → ℕ → ℕ → Table ℕ Service
earn is_olas services id reward = elim (get id services) [
  | none ↦ services
  | some service ↦
      if is_olas
      then set id (record service { olas_rewards_earned = service.olas_rewards_earned + reward })
          services
      else services
]

-- The loop over the services that the log names.
unfoldable pub reward_all : Bool → State → Meta → ℕ → List (ℕ × ℕ) → Result Error State
reward_all is_olas s m epoch [] = ok s
reward_all is_olas s m epoch ((id, reward) ∷ rewards) = do
  s' ← write_history (record s { services = earn is_olas s.services id reward }) m id epoch reward
  reward_all is_olas s' m epoch rewards

abbrev pub total_of : List (ℕ × ℕ) → ℕ
total_of [] = 0
total_of ((id, reward) ∷ rewards) = reward + total_of rewards

-- Whether the service stakes in another contract.
abbrev pub moved_on : Option Service → Address → Bool
moved_on none contract = false
moved_on (some service) contract = elim service.latest_staking_contract [
  | none ↦ false
  | some latest ↦ not (latest == contract)
]

-- The loop over the tracked services that the log does not name: an epoch without a reward.
unfoldable pub idle_all : State → Meta → ℕ → List ℕ → List ℕ → Result Error State
idle_all s m epoch handled [] = ok s
idle_all s m epoch handled (id ∷ ids) =
    if has handled id
    then idle_all s m epoch handled ids
    else if moved_on (get id s.services) m.address
    then idle_all s m epoch handled ids
    else do s' ← write_history s m id epoch 0; idle_all s' m epoch handled ids

-- The values of a `Set`, in the order in which they are added.
unfoldable pub set_of : List ℕ → List ℕ → List ℕ
set_of seen [] = seen
set_of seen (x ∷ l) = set_of (if has seen x then seen else seen ++ x ∷ []) l

abbrev pub ids_of : Option ActiveServiceEpoch → List ℕ
ids_of none = []
ids_of (some tracker) = tracker.active_service_ids

-- The next epoch starts with the services of this one.
unfoldable pub next_tracker : Meta → ℕ → List ℕ → Option ActiveServiceEpoch → ActiveServiceEpoch
next_tracker m epoch ids next = record {
  contract_address = m.address;
  epoch = epoch;
  active_service_ids = set_of [] (ids_of next ++ ids);
  block_number = m.block_number;
  block_timestamp = m.block_timestamp;
}

unfoldable pub roll_over :
    State → Meta → ℕ → List ℕ → Option ActiveServiceEpoch → Result Error State
roll_over s m epoch handled none = ok s
roll_over s m epoch handled (some tracker) = do
  s' ← idle_all s m epoch handled tracker.active_service_ids
  ok (record s' {
    trackers =
        set (m.address, epoch + 1)
          (next_tracker m (epoch + 1) tracker.active_service_ids
            (get (m.address, epoch + 1) s'.trackers))
          s'.trackers;
  })

-- What the services with a stake of OLAS have earned.
unfoldable pub olas_earned : Table ℕ Service → List ℕ
olas_earned [] = []
olas_earned ((id, service) ∷ t) =
    let rest = olas_earned t in
    if service.has_olas_stake then service.olas_rewards_earned ∷ rest else rest

unfoldable pub count_rewards : State → Meta → ℕ → State
count_rewards s m total =
    let old = get_or_create_global s in
    let grown : Global = record old { total_rewards = old.total_rewards + total } in
    let earned = olas_earned s.services in
    create_reward_update
      (record s {
        totals = some (record grown { last_active_day_timestamp = day_of m.block_timestamp });
        snapshots =
            set (day_of m.block_timestamp)
              (record (get_or_create_daily_snapshot s m grown) {
                total_rewards = grown.total_rewards;
                total_rewards_claimed = grown.total_rewards_claimed;
                num_services = length earned;
                median_cumulative_rewards = median earned;
              })
              s.snapshots;
      })
      m claimable total

unfoldable pub handle_checkpoint :
    State → Meta → StakingContract → CheckpointParams → Result Error State
handle_checkpoint s m contract p =
    let logged : State = record s {
      checkpoints = set (event_id m) (checkpoint_row m p) s.checkpoints;
    } in
    let rewards = zip p.service_ids p.rewards in
    if not (length p.service_ids == length p.rewards) then throw length_mismatch else do
      rewarded ← reward_all contract.is_olas_staking logged m p.epoch rewards
      rolled ←
          roll_over rewarded m p.epoch p.service_ids (get (m.address, p.epoch) rewarded.trackers)
      ok (if contract.is_olas_staking then count_rewards rolled m (total_of rewards) else rolled)
