-- ===== src/Staking/Tests.antt =====
-- squids/staking: one service through two epochs.
use autonolas_subgraph.Prelude.{ℕ, ◌+◌, ◌≡◌, refl, true, none, List, [], ◌∷◌, arith}
use autonolas_subgraph.Prelude.Int.{◌+ℤ◌}
use autonolas_subgraph.Prelude.Equality.{nat_eq, pair_eq}
use autonolas_subgraph.Prelude.Result.{throw, ok}
use autonolas_subgraph.Prelude.Table.{get, set, sum_by}
use autonolas_subgraph.Staking.State.{Meta, State, StakingParams, CheckpointParams}
use autonolas_subgraph.Staking.History.{
  get_or_create_history, create_reward_update, record_rewards_claimed, median,
}
use autonolas_subgraph.Staking.Handlers.{
  handle_service_staked, handle_reward_claimed, handle_service_unstaked, claim, release,
  unstaked_log, track,
}
use autonolas_subgraph.Staking.Checkpoint.{
  handle_checkpoint, reward_all, write_history, earn, roll_over, idle_all, count_rewards,
}
use autonolas_subgraph.Staking.Events.{Chain, Event, handle, create_instance, dispatch, run}
use autonolas_subgraph.Staking.Books.{AreBooks}
use autonolas_subgraph.Staking.Books.Batch.{run-AreBooks}

abbrev chain : Chain
chain = record {
  staking_factory = 1;
  config = λ instance block. record { is_olas_staking = true; events_indexed = true };
  locked_olas = λ contract service block. 100;
}

abbrev at : ℕ → ℕ → Meta
at address n = record {
  address = address;
  block_number = n;
  block_timestamp = 86400 + n;
  tx_hash = 1000 + n;
  log_index = 0;
}

abbrev empty : State
empty = record {
  totals = none;
  services = [];
  contracts = [];
  histories = [];
  trackers = [];
  snapshots = [];
  staked_rows = [];
  claimed_rows = [];
  unstaked_rows = [];
  force_unstaked_rows = [];
  checkpoints = [];
  reward_updates = [];
}

abbrev params : ℕ → ℕ → StakingParams
params epoch reward = record {
  epoch = epoch;
  service_id = 7;
  owner = 20;
  multisig = 21;
  nonces = 0 ∷ [];
  reward = reward;
  available_rewards = 500;
}

abbrev epoch_rewards : CheckpointParams
epoch_rewards = record {
  epoch = 0;
  available_rewards = 500;
  service_ids = 7 ∷ [];
  rewards = 30 ∷ [];
  epoch_length = 3600;
}

-- The contract is created, the service stakes, earns, claims and is unstaked with the rest.
abbrev logs : List (Meta × Event)
logs =
    (at 1 1, Event.instance_created 2)
    ∷ (at 2 2, Event.service_staked (params 0 0))
    ∷ (at 2 3, Event.checkpoint epoch_rewards)
    ∷ (at 2 4, Event.reward_claimed (params 1 20))
    ∷ (at 2 5, Event.service_unstaked (params 1 10))
    ∷ []

abbrev done : State
done = elim (run chain logs empty) [ throw why ↦ empty | ok s ↦ s ]

logs_return : run chain logs empty ≡ ok done
unfolding track count_rewards create_reward_update record_rewards_claimed run dispatch
    create_instance handle handle_service_staked handle_checkpoint handle_reward_claimed
    handle_service_unstaked get set get_or_create_history reward_all write_history earn roll_over
    idle_all claim release unstaked_log
logs_return = refl

empty-AreBooks : AreBooks empty.totals empty.services empty.histories 0
unfolding sum_by ◌+ℤ◌ get
empty-AreBooks = record {
  owned = λ k held. absurd (ground arith);
  staked_by_services = refl;
  flow = refl;
  claimed_by_services = refl;
  earned_by_services = refl;
}

run-AreBooks_example : AreBooks done.totals done.services done.histories 0
run-AreBooks_example = run-AreBooks chain logs empty done logs_return empty-AreBooks

median_test : median (5 ∷ 1 ∷ 4 ∷ 2 ∷ []) ≡ 3
unfolding median
median_test = refl
