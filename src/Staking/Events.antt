-- ===== src/Staking/Events.antt =====
-- squids/staking/src/dispatch.ts and main.ts: the decoded logs of the factory and of its contracts.
use autonolas_subgraph.Prelude.{ℕ, true, false, none, some, List, [], ◌∷◌, ◌==◌, if◌then◌else◌}
use autonolas_subgraph.Prelude.Equality.{nat_eq}
use autonolas_subgraph.Prelude.Result.{Result, ok, ◌>>=◌}
use autonolas_subgraph.Prelude.Table.{get, set}
use autonolas_subgraph.Staking.State.{
  Address, Meta, StakingContract, StakingParams, CheckpointParams, State, Error,
}
use autonolas_subgraph.Staking.Handlers.{
  handle_service_staked, handle_reward_claimed, handle_service_unstaked,
}
use autonolas_subgraph.Staking.Checkpoint.{handle_checkpoint}

-- What the chain answers: the configuration of a contract, and the OLAS that is locked for a service, by
-- the contract, the service and the block.
pub record Chain : Type 0 where
  pub staking_factory : Address
  pub config : Address → ℕ → StakingContract
  pub locked_olas : Address → ℕ → ℕ → ℕ

pub data Event : Type 0 where
  instance_created : Address → Event
  service_staked reward_claimed service_unstaked service_force_unstaked : StakingParams → Event
  checkpoint : CheckpointParams → Event

module _ (chain : Chain) where
  -- A log of a contract whose events are read.
  unfoldable pub handle : State → Meta → StakingContract → Event → Result Error State
  handle s m contract (Event.instance_created instance) = ok s
  handle s m contract (Event.service_staked p) =
      handle_service_staked s m contract p (chain.locked_olas m.address p.service_id m.block_number)
  handle s m contract (Event.reward_claimed p) = handle_reward_claimed s m contract p
  handle s m contract (Event.service_unstaked p) = handle_service_unstaked s m contract p false
  handle s m contract (Event.service_force_unstaked p) = handle_service_unstaked s m contract p true
  handle s m contract (Event.checkpoint p) = handle_checkpoint s m contract p

  unfoldable pub create_instance : State → Meta → Event → State
  create_instance s m (Event.instance_created instance) = record s {
    contracts = set instance (chain.config instance m.block_number) s.contracts;
  }
  create_instance s m _ = s

  unfoldable pub dispatch : State → Meta → Event → Result Error State
  dispatch s m e =
      if m.address == chain.staking_factory
      then ok (create_instance s m e)
      else elim (get m.address s.contracts) [
        | none ↦ ok s
        | some contract ↦ if contract.events_indexed then handle s m contract e else ok s
      ]

  unfoldable pub run : List (Meta × Event) → State → Result Error State
  run [] s = ok s
  run ((m, e) ∷ logs) s = do s' ← dispatch s m e; run logs s'
