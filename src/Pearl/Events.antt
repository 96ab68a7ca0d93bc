-- ===== src/Pearl/Events.antt =====
-- squids/pearl-transactions/src/main.ts and handlers.ts: the decoded logs, and a batch of them.
pub mod Untouched
pub mod WriteOnce
use autonolas_subgraph.Prelude.{ℕ, Option, none, some, Bool, List, [], ◌∷◌, if◌then◌else◌}
use autonolas_subgraph.Prelude.Equality.{nat_eq}
use autonolas_subgraph.Prelude.Table.{get}
use autonolas_subgraph.Pearl.Model.{Address, Meta}
use autonolas_subgraph.Pearl.Classify.{is_staking_proxy}
use autonolas_subgraph.Pearl.State.{State, Chain}
use autonolas_subgraph.Pearl.Transfer.{handle_erc20_transfer, handle_safe_received}
use autonolas_subgraph.Pearl.Bonds.{
  handle_token_deposit, handle_token_refund, handle_activate_registration, handle_operator_unbond,
  handle_terminate_service,
}
use autonolas_subgraph.Pearl.Registry.{
  handle_register_instance, handle_create_multisig_with_agents, handle_service_nft_transfer,
}
use autonolas_subgraph.Pearl.Staking.{
  StakingConfig, Reward, handle_instance_created, handle_service_staked, handle_reward_claimed,
  handle_any_unstake, handle_services_evicted,
}
use autonolas_subgraph.Pearl.Execution.{
  Tx, handle_safe_execution_success, handle_safe_added_owner, handle_safe_removed_owner,
  handle_safe_changed_threshold,
}

pub data Event : Type 0 where
  erc20_transfer : Address → Address → ℕ → Event
  safe_received : Address → ℕ → Event
  safe_execution_success : Tx → Event
  safe_added_owner safe_removed_owner : Address → Event
  safe_changed_threshold : ℕ → Event
  token_deposit token_refund : Address → Address → ℕ → Event
  activate_registration operator_unbond terminate_service : ℕ → Event
  register_instance : ℕ → ℕ → Address → Address → Event
  create_multisig_with_agents : ℕ → Address → Event
  service_nft_transfer : ℕ → Address → Address → Event
  instance_created : Address → Address → Option StakingConfig → Bool → Event
  service_staked : ℕ → Address → Address → Event
  reward_claimed any_unstake : Reward → Event
  services_evicted : List ℕ → List Address → List Address → ℕ → Event

-- The staking topics are read from any emitter, and kept from a tracked proxy only
-- (`isTrackedProxy`).
unfoldable pub from_proxy : State → Meta → State → State
from_proxy s m s' = if is_staking_proxy (get m.address s.tracked) then s' else s

module _ (multisend : Address) (chain : Chain) where
  pub handle : State → Meta → Event → State
  handle s m (Event.erc20_transfer from to value) = handle_erc20_transfer chain s m from to value
  handle s m (Event.safe_received sender value) = handle_safe_received chain s m sender value
  handle s m (Event.safe_execution_success tx) =
      handle_safe_execution_success multisend chain s m tx
  handle s m (Event.safe_added_owner owner) = handle_safe_added_owner s m owner
  handle s m (Event.safe_removed_owner owner) = handle_safe_removed_owner s m owner
  handle s m (Event.safe_changed_threshold n) = handle_safe_changed_threshold s m n
  handle s m (Event.token_deposit account token amount) =
      handle_token_deposit chain s m account token amount
  handle s m (Event.token_refund account token amount) =
      handle_token_refund chain s m account token amount
  handle s m (Event.activate_registration service) = handle_activate_registration s m service
  handle s m (Event.operator_unbond service) = handle_operator_unbond s m service
  handle s m (Event.terminate_service service) = handle_terminate_service s m service
  handle s m (Event.register_instance service agent operator signer) =
      handle_register_instance s m service agent operator signer
  handle s m (Event.create_multisig_with_agents service multisig) =
      handle_create_multisig_with_agents s m service multisig
  handle s m (Event.service_nft_transfer service from to) =
      handle_service_nft_transfer chain s m service from to
  handle s m (Event.instance_created proxy implementation config allowed) =
      handle_instance_created s m proxy implementation config allowed
  handle s m (Event.service_staked service owner multisig) =
      from_proxy s m (handle_service_staked chain s m service owner multisig)
  handle s m (Event.reward_claimed e) = from_proxy s m (handle_reward_claimed chain s m e)
  handle s m (Event.any_unstake e) = from_proxy s m (handle_any_unstake chain s m e)
  handle s m (Event.services_evicted ids owners multisigs epoch) =
      from_proxy s m (handle_services_evicted chain s m ids owners multisigs epoch)

  pub run : List (Meta × Event) → State → State
  run [] s = s
  run ((m, e) ∷ logs) s = run logs (handle s m e)
