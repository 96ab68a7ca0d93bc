-- ===== src/Pearl/Events/WriteOnce.antt =====
-- squids/pearl-transactions/src/handlers.ts: no handler changes a row of the tracked-address table
-- once it is there, so an address keeps its first role.
use autonolas_subgraph.Prelude.{
  ℕ, ◌≡◌, refl, ◌∙◌, not, Bool, Option, none, some, List, [], ◌∷◌, arith, ◌==◌, ◌+◌, ◌||◌, ltb,
  Option-cases, Bool-cases, inl, inr,
}
use autonolas_subgraph.Prelude.Equality.{nat_eq, pair_eq}
use autonolas_subgraph.Prelude.Table.{get, set}
use autonolas_subgraph.Pearl.Model.{Address, Role, Category, Tracked, Meta, zero_address, is_none}
use autonolas_subgraph.Pearl.Classify.{is_staking_proxy}
use autonolas_subgraph.Pearl.State.{State, Chain, Service, eviction_row_id}
use autonolas_subgraph.Pearl.Transfer.{handle_erc20_transfer, handle_safe_received}
use autonolas_subgraph.Pearl.Safes.{get_or_create_service, get_or_create_master_safe, set_service}
use autonolas_subgraph.Pearl.Safes.WriteOnce.{
  Keeps, upsert_tracked-Keeps, link_late_agent_safe-Keeps, get_or_create_agent_safe-Keeps,
  get_or_create_master_safe-Keeps, get_or_create_service-same,
}
use autonolas_subgraph.Pearl.Bonds.{
  handle_token_deposit, handle_token_refund, handle_activate_registration, handle_operator_unbond,
  handle_terminate_service,
}
use autonolas_subgraph.Pearl.Registry.{
  link_agent_safe_of, resolve_owner, handle_register_instance, handle_create_multisig_with_agents,
  handle_service_nft_transfer,
}
use autonolas_subgraph.Pearl.Staking.{
  StakingConfig, Reward, staking_reward_row, add_daily_olas_reward, reward_row, evict_from,
  handle_instance_created, handle_service_staked, handle_reward_claimed, handle_any_unstake,
  handle_services_evicted, first_or, first, tail,
}
use autonolas_subgraph.Pearl.Execution.{
  handle_safe_added_owner, handle_safe_removed_owner, handle_safe_changed_threshold,
}
use autonolas_subgraph.Pearl.Execution.ReadOnly.{execution-same}
use autonolas_subgraph.Pearl.Events.{Event, from_proxy, handle, run}
use autonolas_subgraph.Pearl.Events.Untouched.{
  transfer-same, dequeue-same, book_bond-same, link_buffered-same, register-same, attribute-same,
}

reward_row-same :
    (chain : Chain) (s : State) (m : Meta) (e : Reward) (service : Service) (c : Category)
    → (reward_row chain s m e service c).tracked ≡ s.tracked
unfolding reward_row staking_reward_row
reward_row-same chain s m e service c = refl

daily-same :
    (s : State) (id : ℕ) (service : Service) (n t : ℕ)
    → (add_daily_olas_reward s id service n t).1.tracked ≡ s.tracked
unfolding add_daily_olas_reward set_service
daily-same s id service n t = refl

created-Keeps :
    (s : State) (m : Meta) (proxy implementation : Address) (config : Option StakingConfig)
    (b : Bool)
    → Keeps s (handle_instance_created s m proxy implementation config b)
unfolding handle_instance_created
created-Keeps s m proxy implementation none b k r h = ground arith
created-Keeps s m proxy implementation (some cfg) b k r h =
    let written : State = record s {
      staking_contracts =
          set proxy
            (record {
              implementation = implementation;
              min_staking_deposit = cfg.min_staking_deposit;
              num_agent_instances = cfg.num_agent_instances;
              created_block = m.block_number;
              created_timestamp = m.block_timestamp;
            })
            s.staking_contracts;
    } in
    ground (arith, upsert_tracked-Keeps written proxy Role.staking none none k r h)

staked-Keeps :
    (chain : Chain) (s : State) (m : Meta) (id : ℕ) (owner multisig : Address)
    → Keeps s (handle_service_staked chain s m id owner multisig)
unfolding handle_service_staked set_service
staked-Keeps chain s m id owner multisig k r h =
    get_or_create_agent_safe-Keeps _ multisig id _ m k r (
      get_or_create_master_safe-Keeps chain (get_or_create_service s id m).1 owner m k r
        (rw (get_or_create_service-same s id m) h))

claimed-Keeps :
    (chain : Chain) (s : State) (m : Meta) (e : Reward)
    → Keeps s (handle_reward_claimed chain s m e)
unfolding handle_reward_claimed set_service
claimed-Keeps chain s m e k r h = rw (daily-same, reward_row-same, get_or_create_service-same) h

unstaked-Keeps :
    (chain : Chain) (s : State) (m : Meta) (e : Reward) → Keeps s (handle_any_unstake chain s m e)
unfolding handle_any_unstake set_service
unstaked-Keeps chain s m e k r h = elim (Bool-cases (ltb 0 e.reward)) [
  | inl paid ↦ rw paid (rw (daily-same, reward_row-same, get_or_create_service-same) h)
  | inr free ↦ rw free (rw (reward_row-same, get_or_create_service-same) h)
]

evict-same :
    (chain : Chain) (s : State) (m : Meta) (epoch i : ℕ) (ids : List ℕ)
    (owners multisigs : List Address)
    → (evict_from chain s m epoch i ids owners multisigs).tracked ≡ s.tracked
unfolding evict_from staking_reward_row
evict-same chain s m epoch i [] owners multisigs = refl
evict-same chain s m epoch i (id ∷ ids) owners multisigs =
    evict-same chain
      (staking_reward_row chain (get_or_create_service s id m).1 m id
        (get_or_create_service s id m).0 Category.service_evicted 0 epoch
        (first_or zero_address multisigs) (eviction_row_id m.tx_hash m.log_index i) (first owners))
      m epoch (i + 1) ids (tail owners) (tail multisigs)
    ∙ get_or_create_service-same s id m

multisig-Keeps :
    (s : State) (m : Meta) (id : ℕ) (multisig : Address)
    → Keeps s (handle_create_multisig_with_agents s m id multisig)
unfolding handle_create_multisig_with_agents set_service
multisig-Keeps s m id multisig k r h =
    get_or_create_agent_safe-Keeps _ multisig id _ m k r
      (rw (link_buffered-same, get_or_create_service-same) h)

link_agent_safe_of-Keeps :
    (s : State) (id : ℕ) (service : Service) → Keeps s (link_agent_safe_of s id service)
unfolding link_agent_safe_of
link_agent_safe_of-Keeps s id service k r h = elim (Option-cases service.agent_safe) [
  | inl no_safe ↦ rw (no_safe, link_agent_safe_of) h
  | inr (a, linked) ↦ elim (Option-cases (get a s.agent_safes)) [
    | inl missing ↦ rw (linked, link_agent_safe_of) (rw (missing, link_agent_safe_of) h)
    | inr (safe, found) ↦
        rw (linked, found, link_agent_safe_of)
          (link_late_agent_safe-Keeps s a safe id service k r h)
  ]
]

resolve-Keeps :
    (chain : Chain) (s : State) (m : Meta) (id : ℕ) (service : Service) (to : Address)
    → Keeps s (resolve_owner chain s m id service to)
unfolding resolve_owner set_service
resolve-Keeps chain s m id service to k r h =
    let master = (get_or_create_master_safe chain s to m).0 in
    let kept = get_or_create_master_safe-Keeps chain s to m k r h in
    elim (Bool-cases (is_none master)) [
      | inl no_safe ↦ rw no_safe kept
      | inr safe ↦ rw safe (link_agent_safe_of-Keeps _ id _ k r kept)
    ]

nft-Keeps :
    (chain : Chain) (s : State) (m : Meta) (id : ℕ) (from to : Address)
    → Keeps s (handle_service_nft_transfer chain s m id from to)
unfolding handle_service_nft_transfer set_service
nft-Keeps chain s m id from to k r h =
    let s1 = (get_or_create_service s id m).1 in
    let kept : get k s1.tracked ≡ some r = rw (get_or_create_service-same s id m) h in
    elim (Bool-cases (to == zero_address || not (is_none (get to s1.staking_contracts)))) [
      | inl skipped ↦ rw skipped kept
      | inr resolved ↦ rw resolved (resolve-Keeps chain _ m id _ to k r kept)
    ]

received-same :
    (chain : Chain) (s : State) (m : Meta) (sender : Address) (n : ℕ)
    → (handle_safe_received chain s m sender n).tracked ≡ s.tracked
unfolding handle_safe_received
received-same chain s m sender n = ground (arith, transfer-same chain s m sender m.address n none)

added-same :
    (s : State) (m : Meta) (owner : Address)
    → (handle_safe_added_owner s m owner).tracked ≡ s.tracked
unfolding handle_safe_added_owner
added-same s m owner = ground arith

removed-same :
    (s : State) (m : Meta) (owner : Address)
    → (handle_safe_removed_owner s m owner).tracked ≡ s.tracked
unfolding handle_safe_removed_owner
removed-same s m owner = ground arith

threshold-same :
    (s : State) (m : Meta) (n : ℕ) → (handle_safe_changed_threshold s m n).tracked ≡ s.tracked
unfolding handle_safe_changed_threshold
threshold-same s m n = ground arith

terminated-same :
    (s : State) (m : Meta) (id : ℕ) → (handle_terminate_service s m id).tracked ≡ s.tracked
unfolding handle_terminate_service set_service
terminated-same s m id = rw dequeue-same (get_or_create_service-same s id m)

registered-same :
    (s : State) (m : Meta) (id agent : ℕ) (operator signer : Address)
    → (handle_register_instance s m id agent operator signer).tracked ≡ s.tracked
unfolding handle_register_instance
registered-same s m id agent operator signer =
    rw attribute-same (register-same s m id agent operator signer)

from_proxy-Keeps : (s : State) (m : Meta) (s' : State) → Keeps s s' → Keeps s (from_proxy s m s')
unfolding from_proxy
from_proxy-Keeps s m s' kept k r h =
    elim (Bool-cases (is_staking_proxy (get m.address s.tracked))) [
      | inl ours ↦ rw ours (kept k r h)
      | inr foreign ↦ rw foreign h
    ]

evicted-Keeps :
    (chain : Chain) (s : State) (m : Meta) (ids : List ℕ) (owners multisigs : List Address)
    (epoch : ℕ)
    → Keeps s (handle_services_evicted chain s m ids owners multisigs epoch)
unfolding handle_services_evicted
evicted-Keeps chain s m ids owners multisigs epoch k r h = rw evict-same h

module _ (multisend : Address) (chain : Chain) where
  handle-Keeps : (s : State) (m : Meta) (e : Event) → Keeps s (handle multisend chain s m e)
  unfolding handle handle_erc20_transfer handle_token_deposit handle_token_refund
      handle_activate_registration handle_operator_unbond handle_services_evicted
  handle-Keeps s m (Event.erc20_transfer from to n) k r h = rw transfer-same h
  handle-Keeps s m (Event.safe_received sender n) k r h = rw received-same h
  handle-Keeps s m (Event.safe_execution_success tx) k r h = rw execution-same h
  handle-Keeps s m (Event.safe_added_owner a) k r h = rw added-same h
  handle-Keeps s m (Event.safe_removed_owner a) k r h = rw removed-same h
  handle-Keeps s m (Event.safe_changed_threshold n) k r h = rw threshold-same h
  handle-Keeps s m (Event.token_deposit a t n) k r h = rw book_bond-same h
  handle-Keeps s m (Event.token_refund a t n) k r h = rw book_bond-same h
  handle-Keeps s m (Event.activate_registration id) k r h = rw dequeue-same h
  handle-Keeps s m (Event.operator_unbond id) k r h = rw dequeue-same h
  handle-Keeps s m (Event.terminate_service id) k r h = rw terminated-same h
  handle-Keeps s m (Event.register_instance id agent operator signer) k r h = rw registered-same h
  handle-Keeps s m (Event.create_multisig_with_agents id a) k r h = multisig-Keeps s m id a k r h
  handle-Keeps s m (Event.service_nft_transfer id from to) k r h =
      nft-Keeps chain s m id from to k r h
  handle-Keeps s m (Event.instance_created p i c b) k r h = created-Keeps s m p i c b k r h
  handle-Keeps s m (Event.service_staked id owner a) k r h =
      from_proxy-Keeps s m _ (staked-Keeps chain s m id owner a) k r h
  handle-Keeps s m (Event.reward_claimed e) k r h =
      from_proxy-Keeps s m _ (claimed-Keeps chain s m e) k r h
  handle-Keeps s m (Event.any_unstake e) k r h =
      from_proxy-Keeps s m _ (unstaked-Keeps chain s m e) k r h
  handle-Keeps s m (Event.services_evicted ids owners safes epoch) k r h =
      from_proxy-Keeps s m _ (evicted-Keeps chain s m ids owners safes epoch) k r h

  -- Whatever logs a batch holds, an address that is tracked before it is tracked after it with the
  -- same role, Master Safe and service.
  pub run-Keeps :
      (logs : List (Meta × Event)) (s : State) (k : Address) (r : Tracked)
      → get k s.tracked ≡ some r
      → get k (run multisend chain logs s).tracked ≡ some r
  unfolding run
  run-Keeps [] s k r h = h
  run-Keeps ((m, e) ∷ logs) s k r h =
      run-Keeps logs (handle multisend chain s m e) k r (handle-Keeps s m e k r h)
