-- ===== src/Pearl/Registry.antt =====
-- squids/pearl-transactions/src/handlers.ts: the service registry's events (an instance registered,
-- a multisig created, the service NFT moved) and logic.ts's `isAfter`, `pushUnique`, `mergeUnique`.
pub mod Latest
pub mod Unique
use autonolas_subgraph.Prelude.{
  ℕ, ◌&&◌, ◌||◌, Bool, false, not, Option, none, some, List, [], ◌∷◌, ◌++◌, ◌==◌, ltb,
  if◌then◌else◌,
}
use autonolas_subgraph.Prelude.Equality.{nat_eq, pair_eq}
use autonolas_subgraph.Prelude.Table.{get, set}
use autonolas_subgraph.Pearl.Model.{Address, Meta, zero_address, is_none}
use autonolas_subgraph.Pearl.BondQueue.{dequeue_agent_bond_once}
use autonolas_subgraph.Pearl.State.{
  State, Chain, ServiceState, BondType, Service, AgentInstance, BufferedAgentInstance,
  PendingRegistration,
}
use autonolas_subgraph.Pearl.Safes.{
  get_or_create_service, set_service, get_or_create_master_safe, get_or_create_agent_safe,
  link_late_agent_safe,
}
use autonolas_subgraph.Pearl.Bonds.{attribute_bond}

-- `list.includes(value)`
unfoldable pub includes : List ℕ → ℕ → Bool
includes [] v = false
includes (x ∷ l) v = x == v || includes l v

pub push_unique : List ℕ → ℕ → List ℕ
push_unique l v = if includes l v then l else l ++ v ∷ []

-- The loop of `mergeUnique`.
pub merge_unique : List ℕ → List ℕ → List ℕ
merge_unique out [] = out
merge_unique out (v ∷ extra) = merge_unique (push_unique out v) extra

-- `LogPosition` and `isAfter`.
pub record LogPosition : Type 0 where
  pub block : ℕ
  pub log_index : ℕ

unfoldable pub is_after : LogPosition → LogPosition → Bool
is_after a b = ltb b.block a.block || a.block == b.block && ltb b.log_index a.log_index

pub position_of : AgentInstance → LogPosition
position_of a = record { block = a.updated_block; log_index = a.updated_log_index }

-- Whether a link that is there is later than the registration.
pub is_later_link : Option AgentInstance → LogPosition → Bool
is_later_link none registered = false
is_later_link (some current) registered = is_after (position_of current) registered

unfoldable pub link_agent_instance : State → Address → ℕ → LogPosition → State
link_agent_instance s signer service registered =
    if is_later_link (get signer s.agent_instances) registered then s else record s {
      agent_instances =
          set signer
            (record {
              service = service;
              updated_block = registered.block;
              updated_log_index = registered.log_index;
            })
            s.agent_instances;
    }

pub or_pending : Option PendingRegistration → PendingRegistration
or_pending none = record { agent_ids = []; operators = []; agent_instances = [] }
or_pending (some p) = p

-- `filter((b) => b.signer !== agentInstance)`
pub without_signer : Address → List BufferedAgentInstance → List BufferedAgentInstance
without_signer signer [] = []
without_signer signer (b ∷ l) =
    let l' = without_signer signer l in if b.signer == signer then l' else b ∷ l'

pub buffer_registration : PendingRegistration → Meta → ℕ → Address → Address → PendingRegistration
buffer_registration p m agent_id operator instance_address = record {
  agent_ids = push_unique p.agent_ids agent_id;
  operators = push_unique p.operators operator;
  agent_instances =
      without_signer instance_address p.agent_instances
      ++ record { signer = instance_address; block = m.block_number; log_index = m.log_index } ∷ [];
}

-- The part of `handleRegisterInstance` before the bond: the service's lists, or the buffer.
unfoldable pub register_instance : State → Meta → ℕ → ℕ → Address → Address → State
register_instance s m id agent_id operator instance_address = elim (get id s.services) [
  | some service ↦
      link_agent_instance
        (set_service s id (record service {
          agent_ids = push_unique service.agent_ids agent_id;
          operators = push_unique service.operators operator;
          updated_timestamp = m.block_timestamp;
        }))
        instance_address id (record { block = m.block_number; log_index = m.log_index })
  | none ↦ record s {
    pending =
        set id
          (buffer_registration (or_pending (get id s.pending)) m agent_id operator instance_address)
          s.pending;
  }
]

unfoldable pub handle_register_instance : State → Meta → ℕ → ℕ → Address → Address → State
handle_register_instance s m id agent_id operator instance_address =
    let s1 = register_instance s m id agent_id operator instance_address in
    let (row, queue) = dequeue_agent_bond_once m.tx_hash id s1.bond_queue in
    attribute_bond (record s1 { bond_queue = queue }) row id BondType.agent_bond

-- The loop over the buffered instances.
unfoldable pub link_buffered : State → ℕ → List BufferedAgentInstance → State
link_buffered s id [] = s
link_buffered s id (b ∷ l) =
    link_buffered
      (link_agent_instance s b.signer id (record { block = b.block; log_index = b.log_index })) id l

-- `PendingRegistration` drained into the service.
pub drain : Option PendingRegistration → Service → Service
drain none service = service
drain (some p) service = record service {
  agent_ids = merge_unique service.agent_ids p.agent_ids;
  operators = merge_unique service.operators p.operators;
}

pub buffered_instances : Option PendingRegistration → List BufferedAgentInstance
buffered_instances none = []
buffered_instances (some p) = p.agent_instances

unfoldable pub handle_create_multisig_with_agents : State → Meta → ℕ → Address → State
handle_create_multisig_with_agents s m id multisig =
    let (service, s1) = get_or_create_service s id m in
    let pending = get id s1.pending in
    let deployed : Service = record service {
      state = ServiceState.deployed;
      updated_timestamp = m.block_timestamp;
    } in
    let drained = drain pending deployed in
    let s2 = set_service (link_buffered s1 id (buffered_instances pending)) id drained in
    let s3 = get_or_create_agent_safe s2 multisig id drained m in
    let s4 = set_service s3 id (record drained { agent_safe = some multisig }) in
    record s4 { service_index = set id multisig s4.service_index }

-- The Agent Safe of a service whose Master Safe has just been resolved.
unfoldable pub link_agent_safe_of : State → ℕ → Service → State
link_agent_safe_of s id service = elim service.agent_safe [
  | none ↦ s
  | some address ↦ elim (get address s.agent_safes) [
    | none ↦ s
    | some safe ↦ link_late_agent_safe s address safe id service
  ]
]

-- The end of `handleServiceNftTransfer`: the recipient as a Master Safe.
unfoldable pub resolve_owner : Chain → State → Meta → ℕ → Service → Address → State
resolve_owner chain s m id service to =
    let (master, s1) = get_or_create_master_safe chain s to m in
    let linked : Service = record service { master_safe = master } in
    if is_none master then s1 else link_agent_safe_of (set_service s1 id linked) id linked

unfoldable pub handle_service_nft_transfer : Chain → State → Meta → ℕ → Address → Address → State
handle_service_nft_transfer chain s m id from to =
    let (service, s1) = get_or_create_service s id m in
    let held : Service = record service {
      nft_custodian = some to;
      updated_timestamp = m.block_timestamp;
    } in
    let s2 = set_service s1 id held in
    let s3 : State = record s2 {
      custody_changes =
          set (m.tx_hash, m.log_index)
            (record {
              service = id;
              from = from;
              to = to;
              block_number = m.block_number;
              block_timestamp = m.block_timestamp;
            })
            s2.custody_changes;
    } in
    if to == zero_address || not (is_none (get to s3.staking_contracts))
    then s3
    else resolve_owner chain s3 m id held to
