-- ===== src/Services/Registry.antt =====
-- squids/service-registry/src/handlers.ts: the handlers of ServiceRegistryL2 and of the bridger of
-- ERC-8004 agents.
use autonolas_subgraph.Prelude.{
  ℕ, ◌||◌, Bool, false, Option, none, some, List, [], ◌∷◌, ◌++◌, ◌==◌, if◌then◌else◌,
}
use autonolas_subgraph.Prelude.Int.{ℤ, pos, negsuc}
use autonolas_subgraph.Prelude.Equality.{nat_eq, pair_eq}
use autonolas_subgraph.Prelude.Table.{get, set}
use autonolas_subgraph.Services.{most_recent_agent_id}
use autonolas_subgraph.Services.State.{
  Address, Meta, Service, Multisig, AgentRegistration, Creator, Erc8004Agent, Erc8004Metadata,
  Registry, State,
}
use autonolas_subgraph.Services.Activity.{update_unique_operators}

-- The texts of constants.ts and what turns bytes and numbers into texts.
pub record Texts : Type 0 where
  pub ecosystem_key : ℕ
  pub ecosystem_value : ℕ
  pub service_registry_key : ℕ
  pub of_number : ℕ → ℕ
  pub bytes_to_utf8 : ℕ → ℕ

-- `includes`
abbrev pub includes : List ℕ → ℕ → Bool
includes [] v = false
includes (x ∷ l) v = x == v || includes l v

unfoldable pub push_unique : List ℕ → ℕ → List ℕ
push_unique l v = if includes l v then l else l ++ v ∷ []

abbrev pub or_service : Option Service → ℕ → Service
or_service none creation_timestamp = record {
  multisig = none;
  agent_ids = [];
  creation_timestamp = creation_timestamp;
  config_hash = none;
  creator = none;
  erc8004_agent = none;
}
or_service (some v) creation_timestamp = v

abbrev pub set_service : Registry → ℕ → Service → Registry
set_service s id v = record s { services = set id v s.services }

unfoldable pub handle_create_service : Registry → Meta → ℕ → ℕ → Registry
handle_create_service s m id config =
    set_service s id
      (record (or_service (get id s.services) m.block_timestamp) { config_hash = some config })

unfoldable pub handle_update_service : Registry → ℕ → ℕ → Registry
handle_update_service s id config = elim (get id s.services) [
  | none ↦ s
  | some v ↦ set_service s id (record v { config_hash = some config })
]

-- The registration is dated by the block; a service first seen here is dated 0.
unfoldable pub handle_register_instance : State → Meta → Address → ℕ → ℕ → State
handle_register_instance s m operator service agent =
    let v = or_service (get service s.registry.services) 0 in
    record {
      registry = record s.registry {
        registrations =
            set (service, agent)
              (record {
                service_id = service;
                agent_id = agent;
                registration_timestamp = m.block_timestamp;
              })
              s.registry.registrations;
        services =
            set service (record v { agent_ids = push_unique v.agent_ids agent })
              s.registry.services;
      };
      activity = update_unique_operators s.activity operator;
    }

abbrev pub registration_time : Option AgentRegistration → Option ℕ
registration_time none = none
registration_time (some reg) = some reg.registration_timestamp

-- The agents of a new multisig: the one registered last, or all of them where none qualifies.
abbrev pub chosen : ℤ → List ℕ → List ℕ
chosen (pos recent) agent_ids = recent ∷ []
chosen (negsuc n) agent_ids = agent_ids

unfoldable pub agents_of : Registry → ℕ → List ℕ → ℕ → List ℕ
agents_of s service agent_ids deployment =
    chosen
      (most_recent_agent_id (λ agent. registration_time (get (service, agent) s.registrations))
        deployment agent_ids)
      agent_ids

abbrev pub or_creator : Option Creator → Address → Creator
or_creator none from = record { id = from }
or_creator (some creator) from = creator

abbrev pub or_multisig : Option Multisig → Meta → Address → Multisig
or_multisig none m from = record {
  service_id = 0;
  creator = from;
  creation_timestamp = m.block_timestamp;
  tx_hash = m.tx_hash;
  agent_ids = [];
}
or_multisig (some row) m from = row

-- A set that an address is added to.
abbrev pub add_known : List Address → Address → List Address
add_known known address = address ∷ known

unfoldable pub create_multisig : Registry → Meta → ℕ → Address → Address → Service → Registry
create_multisig s m service address from v = record s {
  creators = set from (or_creator (get from s.creators) from) s.creators;
  services = set service (record v { creator = some from; multisig = some address }) s.services;
  known = add_known s.known address;
  multisigs =
      set address
        (record (or_multisig (get address s.multisigs) m from) {
          service_id = service;
          tx_hash = m.tx_hash;
          agent_ids = agents_of s service v.agent_ids m.block_timestamp;
        })
        s.multisigs;
}

unfoldable pub handle_create_multisig : Registry → Meta → ℕ → Address → Address → Registry
handle_create_multisig s m service address from = elim (get service s.services) [
  | none ↦ s
  | some v ↦ create_multisig s m service address from v
]

unfoldable pub handle_terminate_service : Registry → ℕ → Registry
handle_terminate_service s id = elim (get id s.services) [
  | none ↦ s
  | some v ↦ set_service s id (record v { agent_ids = []; multisig = none; creator = none })
]

abbrev pub or_agent : Option Erc8004Agent → Erc8004Agent
or_agent none = record { agent_wallet = none }
or_agent (some agent) = agent

unfoldable pub get_or_create_erc8004_agent : Registry → ℕ → Registry
get_or_create_erc8004_agent s agent = record s {
  erc8004_agents = set agent (or_agent (get agent s.erc8004_agents)) s.erc8004_agents;
}

abbrev pub or_metadata : Option Erc8004Metadata → ℕ → ℕ → Erc8004Metadata
or_metadata none agent key = record { agent = agent; key = key; value = none }
or_metadata (some row) agent key = row

unfoldable pub set_metadata : Registry → ℕ → ℕ → ℕ → Registry
set_metadata s agent key value = record s {
  metadata =
      set (agent, key)
        (record (or_metadata (get (agent, key) s.metadata) agent key) { value = some value })
        s.metadata;
}

module _ (texts : Texts) where
  unfoldable pub link_agent : Registry → ℕ → ℕ → Service → Registry
  link_agent s service agent v =
      let s1 = get_or_create_erc8004_agent s agent in
      let s2 = set_service s1 service (record v { erc8004_agent = some agent }) in
      let s3 = set_metadata s2 agent texts.ecosystem_key texts.ecosystem_value in
      set_metadata s3 agent texts.service_registry_key (texts.of_number service)

  unfoldable pub handle_service_agent_linked : Registry → ℕ → ℕ → Registry
  handle_service_agent_linked s service agent = elim (get service s.services) [
    | none ↦ s
    | some v ↦ link_agent s service agent v
  ]

  unfoldable pub handle_metadata_set : Registry → ℕ → ℕ → ℕ → Registry
  handle_metadata_set s agent key value =
      set_metadata (get_or_create_erc8004_agent s agent) agent key (texts.bytes_to_utf8 value)

unfoldable pub handle_agent_wallet_set : Registry → ℕ → Address → Registry
handle_agent_wallet_set s agent multisig = record s {
  erc8004_agents =
      set agent (record (or_agent (get agent s.erc8004_agents)) { agent_wallet = some multisig })
        s.erc8004_agents;
}
