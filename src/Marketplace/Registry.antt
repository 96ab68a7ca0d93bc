-- ===== src/Marketplace/Registry.antt =====
-- squids/marketplace/src/handlers.ts: the handlers of ServiceRegistryL2 and of the services' metadata.
use autonolas_subgraph.Prelude.{
  ℕ, ◌||◌, Bool, false, Option, none, some, List, [], ◌∷◌, ◌++◌, ◌==◌, if◌then◌else◌,
}
use autonolas_subgraph.Prelude.Equality.{nat_eq, pair_eq}
use autonolas_subgraph.Prelude.Table.{get, set}
use autonolas_subgraph.Marketplace.State.{
  Address, Meta, Service, Mech, CreateMultisigWithAgents, Metadata, Market, EventRow, State,
  event_id,
}

abbrev pub add_row : State → Meta → EventRow → State
add_row s m row = record s { rows = set (event_id m) (m, row) s.rows }

-- `indexOf`
abbrev pub includes : List ℕ → ℕ → Bool
includes [] v = false
includes (x ∷ l) v = x == v || includes l v

unfoldable pub push_unique : List ℕ → ℕ → List ℕ
push_unique l v = if includes l v then l else l ++ v ∷ []

-- A change of a service, if it is there.
abbrev pub with_service : Market → ℕ → Option Service → (Service → Service) → Market
with_service k id none change = k
with_service k id (some v) change = record k { services = set id (change v) k.services }

unfoldable pub change_service : Market → ℕ → (Service → Service) → Market
change_service k id change = with_service k id (get id k.services) change

unfoldable pub handle_create_service : State → Meta → ℕ → ℕ → State
handle_create_service s m id config =
    add_row
      (record s {
        market = record s.market {
          services =
              set id
                (record {
                  service_id = id;
                  config_hash = config;
                  latest_multisig = none;
                  historical_multisigs = [];
                  total_requests = 0;
                  total_deliveries = 0;
                  agent_ids = [];
                })
                s.market.services;
        };
      })
      m (EventRow.create_service id config)

-- The first service of a multisig stays.
abbrev pub or_multisig : Option CreateMultisigWithAgents → Meta → ℕ → CreateMultisigWithAgents
or_multisig none m id = record { service_id = id; created_by = m }
or_multisig (some row) m id = row

unfoldable pub update_service_multisig : Market → ℕ → Address → Market
update_service_multisig k id multisig = change_service k id λ v. record v {
  latest_multisig = some multisig;
  historical_multisigs = push_unique v.historical_multisigs multisig;
}

unfoldable pub handle_create_multisig_with_agents : Market → Meta → ℕ → Address → Market
handle_create_multisig_with_agents k m id multisig =
    update_service_multisig
      (record k {
        multisigs = set multisig (or_multisig (get multisig k.multisigs) m id) k.multisigs;
      })
      id multisig

unfoldable pub handle_register_instance : State → Meta → Address → ℕ → Address → ℕ → State
handle_register_instance s m operator id instance agent =
    add_row
      (record s {
        market =
            change_service s.market id λ v. record v { agent_ids = push_unique v.agent_ids agent };
      })
      m (EventRow.register_instance operator id instance agent)

unfoldable pub handle_terminate_service : State → Meta → ℕ → State
handle_terminate_service s m id =
    add_row (record s { market = change_service s.market id λ v. record v { agent_ids = [] } }) m
      (EventRow.terminate_service id)

abbrev pub with_mech_of : Market → ℕ → Option Mech → (Mech → Mech) → Market
with_mech_of k id none change = k
with_mech_of k id (some v) change = record k { mechs = set id (change v) k.mechs }

unfoldable pub change_mech_of : Market → ℕ → (Mech → Mech) → Market
change_mech_of k id change = with_mech_of k id (get id k.mechs) change

-- The owner of a service's token owns its mech.
unfoldable pub handle_service_transfer : State → Meta → Address → Address → ℕ → State
handle_service_transfer s m from to id =
    add_row (record s { market = change_mech_of s.market id λ v. record v { owner = to } }) m
      (EventRow.transfer from to id)

unfoldable pub handle_update_service : State → Meta → ℕ → ℕ → State
handle_update_service s m id config =
    let k = change_service s.market id λ v. record v { config_hash = config } in
    add_row (record s { market = change_mech_of k id λ v. record v { config_hash = some config } })
      m (EventRow.update_service id config)

abbrev pub found : {A : Type 0} → Option A → ℕ → Option ℕ
found none id = none
found (some _) id = some id

abbrev pub or_metadata : Option Metadata → Market → ℕ → Metadata
or_metadata none k id = record { service = found (get id k.services) id; mech = none; metadata = 0 }
or_metadata (some row) k id = row

abbrev pub with_address : Metadata → Option Mech → Metadata
with_address row none = row
with_address row (some v) = record row { mech = some v.address }

unfoldable pub handle_complementary_metadata_updated : Market → ℕ → ℕ → Market
handle_complementary_metadata_updated k id hash =
    let row = or_metadata (get id k.metadata) k id in
    record k {
      metadata = set id (with_address (record row { metadata = hash }) (get id k.mechs)) k.metadata;
    }
