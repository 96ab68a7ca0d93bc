-- ===== src/Services/Events.antt =====
-- squids/service-registry/src/main.ts and safeLogs.ts: the decoded logs of a block, with the logs of
-- Safes that are not registered before the block put off to its end.
use autonolas_subgraph.Prelude.{
  ℕ, ◌&&◌, Bool, true, false, not, Option, none, some, List, [], ◌∷◌, ◌++◌, if◌then◌else◌,
}
use autonolas_subgraph.Prelude.Equality.{nat_eq}
use autonolas_subgraph.Prelude.Table.{get}
use autonolas_subgraph.Services.State.{Address, Meta, Service, Multisig, State}
use autonolas_subgraph.Services.Activity.{execute}
use autonolas_subgraph.Services.Registry.{
  Texts, includes, handle_create_service, handle_update_service, handle_register_instance,
  handle_create_multisig, handle_terminate_service, handle_service_agent_linked,
  handle_agent_wallet_set, handle_metadata_set,
}

-- The logs of the registry and of the bridger.
pub data RegistryEvent : Type 0 where
  create_service update_service : ℕ → ℕ → RegistryEvent
  register_instance : Address → ℕ → ℕ → RegistryEvent
  terminate_service : ℕ → RegistryEvent
  service_agent_linked : ℕ → ℕ → RegistryEvent
  agent_wallet_set : ℕ → Address → RegistryEvent
  metadata_set : ℕ → ℕ → ℕ → RegistryEvent

pub data Event : Type 0 where
  registry : RegistryEvent → Event
  create_multisig : ℕ → Address → Address → Event
  safe_execution : Address → Event

abbrev pub execute_service : State → Option Service → ℕ → Meta → Address → Multisig → State
execute_service s none service m address v = s
execute_service s (some _) service m address v = record s {
  activity = execute s.activity service m address v;
}

abbrev pub execute_multisig : State → Option Multisig → Meta → Address → State
execute_multisig s none m address = s
execute_multisig s (some v) m address =
    execute_service s (get v.service_id s.registry.services) v.service_id m address v

unfoldable pub handle_safe_execution : State → Meta → Address → State
handle_safe_execution s m address = execute_multisig s (get address s.registry.multisigs) m address

abbrev pub is_row : Option Multisig → Bool
is_row none = false
is_row (some _) = true

unfoldable pub has_row : State → Address → Bool
has_row s address = is_row (get address s.registry.multisigs)

-- `BlockSafeLogs`
pub record BlockSafeLogs : Type 0 where
  pub fresh : List Address
  pub parked : List (Address × Meta)

module _ (texts : Texts) where
  abbrev pub handle_registry : State → Meta → RegistryEvent → State
  handle_registry s m (RegistryEvent.create_service id config) = record s {
    registry = handle_create_service s.registry m id config;
  }
  handle_registry s m (RegistryEvent.update_service id config) = record s {
    registry = handle_update_service s.registry id config;
  }
  handle_registry s m (RegistryEvent.register_instance operator service agent) =
      handle_register_instance s m operator service agent
  handle_registry s m (RegistryEvent.terminate_service id) = record s {
    registry = handle_terminate_service s.registry id;
  }
  handle_registry s m (RegistryEvent.service_agent_linked service agent) = record s {
    registry = handle_service_agent_linked texts s.registry service agent;
  }
  handle_registry s m (RegistryEvent.agent_wallet_set agent multisig) = record s {
    registry = handle_agent_wallet_set s.registry agent multisig;
  }
  handle_registry s m (RegistryEvent.metadata_set agent key value) = record s {
    registry = handle_metadata_set texts s.registry agent key value;
  }

unfoldable pub after_create : State → Meta → ℕ → Address → Address → State
after_create s m service address from = record s {
  registry = handle_create_multisig s.registry m service address from;
}

-- `createMultisig`: the address is fresh if it gets its first row here.
unfoldable pub note_multisig : BlockSafeLogs → Address → Bool → Bool → BlockSafeLogs
note_multisig b address had_row has_row_now =
    if not had_row && has_row_now then record b { fresh = address ∷ b.fresh } else b

unfoldable pub park : BlockSafeLogs → Address → Meta → BlockSafeLogs
park b address m = record b { parked = b.parked ++ (address, m) ∷ [] }

unfoldable pub safe_log : State → BlockSafeLogs → Meta → Address → State × BlockSafeLogs
safe_log s b m address =
    if not (includes s.registry.known address)
    then (s, park b address m)
    else if not (includes b.fresh address) && has_row s address
    then (handle_safe_execution s m address, b)
    else (s, park b address m)

-- The logs that were put off, of the Safes that got their row in the block.
unfoldable pub handle_parked : State → List Address → List (Address × Meta) → State
handle_parked s fresh [] = s
handle_parked s fresh ((address, m) ∷ parked) =
    handle_parked (if includes fresh address then handle_safe_execution s m address else s) fresh
      parked

unfoldable pub end_block : State → BlockSafeLogs → State
end_block s b = handle_parked s b.fresh b.parked

module _ (texts : Texts) where
  unfoldable pub handle : State → BlockSafeLogs → Meta → Event → State × BlockSafeLogs
  handle s b m (registry e) = (handle_registry texts s m e, b)
  handle s b m (create_multisig service address from) =
      let s' = after_create s m service address from in
      (s', note_multisig b address (has_row s address) (has_row s' address))
  handle s b m (safe_execution address) = safe_log s b m address

  unfoldable pub handle_logs : State → BlockSafeLogs → List (Meta × Event) → State × BlockSafeLogs
  handle_logs s b [] = (s, b)
  handle_logs s b ((m, e) ∷ logs) = let (s', b') = handle s b m e in handle_logs s' b' logs

  unfoldable pub handle_block : State → List (Meta × Event) → State
  handle_block s logs =
      let (s', b) = handle_logs s (record { fresh = []; parked = [] }) logs in end_block s' b

  unfoldable pub run : State → List (List (Meta × Event)) → State
  run s [] = s
  run s (block ∷ blocks) = run (handle_block s block) blocks
