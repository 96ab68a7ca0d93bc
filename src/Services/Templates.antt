-- ===== src/Services/Templates.antt =====
-- squids/service-registry/src/safeLogs.ts against the semantics of graph-node's templates, which its
-- header describes: a Safe that is registered in a block has its logs of that block handled after
-- the block's other logs, the earlier ones too.
pub mod Block
pub mod Run
use autonolas_subgraph.Prelude.{
  ℕ, ◌≡◌, refl, ◌&&◌, ◌||◌, Bool, true, false, not, Option, none, some, List, [], ◌∷◌, arith,
  if◌then◌else◌,
}
use autonolas_subgraph.Prelude.Equality.{nat_eq}
use autonolas_subgraph.Prelude.Table.{get}
use autonolas_subgraph.Services.State.{Address, Meta, Service, Multisig, State}
use autonolas_subgraph.Services.Registry.{
  Texts, includes, handle_create_service, handle_update_service, handle_register_instance,
  handle_terminate_service, handle_service_agent_linked, link_agent, handle_agent_wallet_set,
  handle_metadata_set, set_metadata, get_or_create_erc8004_agent,
}
use autonolas_subgraph.Services.Events.{
  RegistryEvent, Event, registry, safe_execution, execute_service, execute_multisig,
  handle_safe_execution, has_row, handle_registry, after_create,
}

module _ (texts : Texts) where
  -- The block's triggers in order, with the Safes that had their template before it.
  unfoldable pub first_step : (Address → Bool) → State → Meta → Event → State
  first_step had s m (registry e) = handle_registry texts s m e
  first_step had s m (Event.create_multisig service address from) =
      after_create s m service address from
  first_step had s m (safe_execution address) =
      if had address then handle_safe_execution s m address else s

  unfoldable pub first_pass : (Address → Bool) → State → List (Meta × Event) → State
  first_pass had s [] = s
  first_pass had s ((m, e) ∷ logs) = first_pass had (first_step had s m e) logs

-- Then the logs of the Safes whose template is new.
unfoldable pub second_step : (Address → Bool) → State → Meta → Event → State
second_step new s m (registry e) = s
second_step new s m (Event.create_multisig service address from) = s
second_step new s m (safe_execution address) =
    if new address then handle_safe_execution s m address else s

unfoldable pub second_pass : (Address → Bool) → State → List (Meta × Event) → State
second_pass new s [] = s
second_pass new s ((m, e) ∷ logs) = second_pass new (second_step new s m e) logs

module _ (texts : Texts) where
  unfoldable pub template_block : State → List (Meta × Event) → State
  template_block s logs =
      let after = first_pass texts (has_row s) s logs in
      second_pass (λ a. has_row after a && not (has_row s a)) after logs

  unfoldable pub template_run : State → List (List (Meta × Event)) → State
  template_run s [] = s
  template_run s (block ∷ blocks) = template_run (template_block s block) blocks

-- Every multisig with a row is known to the process.
abbrev pub AreKnown : State → Type 0
AreKnown s = (a : Address) → has_row s a ≡ true → includes s.registry.known a ≡ true

-- How the state within a block stands to the state before it.
pub record IsSplit (s0 s : State) (fresh : List Address) : Type 0 where
  pub rows : (a : Address) → has_row s a ≡ (has_row s0 a || includes fresh a)
  pub apart : (a : Address) → includes fresh a ≡ true → has_row s0 a ≡ false
  pub known : AreKnown s

execute-registry :
    (s : State) (o : Option Service) (service : ℕ) (m : Meta) (a : Address) (v : Multisig)
    → (execute_service s o service m a v).registry ≡ s.registry
execute-registry s none service m a v = refl
execute-registry s (some _) service m a v = refl

multisig-registry :
    (s : State) (o : Option Multisig) (m : Meta) (a : Address)
    → (execute_multisig s o m a).registry ≡ s.registry
multisig-registry s none m a = refl
multisig-registry s (some v) m a =
    execute-registry s (get v.service_id s.registry.services) v.service_id m a v

-- An execution leaves the registry as it is.
pub safe-registry :
    (s : State) (m : Meta) (a : Address) → (handle_safe_execution s m a).registry ≡ s.registry
unfolding handle_safe_execution
safe-registry s m a = multisig-registry s (get a s.registry.multisigs) m a

module _ (texts : Texts) where
  pub registry-multisigs :
      (s : State) (m : Meta) (e : RegistryEvent)
      → ((handle_registry texts s m e).registry.multisigs ≡ s.registry.multisigs)
        × ((handle_registry texts s m e).registry.known ≡ s.registry.known)
  unfolding handle_create_service handle_update_service handle_register_instance
      handle_terminate_service handle_service_agent_linked link_agent handle_agent_wallet_set
      handle_metadata_set set_metadata get_or_create_erc8004_agent
  registry-multisigs s m (RegistryEvent.create_service id config) = (refl, refl)
  registry-multisigs s m (RegistryEvent.update_service id config) = (ground arith, ground arith)
  registry-multisigs s m (RegistryEvent.register_instance operator service agent) = (refl, refl)
  registry-multisigs s m (RegistryEvent.terminate_service id) = (ground arith, ground arith)
  registry-multisigs s m (RegistryEvent.service_agent_linked service agent) =
      (ground arith, ground arith)
  registry-multisigs s m (RegistryEvent.agent_wallet_set agent multisig) = (refl, refl)
  registry-multisigs s m (RegistryEvent.metadata_set agent key value) = (refl, refl)
