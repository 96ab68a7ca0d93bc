-- ===== src/Services/Counts/Batch.antt =====
-- squids/service-registry/src/handlers.ts and main.ts: every log of a batch keeps the counts.
use autonolas_subgraph.Prelude.{
  ℕ, ◌≡◌, Bool, true, false, not, ◌&&◌, Option, none, some, List, [], ◌∷◌, inl, inr, if◌then◌else◌,
  Bool-cases,
}
use autonolas_subgraph.Prelude.Equality.{nat_eq, pair_eq}
use autonolas_subgraph.Prelude.Table.{get}
use autonolas_subgraph.Services.State.{Address, Meta, Service, Multisig, State}
use autonolas_subgraph.Services.Registry.{Texts, includes, handle_register_instance}
use autonolas_subgraph.Services.Events.{
  RegistryEvent, Event, registry, safe_execution, execute_service, execute_multisig,
  handle_safe_execution, BlockSafeLogs, safe_log, handle_parked, end_block, after_create,
  handle_registry, handle, handle_logs, handle_block, run, has_row,
}
use autonolas_subgraph.Services.Counts.{AreCounted}
use autonolas_subgraph.Services.Counts.Updates.{operators-AreCounted, execute-AreCounted}

service-AreCounted :
    (s : State) (o : Option Service) (service : ℕ) (m : Meta) (a : Address) (v : Multisig)
    → AreCounted s.activity
    → AreCounted (execute_service s o service m a v).activity
service-AreCounted s none service m a v h = h
service-AreCounted s (some _) service m a v h = execute-AreCounted s.activity service m a v h

multisig-AreCounted :
    (s : State) (o : Option Multisig) (m : Meta) (a : Address)
    → AreCounted s.activity
    → AreCounted (execute_multisig s o m a).activity
multisig-AreCounted s none m a h = h
multisig-AreCounted s (some v) m a h =
    service-AreCounted s (get v.service_id s.registry.services) v.service_id m a v h

safe-AreCounted :
    (s : State) (m : Meta) (a : Address)
    → AreCounted s.activity
    → AreCounted (handle_safe_execution s m a).activity
unfolding handle_safe_execution
safe-AreCounted s m a h = multisig-AreCounted s (get a s.registry.multisigs) m a h

if_safe-AreCounted :
    (b : Bool) (s : State) (m : Meta) (a : Address)
    → AreCounted s.activity
    → AreCounted (if b then handle_safe_execution s m a else s).activity
if_safe-AreCounted true s m a h = safe-AreCounted s m a h
if_safe-AreCounted false s m a h = h

known_log-AreCounted :
    (s : State) (b : BlockSafeLogs) (m : Meta) (a : Address)
    → includes s.registry.known a ≡ true
    → AreCounted s.activity
    → AreCounted (safe_log s b m a).0.activity
unfolding safe_log
known_log-AreCounted s b m a known h = elim (Bool-cases (not (includes b.fresh a) && has_row s a)) [
  | inl old ↦ rw (known, old, safe_log) (safe-AreCounted s m a h)
  | inr new ↦ rw (known, new, safe_log) h
]

log-AreCounted :
    (s : State) (b : BlockSafeLogs) (m : Meta) (a : Address)
    → AreCounted s.activity
    → AreCounted (safe_log s b m a).0.activity
unfolding safe_log
log-AreCounted s b m a h = elim (Bool-cases (includes s.registry.known a)) [
  | inl known ↦ known_log-AreCounted s b m a known h
  | inr unknown ↦ rw (unknown, safe_log) h
]

registry-AreCounted :
    (texts : Texts) (s : State) (m : Meta) (e : RegistryEvent)
    → AreCounted s.activity
    → AreCounted (handle_registry texts s m e).activity
unfolding handle_register_instance
registry-AreCounted texts s m (RegistryEvent.create_service id config) h = h
registry-AreCounted texts s m (RegistryEvent.update_service id config) h = h
registry-AreCounted texts s m (RegistryEvent.register_instance operator service agent) h =
    operators-AreCounted s.activity operator h
registry-AreCounted texts s m (RegistryEvent.terminate_service id) h = h
registry-AreCounted texts s m (RegistryEvent.service_agent_linked service agent) h = h
registry-AreCounted texts s m (RegistryEvent.agent_wallet_set agent multisig) h = h
registry-AreCounted texts s m (RegistryEvent.metadata_set agent key value) h = h

parked-AreCounted :
    (s : State) (fresh : List Address) (l : List (Address × Meta))
    → AreCounted s.activity
    → AreCounted (handle_parked s fresh l).activity
unfolding handle_parked
parked-AreCounted s fresh [] h = h
parked-AreCounted s fresh ((a, m) ∷ l) h =
    parked-AreCounted (if includes fresh a then handle_safe_execution s m a else s) fresh l
      (if_safe-AreCounted (includes fresh a) s m a h)

module _ (texts : Texts) where
  handle-AreCounted :
      (s : State) (b : BlockSafeLogs) (m : Meta) (e : Event)
      → AreCounted s.activity
      → AreCounted (handle texts s b m e).0.activity
  unfolding handle after_create
  handle-AreCounted s b m (registry e) h = registry-AreCounted texts s m e h
  handle-AreCounted s b m (Event.create_multisig service a from) h = h
  handle-AreCounted s b m (safe_execution a) h = log-AreCounted s b m a h

  logs-AreCounted :
      (s : State) (b : BlockSafeLogs) (logs : List (Meta × Event))
      → AreCounted s.activity
      → AreCounted (handle_logs texts s b logs).0.activity
  unfolding handle_logs
  logs-AreCounted s b [] h = h
  logs-AreCounted s b ((m, e) ∷ logs) h =
      logs-AreCounted (handle texts s b m e).0 (handle texts s b m e).1 logs
        (handle-AreCounted s b m e h)

  -- Any batch of blocks keeps the counts: where the squid's number of operators is that of their rows,
  -- a day's numbers of agents and of multisigs are those of its links, the number of multisigs of an
  -- agent's day is that of its links, and the transactions of an agent are the sum over its days, all
  -- this holds after the batch too.
  pub run-AreCounted :
      (s : State) (blocks : List (List (Meta × Event)))
      → AreCounted s.activity
      → AreCounted (run texts s blocks).activity
  unfolding run handle_block end_block
  run-AreCounted s [] h = h
  run-AreCounted s (block ∷ blocks) h =
      let r = handle_logs texts s (record { fresh = []; parked = [] }) block in
      run-AreCounted (handle_block texts s block) blocks (
        parked-AreCounted r.0 r.1.fresh r.1.parked
          (logs-AreCounted s (record { fresh = []; parked = [] }) block h))
