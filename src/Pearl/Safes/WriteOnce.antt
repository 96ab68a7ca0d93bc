-- ===== src/Pearl/Safes/WriteOnce.antt =====
-- squids/pearl-transactions/src/entityCache.ts, `upsertTracked`, and its callers in handlers.ts: a row
-- of the tracked-address table is never changed once it is there.
use autonolas_subgraph.Prelude.{
  ℕ, ◌≡◌, Option, none, some, List, [], ◌∷◌, arith, ◌==◌, if◌then◌else◌, Option-cases, inl, inr,
}
use autonolas_subgraph.Prelude.Equality.{nat_eq, pair_eq}
use autonolas_subgraph.Prelude.Table.{get, set, get-set}
use autonolas_subgraph.Pearl.Model.{Address, Role, Tracked, Meta}
use autonolas_subgraph.Pearl.State.{State, Chain, Service, AgentSafe, SafeConfig, safe_deployed_id}
use autonolas_subgraph.Pearl.Safes.{
  upsert_tracked, get_or_create_service, get_or_create_master_safe, track_operators,
  track_agent_safe, link_late_agent_safe, get_or_create_agent_safe, deploy_master_safe,
  new_master_safe, safe_deployed_row,
}

-- What was tracked before is tracked after, with the same row.
abbrev pub Keeps : State → State → Type 0
Keeps s s' = (k : Address) (r : Tracked) → get k s.tracked ≡ some r → get k s'.tracked ≡ some r

pub Keeps-trans : (s t u : State) → Keeps s t → Keeps t u → Keeps s u
Keeps-trans s t u a b k r h = b k r (a k r h)

-- A state with the same table.
pub Keeps-same : (s s' : State) → s'.tracked ≡ s.tracked → Keeps s s'
Keeps-same s s' e k r h = rw e h

pub upsert_tracked-Keeps :
    (s : State) (a : Address) (role : Role) (master : Option Address) (service : Option ℕ)
    → Keeps s (upsert_tracked s a role master service)
unfolding upsert_tracked
upsert_tracked-Keeps s a role master service k r h =
    let row : Tracked = record {
      id = a;
      role = role;
      master_safe_id = master;
      service_id = service;
    } in
    ground (arith, get-set a k row s.tracked)

pub track_operators-Keeps :
    (s : State) (master : Address) (service : ℕ) (l : List Address)
    → Keeps s (track_operators s master service l)
unfolding track_operators
track_operators-Keeps s master service [] k r h = h
track_operators-Keeps s master service (o ∷ l) k r h =
    track_operators-Keeps
      (if o == master then s else upsert_tracked s o Role.agent_eoa (some master) (some service))
      master service l k r
      (ground (arith, upsert_tracked-Keeps s o Role.agent_eoa (some master) (some service) k r))

pub track_agent_safe-Keeps :
    (s : State) (a : Address) (id : ℕ) (service : Service)
    → Keeps s (track_agent_safe s a id service)
unfolding track_agent_safe
track_agent_safe-Keeps s a id service k r h = elim (Option-cases service.master_safe) [
  | inl none_yet ↦ rw (none_yet, track_agent_safe) h
  | inr (master, linked) ↦
      rw (linked, track_agent_safe)
        (track_operators-Keeps _ master id service.operators k r
          (upsert_tracked-Keeps s a Role.agent (some master) (some id) k r h))
]

pub link_late_agent_safe-Keeps :
    (s : State) (a : Address) (safe : AgentSafe) (id : ℕ) (service : Service)
    → Keeps s (link_late_agent_safe s a safe id service)
unfolding link_late_agent_safe
link_late_agent_safe-Keeps s a safe id service k r h =
    let written : State = record s {
      agent_safes = set a (record safe { master_safe = service.master_safe }) s.agent_safes;
    } in
    ground (arith, track_agent_safe-Keeps written a id service k r h)

pub get_or_create_agent_safe-Keeps :
    (s : State) (a : Address) (id : ℕ) (service : Service) (m : Meta)
    → Keeps s (get_or_create_agent_safe s a id service m)
unfolding get_or_create_agent_safe
get_or_create_agent_safe-Keeps s a id service m k r h = elim (Option-cases (get a s.agent_safes)) [
  | inl new ↦ rw (new, get_or_create_agent_safe) (track_agent_safe-Keeps _ a id service k r h)
  | inr (safe, old) ↦
      rw (old, get_or_create_agent_safe) (link_late_agent_safe-Keeps s a safe id service k r h)
]

pub deploy_master_safe-Keeps :
    (s : State) (a : Address) (cfg : SafeConfig) (m : Meta) → Keeps s (deploy_master_safe s a cfg m)
unfolding deploy_master_safe
deploy_master_safe-Keeps s a cfg m k r h =
    let written : State = record s {
      master_safes = set a (new_master_safe cfg m) s.master_safes;
      movements = set (safe_deployed_id a) (safe_deployed_row a m) s.movements;
    } in
    let s1 = upsert_tracked written a Role.master (some a) none in
    let kept = upsert_tracked-Keeps written a Role.master (some a) none k r h in
    ground
      (arith, kept, upsert_tracked-Keeps s1 cfg.first_owner Role.master_eoa (some a) none k r kept)

pub get_or_create_master_safe-Keeps :
    (chain : Chain) (s : State) (a : Address) (m : Meta)
    → Keeps s (get_or_create_master_safe chain s a m).1
unfolding get_or_create_master_safe
get_or_create_master_safe-Keeps chain s a m k r h = elim (Option-cases (get a s.master_safes)) [
  | inr (ms, old) ↦ rw (old, get_or_create_master_safe) h
  | inl new ↦ elim (Option-cases (chain.safe_config a m.block_number)) [
    | inl no_safe ↦ rw (new, no_safe, get_or_create_master_safe) h
    | inr (cfg, safe) ↦
        rw (new, safe, get_or_create_master_safe) (deploy_master_safe-Keeps s a cfg m k r h)
  ]
]

pub get_or_create_service-same :
    (s : State) (id : ℕ) (m : Meta) → (get_or_create_service s id m).1.tracked ≡ s.tracked
unfolding get_or_create_service
get_or_create_service-same s id m = ground arith
