-- ===== src/Services/Tests.antt =====
-- squids/service-registry: three candidates; a block with a Safe that executes before it is registered.
use autonolas_subgraph.Prelude.{
  ℕ, ◌≤◌, ◌≡◌, refl, Option, none, some, List, [], ◌∷◌, ◌==◌, if◌then◌else◌, arith,
}
use autonolas_subgraph.Prelude.Int.{pos}
use autonolas_subgraph.Prelude.Equality.{nat_eq, pair_eq}
use autonolas_subgraph.Prelude.Table.{get, set, value_at, sum_by}
use autonolas_subgraph.Prelude.Groups.{sum_of}
use autonolas_subgraph.Services.{most_recent_agent_id, search}
use autonolas_subgraph.Services.State.{Meta, State, or_new}
use autonolas_subgraph.Services.Activity.{
  execute, update_daily_activity, update_daily_unique_agents, count_unique_agents,
  count_unique_agent, get_or_create_agent_performance, update_daily_agent_performance, perform_all,
  perform, link_multisig, count_transaction, update_daily_active_multisigs, update_global_metrics,
  update_unique_operators,
}
use autonolas_subgraph.Services.Registry.{
  Texts, handle_create_service, handle_register_instance, handle_create_multisig, create_multisig,
  agents_of, push_unique,
}
use autonolas_subgraph.Services.Events.{
  RegistryEvent, Event, registry, safe_execution, has_row, after_create, handle_safe_execution,
  note_multisig, park, safe_log, handle_parked, end_block, handle, handle_logs, handle_block, run,
}
use autonolas_subgraph.Services.Templates.{template_run, AreKnown}
use autonolas_subgraph.Services.Templates.Run.{run-template}
use autonolas_subgraph.Services.Counts.{AreCounted}
use autonolas_subgraph.Services.Counts.Batch.{run-AreCounted}
use autonolas_subgraph.Services.Recent.{most_recent_agent_id-latest}

abbrev registered : ℕ → Option ℕ
registered id =
    if id == 3 then some 10 else if id == 4 then some 20 else if id == 5 then some 99 else none

most_recent_agent_id-latest_example :
    (w : ℕ) × (u : ℕ) × (most_recent_agent_id registered 50 (3 ∷ 4 ∷ 5 ∷ []) ≡ pos w)
    × (registered w ≡ some u)
    × (10 ≤ u)
    × (u ≤ 50)
most_recent_agent_id-latest_example =
    most_recent_agent_id-latest registered 50 (3 ∷ 4 ∷ 5 ∷ []) 3 10 refl refl (omega arith)
      (omega arith)

abbrev texts : Texts
texts = record {
  ecosystem_key = 1;
  ecosystem_value = 2;
  service_registry_key = 3;
  of_number = λ n. n;
  bytes_to_utf8 = λ n. n;
}

abbrev empty : State
empty = record {
  registry = record {
    services = [];
    multisigs = [];
    creators = [];
    registrations = [];
    erc8004_agents = [];
    metadata = [];
    known = [];
  };
  activity = record {
    totals = none;
    operators = [];
    performances = [];
    daily_activity = [];
    unique_agents = [];
    unique_links = [];
    daily_performances = [];
    performance_links = [];
    active_multisigs = [];
    active_links = [];
  };
}

abbrev at : ℕ → Meta
at n = record { block_number = 9; block_timestamp = 86405; tx_hash = n; log_index = n }

-- The Safe 70 executes once before its registration in the block and once after it; 71 is not ours.
abbrev block : List (Meta × Event)
block =
    (at 1, registry (RegistryEvent.create_service 5 11))
    ∷ (at 2, registry (RegistryEvent.register_instance 8 5 33))
    ∷ (at 3, safe_execution 70)
    ∷ (at 4, Event.create_multisig 5 70 6)
    ∷ (at 5, safe_execution 71)
    ∷ (at 6, safe_execution 70)
    ∷ []

both_executions_count : (or_new (run texts empty (block ∷ [])).activity.totals).tx_count ≡ 2
unfolding run handle_block end_block handle_logs handle handle_parked safe_log park note_multisig
    has_row after_create handle_safe_execution handle_create_service handle_register_instance
    handle_create_multisig create_multisig agents_of execute update_daily_activity
    update_daily_unique_agents count_unique_agents count_unique_agent
    get_or_create_agent_performance update_daily_agent_performance perform_all perform link_multisig
    count_transaction update_daily_active_multisigs update_global_metrics update_unique_operators
    push_unique get set most_recent_agent_id search
both_executions_count = refl

empty-AreKnown : AreKnown empty
unfolding has_row get
empty-AreKnown a row = absurd (ground arith)

run-template_example :
    run texts empty (block ∷ block ∷ []) ≡ template_run texts empty (block ∷ block ∷ [])
run-template_example = run-template texts empty (block ∷ block ∷ []) empty-AreKnown

empty-AreCounted : AreCounted empty.activity
unfolding get value_at sum_by sum_of
empty-AreCounted = record {
  operators = refl;
  unique_agents = λ g. refl;
  active_multisigs = λ g. refl;
  performed_multisigs = λ g. refl;
  transactions = λ g. refl;
}

run-AreCounted_example : AreCounted (run texts empty (block ∷ [])).activity
run-AreCounted_example = run-AreCounted texts empty (block ∷ []) empty-AreCounted
