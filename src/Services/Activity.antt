-- ===== src/Services/Activity.antt =====
-- squids/service-registry/src/handlers.ts: what one execution of a multisig adds to the day's rows, to
-- the performance of its agents and to the squid's totals.
use autonolas_subgraph.Prelude.{ℕ, ◌+◌, Option, none, some, List, [], ◌∷◌}
use autonolas_subgraph.Prelude.Equality.{nat_eq, pair_eq}
use autonolas_subgraph.Prelude.Table.{get, set}
use autonolas_subgraph.Services.State.{
  Address, Meta, Multisig, AgentPerformance, DailyServiceActivity, DailyCount,
  DailyAgentPerformance, Activity, day_of, or_new,
}

abbrev pub or_performance : Option AgentPerformance → AgentPerformance
or_performance none = record { tx_count = 0 }
or_performance (some a) = a

unfoldable pub get_or_create_agent_performance : Activity → ℕ → Activity
get_or_create_agent_performance s agent = record s {
  performances = set agent (or_performance (get agent s.performances)) s.performances;
}

unfoldable pub update_unique_operators : Activity → Address → Activity
update_unique_operators s operator = elim (get operator s.operators) [
  | some _ ↦ s
  | none ↦ record s {
    operators = set operator (record { id = operator }) s.operators;
    totals = let g = or_new s.totals in some (record g { total_operators = g.total_operators + 1 });
  }
]

abbrev pub or_daily_activity : Option DailyServiceActivity → ℕ → ℕ → DailyServiceActivity
or_daily_activity none service day = record {
  service = service;
  day_timestamp = day;
  agent_ids = [];
}
or_daily_activity (some row) service day = row

unfoldable pub update_daily_activity : Activity → ℕ → Meta → Multisig → Activity
update_daily_activity s service m v =
    let day = day_of m.block_timestamp in
    let row = or_daily_activity (get (day, service) s.daily_activity) service day in
    record s {
      daily_activity = set (day, service) (record row { agent_ids = v.agent_ids }) s.daily_activity;
    }

abbrev pub or_count : Option DailyCount → ℕ → DailyCount
or_count none day = record { day_timestamp = day; count = 0 }
or_count (some daily) day = daily

-- One turn of the loop over the agents, with the day's row.
unfoldable pub count_unique_agent : Activity → ℕ → DailyCount → ℕ → Activity × DailyCount
count_unique_agent s day daily agent =
    let s' = get_or_create_agent_performance s agent in
    elim (get (day, agent) s'.unique_links) [
      | some _ ↦ (s', daily)
      | none ↦
          let counted : DailyCount = record daily { count = daily.count + 1 } in
          (
            record s' {
              unique_links =
                  set (day, agent) (record { daily_unique_agents = day; agent = agent })
                    s'.unique_links;
              unique_agents = set day counted s'.unique_agents;
            },
            counted,
          )
    ]

unfoldable pub count_unique_agents : Activity → ℕ → DailyCount → List ℕ → Activity
count_unique_agents s day daily [] = s
count_unique_agents s day daily (agent ∷ agents) =
    let (s', daily') = count_unique_agent s day daily agent in
    count_unique_agents s' day daily' agents

unfoldable pub update_daily_unique_agents : Activity → Meta → Multisig → Activity
update_daily_unique_agents s m v =
    let day = day_of m.block_timestamp in
    let daily = or_count (get day s.unique_agents) day in
    count_unique_agents (record s { unique_agents = set day daily s.unique_agents }) day daily
      v.agent_ids

abbrev pub or_daily_performance : Option DailyAgentPerformance → ℕ → ℕ → DailyAgentPerformance
or_daily_performance none day agent = record {
  day_timestamp = day;
  agent_id = agent;
  tx_count = 0;
  active_multisig_count = 0;
}
or_daily_performance (some perf) day agent = perf

-- The multisig is counted at its first execution of the day for the agent.
unfoldable pub link_multisig : Activity → ℕ × ℕ → DailyAgentPerformance → Address → Activity
link_multisig s id perf multisig = elim (get (id, multisig) s.performance_links) [
  | some _ ↦ s
  | none ↦ record s {
    performance_links =
        set (id, multisig) (record { daily_agent_performance = id; multisig = multisig })
          s.performance_links;
    daily_performances =
        set id (record perf { active_multisig_count = perf.active_multisig_count + 1 })
          s.daily_performances;
  }
]

unfoldable pub count_transaction : Activity → ℕ → Activity
count_transaction s agent =
    let a = or_performance (get agent s.performances) in
    record s { performances = set agent (record a { tx_count = a.tx_count + 1 }) s.performances }

unfoldable pub perform : Activity → ℕ → Address → ℕ → Activity
perform s day multisig agent =
    let old = or_daily_performance (get (day, agent) s.daily_performances) day agent in
    let perf : DailyAgentPerformance = record old { tx_count = old.tx_count + 1 } in
    count_transaction
      (link_multisig (record s { daily_performances = set (day, agent) perf s.daily_performances })
        (day, agent) perf multisig)
      agent

unfoldable pub perform_all : Activity → ℕ → Address → List ℕ → Activity
perform_all s day multisig [] = s
perform_all s day multisig (agent ∷ agents) =
    perform_all (perform s day multisig agent) day multisig agents

unfoldable pub update_daily_agent_performance : Activity → Meta → Address → Multisig → Activity
update_daily_agent_performance s m multisig v =
    perform_all s (day_of m.block_timestamp) multisig v.agent_ids

unfoldable pub update_daily_active_multisigs : Activity → Meta → Address → Activity
update_daily_active_multisigs s m multisig =
    let day = day_of m.block_timestamp in
    let daily = or_count (get day s.active_multisigs) day in
    let s' : Activity = record s { active_multisigs = set day daily s.active_multisigs } in
    elim (get (day, multisig) s'.active_links) [
      | some _ ↦ s'
      | none ↦ record s' {
        active_links =
            set (day, multisig) (record { daily_active_multisigs = day; multisig = multisig })
              s'.active_links;
        active_multisigs = set day (record daily { count = daily.count + 1 }) s'.active_multisigs;
      }
    ]

unfoldable pub update_global_metrics : Activity → Meta → Activity
update_global_metrics s m = record s {
  totals =
      let g = or_new s.totals in
      some (record g { tx_count = g.tx_count + 1; last_updated = m.block_timestamp });
}

-- The five updates of `handleSafeExecution`, in its order.
unfoldable pub execute : Activity → ℕ → Meta → Address → Multisig → Activity
execute s service m multisig v =
    let s1 = update_daily_activity s service m v in
    let s2 = update_daily_unique_agents s1 m v in
    let s3 = update_daily_agent_performance s2 m multisig v in
    let s4 = update_daily_active_multisigs s3 m multisig in update_global_metrics s4 m
