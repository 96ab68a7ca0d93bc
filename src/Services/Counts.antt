-- ===== src/Services/Counts.antt =====
-- squids/service-registry/src/handlers.ts: the counts of the squid against the rows that they count.
pub mod Agents
pub mod Updates
pub mod Batch
use autonolas_subgraph.Prelude.{
  ℕ, ◌+◌, ◌≡◌, refl, sym, ap, ◌∙◌, Bool, Option, none, some, List, [], ◌∷◌, arith, Option-cases,
  inl, inr,
}
use autonolas_subgraph.Prelude.Int.{ℤ, pos, ◌+ℤ◌, int_laws, add_zero, pos_suc}
use autonolas_subgraph.Prelude.Equality.{nat_eq, pair_eq}
use autonolas_subgraph.Prelude.Table.{Table, get, set, sum_by, value_at, sum_by-add, get-set_self}
use autonolas_subgraph.Prelude.Groups.{
  one, IsGrouped, set-IsGrouped, total-IsGrouped, row-IsGrouped, link-IsGrouped,
}
use autonolas_subgraph.Services.State.{
  Address, Meta, Multisig, Operator, AgentPerformance, DailyCount, DailyUniqueAgent,
  DailyAgentPerformance, DailyAgentMultisig, DailyActiveMultisig, Activity, State, day_of, or_new,
}
use autonolas_subgraph.Services.Activity.{
  get_or_create_agent_performance, update_unique_operators, update_daily_activity,
  count_unique_agent, count_unique_agents, update_daily_unique_agents, link_multisig,
  count_transaction, perform, perform_all, update_daily_agent_performance,
  update_daily_active_multisigs, update_global_metrics, execute, or_count, or_performance,
  or_daily_performance,
}

abbrev pub count_of : DailyCount → ℤ
count_of d = pos d.count

-- The squid's number of operators is that of their rows; a day's number of agents, and of multisigs, is
-- that of its links; the multisigs of an agent's day are as many as its links; and an agent's
-- transactions are the sum over its days.
pub record AreCounted (s : Activity) : Type 0 where
  pub operators : pos (or_new s.totals).total_operators ≡ sum_by one s.operators
  pub unique_agents : IsGrouped count_of (λ (k : ℕ × ℕ). k.0) one s.unique_agents s.unique_links
  pub active_multisigs :
      IsGrouped count_of (λ (k : ℕ × Address). k.0) one s.active_multisigs s.active_links
  pub performed_multisigs :
      IsGrouped
        (λ d. pos d.active_multisig_count)
        (λ (k : (ℕ × ℕ) × Address). k.0)
        one
        s.daily_performances
        s.performance_links
  pub transactions :
      IsGrouped
        (λ a. pos a.tx_count)
        (λ (k : ℕ × ℕ). k.1)
        (λ d. pos d.tx_count)
        s.performances
        s.daily_performances

pub performance-same :
    (o : Option AgentPerformance)
    → pos (or_performance o).tx_count ≡ value_at (λ a. pos a.tx_count) o
unfolding value_at
performance-same none = refl
performance-same (some a) = refl

pub count-same : (o : Option DailyCount) (day : ℕ) → count_of (or_count o day) ≡ value_at count_of o
unfolding value_at
count-same none day = refl
count-same (some d) day = refl

-- A performance that is created counts nothing.
pub performance-AreCounted :
    (s : Activity) (agent : ℕ) → AreCounted s → AreCounted (get_or_create_agent_performance s agent)
unfolding get_or_create_agent_performance
performance-AreCounted s agent h = record {
  operators = h.operators;
  unique_agents = h.unique_agents;
  active_multisigs = h.active_multisigs;
  performed_multisigs = h.performed_multisigs;
  transactions =
      total-IsGrouped (λ a. pos a.tx_count) (λ (k : ℕ × ℕ). k.1) (λ d. pos d.tx_count)
        s.performances s.daily_performances agent (or_performance (get agent s.performances))
        (performance-same (get agent s.performances)) h.transactions;
}

-- Another set of the day's row.
pub unique_agents-AreCounted :
    (s : Activity) (day : ℕ) (daily : DailyCount)
    → count_of daily ≡ value_at count_of (get day s.unique_agents)
    → AreCounted s
    → AreCounted (record s { unique_agents = set day daily s.unique_agents })
unique_agents-AreCounted s day daily same h = record {
  operators = h.operators;
  unique_agents =
      total-IsGrouped count_of (λ (k : ℕ × ℕ). k.0) one s.unique_agents s.unique_links day daily
        same h.unique_agents;
  active_multisigs = h.active_multisigs;
  performed_multisigs = h.performed_multisigs;
  transactions = h.transactions;
}

pub unique_link-AreCounted :
    (s : Activity) (day agent : ℕ) (link : DailyUniqueAgent) (daily : DailyCount)
    → get (day, agent) s.unique_links ≡ none
    → count_of daily ≡ value_at count_of (get day s.unique_agents) +ℤ pos 1
    → AreCounted s
    → AreCounted (record s {
      unique_links = set (day, agent) link s.unique_links;
      unique_agents = set day daily s.unique_agents;
    })
unique_link-AreCounted s day agent link daily new more h = record {
  operators = h.operators;
  unique_agents =
      link-IsGrouped count_of (λ (k : ℕ × ℕ). k.0) s.unique_agents s.unique_links (day, agent) link
        daily new more h.unique_agents;
  active_multisigs = h.active_multisigs;
  performed_multisigs = h.performed_multisigs;
  transactions = h.transactions;
}
