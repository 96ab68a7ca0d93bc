-- ===== src/Services/Counts/Agents.antt =====
-- squids/service-registry/src/handlers.ts: the loop over the agents of a multisig, day by day.
use autonolas_subgraph.Prelude.{
  ℕ, ◌+◌, ◌≡◌, subst, refl, sym, ap, ◌∙◌, Option, none, some, List, [], ◌∷◌, arith, Option-cases,
  inl, inr,
}
use autonolas_subgraph.Prelude.Int.{pos, ◌+ℤ◌, int_laws, pos_suc}
use autonolas_subgraph.Prelude.Equality.{nat_eq, pair_eq}
use autonolas_subgraph.Prelude.Table.{get, set, value_at, get-set_self}
use autonolas_subgraph.Prelude.Groups.{
  one, set-IsGrouped, total-IsGrouped, row-IsGrouped, link-IsGrouped,
}
use autonolas_subgraph.Services.State.{
  Address, Meta, Multisig, AgentPerformance, DailyCount, DailyAgentPerformance, DailyAgentMultisig,
  Activity, day_of,
}
use autonolas_subgraph.Services.Activity.{
  get_or_create_agent_performance, count_unique_agent, count_unique_agents,
  update_daily_unique_agents, link_multisig, count_transaction, perform, perform_all, or_count,
  or_performance, or_daily_performance,
}
use autonolas_subgraph.Services.Counts.{
  AreCounted, performance-same, count-same, performance-AreCounted, unique_agents-AreCounted,
  unique_link-AreCounted,
}

-- The row that the loop holds is the stored one.
record IsCounting (day : ℕ) (r : Activity × DailyCount) : Type 0 where
  pub counted : AreCounted r.0
  pub held : get day r.0.unique_agents ≡ some r.1

count_one-IsCounting :
    (s : Activity) (day : ℕ) (daily : DailyCount) (agent : ℕ)
    → IsCounting day (s, daily)
    → IsCounting day (count_unique_agent s day daily agent)
unfolding count_unique_agent get_or_create_agent_performance value_at
count_one-IsCounting s day daily agent h = elim (Option-cases (get (day, agent) s.unique_links)) [
  | inl new ↦
      let s' = get_or_create_agent_performance s agent in
      rw (new, count_unique_agent)
        (record {
          counted =
              unique_link-AreCounted s' day agent _ (record daily { count = daily.count + 1 }) new
                (rw (h.held) (pos_suc daily.count)) (performance-AreCounted s agent h.counted);
          held = get-set_self day _ s.unique_agents;
        })
  | inr (_, old) ↦
      rw (old, count_unique_agent)
        (record { counted = performance-AreCounted s agent h.counted; held = h.held })
]

count_agents-AreCounted :
    (s : Activity) (day : ℕ) (daily : DailyCount) (agents : List ℕ)
    → IsCounting day (s, daily)
    → AreCounted (count_unique_agents s day daily agents)
unfolding count_unique_agents
count_agents-AreCounted s day daily [] h = h.counted
count_agents-AreCounted s day daily (agent ∷ agents) h =
    count_agents-AreCounted (count_unique_agent s day daily agent).0 day
      (count_unique_agent s day daily agent).1 agents (count_one-IsCounting s day daily agent h)

pub unique-AreCounted :
    (s : Activity) (m : Meta) (v : Multisig)
    → AreCounted s
    → AreCounted (update_daily_unique_agents s m v)
unfolding update_daily_unique_agents
unique-AreCounted s m v h =
    let day = day_of m.block_timestamp in
    let daily = or_count (get day s.unique_agents) day in
    count_agents-AreCounted (record s { unique_agents = set day daily s.unique_agents }) day daily
      v.agent_ids
      (record {
        counted = unique_agents-AreCounted s day daily (count-same (get day s.unique_agents) day) h;
        held = get-set_self day daily s.unique_agents;
      })

-- A performance of the day is written with one transaction more, and the agent's with it.
transaction-AreCounted :
    (s : Activity) (day agent : ℕ) (perf : DailyAgentPerformance) (a : AgentPerformance)
    → pos perf.tx_count
      ≡ value_at (λ d. pos d.tx_count) (get (day, agent) s.daily_performances) +ℤ pos 1
    → pos perf.active_multisig_count
      ≡ value_at (λ d. pos d.active_multisig_count) (get (day, agent) s.daily_performances)
    → pos a.tx_count ≡ value_at (λ x. pos x.tx_count) (get agent s.performances) +ℤ pos 1
    → AreCounted s
    → AreCounted (record s {
      daily_performances = set (day, agent) perf s.daily_performances;
      performances = set agent a s.performances;
    })
transaction-AreCounted s day agent perf a more same more_agent h = record {
  operators = h.operators;
  unique_agents = h.unique_agents;
  active_multisigs = h.active_multisigs;
  performed_multisigs =
      total-IsGrouped (λ d. pos d.active_multisig_count) (λ (k : (ℕ × ℕ) × Address). k.0) one
        s.daily_performances s.performance_links (day, agent) perf same h.performed_multisigs;
  transactions =
      set-IsGrouped (λ x. pos x.tx_count) (λ (k : ℕ × ℕ). k.1) (λ d. pos d.tx_count) s.performances
        s.daily_performances (day, agent) perf a (pos 1) more more_agent h.transactions;
}

-- A multisig is linked to a performance, which is written with one multisig more.
linked-AreCounted :
    (s : Activity) (id : ℕ × ℕ) (multisig : Address) (link : DailyAgentMultisig)
    (perf : DailyAgentPerformance)
    → get (id, multisig) s.performance_links ≡ none
    → pos perf.active_multisig_count
      ≡ value_at (λ d. pos d.active_multisig_count) (get id s.daily_performances) +ℤ pos 1
    → pos perf.tx_count ≡ value_at (λ d. pos d.tx_count) (get id s.daily_performances)
    → AreCounted s
    → AreCounted (record s {
      performance_links = set (id, multisig) link s.performance_links;
      daily_performances = set id perf s.daily_performances;
    })
linked-AreCounted s id multisig link perf new more same h = record {
  operators = h.operators;
  unique_agents = h.unique_agents;
  active_multisigs = h.active_multisigs;
  performed_multisigs =
      link-IsGrouped (λ d. pos d.active_multisig_count) (λ (k : (ℕ × ℕ) × Address). k.0)
        s.daily_performances s.performance_links (id, multisig) link perf new more
        h.performed_multisigs;
  transactions =
      row-IsGrouped (λ x. pos x.tx_count) (λ (k : ℕ × ℕ). k.1) (λ d. pos d.tx_count) s.performances
        s.daily_performances id perf same h.transactions;
}

daily-counts :
    (o : Option DailyAgentPerformance) (day agent : ℕ)
    → (pos ((or_daily_performance o day agent).tx_count + 1)
        ≡ value_at (λ d. pos d.tx_count) o +ℤ pos 1)
      × (pos (or_daily_performance o day agent).active_multisig_count
          ≡ value_at (λ d. pos d.active_multisig_count) o)
unfolding value_at
daily-counts none day agent = (omega int_laws, refl)
daily-counts (some d) day agent = (omega int_laws, refl)

agent-count :
    (o : Option AgentPerformance)
    → pos ((or_performance o).tx_count + 1) ≡ value_at (λ x. pos x.tx_count) o +ℤ pos 1
agent-count o = pos_suc (or_performance o).tx_count ∙ ap (λ x. x +ℤ pos 1) (performance-same o)

module _ (s : Activity) (id : ℕ × ℕ) (perf : DailyAgentPerformance) (multisig : Address) where
  link-new :
      get (id, multisig) s.performance_links ≡ none
      → link_multisig s id perf multisig ≡ record s {
        performance_links =
            set
              (id, multisig)
              (record { daily_agent_performance = id; multisig = multisig })
              s.performance_links;
        daily_performances =
            set id
              (record perf { active_multisig_count = perf.active_multisig_count + 1 })
              s.daily_performances;
      }
  unfolding link_multisig
  link-new new = ground arith

  link-old :
      {link : DailyAgentMultisig}
      → get (id, multisig) s.performance_links ≡ some link
      → link_multisig s id perf multisig ≡ s
  unfolding link_multisig
  link-old old = ground arith

perform-AreCounted :
    (s : Activity) (day : ℕ) (multisig : Address) (agent : ℕ)
    → AreCounted s
    → AreCounted (perform s day multisig agent)
unfolding perform count_transaction value_at
perform-AreCounted s day multisig agent h =
    let o = get (day, agent) s.daily_performances in
    let old = or_daily_performance o day agent in
    let perf : DailyAgentPerformance = record old { tx_count = old.tx_count + 1 } in
    let a : AgentPerformance = record {
      tx_count = (or_performance (get agent s.performances)).tx_count + 1;
    } in
    let s1 : Activity = record s {
      daily_performances = set (day, agent) perf s.daily_performances;
    } in
    let s' : Activity = record s {
      daily_performances = set (day, agent) perf s.daily_performances;
      performances = set agent a s.performances;
    } in
    let counted =
      transaction-AreCounted s day agent perf a (daily-counts o day agent).0
        (daily-counts o day agent).1 (agent-count (get agent s.performances)) h in
    let held = get-set_self (day, agent) perf s.daily_performances in
    elim (Option-cases (get ((day, agent), multisig) s.performance_links)) [
      | inl new ↦
          subst (λ x. AreCounted (count_transaction x agent))
            (sym (link-new s1 (day, agent) perf multisig new))
            (linked-AreCounted s' (day, agent) multisig _
              (record perf { active_multisig_count = perf.active_multisig_count + 1 }) new
              (rw held (pos_suc perf.active_multisig_count)) (rw held refl) counted)
      | inr (_, linked) ↦
          subst (λ x. AreCounted (count_transaction x agent))
            (sym (link-old s1 (day, agent) perf multisig linked)) counted
    ]

pub perform_all-AreCounted :
    (s : Activity) (day : ℕ) (multisig : Address) (agents : List ℕ)
    → AreCounted s
    → AreCounted (perform_all s day multisig agents)
unfolding perform_all
perform_all-AreCounted s day multisig [] h = h
perform_all-AreCounted s day multisig (agent ∷ agents) h =
    perform_all-AreCounted (perform s day multisig agent) day multisig agents
      (perform-AreCounted s day multisig agent h)
