-- ===== src/Services/Counts/Updates.antt =====
-- squids/service-registry/src/handlers.ts: an execution and a registration keep the counts.
use autonolas_subgraph.Prelude.{ℕ, ◌+◌, ◌≡◌, refl, ap, ◌∙◌, Option, Option-cases, inl, inr}
use autonolas_subgraph.Prelude.Int.{pos, int_laws, pos_suc}
use autonolas_subgraph.Prelude.Equality.{nat_eq, pair_eq}
use autonolas_subgraph.Prelude.Table.{Table, get, set, value_at, sum_by-add, get-set_self}
use autonolas_subgraph.Prelude.Groups.{one, IsGrouped, total-IsGrouped, link-IsGrouped}
use autonolas_subgraph.Services.State.{
  Address, Meta, Multisig, Global, DailyCount, DailyServiceActivity, DailyActiveMultisig, Activity,
  day_of, or_new,
}
use autonolas_subgraph.Services.Activity.{
  update_unique_operators, update_daily_activity, update_daily_unique_agents,
  update_daily_agent_performance, update_daily_active_multisigs, update_global_metrics, execute,
  or_count,
}
use autonolas_subgraph.Services.Counts.{count_of, AreCounted, count-same}
use autonolas_subgraph.Services.Counts.Agents.{unique-AreCounted, perform_all-AreCounted}

-- The tables are the same ones, and the number of operators.
same-AreCounted :
    (s : Activity) (totals : Option Global) (day : Table (ℕ × ℕ) DailyServiceActivity)
    → (or_new totals).total_operators ≡ (or_new s.totals).total_operators
    → AreCounted s
    → AreCounted (record s { totals = totals; daily_activity = day })
same-AreCounted s totals day same h = record {
  operators = ap pos same ∙ h.operators;
  unique_agents = h.unique_agents;
  active_multisigs = h.active_multisigs;
  performed_multisigs = h.performed_multisigs;
  transactions = h.transactions;
}

-- The day's row of active multisigs, with a link and one more, or as it was.
active-AreCounted :
    (s : Activity) (days : Table ℕ DailyCount) (active : Table (ℕ × Address) DailyActiveMultisig)
    → IsGrouped count_of (λ (k : ℕ × Address). k.0) one days active
    → AreCounted s
    → AreCounted (record s { active_multisigs = days; active_links = active })
active-AreCounted s days active grouped h = record {
  operators = h.operators;
  unique_agents = h.unique_agents;
  active_multisigs = grouped;
  performed_multisigs = h.performed_multisigs;
  transactions = h.transactions;
}

multisigs-AreCounted :
    (s : Activity) (m : Meta) (multisig : Address)
    → AreCounted s
    → AreCounted (update_daily_active_multisigs s m multisig)
unfolding value_at update_daily_active_multisigs
multisigs-AreCounted s m multisig h =
    let day = day_of m.block_timestamp in
    let daily = or_count (get day s.active_multisigs) day in
    let days = set day daily s.active_multisigs in
    let grouped =
      total-IsGrouped count_of (λ (k : ℕ × Address). k.0) one s.active_multisigs s.active_links day
        daily (count-same (get day s.active_multisigs) day) h.active_multisigs in
    elim (Option-cases (get (day, multisig) s.active_links)) [
      | inl new ↦
          rw (new, update_daily_active_multisigs)
            (active-AreCounted s _ _
              (link-IsGrouped count_of (λ (k : ℕ × Address). k.0) days s.active_links
                (day, multisig) _ (record daily { count = daily.count + 1 }) new
                (rw (get-set_self day daily s.active_multisigs) (pos_suc daily.count)) grouped)
              h)
      | inr (_, linked) ↦
          rw (linked, update_daily_active_multisigs)
            (active-AreCounted s days s.active_links grouped h)
    ]

pub operators-AreCounted :
    (s : Activity) (operator : Address)
    → AreCounted s
    → AreCounted (update_unique_operators s operator)
unfolding value_at update_unique_operators
operators-AreCounted s operator h = elim (Option-cases (get operator s.operators)) [
  | inl new ↦
      rw (new, update_unique_operators)
        (record {
          operators =
              pos_suc (or_new s.totals).total_operators
              ∙ sum_by-add one operator _ s.operators _ (pos 1) (rw new (omega int_laws))
                  h.operators;
          unique_agents = h.unique_agents;
          active_multisigs = h.active_multisigs;
          performed_multisigs = h.performed_multisigs;
          transactions = h.transactions;
        })
  | inr (_, old) ↦ rw (old, update_unique_operators) h
]

pub execute-AreCounted :
    (s : Activity) (service : ℕ) (m : Meta) (multisig : Address) (v : Multisig)
    → AreCounted s
    → AreCounted (execute s service m multisig v)
unfolding execute update_daily_activity update_daily_agent_performance update_global_metrics
execute-AreCounted s service m multisig v h =
    let s1 = update_daily_activity s service m v in
    let s2 = update_daily_unique_agents s1 m v in
    let s3 = update_daily_agent_performance s2 m multisig v in
    let s4 = update_daily_active_multisigs s3 m multisig in
    let h1 = same-AreCounted s s.totals s1.daily_activity refl h in
    let h2 = unique-AreCounted s1 m v h1 in
    let h3 = perform_all-AreCounted s2 (day_of m.block_timestamp) multisig v.agent_ids h2 in
    let h4 = multisigs-AreCounted s3 m multisig h3 in
    same-AreCounted s4 (update_global_metrics s4 m).totals s4.daily_activity refl h4
