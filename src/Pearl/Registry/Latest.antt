-- ===== src/Pearl/Registry/Latest.antt =====
-- squids/pearl-transactions/src/handlers.ts, `linkAgentInstance`: the link that stays does not depend
-- on the order in which registrations are linked.
use autonolas_subgraph.Prelude.{
  ℕ, ◌≡◌, refl, sym, ◌∙◌, ◌||◌, true, Option, none, some, arith, ◌==◌, if◌then◌else◌, Option-cases,
  Bool-cases, inl, inr,
}
use autonolas_subgraph.Prelude.Equality.{nat_eq}
use autonolas_subgraph.Prelude.Table.{get, get-set}
use autonolas_subgraph.Pearl.Model.{Address}
use autonolas_subgraph.Pearl.State.{State, AgentInstance}
use autonolas_subgraph.Pearl.Registry.{
  LogPosition, is_after, is_later_link, position_of, link_agent_instance,
}

abbrev link_row : ℕ → LogPosition → AgentInstance
link_row service p = record {
  service = service;
  updated_block = p.block;
  updated_log_index = p.log_index;
}

-- The link that stays of a link that may be there and a new one.
abbrev later : Option AgentInstance → ℕ → LogPosition → AgentInstance
later none service p = link_row service p
later (some a) service p = if is_after (position_of a) p then a else link_row service p

link-later :
    (s : State) (signer : Address) (service : ℕ) (p : LogPosition) (k : Address)
    → get k (link_agent_instance s signer service p).agent_instances ≡ (
        if signer == k
        then some (later (get signer s.agent_instances) service p)
        else get k s.agent_instances)
unfolding link_agent_instance is_later_link
link-later s signer service p k =
    let kept = get-set signer k (link_row service p) s.agent_instances in
    elim (Option-cases (get signer s.agent_instances)) [
      | inl new ↦ rw (new, link_agent_instance) kept
      | inr (a, old) ↦ elim (Bool-cases (is_after (position_of a) p)) [
        | inl after ↦ rw (old, after, link_agent_instance) (ground arith)
        | inr before ↦ rw (old, before, link_agent_instance) kept
      ]
    ]

later-commutes :
    (o : Option AgentInstance) (x y : ℕ) (p q : LogPosition)
    → (is_after p q || is_after q p) ≡ true
    → later (some (later o x p)) y q ≡ later (some (later o y q)) x p
unfolding is_after position_of
later-commutes none x y p q apart = ground arith
later-commutes (some a) x y p q apart = ground arith

link-here :
    (s : State) (signer : Address) (service : ℕ) (p : LogPosition)
    → get signer (link_agent_instance s signer service p).agent_instances
      ≡ some (later (get signer s.agent_instances) service p)
link-here s signer service p = ground (arith, link-later s signer service p signer)

link-twice :
    (s : State) (signer : Address) (x y : ℕ) (p q : LogPosition) (k : Address)
    → get k (link_agent_instance (link_agent_instance s signer x p) signer y q).agent_instances ≡ (
        if signer == k
        then some (later (some (later (get signer s.agent_instances) x p)) y q)
        else get k s.agent_instances)
link-twice s signer x y p q k =
    let s' = link_agent_instance s signer x p in
    link-later s' signer y q k ∙ rw link-here (ground (arith, link-later s signer x p k))

-- Two registrations of a signer at different positions of the chain leave every signer with the same
-- link, whichever is linked first: a buffered one is linked when it is drained, after later ones.
pub link_agent_instance-commutes :
    (s : State) (signer : Address) (x y : ℕ) (p q : LogPosition) (k : Address)
    → (is_after p q || is_after q p) ≡ true
    → get k (link_agent_instance (link_agent_instance s signer x p) signer y q).agent_instances
      ≡ get k (link_agent_instance (link_agent_instance s signer y q) signer x p).agent_instances
link_agent_instance-commutes s signer x y p q k apart =
    let same = later-commutes (get signer s.agent_instances) x y p q apart in
    link-twice s signer x y p q k ∙ rw same refl ∙ sym (link-twice s signer y x q p k)
