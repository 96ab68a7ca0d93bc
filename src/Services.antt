-- ===== src/Services.antt =====
-- squids/service-registry/src/logic.ts: the agent that a multisig is deployed for.
pub mod Recent
pub mod State
pub mod Activity
pub mod Registry
pub mod Events
pub mod Templates
pub mod Counts
mod Tests
use autonolas_subgraph.Prelude.{
  ℕ, ◌&&◌, Option, none, some, List, [], ◌∷◌, Bool, false, leb, ltb, if◌then◌else◌,
}
use autonolas_subgraph.Prelude.Int.{ℤ, pos, neg_ℤ}

abbrev pub qualifies : Option ℕ → ℕ → ℕ → Bool
qualifies none deployment best_ts = false
qualifies (some ts) deployment best_ts = leb ts deployment && ltb best_ts ts

abbrev pub time_or : Option ℕ → ℕ → ℕ
time_or none other = other
time_or (some ts) other = ts

module _ (registration_ts : ℕ → Option ℕ) (deployment : ℕ) where
  -- The loop over the candidates, with the best so far and its time.
  unfoldable pub search : List ℕ → ℤ → ℕ → ℤ × ℕ
  search [] best best_ts = (best, best_ts)
  search (id ∷ ids) best best_ts =
      let better = qualifies (registration_ts id) deployment best_ts in
      search ids (if better then pos id else best)
        (if better then time_or (registration_ts id) best_ts else best_ts)

  -- -1 where no registration qualifies.
  unfoldable pub most_recent_agent_id : List ℕ → ℤ
  most_recent_agent_id ids = (search ids (neg_ℤ (pos 1)) 0).0
