-- ===== src/Staking/Books.antt =====
-- squids/staking/src/handlers.ts: the totals of the squid against the rows of the services.
pub mod Steps
pub mod Rewards
pub mod Batch
use autonolas_subgraph.Prelude.{
  ℕ, ◌+◌, ◌≡◌, refl, sym, ◌∙◌, Bool, false, Option, none, some, arith, Option-cases, Bool-cases,
  inl, inr, subst, if◌then◌else◌, true,
}
use autonolas_subgraph.Prelude.Int.{ℤ, pos, ◌+ℤ◌, ◌-ℤ◌, int_laws, add_zero}
use autonolas_subgraph.Prelude.Equality.{nat_eq, pair_eq}
use autonolas_subgraph.Prelude.Table.{Table, get, set, get-set, sum_by, value_at, sum_by-add}
use autonolas_subgraph.Staking.State.{
  Service, Global, ServiceRewardsHistory, HistoryId, State, or_new,
}
use autonolas_subgraph.Staking.Handlers.{is_missing}

-- A service with a history is stored.
abbrev pub AreOwned : Table HistoryId ServiceRewardsHistory → Table ℕ Service → Type 0
AreOwned histories services =
    (k : HistoryId) → is_missing (get k histories) ≡ false → is_missing (get k.0 services) ≡ false

-- The squid's totals, with rewards of `due` still to be added, are the sums over the services: of what
-- they stake, of what they have claimed and of what they have earned. What is staked is what was ever
-- staked less what was ever unstaked.
pub record AreBooks (totals : Option Global) (services : Table ℕ Service)
    (histories : Table HistoryId ServiceRewardsHistory) (due : ℕ) : Type 0 where
  pub owned : AreOwned histories services
  pub staked_by_services :
      (or_new totals).current_olas_staked ≡ sum_by (λ v. v.current_olas_staked) services
  pub flow :
      (or_new totals).current_olas_staked +ℤ (or_new totals).cumulative_olas_unstaked
      ≡ (or_new totals).cumulative_olas_staked
  pub claimed_by_services :
      pos (or_new totals).total_rewards_claimed ≡ sum_by (λ v. pos v.olas_rewards_claimed) services
  pub earned_by_services :
      pos ((or_new totals).total_rewards + due) ≡ sum_by (λ v. pos v.olas_rewards_earned) services

abbrev pub IsBooked : State → Type 0
IsBooked s = AreBooks s.totals s.services s.histories 0

-- A service that is there stays.
pub set-AreOwned :
    (histories : Table HistoryId ServiceRewardsHistory) (services : Table ℕ Service) (id : ℕ)
    (v : Service)
    → AreOwned histories services
    → AreOwned histories (set id v services)
set-AreOwned histories services id v h k held =
    ground (arith, get-set id k.0 v services, h k held, nat_eq.same_iff id k.0)

pub history-AreOwned :
    (histories : Table HistoryId ServiceRewardsHistory) (services : Table ℕ Service) (k : HistoryId)
    (row : ServiceRewardsHistory)
    → is_missing (get k.0 services) ≡ false
    → AreOwned histories services
    → AreOwned (set k row histories) services
history-AreOwned histories services k row there h j held = elim (Bool-cases (pair_eq.same k j)) [
  | inl here ↦
      subst (λ (x : HistoryId). is_missing (get x.0 services) ≡ false)
        ((pair_eq.same_iff k j).0 here) there
  | inr other ↦
      h j (subst (λ o. is_missing o ≡ false) (get-set k j row histories ∙ rw other refl) held)
]

-- One service is written, and the totals move with its columns.
module _ (totals totals' : Option Global) (services : Table ℕ Service)
    (histories : Table HistoryId ServiceRewardsHistory) (id : ℕ) (v : Service) (due due' : ℕ)
    (staked claimed earned : ℤ) where
  pub set-AreBooks :
      AreBooks totals services histories due
      → (or_new totals').current_olas_staked +ℤ (or_new totals').cumulative_olas_unstaked
        ≡ (or_new totals').cumulative_olas_staked
      → (or_new totals').current_olas_staked ≡ (or_new totals).current_olas_staked +ℤ staked
      → pos (or_new totals').total_rewards_claimed
        ≡ pos (or_new totals).total_rewards_claimed +ℤ claimed
      → pos ((or_new totals').total_rewards + due')
        ≡ pos ((or_new totals).total_rewards + due) +ℤ earned
      → v.current_olas_staked ≡ value_at (λ w. w.current_olas_staked) (get id services) +ℤ staked
      → pos v.olas_rewards_claimed
        ≡ value_at (λ w. pos w.olas_rewards_claimed) (get id services) +ℤ claimed
      → pos v.olas_rewards_earned
        ≡ value_at (λ w. pos w.olas_rewards_earned) (get id services) +ℤ earned
      → AreBooks totals' (set id v services) histories due'
  set-AreBooks h flow more_staked more_claimed more_earned row_staked row_claimed row_earned =
      record {
        owned = set-AreOwned histories services id v h.owned;
        flow = flow;
        staked_by_services =
            more_staked
            ∙ sum_by-add (λ w. w.current_olas_staked) id v services _ staked row_staked
                h.staked_by_services;
        claimed_by_services =
            more_claimed
            ∙ sum_by-add (λ w. pos w.olas_rewards_claimed) id v services _ claimed row_claimed
                h.claimed_by_services;
        earned_by_services =
            more_earned
            ∙ sum_by-add (λ w. pos w.olas_rewards_earned) id v services _ earned row_earned
                h.earned_by_services;
      }
