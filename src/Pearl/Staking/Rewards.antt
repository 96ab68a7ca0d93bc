-- ===== src/Pearl/Staking/Rewards.antt =====
-- squids/pearl-transactions/src/handlers.ts: the OLAS rewards of a service, in total and by day.
use autonolas_subgraph.Prelude.{
  ℕ, ◌+◌, ◌≡◌, refl, sym, ◌∙◌, Bool, true, false, Option, none, some, [], ◌∷◌, arith, ◌==◌,
  if◌then◌else◌, ltb, Option-cases, Bool-cases, inl, inr,
}
use autonolas_subgraph.Prelude.Equality.{nat_eq, pair_eq, pair_same, pair_same_iff}
use autonolas_subgraph.Prelude.Table.{Table, get, set, get-set, get-set_self}
use autonolas_subgraph.Pearl.Model.{Category, Meta}
use autonolas_subgraph.Pearl.State.{State, Chain, Service, ServiceState, DailyServiceFunds}
use autonolas_subgraph.Pearl.Safes.{get_or_create_service, set_service, new_service}
use autonolas_subgraph.Pearl.Staking.{
  Reward, day_timestamp, or_daily, add_daily_olas_reward, staking_reward_row, reward_row,
  handle_reward_claimed, handle_any_unstake,
}

abbrev pub total_of : Option Service → ℕ
total_of none = 0
total_of (some service) = service.total_olas_rewards_claimed

abbrev pub daily_of : Option DailyServiceFunds → ℕ
daily_of none = 0
daily_of (some d) = d.olas_rewards_claimed

-- The rewards of all days of one service.
unfoldable pub sum_for : ℕ → Table (ℕ × ℕ) DailyServiceFunds → ℕ
sum_for id [] = 0
sum_for id ((k, d) ∷ t) = (if k.0 == id then d.olas_rewards_claimed else 0) + sum_for id t

-- The total of a service is the sum of its days.
abbrev pub IsBooked : State → ℕ → Type 0
IsBooked s id = total_of (get id s.services) ≡ sum_for id s.daily_funds

sum_for-set :
    (id : ℕ) (k : ℕ × ℕ) (d : DailyServiceFunds) (t : Table (ℕ × ℕ) DailyServiceFunds)
    → sum_for id (set k d t) + (if k.0 == id then daily_of (get k t) else 0)
      ≡ sum_for id t + (if k.0 == id then d.olas_rewards_claimed else 0)
unfolding sum_for get set
sum_for-set id k d [] = ground arith
sum_for-set id k d ((j, e) ∷ t) = elim (Bool-cases (pair_same nat_eq nat_eq j k)) [
  | inl here ↦
      let at : j ≡ k = (pair_same_iff nat_eq nat_eq j k).0 here in rw here (rw at (ground arith))
  | inr there ↦ rw there (ground (arith, sum_for-set id k d t))
]

rewards-or_daily :
    (o : Option DailyServiceFunds) (total : ℕ)
    → (or_daily o total).olas_rewards_claimed ≡ daily_of o
unfolding or_daily
rewards-or_daily none total = refl
rewards-or_daily (some d) total = refl

-- The service that is written back has the amount on top of its total.
add_daily-IsBooked :
    (s : State) (id : ℕ) (service service' : Service) (amount time i : ℕ)
    → total_of (get id s.services) ≡ service.total_olas_rewards_claimed
    → service'.total_olas_rewards_claimed ≡ service.total_olas_rewards_claimed + amount
    → IsBooked s i
    → IsBooked (set_service (add_daily_olas_reward s id service amount time).1 id service') i
unfolding add_daily_olas_reward set_service
add_daily-IsBooked s id service service' amount time i old grown booked =
    let day = day_timestamp time in
    let was = get (id, day) s.daily_funds in
    let total = service.total_olas_rewards_claimed in
    let row : DailyServiceFunds = record {
      olas_rewards_claimed = (or_daily was total).olas_rewards_claimed + amount;
      cumulative_olas_rewards_claimed = total + amount;
    } in
    let paid : Service = record service { total_olas_rewards_claimed = total + amount } in
    let summed = sum_for-set i (id, day) row s.daily_funds in
    let first = get-set id i paid s.services in
    let second = get-set id i service' (set id paid s.services) in
    elim (Bool-cases (id == i)) [
      | inl own ↦
          let at : id ≡ i = ground arith in
          rw second (rw own (ground (arith, summed, rewards-or_daily was total, at)))
      | inr other ↦ rw (second, first) (rw other (ground (arith, summed)))
    ]

-- Looking a service up gives its total, and a new service starts at 0.
created-IsBooked :
    (s : State) (id : ℕ) (m : Meta) (i : ℕ)
    → let (service, s') = get_or_create_service s id m in
      (total_of (get id s'.services) ≡ service.total_olas_rewards_claimed)
      × (IsBooked s i → IsBooked s' i)
unfolding get_or_create_service
created-IsBooked s id m i = elim (Option-cases (get id s.services)) [
  | inl new ↦
      rw (new, get_or_create_service)
        (rw get-set_self refl, λ booked. ground (arith, get-set id i (new_service m) s.services))
  | inr (service, old) ↦ rw (old, get_or_create_service) (rw old refl, λ booked. booked)
]

-- Writing a service back with its total as it was.
same_total-IsBooked :
    (s : State) (id : ℕ) (service : Service) (i : ℕ)
    → total_of (get id s.services) ≡ service.total_olas_rewards_claimed
    → IsBooked s i
    → IsBooked (set_service s id service) i
unfolding set_service
same_total-IsBooked s id service i same booked = ground (arith, get-set id i service s.services)

-- A reward is booked or, where there is none, left out, and the service is written back.
abbrev book_reward : Bool → State → ℕ → Service → ℕ → ℕ → Service × State
book_reward b s id service amount time =
    if b then add_daily_olas_reward s id service amount time else (service, s)

book_reward-IsBooked :
    (b : Bool) (s : State) (id : ℕ) (service : Service) (amount time i : ℕ)
    (changed : Service → Service)
    → ((v : Service) → (changed v).total_olas_rewards_claimed ≡ v.total_olas_rewards_claimed)
    → total_of (get id s.services) ≡ service.total_olas_rewards_claimed
    → IsBooked s i
    → let (paid, s') = book_reward b s id service amount time in
      IsBooked (set_service s' id (changed paid)) i
unfolding add_daily_olas_reward
book_reward-IsBooked true s id service amount time i changed keeps known booked =
    let paid = (add_daily_olas_reward s id service amount time).0 in
    add_daily-IsBooked s id service (changed paid) amount time i known (keeps paid) booked
book_reward-IsBooked false s id service amount time i changed keeps known booked =
    same_total-IsBooked s id (changed service) i (known ∙ sym (keeps service)) booked

-- The total of a service is the sum of its daily rewards, and a claim and an unstake (a forced one
-- too) of any service keep it so, whether they pay a reward or not.
pub rewards-IsBooked :
    (chain : Chain) (s : State) (m : Meta) (e : Reward) (i : ℕ)
    → IsBooked s i
    → IsBooked (handle_reward_claimed chain s m e) i × IsBooked (handle_any_unstake chain s m e) i
unfolding handle_reward_claimed handle_any_unstake reward_row staking_reward_row
rewards-IsBooked chain s m e i booked =
    let (service, s1) = get_or_create_service s e.service_id m in
    let (known, kept) = created-IsBooked s e.service_id m i in
    (
      book_reward-IsBooked true (reward_row chain s1 m e service Category.staking_reward_claim)
          e.service_id service e.reward m.block_timestamp i
          (λ v. record v { updated_timestamp = m.block_timestamp }) (λ v. refl) known (kept booked),
      book_reward-IsBooked (ltb 0 e.reward)
          (reward_row chain s1 m e service Category.unstake_reward) e.service_id service e.reward
          m.block_timestamp i
          (λ v. record v {
            state = ServiceState.unstaked;
            current_staking_contract = none;
            updated_timestamp = m.block_timestamp;
          })
          (λ v. refl) known (kept booked),
    )
