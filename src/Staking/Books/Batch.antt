-- ===== src/Staking/Books/Batch.antt =====
-- squids/staking/src/handlers.ts, dispatch.ts and main.ts: a batch of logs keeps the books.
use autonolas_subgraph.Prelude.{
  ℕ, ◌+◌, ◌≡◌, refl, sym, ◌∙◌, subst, ap, Bool, true, false, not, ◌&&◌, Option, none, some, List,
  [], ◌∷◌, arith, Option-cases, Bool-cases, inl, inr, if◌then◌else◌, ◌==◌,
}
use autonolas_subgraph.Prelude.Int.{ℤ, pos, ◌+ℤ◌, ◌-ℤ◌, int_laws, add_zero}
use autonolas_subgraph.Prelude.Equality.{nat_eq, pair_eq}
use autonolas_subgraph.Prelude.Result.{Result, ok, ◌>>=◌, >>=-eq-ok, ok-injective}
use autonolas_subgraph.Prelude.Table.{Table, get, set, value_at}
use autonolas_subgraph.Staking.State.{
  Meta, Service, Global, ServiceRewardsHistory, HistoryId, StakingContract, StakingParams, State,
  Error, or_new, get_or_create_global, event_id,
}
use autonolas_subgraph.Staking.History.{
  history_id, get_or_create_history, create_reward_update, record_rewards_claimed,
}
use autonolas_subgraph.Staking.Handlers.{
  is_missing, staking_row, new_service, or_service, staked_service, track, stake, unstake,
  handle_service_staked, claim, handle_reward_claimed, stake_amount, unstaked_service, release,
  unstaked_log, settle_unstaked, handle_service_unstaked,
}
use autonolas_subgraph.Staking.Events.{Chain, Event, handle, create_instance, dispatch, run}
use autonolas_subgraph.Staking.Books.{AreBooks, IsBooked, set-AreBooks}
use autonolas_subgraph.Staking.Books.Steps.{get_or_create_history-AreBooks, history-AreBooks}
use autonolas_subgraph.Staking.Books.Rewards.{checkpoint-IsBooked}

-- A column of a service that may be new, and is 0 then.
or_zero :
    (f : Service → ℤ) (o : Option Service) (new : Service)
    → f new ≡ pos 0
    → f (or_service o new) ≡ value_at f o
unfolding value_at
or_zero f none new zero = zero
or_zero f (some v) new zero = refl

-- A service that stakes `amount` more.
stake-AreBooks :
    (totals : Option Global) (services : Table ℕ Service)
    (histories : Table HistoryId ServiceRewardsHistory) (m : Meta) (id : ℕ) (is_olas : Bool)
    (amount : ℤ)
    → AreBooks totals services histories 0
    → AreBooks
        (some (stake (or_new totals) amount))
        (set id
          (staked_service (or_service (get id services) (new_service m)) m.address is_olas amount)
          services)
        histories
        0
unfolding stake staked_service new_service value_at
stake-AreBooks totals services histories m id is_olas amount h =
    let row = or_service (get id services) (new_service m) in
    let column = λ (f : Service → ℤ) (zero : f (new_service m) ≡ pos 0).
      or_zero f (get id services) (new_service m) zero in
    set-AreBooks totals (some (stake (or_new totals) amount)) services histories id
      (staked_service row m.address is_olas amount) 0 0 amount (pos 0) (pos 0) h
      (omega (int_laws, h.flow)) refl (sym (add_zero _)) (sym (add_zero _))
      (ap (λ x. x +ℤ amount) (column (λ w. w.current_olas_staked) refl))
      (column (λ w. pos w.olas_rewards_claimed) refl ∙ sym (add_zero _))
      (column (λ w. pos w.olas_rewards_earned) refl ∙ sym (add_zero _))

staked-IsBooked :
    (s s' : State) (m : Meta) (contract : StakingContract) (p : StakingParams) (locked : ℕ)
    → handle_service_staked s m contract p locked ≡ ok s'
    → IsBooked s
    → IsBooked s'
unfolding handle_service_staked
staked-IsBooked s s' m contract p locked returned h =
    let amount = if contract.is_olas_staking then pos locked else pos 0 in
    let service =
      staked_service (or_service (get p.service_id s.services) (new_service m)) m.address
        contract.is_olas_staking amount in
    let staked : State = record s {
      staked_rows = set (event_id m) (staking_row m p) s.staked_rows;
      services = set p.service_id service s.services;
      trackers =
          set (m.address, p.epoch)
            (track m p.epoch p.service_id (get (m.address, p.epoch) s.trackers)) s.trackers;
    } in
    let totals = some (stake (get_or_create_global s) amount) in
    let ((history, services), given, rest) =
      >>=-eq-ok (get_or_create_history staked m p.service_id p.epoch) _ returned in
    let (there, books) =
      get_or_create_history-AreBooks staked m p.service_id p.epoch totals 0 history services given (
        stake-AreBooks s.totals s.services s.histories m p.service_id contract.is_olas_staking
          amount h) in
    subst IsBooked (ok-injective rest) (
      history-AreBooks totals services s.histories (history_id m p.service_id p.epoch) history 0
        there books)

claim-IsBooked :
    (s : State) (m : Meta) (id : ℕ) (v : Service) (reward : ℕ)
    → get id s.services ≡ some v
    → IsBooked s
    → IsBooked (claim s m id v reward)
unfolding claim create_reward_update record_rewards_claimed value_at
claim-IsBooked s m id v reward found h =
    set-AreBooks s.totals _ s.services s.histories id
      (record v { olas_rewards_claimed = v.olas_rewards_claimed + reward }) 0 0 (pos 0) (pos reward)
      (pos 0) h h.flow (sym (add_zero _)) (omega int_laws) (sym (add_zero _))
      (rw found (sym (add_zero _))) (rw found (omega int_laws)) (rw found (sym (add_zero _)))

claimed-IsBooked :
    (s s' : State) (m : Meta) (contract : StakingContract) (p : StakingParams)
    → handle_reward_claimed s m contract p ≡ ok s'
    → IsBooked s
    → IsBooked s'
unfolding handle_reward_claimed
claimed-IsBooked s s' m contract p returned h =
    let logged : State = record s {
      claimed_rows = set (event_id m) (staking_row m p) s.claimed_rows;
    } in
    elim (Bool-cases contract.is_olas_staking) [
      | inr other ↦
          let same : Path (Result Error State) (ok logged) (ok s') = ground arith in
          subst IsBooked (ok-injective same) h
      | inl olas ↦ elim (Option-cases (get p.service_id s.services)) [
        | inl unknown ↦ absurd (ground arith)
        | inr (v, found) ↦
            let done : Path (Result Error State) (ok (claim logged m p.service_id v p.reward))
                (ok s') =
              ground arith in
            subst IsBooked (ok-injective done)
              (claim-IsBooked logged m p.service_id v p.reward found h)
      ]
    ]

-- What an unstaked service was paid.
abbrev paid_out : Bool → ℕ → ℕ
paid_out paid reward = if paid then reward else 0

-- The totals after a payment is counted.
abbrev pay : Global → ℕ → Global
pay g reward = record g { total_rewards_claimed = g.total_rewards_claimed + reward }

paid_more :
    (paid : Bool) (n reward : ℕ)
    → pos (if paid then n + reward else n) ≡ pos n +ℤ pos (paid_out paid reward)
paid_more true n reward = omega int_laws
paid_more false n reward = omega int_laws

contradiction : {b : Bool} → b ≡ false → b ≡ true → ⊥
contradiction h g = ground arith

-- A service that releases its stake.
release-AreBooks :
    (totals : Option Global) (services : Table ℕ Service)
    (histories : Table HistoryId ServiceRewardsHistory) (id reward : ℕ) (paid : Bool)
    → (paid ≡ true → is_missing (get id services) ≡ false)
    → AreBooks totals services histories 0
    → AreBooks
        (some
          (pay (unstake (or_new totals) (stake_amount (get id services))) (paid_out paid reward)))
        (release services id paid reward)
        histories
        0
unfolding release unstake unstaked_service value_at
release-AreBooks totals services histories id reward paid there h =
    elim (Option-cases (get id services)) [
      | inl unknown ↦ elim (Bool-cases paid) [
        | inl given ↦ absurd (contradiction (there given) (rw unknown refl))
        | inr not_paid ↦
            rw (unknown, release)
              (rw not_paid (record {
                owned = h.owned;
                staked_by_services = omega (int_laws, h.staked_by_services);
                flow = omega (int_laws, h.flow);
                claimed_by_services = ap pos (omega arith) ∙ h.claimed_by_services;
                earned_by_services = h.earned_by_services;
              }))
      ]
      | inr (v, found) ↦
          rw (found, release)
            (set-AreBooks totals
              (some (pay (unstake (or_new totals) v.current_stake_amount) (paid_out paid reward)))
              services histories id (unstaked_service v paid reward) 0 0
              (pos 0 -ℤ v.current_stake_amount) (pos (paid_out paid reward)) (pos 0) h
              (omega (int_laws, h.flow)) (omega int_laws) (omega int_laws) (sym (add_zero _))
              (rw found (omega int_laws)) (rw found (paid_more paid v.olas_rewards_claimed reward))
              (rw found (sym (add_zero _))))
    ]

settle_unstaked-IsBooked :
    (t : State) (m : Meta) (g : Global) (paid : Bool) (reward : ℕ)
    → t.totals ≡ some g
    → AreBooks (some (pay g (paid_out paid reward))) t.services t.histories 0
    → IsBooked (settle_unstaked t m paid reward)
unfolding settle_unstaked create_reward_update record_rewards_claimed
settle_unstaked-IsBooked t m g true reward at h = rw at h
settle_unstaked-IsBooked t m g false reward at h = rw at (record {
  owned = h.owned;
  staked_by_services = h.staked_by_services;
  flow = h.flow;
  claimed_by_services = ap pos (omega arith) ∙ h.claimed_by_services;
  earned_by_services = h.earned_by_services;
})

unstaked-IsBooked :
    (s s' : State) (m : Meta) (contract : StakingContract) (p : StakingParams) (forced : Bool)
    → handle_service_unstaked s m contract p forced ≡ ok s'
    → IsBooked s
    → IsBooked s'
unfolding handle_service_unstaked unstaked_log
unstaked-IsBooked s s' m contract p forced returned h =
    let paid = not forced && contract.is_olas_staking in
    let amount = stake_amount (get p.service_id s.services) in
    let g = unstake (get_or_create_global s) amount in
    let released : State = record (unstaked_log s m p forced) {
      services = release s.services p.service_id paid p.reward;
    } in
    elim (Bool-cases (contract.is_olas_staking && is_missing (get p.service_id s.services))) [
      | inl missing ↦ absurd (ground arith)
      | inr there ↦
          let write : ServiceRewardsHistory × Table ℕ Service → Result Error State =
            λ (history, services). ok (
              settle_unstaked
                (record released {
                  services = services;
                  histories =
                      set (history_id m p.service_id p.epoch)
                        (record history { reward_amount = p.reward }) released.histories;
                  totals = some g;
                })
                m paid p.reward) in
          let body : (get_or_create_history released m p.service_id p.epoch >>= write) ≡ ok s' =
            ground arith in
          let ((history, services), given, rest) =
            >>=-eq-ok (get_or_create_history released m p.service_id p.epoch) write body in
          let totals = some (pay g (paid_out paid p.reward)) in
          let books : AreBooks totals released.services released.histories 0 =
            release-AreBooks s.totals s.services s.histories p.service_id p.reward paid
              (λ given. ground arith) h in
          let (known, kept) =
            get_or_create_history-AreBooks released m p.service_id p.epoch totals 0 history services
              given books in
          subst IsBooked (ok-injective rest) (
            settle_unstaked-IsBooked _ m g paid p.reward refl (
              history-AreBooks totals services released.histories
                (history_id m p.service_id p.epoch) _ 0 known kept))
    ]

module _ (chain : Chain) where
  handle-IsBooked :
      (s s' : State) (m : Meta) (contract : StakingContract) (e : Event)
      → handle chain s m contract e ≡ ok s'
      → IsBooked s
      → IsBooked s'
  unfolding handle
  handle-IsBooked s s' m contract (Event.instance_created instance) returned h =
      subst IsBooked (ok-injective returned) h
  handle-IsBooked s s' m contract (Event.service_staked p) returned h =
      staked-IsBooked s s' m contract p _ returned h
  handle-IsBooked s s' m contract (Event.reward_claimed p) returned h =
      claimed-IsBooked s s' m contract p returned h
  handle-IsBooked s s' m contract (Event.service_unstaked p) returned h =
      unstaked-IsBooked s s' m contract p false returned h
  handle-IsBooked s s' m contract (Event.service_force_unstaked p) returned h =
      unstaked-IsBooked s s' m contract p true returned h
  handle-IsBooked s s' m contract (Event.checkpoint p) returned h =
      checkpoint-IsBooked s s' m contract p returned h

  create_instance-IsBooked :
      (s : State) (m : Meta) (e : Event) → IsBooked s → IsBooked (create_instance chain s m e)
  unfolding create_instance
  create_instance-IsBooked s m (Event.instance_created instance) h = h
  create_instance-IsBooked s m (Event.service_staked p) h = h
  create_instance-IsBooked s m (Event.reward_claimed p) h = h
  create_instance-IsBooked s m (Event.service_unstaked p) h = h
  create_instance-IsBooked s m (Event.service_force_unstaked p) h = h
  create_instance-IsBooked s m (Event.checkpoint p) h = h

  dispatch-IsBooked :
      (s s' : State) (m : Meta) (e : Event)
      → dispatch chain s m e ≡ ok s'
      → IsBooked s
      → IsBooked s'
  unfolding dispatch
  dispatch-IsBooked s s' m e returned h = elim (Bool-cases (m.address == chain.staking_factory)) [
    | inl factory ↦
        let same : Path (Result Error State) (ok (create_instance chain s m e)) (ok s') =
          ground arith in
        subst IsBooked (ok-injective same) (create_instance-IsBooked s m e h)
    | inr proxy ↦ elim (Option-cases (get m.address s.contracts)) [
      | inl foreign ↦
          let same : Path (Result Error State) (ok s) (ok s') = ground arith in
          subst IsBooked (ok-injective same) h
      | inr (contract, known) ↦ elim (Bool-cases contract.events_indexed) [
        | inl indexed ↦ handle-IsBooked s s' m contract e (ground arith) h
        | inr silent ↦
            let same : Path (Result Error State) (ok s) (ok s') = ground arith in
            subst IsBooked (ok-injective same) h
      ]
    ]
  ]

  -- A batch of logs that runs to its end keeps the books: where every service with a history is stored,
  -- the OLAS that is staked is the sum over the services and what was ever staked less what was ever
  -- unstaked, and the rewards that are claimed and that are earned are the sums over the services, all
  -- this holds after the batch too.
  pub run-AreBooks :
      (logs : List (Meta × Event)) (s s' : State)
      → run chain logs s ≡ ok s'
      → AreBooks s.totals s.services s.histories 0
      → AreBooks s'.totals s'.services s'.histories 0
  unfolding run
  run-AreBooks [] s s' returned h = subst IsBooked (ok-injective returned) h
  run-AreBooks ((m, e) ∷ logs) s s' returned h =
      let (next, given, rest) = >>=-eq-ok (dispatch chain s m e) (run chain logs) returned in
      run-AreBooks logs next s' rest (dispatch-IsBooked s next m e given h)
