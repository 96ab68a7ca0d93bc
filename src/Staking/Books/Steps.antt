-- ===== src/Staking/Books/Steps.antt =====
-- squids/staking/src/handlers.ts: the steps of the handlers keep the books.
use autonolas_subgraph.Prelude.{
  ℕ, ◌+◌, ◌≡◌, refl, sym, ◌∙◌, subst, ap, Bool, true, false, Option, some, arith, Option-cases, inl,
  inr, if◌then◌else◌,
}
use autonolas_subgraph.Prelude.Int.{pos, int_laws, add_zero}
use autonolas_subgraph.Prelude.Equality.{nat_eq, pair_eq}
use autonolas_subgraph.Prelude.Result.{ok, >>=-eq-ok, ok-injective}
use autonolas_subgraph.Prelude.Table.{Table, get, set, get-set_self, value_at}
use autonolas_subgraph.Staking.State.{
  Meta, Service, Global, ServiceRewardsHistory, HistoryId, State,
}
use autonolas_subgraph.Staking.History.{history_id, get_or_create_history}
use autonolas_subgraph.Staking.Handlers.{is_missing}
use autonolas_subgraph.Staking.Checkpoint.{write_history, earn}
use autonolas_subgraph.Staking.Books.{AreBooks, set-AreBooks, history-AreOwned}

-- A service is written and no total moves.
pub same-AreBooks :
    (totals : Option Global) (services : Table ℕ Service)
    (histories : Table HistoryId ServiceRewardsHistory) (id : ℕ) (v w : Service) (due : ℕ)
    → get id services ≡ some v
    → w.current_olas_staked ≡ v.current_olas_staked
    → w.olas_rewards_claimed ≡ v.olas_rewards_claimed
    → w.olas_rewards_earned ≡ v.olas_rewards_earned
    → AreBooks totals services histories due
    → AreBooks totals (set id w services) histories due
unfolding value_at
same-AreBooks totals services histories id v w due found staked claimed earned h =
    set-AreBooks totals totals services histories id w due due (pos 0) (pos 0) (pos 0) h h.flow
      (sym (add_zero _)) (sym (add_zero _)) (sym (add_zero _))
      (rw found (staked ∙ sym (add_zero _))) (rw found (ap pos claimed ∙ sym (add_zero _)))
      (rw found (ap pos earned ∙ sym (add_zero _)))

-- A history that is given belongs to a service that is stored.
pub get_or_create_history-AreBooks :
    (s : State) (m : Meta) (id epoch : ℕ) (totals : Option Global) (due : ℕ)
    (history : ServiceRewardsHistory) (services : Table ℕ Service)
    → get_or_create_history s m id epoch ≡ ok (history, services)
    → AreBooks totals s.services s.histories due
    → (is_missing (get id services) ≡ false) × AreBooks totals services s.histories due
unfolding get_or_create_history
get_or_create_history-AreBooks s m id epoch totals due history services returned h =
    elim (Option-cases (get (history_id m id epoch) s.histories)) [
      | inr (old, found) ↦
          let same : s.services ≡ services = ground arith in
          subst (λ t. (is_missing (get id t) ≡ false) × AreBooks totals t s.histories due) same
            (h.owned (history_id m id epoch) (ground arith), h)
      | inl new ↦ elim (Option-cases (get id s.services)) [
        | inl unknown ↦ absurd (ground arith)
        | inr (row, found) ↦
            let row' : Service = record row {
              total_epochs_participated = row.total_epochs_participated + 1;
            } in
            let same : set id row' s.services ≡ services = ground arith in
            subst (λ t. (is_missing (get id t) ≡ false) × AreBooks totals t s.histories due) same
              (
                rw (get-set_self id row' s.services) refl,
                same-AreBooks totals s.services s.histories id row row' due found refl refl refl h,
              )
      ]
    ]

-- A history is written for a service that is stored.
pub history-AreBooks :
    (totals : Option Global) (services : Table ℕ Service)
    (histories : Table HistoryId ServiceRewardsHistory) (k : HistoryId)
    (row : ServiceRewardsHistory) (due : ℕ)
    → is_missing (get k.0 services) ≡ false
    → AreBooks totals services histories due
    → AreBooks totals services (set k row histories) due
history-AreBooks totals services histories k row due there h = record {
  owned = history-AreOwned histories services k row there h.owned;
  staked_by_services = h.staked_by_services;
  flow = h.flow;
  claimed_by_services = h.claimed_by_services;
  earned_by_services = h.earned_by_services;
}

pub write_history-AreBooks :
    (s s' : State) (m : Meta) (id epoch reward due : ℕ)
    → write_history s m id epoch reward ≡ ok s'
    → AreBooks s.totals s.services s.histories due
    → AreBooks s'.totals s'.services s'.histories due
unfolding write_history
write_history-AreBooks s s' m id epoch reward due returned h =
    let ((history, services), given, rest) =
      >>=-eq-ok (get_or_create_history s m id epoch) _ returned in
    let (there, books) =
      get_or_create_history-AreBooks s m id epoch s.totals due history services given h in
    subst (λ t. AreBooks t.totals t.services t.histories due) (ok-injective rest)
      (history-AreBooks s.totals services s.histories (history_id m id epoch) _ due there books)

-- A service that is known earns a reward.
earn-AreBooks :
    (totals : Option Global) (services : Table ℕ Service)
    (histories : Table HistoryId ServiceRewardsHistory) (id reward due : ℕ)
    → is_missing (get id services) ≡ false
    → AreBooks totals services histories due
    → AreBooks totals (earn true services id reward) histories (due + reward)
unfolding earn value_at
earn-AreBooks totals services histories id reward due there h =
    elim (Option-cases (get id services)) [
      | inl unknown ↦ absurd (ground arith)
      | inr (row, found) ↦
          rw (found, earn)
            (set-AreBooks totals totals services histories id
              (record row { olas_rewards_earned = row.olas_rewards_earned + reward }) due
              (due + reward) (pos 0) (pos 0) (pos reward) h h.flow (sym (add_zero _))
              (sym (add_zero _)) (omega int_laws) (rw found (sym (add_zero _)))
              (rw found (sym (add_zero _))) (rw found (omega int_laws)))
    ]

-- What a reward adds to the totals.
abbrev pub gain : Bool → ℕ → ℕ
gain is_olas reward = if is_olas then reward else 0

idle-AreBooks :
    (totals : Option Global) (services : Table ℕ Service)
    (histories : Table HistoryId ServiceRewardsHistory) (id reward due : ℕ)
    → AreBooks totals services histories due
    → AreBooks totals (earn false services id reward) histories (due + 0)
unfolding earn
idle-AreBooks totals services histories id reward due h =
    let none_due : due + 0 ≡ due = omega arith in
    elim (Option-cases (get id services)) [
      | inl unknown ↦ rw (none_due, unknown, earn) h
      | inr (row, found) ↦ rw (none_due, found, earn) h
    ]

-- A round of the rewards that returns is about a service that is known.
pub write_history-known :
    (s s' : State) (m : Meta) (id epoch reward due : ℕ)
    → write_history s m id epoch reward ≡ ok s'
    → AreBooks s.totals s.services s.histories due
    → is_missing (get id s.services) ≡ false
unfolding write_history get_or_create_history
write_history-known s s' m id epoch reward due returned h =
    elim (Option-cases (get (history_id m id epoch) s.histories)) [
      | inr (old, found) ↦ h.owned (history_id m id epoch) (ground arith)
      | inl new ↦ elim (Option-cases (get id s.services)) [
        | inl unknown ↦ absurd (ground arith)
        | inr (row, found) ↦ ground arith
      ]
    ]

pub reward-AreBooks :
    (is_olas : Bool) (s : State) (id reward due : ℕ)
    → is_missing (get id s.services) ≡ false
    → AreBooks s.totals s.services s.histories due
    → AreBooks s.totals (earn is_olas s.services id reward) s.histories (due + gain is_olas reward)
reward-AreBooks true s id reward due there h =
    earn-AreBooks s.totals s.services s.histories id reward due there h
reward-AreBooks false s id reward due there h =
    idle-AreBooks s.totals s.services s.histories id reward due h
