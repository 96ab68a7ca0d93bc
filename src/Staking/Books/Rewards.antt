-- ===== src/Staking/Books/Rewards.antt =====
-- squids/staking/src/handlers.ts, `handleCheckpoint`: its loops keep the books.
use autonolas_subgraph.Prelude.{
  ℕ, ◌+◌, ◌≡◌, refl, ◌∙◌, subst, ap, Bool, true, false, Option, none, some, List, [], ◌∷◌, arith,
  Option-cases, Bool-cases, inl, inr, if◌then◌else◌, length, ◌==◌,
}
use autonolas_subgraph.Prelude.Int.{pos}
use autonolas_subgraph.Prelude.Equality.{nat_eq, pair_eq}
use autonolas_subgraph.Prelude.Result.{ok, ◌>>=◌, >>=-eq-ok, ok-injective}
use autonolas_subgraph.Prelude.Table.{get, set}
use autonolas_subgraph.Staking.State.{
  Meta, ActiveServiceEpoch, StakingContract, CheckpointParams, State, event_id,
}
use autonolas_subgraph.Staking.History.{create_reward_update}
use autonolas_subgraph.Staking.Handlers.{is_missing, has}
use autonolas_subgraph.Staking.Checkpoint.{
  zip, write_history, earn, reward_all, total_of, moved_on, idle_all, roll_over, count_rewards,
  checkpoint_row, handle_checkpoint,
}
use autonolas_subgraph.Staking.Books.{AreBooks, IsBooked}
use autonolas_subgraph.Staking.Books.Steps.{
  gain, write_history-AreBooks, write_history-known, reward-AreBooks,
}

abbrev Keeps : State → State → ℕ → ℕ → Type 0
Keeps s s' due due' =
    AreBooks s.totals s.services s.histories due → AreBooks s'.totals s'.services s'.histories due'

round-AreBooks :
    (is_olas : Bool) (s s' : State) (m : Meta) (epoch id reward due : ℕ)
    → write_history (record s { services = earn is_olas s.services id reward }) m id epoch reward
      ≡ ok s'
    → Keeps s s' due (due + gain is_olas reward)
unfolding earn
round-AreBooks is_olas s s' m epoch id reward due returned h =
    let known : is_missing (get id s.services) ≡ false = elim (Option-cases (get id s.services)) [
      | inr (row, found) ↦ ground arith
      | inl unknown ↦
          write_history-known s s' m id epoch reward due
            (subst (λ t. write_history (record s { services = t }) m id epoch reward ≡ ok s')
              (rw (unknown, earn) refl) returned)
            h
    ] in
    write_history-AreBooks (record s { services = earn is_olas s.services id reward }) s' m id epoch
      reward (due + gain is_olas reward) returned (reward-AreBooks is_olas s id reward due known h)

gain_more :
    (is_olas : Bool) (due reward rest : ℕ)
    → due + gain is_olas reward + gain is_olas rest ≡ due + gain is_olas (reward + rest)
gain_more true due reward rest = omega arith
gain_more false due reward rest = omega arith

pub reward_all-AreBooks :
    (is_olas : Bool) (rewards : List (ℕ × ℕ)) (s s' : State) (m : Meta) (epoch due : ℕ)
    → reward_all is_olas s m epoch rewards ≡ ok s'
    → Keeps s s' due (due + gain is_olas (total_of rewards))
unfolding reward_all
reward_all-AreBooks is_olas [] s s' m epoch due returned h =
    let nothing : due ≡ due + gain is_olas 0 = ground arith in
    subst (λ n. AreBooks s'.totals s'.services s'.histories n) nothing
      (subst (λ t. AreBooks t.totals t.services t.histories due) (ok-injective returned) h)
reward_all-AreBooks is_olas ((id, reward) ∷ rewards) s s' m epoch due returned h =
    let (next, given, rest) = >>=-eq-ok (write_history _ m id epoch reward) _ returned in
    subst (λ n. AreBooks s'.totals s'.services s'.histories n)
      (gain_more is_olas due reward (total_of rewards))
      (reward_all-AreBooks is_olas rewards next s' m epoch (due + gain is_olas reward) rest
        (round-AreBooks is_olas s next m epoch id reward due given h))

idle_all-AreBooks :
    (handled ids : List ℕ) (s s' : State) (m : Meta) (epoch due : ℕ)
    → idle_all s m epoch handled ids ≡ ok s'
    → Keeps s s' due due
unfolding idle_all
idle_all-AreBooks handled [] s s' m epoch due returned h =
    subst (λ t. AreBooks t.totals t.services t.histories due) (ok-injective returned) h
idle_all-AreBooks handled (id ∷ ids) s s' m epoch due returned h =
    elim (Bool-cases (has handled id)) [
      | inl done ↦ idle_all-AreBooks handled ids s s' m epoch due (ground arith) h
      | inr waiting ↦ elim (Bool-cases (moved_on (get id s.services) m.address)) [
        | inl elsewhere ↦ idle_all-AreBooks handled ids s s' m epoch due (ground arith) h
        | inr here ↦
            let (next, given, rest) =
              >>=-eq-ok (write_history s m id epoch 0) (λ t. idle_all t m epoch handled ids)
                (ground arith) in
            idle_all-AreBooks handled ids next s' m epoch due rest
              (write_history-AreBooks s next m id epoch 0 due given h)
      ]
    ]

roll_over-AreBooks :
    (s s' : State) (m : Meta) (epoch due : ℕ) (handled : List ℕ)
    (tracker : Option ActiveServiceEpoch)
    → roll_over s m epoch handled tracker ≡ ok s'
    → Keeps s s' due due
unfolding roll_over
roll_over-AreBooks s s' m epoch due handled none returned h =
    subst (λ (t : State). AreBooks t.totals t.services t.histories due) (ok-injective returned) h
roll_over-AreBooks s s' m epoch due handled (some tracker) returned h =
    let (idle, given, rest) =
      >>=-eq-ok (idle_all s m epoch handled tracker.active_service_ids) _ returned in
    subst (λ (t : State). AreBooks t.totals t.services t.histories due) (ok-injective rest)
      (idle_all-AreBooks handled tracker.active_service_ids s idle m epoch due given h)

count_rewards-IsBooked :
    (s : State) (m : Meta) (total : ℕ)
    → AreBooks s.totals s.services s.histories total
    → IsBooked (count_rewards s m total)
unfolding count_rewards create_reward_update
count_rewards-IsBooked s m total h = record {
  owned = h.owned;
  staked_by_services = h.staked_by_services;
  flow = h.flow;
  claimed_by_services = h.claimed_by_services;
  earned_by_services = ap pos (omega arith) ∙ h.earned_by_services;
}

finish-IsBooked :
    (is_olas : Bool) (s : State) (m : Meta) (total : ℕ)
    → AreBooks s.totals s.services s.histories (0 + gain is_olas total)
    → IsBooked (if is_olas then count_rewards s m total else s)
finish-IsBooked true s m total h =
    let all : 0 + total ≡ total = omega arith in
    count_rewards-IsBooked s m total (subst (AreBooks s.totals s.services s.histories) all h)
finish-IsBooked false s m total h = h

pub checkpoint-IsBooked :
    (s s' : State) (m : Meta) (contract : StakingContract) (p : CheckpointParams)
    → handle_checkpoint s m contract p ≡ ok s'
    → IsBooked s
    → IsBooked s'
unfolding handle_checkpoint
checkpoint-IsBooked s s' m contract p returned h =
    elim (Bool-cases (length p.service_ids == length p.rewards)) [
      | inr mismatch ↦ absurd (ground arith)
      | inl match ↦
          let rewards = zip p.service_ids p.rewards in
          let logged : State = record s {
            checkpoints = set (event_id m) (checkpoint_row m p) s.checkpoints;
          } in
          let finish = λ (rolled : State). ok (
            if contract.is_olas_staking
            then count_rewards rolled m (total_of rewards)
            else rolled) in
          let roll = λ (rewarded : State).
            roll_over rewarded m p.epoch p.service_ids
              (get (m.address, p.epoch) rewarded.trackers) in
          let loop = reward_all contract.is_olas_staking logged m p.epoch rewards in
          let then_roll = λ (rewarded : State). roll rewarded >>= finish in
          let body : (loop >>= then_roll) ≡ ok s' = ground arith in
          let (rewarded, given, rest) = >>=-eq-ok loop then_roll body in
          let (rolled, given', rest') = >>=-eq-ok (roll rewarded) finish rest in
          let books = roll_over-AreBooks rewarded rolled m p.epoch _ p.service_ids _ given' (
            reward_all-AreBooks contract.is_olas_staking rewards logged rewarded m p.epoch 0 given
              h) in
          subst IsBooked (ok-injective rest')
            (finish-IsBooked contract.is_olas_staking rolled m (total_of rewards) books)
    ]
