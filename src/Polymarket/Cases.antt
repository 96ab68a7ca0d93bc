-- ===== src/Polymarket/Cases.antt =====
-- squids/predict-polymarket/src/logic.ts: the early returns, for what a result, a round of its loop and a
-- claim keep.
use autonolas_subgraph.Prelude.{ℕ, ◌≡◌, false, some, Option-cases, Bool-cases, inl, inr}
use autonolas_subgraph.Prelude.Equality.{nat_eq, pair_eq}
use autonolas_subgraph.Prelude.Table.{get}
use autonolas_subgraph.Polymarket.State.{
  Address, ConditionId, Meta, State, TraderAgent, MarketParticipant,
}
use autonolas_subgraph.Polymarket.Resolution.{
  Verdict, Deltas, settle, settle_next, resolve, process_market_resolution,
}
use autonolas_subgraph.Polymarket.Redemption.{redeem, process_redemption}

module _ {ℓ} (P : State × Deltas → Type ℓ) (v : Verdict) (m : Meta) (condition : ConditionId) where
  pub settle_next-cases :
      (s : State) (d : Deltas) (id : Address × ConditionId) (p : MarketParticipant)
      → P (s, d)
      → ((a : TraderAgent)
          → p.settled ≡ false
          → get id.0 s.agents ≡ some a
          → P (settle v m condition (s, d) id p a))
      → P (settle_next v m condition (s, d) id p)
  unfolding settle_next
  settle_next-cases s d id p h step = elim (Bool-cases p.settled) [
    | inl done ↦ rw (done, settle_next) h
    | inr due ↦ elim (Option-cases (get id.0 s.agents)) [
      | inl unknown ↦ rw (due, settle_next) (rw (unknown, settle_next) h)
      | inr (a, known) ↦ rw (due, settle_next) (rw (known, settle_next) (step a due known))
    ]
  ]

module _ {ℓ} (P : State → Type ℓ) (s : State) (condition : ConditionId) (m : Meta) (h : P s) where
  pub resolution-cases :
      (v : Verdict) → P (resolve s condition v m) → P (process_market_resolution s condition v m)
  unfolding process_market_resolution
  resolution-cases v resolved = elim (Option-cases (get condition s.questions)) [
    | inl unknown ↦ rw (unknown, process_market_resolution) h
    | inr (q, tracked) ↦ elim (Option-cases (get condition s.resolutions)) [
      | inr (r, known) ↦
          rw (tracked, process_market_resolution) (rw (known, process_market_resolution) h)
      | inl fresh ↦
          rw (tracked, process_market_resolution) (rw (fresh, process_market_resolution) resolved)
    ]
  ]

  pub redemption-cases :
      (id : Address) (amount : ℕ)
      → ((a : TraderAgent) (p : MarketParticipant)
          → get id s.agents ≡ some a
          → get (id, condition) s.participants ≡ some p
          → P (redeem s id a condition p amount m))
      → P (process_redemption s id condition amount m)
  unfolding process_redemption
  redemption-cases id amount claimed = elim (Option-cases (get id s.agents)) [
    | inl unknown ↦ rw (unknown, process_redemption) h
    | inr (a, known) ↦ elim (Option-cases (get condition s.questions)) [
      | inl untracked ↦ rw (known, process_redemption) (rw (untracked, process_redemption) h)
      | inr (q, tracked) ↦ elim (Option-cases (get (id, condition) s.participants)) [
        | inl absent ↦
            rw (known, process_redemption)
              (rw (tracked, process_redemption) (rw (absent, process_redemption) h))
        | inr (p, part) ↦
            rw (known, process_redemption)
              (rw (tracked, process_redemption)
                (rw (part, process_redemption) (claimed a p known part)))
      ]
    ]
  ]
