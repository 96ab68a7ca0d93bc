-- ===== src/Polymarket/Ledger/Resolution.antt =====
-- squids/predict-polymarket/src/logic.ts, `processMarketResolution`: a settlement keeps the ledger.
use autonolas_subgraph.Polymarket.Cases.{settle_next-cases, resolution-cases}
use autonolas_subgraph.Prelude.{
  ◌≡◌, refl, sym, subst, ◌∙◌, ◌&&◌, true, false, none, some, [], ◌∷◌, arith, ◌==◌, if◌then◌else◌,
  Bool-cases, inl, inr,
}
use autonolas_subgraph.Prelude.Int.{ℤ, pos, ◌+ℤ◌, eqb_ℤ, int_laws, add_zero}
use autonolas_subgraph.Prelude.Equality.{nat_eq, pair_eq}
use autonolas_subgraph.Prelude.Table.{Table, get, set, sum_by, value_at, sum_by-add, set-IsKeyed}
use autonolas_subgraph.Prelude.Rows.{AreStored, set-AreStored, self-AreStored}
use autonolas_subgraph.Polymarket.State.{
  Address, ConditionId, Meta, State, TraderAgent, MarketParticipant,
}
use autonolas_subgraph.Polymarket.Resolution.{
  Verdict, Deltas, amount_to_settle, expected_payout_of, settled_participant, settled_agent, settle,
  settle_next, settle_all, participants_by_question, apply_deltas, resolve, resolution_row,
  process_market_resolution,
}
use autonolas_subgraph.Polymarket.Ledger.{IsBalanced, IsLedger, set-AreUnsettled}

abbrev Parts : Type 0
Parts = Table (Address × ConditionId) MarketParticipant

abbrev IsSum : State × Deltas → Type 0
IsSum (s, d) = IsBalanced s.totals s.agents s.participants d.traded_settled d.expected_payout

module _ (v : Verdict) (m : Meta) (condition : ConditionId) where
  settle-IsSum :
      (s : State) (d : Deltas) (id : Address × ConditionId) (p : MarketParticipant)
      (a : TraderAgent)
      → get id s.participants ≡ some p
      → get id.0 s.agents ≡ some a
      → p.settled ≡ false
      → IsSum (s, d)
      → IsSum (settle v m condition (s, d) id p a)
  unfolding settle settled_participant settled_agent value_at
  settle-IsSum s d id p a part known due h =
      let a' = settled_agent v p a in
      let p' = settled_participant v p in
      let by_agents = λ (f : TraderAgent → ℤ) (total e : ℤ) (grows : f a' ≡ f a +ℤ e).
        sum_by-add f id.0 a' s.agents total e (rw known grows) in
      let by_parts = λ (f : MarketParticipant → ℤ) (total e : ℤ) (grows : f p' ≡ f p +ℤ e).
        sum_by-add f id p' s.participants total e (rw part grows) in
      let same_agents =
        λ (f : TraderAgent → ℤ) (total : ℤ) (same : f a' ≡ f a) (e : total ≡ sum_by f s.agents).
          sym (add_zero total) ∙ by_agents f total (pos 0) (same ∙ sym (add_zero (f a))) e in
      let same_parts =
        λ (f : MarketParticipant → ℤ) (total : ℤ) (same : f p' ≡ f p)
            (e : total ≡ sum_by f s.participants).
          sym (add_zero total) ∙ by_parts f total (pos 0) (same ∙ sym (add_zero (f p))) e in
      let nothing = h.unsettled id p part due in
      record {
        keyed = set-IsKeyed id p' s.participants h.keyed;
        bets_by_agents = same_agents (λ a. pos a.total_bets) _ refl h.bets_by_agents;
        bets_by_parts = same_parts (λ p. pos p.total_bets) _ refl h.bets_by_parts;
        traded_by_agents = same_agents (λ a. a.total_traded) _ refl h.traded_by_agents;
        traded_by_parts = same_parts (λ p. p.total_traded) _ refl h.traded_by_parts;
        payout_by_agents = same_agents (λ a. a.total_payout) _ refl h.payout_by_agents;
        payout_by_parts = same_parts (λ p. p.total_payout) _ refl h.payout_by_parts;
        settled_by_agents = omega (
          int_laws,
          by_agents (λ a. a.total_traded_settled) _ (amount_to_settle p) refl h.settled_by_agents,
        );
        settled_by_parts = omega (
          int_laws,
          by_parts (λ p. p.total_traded_settled) _ (amount_to_settle p) (omega int_laws)
              h.settled_by_parts,
        );
        expected_by_agents = omega (
          int_laws,
          by_agents (λ a. a.total_expected_payout) _ (expected_payout_of v p) refl
              h.expected_by_agents,
        );
        expected_by_parts = omega (
          int_laws,
          by_parts (λ p. p.expected_payout) _ (expected_payout_of v p) (rw nothing (omega int_laws))
              h.expected_by_parts,
        );
        unsettled = set-AreUnsettled s.participants id p' h.unsettled (λ due'. cc);
      }

  settle_next-IsSum :
      (s : State) (d : Deltas) (id : Address × ConditionId) (p : MarketParticipant)
      → get id s.participants ≡ some p
      → IsSum (s, d)
      → IsSum (settle_next v m condition (s, d) id p)
  settle_next-IsSum s d id p part h =
      settle_next-cases IsSum v m condition s d id p h
        (λ a due known. settle-IsSum s d id p a part known due h)

  -- The participants that a round writes: at most the one it is about.
  pub settle_next-AreStored :
      (s : State) (d : Deltas) (id : Address × ConditionId) (p : MarketParticipant) (rest : Parts)
      → get id rest ≡ none
      → AreStored rest s.participants
      → AreStored rest (settle_next v m condition (s, d) id p).0.participants
  unfolding settle
  settle_next-AreStored s d id p rest other h =
      settle_next-cases (λ sd. AreStored rest sd.0.participants) v m condition s d id p h
        (λ a due known. set-AreStored rest s.participants id _ other h)

  settle_all-IsSum :
      (rows : Parts) (s : State) (d : Deltas)
      → AreStored rows s.participants
      → IsSum (s, d)
      → IsSum (settle_all v m condition rows (s, d))
  unfolding settle_all
  settle_all-IsSum [] s d stored h = h
  settle_all-IsSum ((id, p) ∷ rows) s d stored h =
      let (s', d') = settle_next v m condition (s, d) id p in
      settle_all-IsSum rows s' d' (settle_next-AreStored s d id p rows stored.1 stored.2)
        (settle_next-IsSum s d id p stored.0 h)

none-participants_by_question :
    (c : ConditionId) (t : Parts) (k : Address × ConditionId)
    → get k t ≡ none
    → get k (participants_by_question c t) ≡ none
unfolding participants_by_question get
none-participants_by_question c [] k h = refl
none-participants_by_question c ((id, p) ∷ t) k h =
    ground (arith, none-participants_by_question c t k)

pub participants_by_question-AreStored :
    (c : ConditionId) (rows t : Parts)
    → AreStored rows t
    → AreStored (participants_by_question c rows) t
unfolding participants_by_question
participants_by_question-AreStored c [] t h = tt
participants_by_question-AreStored c ((id, p) ∷ rows) t h =
    let rest = participants_by_question-AreStored c rows t h.2 in
    let kept : AreStored ((id, p) ∷ participants_by_question c rows) t =
      (h.0, none-participants_by_question c rows id h.1, rest) in
    elim p.question
      as (λ q.
        AreStored
          (elim q [
            | none ↦ participants_by_question c rows
            | some q ↦
                if q == c
                then (id, p) ∷ participants_by_question c rows
                else participants_by_question c rows
          ])
          t) [
            | none ↦ rest
            | some q ↦
                elim (q == c)
                  as (λ b.
                    AreStored
                      (if b
                        then (id, p) ∷ participants_by_question c rows
                        else participants_by_question c rows)
                      t) [ true ↦ kept | false ↦ rest ]
          ]

-- The totals take the deltas up.
apply_deltas-IsLedger : (s : State) (d : Deltas) → IsSum (s, d) → IsLedger (apply_deltas (s, d))
unfolding apply_deltas
apply_deltas-IsLedger s d h =
    elim (Bool-cases (eqb_ℤ d.traded_settled (pos 0) && eqb_ℤ d.expected_payout (pos 0))) [
      | inl zero ↦
          let no_stakes : d.traded_settled ≡ pos 0 = ground arith in
          let no_payouts : d.expected_payout ≡ pos 0 = ground arith in
          rw (zero, apply_deltas)
            (subst (λ x. IsBalanced s.totals s.agents s.participants x (pos 0)) no_stakes
              (subst (IsBalanced s.totals s.agents s.participants d.traded_settled) no_payouts h))
      | inr moved ↦
          rw (moved, apply_deltas)
            (record {
              keyed = h.keyed;
              bets_by_agents = h.bets_by_agents;
              bets_by_parts = h.bets_by_parts;
              traded_by_agents = h.traded_by_agents;
              traded_by_parts = h.traded_by_parts;
              payout_by_agents = h.payout_by_agents;
              payout_by_parts = h.payout_by_parts;
              settled_by_agents = add_zero _ ∙ h.settled_by_agents;
              settled_by_parts = add_zero _ ∙ h.settled_by_parts;
              expected_by_agents = add_zero _ ∙ h.expected_by_agents;
              expected_by_parts = add_zero _ ∙ h.expected_by_parts;
              unsettled = h.unsettled;
            })
    ]

pub resolution-IsLedger :
    (s : State) (condition : ConditionId) (v : Verdict) (m : Meta)
    → IsLedger s
    → IsLedger (process_market_resolution s condition v m)
unfolding resolve
resolution-IsLedger s condition v m h =
    let rows = participants_by_question condition s.participants in
    let stored =
      participants_by_question-AreStored condition s.participants s.participants
        (self-AreStored s.participants h.keyed) in
    let zero : Deltas = record { traded_settled = pos 0; expected_payout = pos 0 } in
    let s1 : State = record s { resolutions = set condition (resolution_row v m) s.resolutions } in
    let (s', d) = settle_all v m condition rows (s1, zero) in
    resolution-cases IsLedger s condition m h v
      (apply_deltas-IsLedger s' d (settle_all-IsSum v m condition rows s1 zero stored h))
