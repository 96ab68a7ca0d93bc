-- ===== src/Polymarket/Resolution/Settled.antt =====
-- squids/predict-polymarket/src/logic.ts, `processMarketResolution`: which rows a first result settles.
use autonolas_subgraph.Prelude.{
  ◌≡◌, refl, sym, ◌∙◌, ap, ◌&&◌, not, Bool, true, false, Option, none, some, [], ◌∷◌, arith, ◌==◌,
  if◌then◌else◌, Option-cases, Bool-cases, inl, inr,
}
use autonolas_subgraph.Prelude.Int.{pos}
use autonolas_subgraph.Prelude.Equality.{nat_eq, pair_eq}
use autonolas_subgraph.Prelude.Table.{Table, get, set, get-set, IsKeyed}
use autonolas_subgraph.Prelude.Rows.{AreStored, self-AreStored}
use autonolas_subgraph.Polymarket.State.{Address, ConditionId, Meta, State, MarketParticipant}
use autonolas_subgraph.Polymarket.Trade.{is_none}
use autonolas_subgraph.Polymarket.Resolution.{
  Verdict, Deltas, settled_participant, settled_agent, settle, settle_next, settle_all,
  participants_by_question, apply_deltas, resolve, resolution_row, process_market_resolution,
}
use autonolas_subgraph.Polymarket.Resolution.Due.{due_to, settled-due}
use autonolas_subgraph.Polymarket.Ledger.Resolution.{
  settle_next-AreStored, participants_by_question-AreStored,
}

abbrev Parts : Type 0
Parts = Table (Address × ConditionId) MarketParticipant

-- Whether a part is of the market.
abbrev pub is_part_of : ConditionId → Option ConditionId → Bool
is_part_of c none = false
is_part_of c (some q) = q == c

-- What a part becomes: settled where it is due and its agent is stored, as it was otherwise.
abbrev pub settled_row : Verdict → Bool → MarketParticipant → MarketParticipant
settled_row v known p = if known && not p.settled then settled_participant v p else p

abbrev settled_rows :
    Verdict → Bool → Option MarketParticipant → Option MarketParticipant → Option MarketParticipant
settled_rows v known none old = old
settled_rows v known (some p) old = some (settled_row v known p)

module _ (v : Verdict) (m : Meta) (condition : ConditionId) where
  settle_next-agents :
      (s : State) (d : Deltas) (id : Address × ConditionId) (p : MarketParticipant) (a : Address)
      → is_none (get a (settle_next v m condition (s, d) id p).0.agents) ≡ is_none (get a s.agents)
  unfolding settle_next settle
  settle_next-agents s d id p a = elim (Bool-cases p.settled) [
    | inl done ↦ rw (done, settle_next) refl
    | inr due ↦ elim (Option-cases (get id.0 s.agents)) [
      | inl unknown ↦ rw (due, settle_next) (rw (unknown, settle_next) refl)
      | inr (b, known) ↦
          rw (due, settle_next)
            (rw (known, settle_next)
              (ground
                (arith, get-set id.0 a (settled_agent v p b) s.agents, nat_eq.same_iff id.0 a)))
    ]
  ]

  settle_next-parts :
      (s : State) (d : Deltas) (id k : Address × ConditionId) (p : MarketParticipant)
      → get id s.participants ≡ some p
      → get k (settle_next v m condition (s, d) id p).0.participants ≡ (
          if pair_eq.same id k
          then some (settled_row v (not (is_none (get id.0 s.agents))) p)
          else get k s.participants)
  unfolding settle_next settle
  settle_next-parts s d id k p part = elim (Bool-cases p.settled) [
    | inl done ↦ rw (done, settle_next) (ground (arith, pair_eq.same_iff id k))
    | inr due ↦ elim (Option-cases (get id.0 s.agents)) [
      | inl unknown ↦
          rw (due, settle_next) (rw (unknown, settle_next) (ground (arith, pair_eq.same_iff id k)))
      | inr (b, known) ↦
          simp (due, known, settle_next) (get-set id k (settled_participant v p) s.participants)
    ]
  ]

  settle_all-parts :
      (rows : Parts) (s : State) (d : Deltas) (k : Address × ConditionId)
      → AreStored rows s.participants
      → get k (settle_all v m condition rows (s, d)).0.participants
        ≡ settled_rows v (not (is_none (get k.0 s.agents))) (get k rows) (get k s.participants)
  unfolding settle_all get
  settle_all-parts [] s d k stored = refl
  settle_all-parts ((id, p) ∷ rows) s d k stored =
      let (s', d') = settle_next v m condition (s, d) id p in
      let rest =
        settle_all-parts rows s' d' k
          (settle_next-AreStored v m condition s d id p rows stored.1 stored.2) in
      let agents = settle_next-agents s d id p k.0 in
      let parts = settle_next-parts s d id k p stored.0 in
      elim (Bool-cases (pair_eq.same id k)) [
        | inl here ↦
            let at = (pair_eq.same_iff id k).0 here in
            let gone = ap (λ x. get x rows) (sym at) ∙ stored.1 in
            let owner = ap (λ (x : Address × ConditionId). get x.0 s.agents) at in
            rest
            ∙ rw (gone, here)
                (parts ∙ rw here (ap (λ o. some (settled_row v (not (is_none o)) p)) owner))
        | inr there ↦
            rest ∙ rw (there, agents) (ap (settled_rows v _ (get k rows)) (parts ∙ rw there refl))
      ]

-- The query's answer, read by the key.
get-participants_by_question :
    (c : ConditionId) (t : Parts) (k : Address × ConditionId)
    → IsKeyed t
    → get k (participants_by_question c t)
      ≡ elim (get k t) [ none ↦ none | some p ↦ if is_part_of c p.question then some p else none ]
unfolding participants_by_question get
get-participants_by_question c [] k h = refl
get-participants_by_question c ((id, p) ∷ t) k h =
    ground (arith, get-participants_by_question c t k h.1, pair_eq.same_iff id k, h.0)

-- What a part of any market becomes with the result of the market `c`.
abbrev pub after_result :
    Verdict → ConditionId → Bool → Option MarketParticipant → Option MarketParticipant
after_result v c known none = none
after_result v c known (some p) =
    if is_part_of c p.question && (known && not p.settled)
    then some (record p {
      expected_payout = pos (due_to v.winning_outcome v p);
      total_traded_settled = p.total_traded;
      settled = true;
    })
    else some p

settled_after : Verdict → ConditionId → Bool → Option MarketParticipant → Option MarketParticipant
settled_after v c known none = none
settled_after v c known (some p) =
    if is_part_of c p.question && (known && not p.settled)
    then some (settled_participant v p)
    else some p

after-settled :
    (v : Verdict) (c : ConditionId) (known : Bool) (o : Option MarketParticipant)
    → settled_after v c known o ≡ after_result v c known o
unfolding settled_after
after-settled v c known none = refl
after-settled v c known (some p) = rw (settled-due v p) refl

-- The first result of a tracked market settles every part of that market which is not settled and whose
-- agent is stored, in full, and writes to it what is due: its holding of the winning outcome,
-- where none wins alone what the payouts pay on its two holdings, rounded down, and for a negative
-- holding nothing. It leaves every other part as it was. Each part is stored once before it.
pub resolution-settles :
    (s : State) (c : ConditionId) (v : Verdict) (m : Meta) (k : Address × ConditionId)
    → IsKeyed s.participants
    → is_none (get c s.questions) ≡ false
    → get c s.resolutions ≡ none
    → get k (process_market_resolution s c v m).participants
      ≡ after_result v c (not (is_none (get k.0 s.agents))) (get k s.participants)
unfolding process_market_resolution resolve apply_deltas settled_after
resolution-settles s c v m k keyed tracked fresh =
    let rows = participants_by_question c s.participants in
    let s1 : State = record s { resolutions = set c (resolution_row v m) s.resolutions } in
    let zero : Deltas = record { traded_settled = pos 0; expected_payout = pos 0 } in
    let stored =
      participants_by_question-AreStored c s.participants s.participants
        (self-AreStored s.participants keyed) in
    let loop = settle_all-parts v m c rows s1 zero k stored in
    ground (
      arith,
      get-participants_by_question c s.participants k keyed,
      loop,
      after-settled v c (not (is_none (get k.0 s.agents))) (get k s.participants),
    )
