-- ===== src/Polymarket/Resolution/Once.antt =====
-- squids/predict-polymarket/src/logic.ts, `processMarketResolution`: a market's result is recorded once.
use autonolas_subgraph.Prelude.{◌≡◌, refl, ◌∙◌, ap, some, [], ◌∷◌, arith, Option-cases, inl, inr}
use autonolas_subgraph.Prelude.Equality.{nat_eq, pair_eq}
use autonolas_subgraph.Prelude.Int.{pos}
use autonolas_subgraph.Prelude.Table.{Table, get, set, get-set_self, get-set}
use autonolas_subgraph.Polymarket.State.{
  Address, ConditionId, Meta, State, MarketParticipant, QuestionResolution,
}
use autonolas_subgraph.Polymarket.Resolution.{
  Verdict, Deltas, settle, settle_next, settle_all, participants_by_question, apply_deltas, resolve,
  resolution_row, process_market_resolution,
}

-- The rows of the markets are the same.
abbrev IsSameMarkets : State → State → Type 0
IsSameMarkets s t = (t.questions ≡ s.questions) × (t.resolutions ≡ s.resolutions)

module _ (v : Verdict) (m : Meta) (condition : ConditionId) where
  settle_next-same :
      (s : State) (d : Deltas) (id : Address × ConditionId) (p : MarketParticipant)
      → IsSameMarkets s (settle_next v m condition (s, d) id p).0
  unfolding settle_next settle
  settle_next-same s d id p = (ground arith, ground arith)

  settle_all-same :
      (rows : Table (Address × ConditionId) MarketParticipant) (s : State) (d : Deltas)
      → IsSameMarkets s (settle_all v m condition rows (s, d)).0
  unfolding settle_all
  settle_all-same [] s d = (refl, refl)
  settle_all-same ((id, p) ∷ rows) s d =
      let (s', d') = settle_next v m condition (s, d) id p in
      let next = settle_next-same s d id p in
      let rest = settle_all-same rows s' d' in (rest.0 ∙ next.0, rest.1 ∙ next.1)

apply_deltas-same : (s : State) (d : Deltas) → IsSameMarkets s (apply_deltas (s, d))
unfolding apply_deltas
apply_deltas-same s d = (ground arith, ground arith)

-- The rows of the markets after a first result: the result's row is new.
resolve-same :
    (s : State) (c : ConditionId) (v : Verdict) (m : Meta)
    → ((resolve s c v m).questions ≡ s.questions)
      × ((resolve s c v m).resolutions ≡ set c (resolution_row v m) s.resolutions)
unfolding resolve
resolve-same s c v m =
    let s1 : State = record s { resolutions = set c (resolution_row v m) s.resolutions } in
    let zero : Deltas = record { traded_settled = pos 0; expected_payout = pos 0 } in
    let (s', d) = settle_all v m c (participants_by_question c s.participants) (s1, zero) in
    let settled = settle_all-same v m c (participants_by_question c s.participants) s1 zero in
    let totals = apply_deltas-same s' d in (totals.0 ∙ settled.0, totals.1 ∙ settled.1)

-- A market that has a result keeps it, whatever is reported of any market later.
pub resolution-kept :
    (s : State) (c : ConditionId) (r : QuestionResolution) (c' : ConditionId) (v : Verdict)
    (m : Meta)
    → get c s.resolutions ≡ some r
    → get c (process_market_resolution s c' v m).resolutions ≡ some r
unfolding process_market_resolution
resolution-kept s c r c' v m h = ground (
  arith,
  (resolve-same s c' v m).1,
  get-set c' c (resolution_row v m) s.resolutions,
  nat_eq.same_iff c' c,
)

-- Reporting a market's result again, the same or another, changes nothing at all.
pub resolution-once :
    (s : State) (c : ConditionId) (v v' : Verdict) (m m' : Meta)
    → process_market_resolution (process_market_resolution s c v m) c v' m'
      ≡ process_market_resolution s c v m
unfolding process_market_resolution
resolution-once s c v v' m m' = elim (Option-cases (get c s.questions)) [
  | inl unknown ↦ ground arith
  | inr (q, tracked) ↦ elim (Option-cases (get c s.resolutions)) [
    | inr (r, resolved) ↦ ground arith
    | inl fresh ↦
        let same = resolve-same s c v m in
        let there = ap (get c) same.1 ∙ get-set_self c (resolution_row v m) s.resolutions in
        let known = ap (get c) same.0 ∙ tracked in ground (arith, there, known)
  ]
]
