-- ===== src/Services/Recent.antt =====
-- squids/service-registry/src/logic.ts, `mostRecentAgentId`: the choice is the latest that qualifies.
use autonolas_subgraph.Prelude.{
  ℕ, ◌≤◌, ◌<◌, ◌≡◌, refl, ap, ==_iff, ◌∙◌, ◌⊎◌, inl, inr, ◌&&◌, ◌||◌, Option, none, some, List, [],
  ◌∷◌, Bool, true, false, leb, ltb, ◌==◌, if◌then◌else◌, arith, Bool-cases,
}
use autonolas_subgraph.Prelude.Int.{ℤ, pos, neg_ℤ}
use autonolas_subgraph.Services.{qualifies, time_or, search, most_recent_agent_id}

abbrev pub is_candidate : List ℕ → ℕ → Bool
is_candidate [] id = false
is_candidate (x ∷ ids) id = x == id || is_candidate ids id

abbrev next_ts : Option ℕ → ℕ → ℕ → ℕ
next_ts o deployment best_ts = if qualifies o deployment best_ts then time_or o best_ts else best_ts

step-grows : (o : Option ℕ) (deployment best_ts : ℕ) → best_ts ≤ next_ts o deployment best_ts
step-grows none deployment best_ts = omega arith
step-grows (some ts) deployment best_ts = ground arith

step-latest :
    (o : Option ℕ) (deployment best_ts ts : ℕ)
    → o ≡ some ts
    → ts ≤ deployment
    → ts ≤ next_ts o deployment best_ts
step-latest none deployment best_ts ts at in_time = absurd (ground arith)
step-latest (some u) deployment best_ts ts at in_time =
    let same : u ≡ ts = ground arith in ground arith

module _ (registration_ts : ℕ → Option ℕ) (deployment : ℕ) where
  -- The best so far: nothing, or a registration in time.
  abbrev IsChoice : ℤ → ℕ → Type 0
  IsChoice best best_ts =
      (best_ts ≡ 0)
      ⊎ ((w : ℕ) × (best ≡ pos w) × (registration_ts w ≡ some best_ts) × (best_ts ≤ deployment))

  search-grows :
      (ids : List ℕ) (best : ℤ) (best_ts : ℕ)
      → best_ts ≤ (search registration_ts deployment ids best best_ts).1
  unfolding search
  search-grows [] best best_ts = omega arith
  search-grows (id ∷ ids) best best_ts = omega (
    arith,
    step-grows (registration_ts id) deployment best_ts,
    search-grows ids (if qualifies (registration_ts id) deployment best_ts then pos id else best)
        (next_ts (registration_ts id) deployment best_ts),
  )

  step-IsChoice :
      (o : Option ℕ) (id : ℕ) (best : ℤ) (best_ts : ℕ)
      → registration_ts id ≡ o
      → IsChoice best best_ts
      → IsChoice
          (if qualifies o deployment best_ts then pos id else best)
          (next_ts o deployment best_ts)
  step-IsChoice none id best best_ts at h = h
  step-IsChoice (some ts) id best best_ts at h =
      elim (Bool-cases (leb ts deployment && ltb best_ts ts)) [
        | inl better ↦ rw better (inr (id, refl, at, ground arith))
        | inr worse ↦ rw worse h
      ]

  search-IsChoice :
      (ids : List ℕ) (best : ℤ) (best_ts : ℕ)
      → IsChoice best best_ts
      → let (w, u) = search registration_ts deployment ids best best_ts in IsChoice w u
  unfolding search
  search-IsChoice [] best best_ts h = h
  search-IsChoice (id ∷ ids) best best_ts h =
      search-IsChoice ids _ _ (step-IsChoice (registration_ts id) id best best_ts refl h)

  search-latest :
      (ids : List ℕ) (best : ℤ) (best_ts id ts : ℕ)
      → is_candidate ids id ≡ true
      → registration_ts id ≡ some ts
      → ts ≤ deployment
      → ts ≤ (search registration_ts deployment ids best best_ts).1
  unfolding search
  search-latest [] best best_ts id ts listed at in_time = absurd (ground arith)
  search-latest (x ∷ ids) best best_ts id ts listed at in_time = elim (Bool-cases (x == id)) [
    | inr other ↦ search-latest ids _ _ id ts (ground arith) at in_time
    | inl here ↦
        let same : registration_ts x ≡ some ts = ap registration_ts ((==_iff x id).0 here) ∙ at in
        omega (
          arith,
          step-latest (registration_ts x) deployment best_ts ts same in_time,
          search-grows ids
              (if qualifies (registration_ts x) deployment best_ts then pos x else best)
              (next_ts (registration_ts x) deployment best_ts),
        )
  ]

  -- If an agent among the candidates was registered, after time 0 and by the deployment, then the choice
  -- is an agent that was registered by the deployment and no earlier.
  pub most_recent_agent_id-latest :
      (ids : List ℕ) (id ts : ℕ)
      → is_candidate ids id ≡ true
      → registration_ts id ≡ some ts
      → 0 < ts
      → ts ≤ deployment
      → (w : ℕ) × (u : ℕ) × (most_recent_agent_id registration_ts deployment ids ≡ pos w)
        × (registration_ts w ≡ some u)
        × (ts ≤ u)
        × (u ≤ deployment)
  unfolding most_recent_agent_id
  most_recent_agent_id-latest ids id ts listed at started in_time =
      let latest = search-latest ids (neg_ℤ (pos 1)) 0 id ts listed at in_time in
      elim (search-IsChoice ids (neg_ℤ (pos 1)) 0 (inl refl)) [
        | inl nothing ↦ absurd (omega arith)
        | inr (w, chosen, registered, by_then) ↦ (w, _, chosen, registered, latest, by_then)
      ]
