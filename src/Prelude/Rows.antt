-- ===== src/Prelude/Rows.antt =====
-- Rows taken out of a table, each key once, which the table still holds: what a loop over the result
-- of a query reads.
use autonolas_subgraph.Prelude.{
  ◌≡◌, subst, true, false, none, some, List, [], ◌∷◌, arith, if◌then◌else◌, Bool-cases, inl, inr,
}
use autonolas_subgraph.Prelude.Equality.{Key}
use autonolas_subgraph.Prelude.Table.{Table, get, set, get-set, IsKeyed}

module _ {ℓ κ} {K : Type ℓ} {V : Type κ} ⦃e : Key K⦄ where
  abbrev pub AreStored : Table K V → Table K V → Type κ
  AreStored [] t = Unit
  AreStored ((k, v) ∷ rows) t = (get k t ≡ some v) × (get k rows ≡ none) × AreStored rows t

  -- A write to a key that no row has.
  pub set-AreStored :
      (rows t : Table K V) (k : K) (v : V)
      → get k rows ≡ none
      → AreStored rows t
      → AreStored rows (set k v t)
  unfolding get
  set-AreStored [] t k v h g = tt
  set-AreStored ((j, w) ∷ rows) t k v h g = (
    ground (arith, get-set k j v t, e.same_iff k j, e.same_iff j k),
    g.1,
    set-AreStored rows t k v (ground arith) g.2,
  )

  cons-AreStored :
      (rows t : Table K V) (k : K) (v : V)
      → get k rows ≡ none
      → AreStored rows t
      → AreStored rows ((k, v) ∷ t)
  unfolding get
  cons-AreStored [] t k v h g = tt
  cons-AreStored ((j, w) ∷ rows) t k v h g = (
    ground (arith, e.same_iff k j, e.same_iff j k),
    g.1,
    cons-AreStored rows t k v (ground arith) g.2,
  )

  pub self-AreStored : (t : Table K V) → IsKeyed t → AreStored t t
  unfolding get
  self-AreStored [] h = tt
  self-AreStored ((k, v) ∷ t) h =
      (ground (arith, e.same_iff k k), h.0, cons-AreStored t t k v h.0 (self-AreStored t h.1))

-- What holds of every row.
abbrev pub AllRows {ι ℓ κ} : {K : Type ι} {V : Type ℓ} → (V → Type κ) → List (K × V) → Type κ
AllRows P [] = Unit
AllRows P ((_, v) ∷ t) = P v × AllRows P t

module _ {ι ℓ κ} {K : Type ι} {V : Type ℓ} ⦃e : Key K⦄ (P : V → Type κ) where
  pub set-AllRows : (k : K) (v : V) (t : Table K V) → P v → AllRows P t → AllRows P (set k v t)
  unfolding set
  set-AllRows k v [] new old = (new, tt)
  set-AllRows k v ((j, w) ∷ t) new old =
      elim (e.same j k) as (λ b. AllRows P (if b then (k, v) ∷ t else (j, w) ∷ set k v t)) [
        | true ↦ (new, old.1)
        | false ↦ (old.0, set-AllRows k v t new old.1)
      ]

  pub get-AllRows : (k : K) (v : V) (t : Table K V) → AllRows P t → get k t ≡ some v → P v
  unfolding get
  get-AllRows k v [] all h = absurd (ground arith)
  get-AllRows k v ((j, w) ∷ t) all h = elim (Bool-cases (e.same j k)) [
    | inl here ↦ subst P (ground arith) all.0
    | inr there ↦ get-AllRows k v t all.1 (ground arith)
  ]
