-- ===== src/Prelude/Table.antt =====
-- One entity table of a squid's cache: `cache.get(Class, id)` and `cache.set(Class, row)`, as an
-- association list in insertion order, with the sum of a column over all rows.
use autonolas_subgraph.Prelude.{
  ◌≡◌, refl, subst, ◌≢◌, false, Option, none, some, List, [], ◌∷◌, arith, Bool-cases, inl, inr,
  if◌then◌else◌,
}
use autonolas_subgraph.Prelude.Equality.{Key}
use autonolas_subgraph.Prelude.Int.{ℤ, pos, ◌+ℤ◌, ◌-ℤ◌, int_laws}

abbrev pub Table {ℓ κ} : Type ℓ → Type κ → Type (ℓ ⊔ κ)
Table K V = List (K × V)

module _ {ℓ} {V : Type ℓ} where
  -- A column of one row that may be missing: 0 then.
  unfoldable pub value_at : (V → ℤ) → Option V → ℤ
  value_at f none = pos 0
  value_at f (some v) = f v

  -- The sum of a column over all rows.
  unfoldable pub sum_by {κ} : {K : Type κ} → (V → ℤ) → Table K V → ℤ
  sum_by f [] = pos 0
  sum_by f ((_, v) ∷ t) = f v +ℤ sum_by f t

module _ {ℓ κ} {K : Type ℓ} {V : Type κ} ⦃e : Key K⦄ where
  unfoldable pub get : K → Table K V → Option V
  get k [] = none
  get k ((j, v) ∷ t) = if e.same j k then some v else get k t

  unfoldable pub set : K → V → Table K V → Table K V
  set k v [] = (k, v) ∷ []
  set k v ((j, w) ∷ t) = if e.same j k then (k, v) ∷ t else (j, w) ∷ set k v t

  -- What is read back after a write: the new row under its own id, all other rows unchanged.
  pub get-set :
      (k j : K) (v : V) (t : Table K V)
      → get j (set k v t) ≡ (if e.same k j then some v else get j t)
  unfolding get set
  get-set k j v [] = refl
  get-set k j v ((i, w) ∷ t) =
      ground (arith, e.same_iff k j, e.same_iff i k, e.same_iff i j, get-set k j v t)

  pub get-set_self : (k : K) (v : V) (t : Table K V) → get k (set k v t) ≡ some v
  get-set_self k v t = ground (arith, get-set k k v t, e.same_iff k k)

  pub get-set_ne : (k j : K) (v : V) (t : Table K V) → k ≢ j → get j (set k v t) ≡ get j t
  get-set_ne k j v t h = ground (arith, get-set k j v t, e.same_iff k j)

  -- A row's column after its table is written, in a form that needs no case split on the id.
  pub sum_by-set :
      (f : V → ℤ) (k : K) (v : V) (t : Table K V)
      → sum_by f (set k v t) +ℤ value_at f (get k t) ≡ sum_by f t +ℤ f v
  unfolding get set sum_by value_at
  sum_by-set f k v [] = omega int_laws
  sum_by-set f k v ((j, w) ∷ t) = elim (Bool-cases (e.same j k)) [
    | inl here ↦ rw here (omega int_laws)
    | inr there ↦ rw there (grind (int_laws, sum_by-set f k v t))
  ]

  -- The sum of a column after a write.
  pub sum_by-set_delta :
      (f : V → ℤ) (k : K) (v : V) (t : Table K V)
      → sum_by f (set k v t) ≡ sum_by f t +ℤ (f v -ℤ value_at f (get k t))
  sum_by-set_delta f k v t = omega (int_laws, sum_by-set f k v t)

  -- A total that is the sum of a column stays so if the write moves both by the same amount.
  pub sum_by-add :
      (f : V → ℤ) (k : K) (v : V) (t : Table K V) (total d : ℤ)
      → f v ≡ value_at f (get k t) +ℤ d
      → total ≡ sum_by f t
      → total +ℤ d ≡ sum_by f (set k v t)
  sum_by-add f k v t total d h g = omega (int_laws, sum_by-set f k v t)

  -- One row's column after a write.
  pub value_at-set :
      (f : V → ℤ) (k j : K) (v : V) (t : Table K V)
      → value_at f (get j (set k v t)) ≡ (if e.same k j then f v else value_at f (get j t))
  unfolding value_at
  value_at-set f k j v t = ground (arith, get-set k j v t)

  -- Every key stands once.
  abbrev pub IsKeyed : Table K V → Type κ
  IsKeyed [] = Unit
  IsKeyed ((k, v) ∷ t) = (get k t ≡ none) × IsKeyed t

  pub get-none-set :
      (k j : K) (v : V) (t : Table K V)
      → e.same k j ≡ false
      → get j t ≡ none
      → get j (set k v t) ≡ none
  get-none-set k j v t h g = rw get-set (rw h g)

  pub set-IsKeyed : (k : K) (v : V) (t : Table K V) → IsKeyed t → IsKeyed (set k v t)
  unfolding get set
  set-IsKeyed k v [] h = (refl, tt)
  set-IsKeyed k v ((j, w) ∷ t) h = elim (Bool-cases (e.same j k)) [
    | inl here ↦
        let at = (e.same_iff j k).0 here in rw here (subst (λ x. get x t ≡ none) at h.0, h.1)
    | inr there ↦ rw there (
      get-none-set k j v t (ground (arith, e.same_iff j k, e.same_iff k j)) h.0,
      set-IsKeyed k v t h.1,
    )
  ]
