-- ===== src/Prelude/Groups.antt =====
-- Rows of a table that fall into groups by their keys, and a table with a row for each group, one column
-- of which is the sum over the rows of the group.
use autonolas_subgraph.Prelude.{
  ◌≡◌, sym, ap, ◌∙◌, refl, Bool, true, false, none, [], ◌∷◌, arith, if◌then◌else◌, Bool-cases, inl,
  inr,
}
use autonolas_subgraph.Prelude.Equality.{Key}
use autonolas_subgraph.Prelude.Int.{ℤ, pos, ◌+ℤ◌, int_laws, add_zero}
use autonolas_subgraph.Prelude.Table.{Table, get, set, value_at, value_at-set}

-- The sum of a column over the rows whose key passes a test.
unfoldable pub sum_of {ℓ κ} : {K : Type ℓ} {V : Type κ} → (K → Bool) → (V → ℤ) → Table K V → ℤ
sum_of p f [] = pos 0
sum_of p f ((k, v) ∷ t) = (if p k then f v else pos 0) +ℤ sum_of p f t

module _ {ℓ κ} {K : Type ℓ} {V : Type κ} ⦃e : Key K⦄ where
  -- A row that is written with `d` more in its column.
  pub sum_of-set :
      (p : K → Bool) (f : V → ℤ) (k : K) (v : V) (d : ℤ) (t : Table K V)
      → f v ≡ value_at f (get k t) +ℤ d
      → sum_of p f (set k v t) ≡ sum_of p f t +ℤ (if p k then d else pos 0)
  unfolding sum_of get set value_at
  sum_of-set p f k v d [] h = elim (Bool-cases (p k)) [
    | inl in_group ↦ rw in_group (omega int_laws)
    | inr outside ↦ rw outside (omega int_laws)
  ]
  sum_of-set p f k v d ((j, w) ∷ t) h = elim (Bool-cases (e.same j k)) [
    | inl here ↦
        let at = (e.same_iff j k).0 here in
        let row : f v ≡ f w +ℤ d = ground arith in
        elim (Bool-cases (p k)) [
          | inl in_group ↦ rw here (rw (at, in_group) (omega int_laws))
          | inr outside ↦ rw here (rw (at, outside) (omega int_laws))
        ]
    | inr there ↦
        let rest = sum_of-set p f k v d t (ground arith) in rw there (omega (int_laws, rest))
  ]

if-same {ℓ} : {A : Type ℓ} (b : Bool) (x : A) → (if b then x else x) ≡ x
if-same true x = refl
if-same false x = refl

module _ {G K T V : Type 0} ⦃group : Key G⦄ ⦃e : Key K⦄ (column : T → ℤ) (at : K → G)
    (part : V → ℤ) where
  -- Each group's column is the sum over its rows; a group without a row has 0.
  abbrev pub IsGrouped : Table G T → Table K V → Type 0
  IsGrouped totals rows =
      (g : G) → value_at column (get g totals) ≡ sum_of (λ k. group.same (at k) g) part rows

  -- A row and the row of its group are written, both with `d` more.
  pub set-IsGrouped :
      (totals : Table G T) (rows : Table K V) (k : K) (v : V) (total : T) (d : ℤ)
      → part v ≡ value_at part (get k rows) +ℤ d
      → column total ≡ value_at column (get (at k) totals) +ℤ d
      → IsGrouped totals rows
      → IsGrouped (set (at k) total totals) (set k v rows)
  set-IsGrouped totals rows k v total d more more_total h g =
      let table = value_at-set column (at k) g total totals in
      let row = sum_of-set (λ j. group.same (at j) g) part k v d rows more in
      elim (Bool-cases (group.same (at k) g)) [
        | inl here ↦
            let at_g =
              ap (λ x. value_at column (get x totals)) ((group.same_iff (at k) g).0 here) in
            rw table (rw row (rw here (more_total ∙ ap (λ x. x +ℤ d) (at_g ∙ h g))))
        | inr there ↦ rw table (rw row (rw there (h g ∙ sym (add_zero _))))
      ]

  -- The row of a group is written with the same column.
  pub total-IsGrouped :
      (totals : Table G T) (rows : Table K V) (g : G) (total : T)
      → column total ≡ value_at column (get g totals)
      → IsGrouped totals rows
      → IsGrouped (set g total totals) rows
  total-IsGrouped totals rows g total same h j =
      ground (arith, value_at-set column g j total totals, group.same_iff g j, h j)

  -- A row is written with the same part.
  pub row-IsGrouped :
      (totals : Table G T) (rows : Table K V) (k : K) (v : V)
      → part v ≡ value_at part (get k rows)
      → IsGrouped totals rows
      → IsGrouped totals (set k v rows)
  row-IsGrouped totals rows k v same h g =
      let p : K → Bool = λ j. group.same (at j) g in
      h g
      ∙ sym (
          sum_of-set p part k v (pos 0) rows (same ∙ sym (add_zero _))
          ∙ (ap (λ x. sum_of p part rows +ℤ x) (if-same (p k) (pos 0)) ∙ add_zero _))

-- Every row counts as one.
abbrev pub one {ℓ} : {V : Type ℓ} → V → ℤ
one v = pos 1

module _ {G K T V : Type 0} ⦃group : Key G⦄ ⦃e : Key K⦄ (column : T → ℤ) (at : K → G) where
  -- A new row, with its group's count one up.
  pub link-IsGrouped :
      (totals : Table G T) (rows : Table K V) (k : K) (v : V) (total : T)
      → get k rows ≡ none
      → column total ≡ value_at column (get (at k) totals) +ℤ pos 1
      → IsGrouped column at one totals rows
      → IsGrouped column at one (set (at k) total totals) (set k v rows)
  unfolding value_at
  link-IsGrouped totals rows k v total new more h =
      set-IsGrouped column at one totals rows k v total (pos 1) (rw new (omega int_laws)) more h
