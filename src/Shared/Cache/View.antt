-- ===== src/Shared/Cache/View.antt =====
-- squids/_shared/src/entityCache.ts: the cache against one map of rows, as `InMemoryCache` is.
use autonolas_subgraph.Prelude.{
  ℕ, Bool, true, false, Option, none, some, List, [], ◌∷◌, ◌≡◌, refl, sym, subst, ap, ◌∙◌, ◌==◌,
  if◌then◌else◌, arith, Option-cases, Bool-cases, inl, inr, ◌||◌, ◌⊎◌,
}
use autonolas_subgraph.Prelude.Equality.{nat_eq, pair_eq}
use autonolas_subgraph.Prelude.Table.{Table, get, set, get-set}
use autonolas_subgraph.Shared.Cache.{
  RowId, StoreLike, or_else, EntityCache, get_row, set_row, bucket, clear, is_empty, flush_class,
  flush, Operation, reads, map_reads,
}

-- Whether the order of a flush lists a class.
abbrev pub has : List ℕ → ℕ → Bool
has [] cls = false
has (x ∷ order) cls = x == cls || has order cls

module _ {Row : Type 0} (db : StoreLike Row) where
  -- The one map: a row that is not written back yet, or the row of the database.
  abbrev pub view : EntityCache db → RowId → Option Row
  view c k = or_else (get k c.dirty) (db.read c.store k)

  -- What the cache remembers is what the map holds.
  abbrev pub IsCoherent : EntityCache db → Type 0
  IsCoherent c = (k : RowId) (hit : Option Row) → get k c.cache ≡ some hit → hit ≡ view c k

  remember :
      (c : EntityCache db) (k j : RowId)
      → IsCoherent c
      → get k c.dirty ≡ none
      → (hit : Option Row) → get j (set k (db.read c.store k) c.cache) ≡ some hit
      → hit ≡ view c j
  remember c k j h clean hit found = elim (Bool-cases (pair_eq.same k j)) [
    | inl here ↦
        let read : some (db.read c.store k) ≡ some hit =
          sym (get-set k j (db.read c.store k) c.cache ∙ rw here refl) ∙ found in
        let at : k ≡ j = (pair_eq.same_iff k j).0 here in
        subst (λ (x : RowId). hit ≡ view c x) at (rw clean (ground arith))
    | inr other ↦ h j hit (sym (get-set k j (db.read c.store k) c.cache ∙ rw other refl) ∙ found)
  ]

  -- A read gives the row of the map, and leaves the map and the cache's memory of it as they are.
  pub get_row-view :
      (c : EntityCache db) (k j : RowId)
      → IsCoherent c
      → ((get_row db c k).0 ≡ view c k)
        × (view (get_row db c k).1 j ≡ view c j)
        × ((hit : Option Row) → get j (get_row db c k).1.cache ≡ some hit → hit ≡ view c j)
  unfolding get_row
  get_row-view c k j h = elim (Option-cases (get k c.cache)) [
    | inr (hit, found) ↦ rw (found, get_row) (h k hit found, refl, h j)
    | inl unread ↦ elim (Option-cases (get k c.dirty)) [
      | inr (row, written) ↦ rw (unread, get_row) (rw (written, get_row) (refl, refl, h j))
      | inl clean ↦ rw (unread, get_row) (rw (clean, get_row) (refl, refl, remember c k j h clean))
    ]
  ]

  -- A write changes the map at its row only.
  pub set_row-view :
      (c : EntityCache db) (k j : RowId) (row : Row)
      → view (set_row db c k row) j ≡ (if pair_eq.same k j then some row else view c j)
  unfolding set_row
  set_row-view c k j row = ground (arith, get-set k j row c.dirty)

  get-bucket :
      (cls : ℕ) (rows : Table RowId Row) (k : RowId)
      → get k (bucket db cls rows) ≡ (if k.0 == cls then get k rows else none)
  unfolding bucket get
  get-bucket cls [] k = ground arith
  get-bucket cls ((j, row) ∷ rows) k = ground (arith, get-bucket cls rows k, pair_eq.same_iff j k)

  get-clear :
      (cls : ℕ) (rows : Table RowId Row) (k : RowId)
      → get k (clear db cls rows) ≡ (if k.0 == cls then none else get k rows)
  unfolding clear get
  get-clear cls [] k = ground arith
  get-clear cls ((j, row) ∷ rows) k = ground (arith, get-clear cls rows k, pair_eq.same_iff j k)

  flush_class-view :
      (c : EntityCache db) (cls : ℕ) (k : RowId) → view (flush_class db c cls) k ≡ view c k
  unfolding flush_class
  flush_class-view c cls k = elim (Bool-cases (is_empty db (bucket db cls c.dirty))) [
    | inl empty ↦ rw (empty, flush_class) refl
    | inr rows ↦
        rw (rows, flush_class)
          (ground (
            arith,
            db.read_back c.store (bucket db cls c.dirty) k,
            get-bucket cls c.dirty k,
            get-clear cls c.dirty k,
          ))
  ]

  flush_class-IsCoherent :
      (c : EntityCache db) (cls : ℕ) → IsCoherent c → IsCoherent (flush_class db c cls)
  unfolding flush_class
  flush_class-IsCoherent c cls h k hit found =
      h k hit (ground arith) ∙ sym (flush_class-view c cls k)

  flush-view :
      (order : List ℕ) (c : EntityCache db) (k : RowId) → view (flush db order c) k ≡ view c k
  unfolding flush
  flush-view [] c k = refl
  flush-view (cls ∷ order) c k =
      flush-view order (flush_class db c cls) k ∙ flush_class-view c cls k

  flush-IsCoherent :
      (order : List ℕ) (c : EntityCache db) → IsCoherent c → IsCoherent (flush db order c)
  unfolding flush
  flush-IsCoherent [] c h = h
  flush-IsCoherent (cls ∷ order) c h =
      flush-IsCoherent order (flush_class db c cls) (flush_class-IsCoherent c cls h)

  set_row-IsCoherent :
      (c : EntityCache db) (k : RowId) (row : Row) → IsCoherent c → IsCoherent (set_row db c k row)
  unfolding set_row
  set_row-IsCoherent c k row h j hit found =
      ground (arith, get-set k j row c.dirty, get-set k j (some row) c.cache, h j hit)

  -- Whatever a batch reads, writes and writes back through the cache, in any order, its reads give the
  -- rows that one map would give, where the cache remembers of each row what this map holds at first.
  pub reads-map :
      (order : List ℕ) (ops : List (Operation Row)) (c : EntityCache db) (rows : RowId → Option Row)
      → IsCoherent c
      → ((k : RowId) → view c k ≡ rows k)
      → reads db order ops c ≡ map_reads ops rows
  unfolding reads map_reads
  reads-map order [] c rows h same = refl
  reads-map order (Operation.read_row k ∷ ops) c rows h same =
      let next = (get_row db c k).1 in
      let rest =
        reads-map order ops next rows
          (λ j hit found. (get_row-view c k j h).2 hit found ∙ sym (get_row-view c k j h).1)
          (λ j. (get_row-view c k j h).1 ∙ same j) in
      rw ((get_row-view c k k h).0, same k, rest) refl
  reads-map order (Operation.write_row k row ∷ ops) c rows h same =
      reads-map order ops (set_row db c k row) (λ j. if pair_eq.same k j then some row else rows j)
        (set_row-IsCoherent c k row h)
        (λ j. set_row-view c k j row ∙ ap (λ o. if pair_eq.same k j then some row else o) (same j))
  reads-map order (Operation.write_back ∷ ops) c rows h same =
      reads-map order ops (flush db order c) rows (flush-IsCoherent order c h)
        (λ j. flush-view order c j ∙ same j)

  nothing : (rows : Table RowId Row) (k : RowId) → is_empty db rows ≡ true → get k rows ≡ none
  unfolding get
  nothing [] k h = refl
  nothing (row ∷ rows) k h = absurd (ground arith)

  flush_class-clean :
      (order : List ℕ) (c : EntityCache db) (cls : ℕ) (k : RowId)
      → (has (cls ∷ order) k.0 ≡ true) ⊎ (get k c.dirty ≡ none)
      → (has order k.0 ≡ true) ⊎ (get k (flush_class db c cls).dirty ≡ none)
  unfolding flush_class
  flush_class-clean order c cls k h = elim (Bool-cases (has order k.0)) [
    | inl later ↦ inl later
    | inr now ↦ elim (Bool-cases (is_empty db (bucket db cls c.dirty))) [
      | inl empty ↦ inr (
          rw (empty, flush_class)
            (ground (arith, get-bucket cls c.dirty k, nothing (bucket db cls c.dirty) k empty)))
      | inr rows ↦ inr (rw (rows, flush_class) (ground (arith, get-clear cls c.dirty k)))
    ]
  ]

  -- A row of a listed class is not left unwritten.
  flush-clean :
      (order : List ℕ) (c : EntityCache db) (k : RowId)
      → (has order k.0 ≡ true) ⊎ (get k c.dirty ≡ none)
      → get k (flush db order c).dirty ≡ none
  unfolding flush
  flush-clean [] c k (inr clean) = clean
  flush-clean [] c k (inl listed) = absurd (ground arith)
  flush-clean (cls ∷ order) c k h =
      flush-clean order (flush_class db c cls) k (flush_class-clean order c cls k h)

  -- After a flush the database itself has every row of the classes that are listed as the map has it.
  pub flush-persists :
      (order : List ℕ) (c : EntityCache db) (k : RowId)
      → has order k.0 ≡ true
      → db.read (flush db order c).store k ≡ view c k
  flush-persists order c k listed =
      let clean = flush-clean order c k (inl listed) in
      ap (λ o. or_else o (db.read (flush db order c).store k)) (sym clean) ∙ flush-view order c k
