-- ===== src/Shared/Cache.antt =====
-- squids/_shared/src/entityCache.ts: the cache between the handlers of a squid and its database.
pub mod View
mod Tests
use autonolas_subgraph.Prelude.{
  ℕ, Bool, Option, none, some, List, [], ◌∷◌, ◌≡◌, ◌==◌, if◌then◌else◌,
}
use autonolas_subgraph.Prelude.Equality.{nat_eq, pair_eq}
use autonolas_subgraph.Prelude.Table.{Table, get, set}

-- A row is named by its class and its id.
abbrev pub RowId : Type 0
RowId = ℕ × ℕ

abbrev pub or_else {ℓ} : {A : Type ℓ} → Option A → Option A → Option A
or_else none other = other
or_else (some v) other = some v

-- `StoreLike`, the database: a row that is upserted is read back, and all others stay.
pub record StoreLike (Row : Type 0) : Type 1 where
  pub Store : Type 0
  pub read : Store → RowId → Option Row
  pub upsert : Store → Table RowId Row → Store
  pub read_back :
      (s : Store) (rows : Table RowId Row) (k : RowId)
      → read (upsert s rows) k ≡ or_else (get k rows) (read s k)

module _ {Row : Type 0} (db : StoreLike Row) where
  -- The rows that were read or written, the rows that are not written back yet, and the database.
  pub record EntityCache : Type 0 where
    pub cache : Table RowId (Option Row)
    pub dirty : Table RowId Row
    pub store : db.Store

  -- `get`, without relations: the row, and the cache that remembers it.
  unfoldable pub get_row : EntityCache → RowId → Option Row × EntityCache
  get_row c k = elim (get k c.cache) [
    | some hit ↦ (hit, c)
    | none ↦ elim (get k c.dirty) [
      | some row ↦ (some row, c)
      | none ↦ (db.read c.store k, record c { cache = set k (db.read c.store k) c.cache })
    ]
  ]

  unfoldable pub set_row : EntityCache → RowId → Row → EntityCache
  set_row c k row = record c { cache = set k (some row) c.cache; dirty = set k row c.dirty }

  -- The rows of one class that are not written back, and the others.
  unfoldable pub bucket : ℕ → Table RowId Row → Table RowId Row
  bucket cls [] = []
  bucket cls ((k, row) ∷ rows) =
      let rest = bucket cls rows in if k.0 == cls then (k, row) ∷ rest else rest

  unfoldable pub clear : ℕ → Table RowId Row → Table RowId Row
  clear cls [] = []
  clear cls ((k, row) ∷ rows) =
      let rest = clear cls rows in if k.0 == cls then rest else (k, row) ∷ rest

  abbrev pub is_empty : Table RowId Row → Bool
  is_empty [] = Bool.true
  is_empty (_ ∷ _) = Bool.false

  unfoldable pub flush_class : EntityCache → ℕ → EntityCache
  flush_class c cls =
      if is_empty (bucket cls c.dirty)
      then c
      else record c { store = db.upsert c.store (bucket cls c.dirty); dirty = clear cls c.dirty }

  -- `flush`, in the order of the classes.
  unfoldable pub flush : List ℕ → EntityCache → EntityCache
  flush [] c = c
  flush (cls ∷ order) c = flush order (flush_class c cls)

-- What the handlers of a batch do with the cache.
pub data Operation (Row : Type 0) : Type 0 where
  read_row : RowId → Operation Row
  write_row : RowId → Row → Operation Row
  write_back : Operation Row

module _ {Row : Type 0} (db : StoreLike Row) where
  -- The rows that the reads give.
  unfoldable pub reads : List ℕ → List (Operation Row) → EntityCache db → List (Option Row)
  reads order [] c = []
  reads order (Operation.read_row k ∷ ops) c =
      let (row, next) = get_row db c k in row ∷ reads order ops next
  reads order (Operation.write_row k row ∷ ops) c = reads order ops (set_row db c k row)
  reads order (Operation.write_back ∷ ops) c = reads order ops (flush db order c)

-- `InMemoryCache`: one map, for which a flush is nothing.
unfoldable pub map_reads :
    {Row : Type 0} → List (Operation Row) → (RowId → Option Row) → List (Option Row)
map_reads [] rows = []
map_reads (Operation.read_row k ∷ ops) rows = rows k ∷ map_reads ops rows
map_reads (Operation.write_row k row ∷ ops) rows =
    map_reads ops (λ j. if pair_eq.same k j then some row else rows j)
map_reads (Operation.write_back ∷ ops) rows = map_reads ops rows
