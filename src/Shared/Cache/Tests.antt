-- ===== src/Shared/Cache/Tests.antt =====
-- squids/_shared/src/entityCache.ts: a database that is a list of rows, and a batch.
use autonolas_subgraph.Prelude.{ℕ, some, List, [], ◌∷◌, ◌++◌, ◌≡◌, refl, arith}
use autonolas_subgraph.Prelude.Equality.{nat_eq, pair_eq}
use autonolas_subgraph.Prelude.Table.{Table, get, set}
use autonolas_subgraph.Shared.Cache.{
  RowId, StoreLike, or_else, EntityCache, Operation, reads, map_reads, flush, set_row,
}
use autonolas_subgraph.Shared.Cache.View.{view, reads-map, flush-persists}

get-append :
    (rows t : Table RowId ℕ) (k : RowId) → get k (rows ++ t) ≡ or_else (get k rows) (get k t)
unfolding get
get-append [] t k = refl
get-append ((j, v) ∷ rows) t k = ground (arith, get-append rows t k)

abbrev rows_store : StoreLike ℕ
rows_store = record {
  Store = Table RowId ℕ;
  read = λ s k. get k s;
  upsert = λ s rows. rows ++ s;
  read_back = λ s rows k. get-append rows s k;
}

abbrev stored : EntityCache rows_store
stored = record { cache = []; dirty = []; store = ((1, 5), 50) ∷ [] }

abbrev batch : List (Operation ℕ)
batch =
    Operation.read_row (1, 5)
    ∷ Operation.write_row (1, 5) 51
    ∷ Operation.write_row (2, 6) 60
    ∷ Operation.write_back
    ∷ Operation.read_row (2, 6)
    ∷ Operation.read_row (1, 5)
    ∷ []

reads-map_example : reads rows_store (2 ∷ 1 ∷ []) batch stored ≡ some 50 ∷ some 60 ∷ some 51 ∷ []
unfolding get map_reads
reads-map_example =
    reads-map rows_store (2 ∷ 1 ∷ []) batch stored (view rows_store stored)
      (λ k hit found. absurd (ground arith)) (λ k. refl)

flush-persists_example :
    get (1, 5) (flush rows_store (1 ∷ []) (set_row rows_store stored (1, 5) 51)).store ≡ some 51
unfolding get set set_row
flush-persists_example =
    flush-persists rows_store (1 ∷ []) (set_row rows_store stored (1, 5) 51) (1, 5) refl
