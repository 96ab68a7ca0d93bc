-- ===== src/Liquidity/Events.antt =====
-- squids/liquidity/src/main.ts: the decoded logs of the pools and of the Vault.
use autonolas_subgraph.Prelude.{
  ℕ, Bool, false, ◌||◌, Option, none, some, List, [], ◌∷◌, ◌==◌, if◌then◌else◌,
}
use autonolas_subgraph.Prelude.Result.{Result, ok, ◌>>=◌}
use autonolas_subgraph.Liquidity.State.{Address, PoolMetrics, Meta, DexKind, State, Ctx, Error}
use autonolas_subgraph.Prelude.Table.{get, set}
use autonolas_subgraph.Prelude.Equality.{nat_eq}
use autonolas_subgraph.Liquidity.Transfers.{TransferParams, handle_lp_transfer}
use autonolas_subgraph.Liquidity.Swaps.{
  SwapParams, handle_uniswap_sync, handle_uniswap_swap, handle_vault_swap,
}

pub data Event : Type 0 where
  transfer : TransferParams → Event
  sync : ℕ → ℕ → Event
  pair_swap : ℕ → ℕ → Event
  vault_swap : SwapParams → Event

-- A log of a configured pool.
abbrev pub handle_pool : Ctx → State → Meta → Event → Result Error State
handle_pool ctx s m (Event.transfer p) = handle_lp_transfer ctx s m p
handle_pool ctx s m (Event.sync reserve0 reserve1) = handle_uniswap_sync ctx s m reserve0 reserve1
handle_pool ctx s m (Event.pair_swap amount0_in amount1_in) =
    handle_uniswap_swap ctx s m amount0_in amount1_in
handle_pool ctx s m (Event.vault_swap p) = ok s

abbrev pub handle_vault : Ctx → State → Meta → Event → State
handle_vault ctx s m (Event.vault_swap p) = handle_vault_swap ctx s m p
handle_vault ctx s m _ = s

abbrev pub handle_at : Ctx → State → Meta → Event → Option DexKind → Result Error State
handle_at ctx s m e (some _) = handle_pool ctx s m e
handle_at ctx s m e none =
    ok (if m.address == ctx.balancer_vault then handle_vault ctx s m e else s)

unfoldable pub handle : Ctx → State → Meta → Event → Result Error State
handle ctx s m e = handle_at ctx s m e (ctx.pools m.address)

unfoldable pub handle_logs : Ctx → State → List (Meta × Event) → Result Error State
handle_logs ctx s [] = ok s
handle_logs ctx s ((m, e) ∷ logs) = do s' ← handle ctx s m e; handle_logs ctx s' logs

-- What is left of an id that was set in place and not saved.
abbrev pub without_id : State → Address → Option PoolMetrics → State
without_id s pool none = s
without_id s pool (some v) = record s { metrics = set pool (record v { pool_id = none }) s.metrics }

abbrev pub is_saved : List Address → Address → Bool
is_saved [] pool = false
is_saved (x ∷ saved) pool = x == pool || is_saved saved pool

unfoldable pub drop_unsaved : State → List Address → State
drop_unsaved s [] = s
drop_unsaved s (pool ∷ named) =
    drop_unsaved (if is_saved s.saved pool then s else without_id s pool (get pool s.metrics)) named

-- The rows of the database after `flush`, which writes the rows that were saved.
unfoldable pub flush : State → State
flush s = drop_unsaved s s.named

-- A batch, with a cache of its own.
unfoldable pub run : Ctx → State → List (Meta × Event) → Result Error State
run ctx s logs = do s' ← handle_logs ctx (record s { saved = []; named = [] }) logs; ok (flush s')
