-- ===== src/Liquidity/Transfers.antt =====
-- squids/liquidity/src/handlers.ts: the transfers of a pool's own token.
use autonolas_subgraph.Prelude.{
  ℕ, ◌+◌, ◌-◌, ◌||◌, ◌&&◌, Bool, true, false, Option, none, some, List, ◌∷◌, ◌==◌, ltb,
  if◌then◌else◌,
}
use autonolas_subgraph.Prelude.Equality.{nat_eq, pair_eq}
use autonolas_subgraph.Prelude.Result.{Result, ok, ◌>>=◌}
use autonolas_subgraph.Prelude.Table.{set}
use autonolas_subgraph.Liquidity.State.{
  Address, Meta, DexKind, balancer_v2, uniswap_v2, PoolMetrics, BptTransfer, State, Ctx, Error,
}
use autonolas_subgraph.Liquidity.Metrics.{set_metrics, get_or_create_metrics, touch}

-- LP token Transfer.
pub record TransferParams : Type 0 where
  pub from : Address
  pub to : Address
  pub value : ℕ

unfoldable pub mint : PoolMetrics → ℕ → PoolMetrics
mint v value = record v {
  total_supply = v.total_supply + value;
  total_minted = v.total_minted + value;
}

unfoldable pub burn : PoolMetrics → ℕ → PoolMetrics
burn v value = record v {
  total_supply = if ltb v.total_supply value then 0 else v.total_supply - value;
  total_burned = v.total_burned + value;
}

abbrev pub is_mint : TransferParams → Bool
is_mint p = p.from == 0

abbrev pub is_burn : TransferParams → Bool
is_burn p = p.to == 0

unfoldable pub moved : PoolMetrics → TransferParams → PoolMetrics
moved v p = if is_mint p then mint v p.value else if is_burn p then burn v p.value else v

-- The reserves of a pool of two tokens or more, as of the end of the block.
abbrev pub with_reserves : PoolMetrics → ℕ → Option (List Address × List ℕ) → PoolMetrics
with_reserves v block (some (t0 ∷ t1 ∷ _, b0 ∷ b1 ∷ _)) = record v {
  token0 = some t0;
  token1 = some t1;
  reserve0 = b0;
  reserve1 = b1;
  reserves_refreshed_at_block = block;
}
with_reserves v block _ = v

abbrev pub refetched : Ctx → Address → Meta → PoolMetrics → Option ℕ → PoolMetrics
refetched ctx pool m v none = v
refetched ctx pool m v (some id) =
    with_reserves (record v { pool_id = some id }) m.block_number
      (ctx.reserves_at pool m.block_number)

abbrev pub is_balancer : DexKind → Bool
is_balancer balancer_v2 = true
is_balancer uniswap_v2 = false

unfoldable pub refetch : Ctx → Address → Meta → TransferParams → PoolMetrics → PoolMetrics
refetch ctx pool m p v =
    if (is_mint p || is_burn p) && is_balancer v.dex
    then refetched ctx pool m v (ctx.pool_id pool)
    else v

unfoldable pub transfer_row : Meta → TransferParams → BptTransfer
transfer_row m p = record {
  pool = m.address;
  from = p.from;
  to = p.to;
  value = p.value;
  block_number = m.block_number;
  block_timestamp = m.block_timestamp;
  transaction_hash = m.tx_hash;
}

unfoldable pub handle_lp_transfer : Ctx → State → Meta → TransferParams → Result Error State
handle_lp_transfer ctx s m p = do
  (s1, v) ← get_or_create_metrics ctx s m.address
  let s2 : State = record s1 {
    transfers = set (m.tx_hash, m.log_index) (transfer_row m p) s1.transfers;
  }
  ok (set_metrics s2 m.address (touch (refetch ctx m.address m p (moved v p)) m))
