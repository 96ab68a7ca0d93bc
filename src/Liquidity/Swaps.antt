-- ===== src/Liquidity/Swaps.antt =====
-- squids/liquidity/src/handlers.ts: the swaps of a pool, and what they pay in fees.
use autonolas_subgraph.Prelude.{
  ◌∷◌, ℕ, ◌+◌, ◌||◌, Bool, true, false, Option, none, some, ◌==◌, ltb, if◌then◌else◌,
}
use autonolas_subgraph.Prelude.Equality.{nat_eq, pair_eq}
use autonolas_subgraph.Prelude.Result.{Result, ok, ◌>>=◌}
use autonolas_subgraph.Prelude.Table.{get, set}
use autonolas_subgraph.Liquidity.State.{
  Address, Meta, PoolMetrics, DailyFees, State, Ctx, Error, uniswap_v2_fee, balancer_fee,
  subtract_clamped, pool_address_from_pool_id, day_of,
}
use autonolas_subgraph.Liquidity.Metrics.{
  set_metrics, get_or_create_metrics, or_daily_fees, touch, refreshed, with_price,
}

-- Uniswap V2.
abbrev pub tokened : PoolMetrics → Option (Address × Address) → PoolMetrics
tokened v none = v
tokened v (some (t0, t1)) = record v { token0 = some t0; token1 = some t1 }

abbrev pub is_none : Option Address → Bool
is_none none = true
is_none (some _) = false

unfoldable pub synced : Ctx → Address → PoolMetrics → ℕ → ℕ → PoolMetrics
synced ctx pool v reserve0 reserve1 =
    let v' : PoolMetrics = record v { reserve0 = reserve0; reserve1 = reserve1 } in
    if is_none v.token0 || is_none v.token1 then tokened v' (ctx.pair_tokens pool) else v'

unfoldable pub handle_uniswap_sync : Ctx → State → Meta → ℕ → ℕ → Result Error State
handle_uniswap_sync ctx s m reserve0 reserve1 = do
  (s1, v) ← get_or_create_metrics ctx s m.address
  let pd = refreshed ctx.price s1.price_data m
  let v' = with_price ctx.price pd (synced ctx m.address v reserve0 reserve1)
  ok (set_metrics (record s1 { price_data = pd }) m.address (touch v' m))

unfoldable pub charged : PoolMetrics → ℕ → ℕ → PoolMetrics
charged v fee0 fee1 = record v {
  cumulative_fees_token0 = v.cumulative_fees_token0 + fee0;
  cumulative_fees_token1 = v.cumulative_fees_token1 + fee1;
}

unfoldable pub daily_charged : DailyFees → ℕ → ℕ → DailyFees
daily_charged d fee0 fee1 = record d {
  total_fees_token0 = d.total_fees_token0 + fee0;
  total_fees_token1 = d.total_fees_token1 + fee1;
  swap_count = d.swap_count + 1;
}

unfoldable pub add_fees : State → Meta → Address → PoolMetrics → ℕ → ℕ → State
add_fees s m pool v fee0 fee1 =
    let day = day_of m.block_timestamp in
    let d = or_daily_fees (get (pool, day) s.daily_fees) pool day in
    set_metrics (record s { daily_fees = set (pool, day) (daily_charged d fee0 fee1) s.daily_fees })
      pool (touch (charged v fee0 fee1) m)

unfoldable pub handle_uniswap_swap : Ctx → State → Meta → ℕ → ℕ → Result Error State
handle_uniswap_swap ctx s m amount0_in amount1_in = do
  (s1, v) ← get_or_create_metrics ctx s m.address
  ok (add_fees s1 m m.address v (uniswap_v2_fee amount0_in) (uniswap_v2_fee amount1_in))

-- Balancer V2 Vault Swap.
pub record SwapParams : Type 0 where
  pub pool_id : ℕ
  pub token_in : Address
  pub token_out : Address
  pub amount_in : ℕ
  pub amount_out : ℕ

abbrev pub or_id : Option ℕ → ℕ → ℕ
or_id none id = id
or_id (some held) id = held

abbrev pub or_percentage : Option ℕ → ℕ
or_percentage none = 0
or_percentage (some fee) = fee

unfoldable pub with_percentage : Ctx → Meta → Address → PoolMetrics → PoolMetrics
with_percentage ctx m pool v =
    if v.swap_fee_percentage == 0
    then record v {
      swap_fee_percentage = or_percentage (ctx.swap_fee_percentage pool m.block_number);
    }
    else v

unfoldable pub received : PoolMetrics → Address → Address → SwapParams → PoolMetrics
received v t0 t1 p =
    if p.token_in == t0
    then record v { reserve0 = v.reserve0 + p.amount_in }
    else if p.token_in == t1
    then record v { reserve1 = v.reserve1 + p.amount_in }
    else v

unfoldable pub paid : PoolMetrics → Address → Address → SwapParams → PoolMetrics
paid v t0 t1 p =
    if p.token_out == t0
    then record v { reserve0 = (subtract_clamped v.reserve0 p.amount_out).0 }
    else if p.token_out == t1
    then record v { reserve1 = (subtract_clamped v.reserve1 p.amount_out).0 }
    else v

-- Nothing for a block whose end the reserves were fetched at.
unfoldable pub swapped : PoolMetrics → Meta → Address → Address → SwapParams → PoolMetrics
swapped v m t0 t1 p =
    if ltb v.reserves_refreshed_at_block m.block_number
    then paid (received v t0 t1 p) t0 t1 p
    else v

unfoldable pub swap_tokens :
    Ctx → State → Meta → Address → SwapParams → PoolMetrics → Address → Address → State
swap_tokens ctx s m pool p v t0 t1 =
    let v1 = with_percentage ctx m pool v in
    let fee = balancer_fee p.amount_in v1.swap_fee_percentage in
    let pd = refreshed ctx.price s.price_data m in
    let v2 = with_price ctx.price pd (swapped v1 m t0 t1 p) in
    add_fees (record s { price_data = pd }) m pool v2 (if p.token_in == t0 then fee else 0)
      (if p.token_in == t0 then 0 else fee)

-- The id of a pool that has none, set in place and not saved.
abbrev pub set_id : State → Address → PoolMetrics → Option ℕ → ℕ → State
set_id s pool v (some _) id = s
set_id s pool v none id = record s {
  metrics = set pool (record v { pool_id = some id }) s.metrics;
  named = pool ∷ s.named;
}

-- A swap of a pool whose tokens are not known saves nothing.
abbrev pub swap_known :
    Ctx
    → State
    → Meta
    → Address
    → SwapParams
    → PoolMetrics
    → Option Address
    → Option Address
    → State
swap_known ctx s m pool p v (some t0) (some t1) = swap_tokens ctx s m pool p v t0 t1
swap_known ctx s m pool p v _ _ = s

unfoldable pub swap_pool : Ctx → State → Meta → Address → SwapParams → PoolMetrics → State
swap_pool ctx s m pool p v =
    if or_id v.pool_id p.pool_id == p.pool_id
    then swap_known ctx (set_id s pool v v.pool_id p.pool_id) m pool p
        (record v { pool_id = some p.pool_id }) v.token0 v.token1
    else s

abbrev pub swap_metrics : Ctx → State → Meta → Address → SwapParams → Option PoolMetrics → State
swap_metrics ctx s m pool p none = s
swap_metrics ctx s m pool p (some v) = swap_pool ctx s m pool p v

-- A swap of a pool that is not configured, or that no mint or burn has set up, is dropped.
unfoldable pub handle_vault_swap : Ctx → State → Meta → SwapParams → State
handle_vault_swap ctx s m p =
    let pool = pool_address_from_pool_id p.pool_id in
    elim (ctx.pools pool) [ none ↦ s | some _ ↦ swap_metrics ctx s m pool p (get pool s.metrics) ]
