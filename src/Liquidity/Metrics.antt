-- ===== src/Liquidity/Metrics.antt =====
-- squids/liquidity/src/handlers.ts: the rows of the pools and of the days, and the price of the native token.
use autonolas_subgraph.Prelude.{ℕ, ◌+◌, ◌∷◌, Bool, true, Option, none, some, leb, if◌then◌else◌}
use autonolas_subgraph.Prelude.Int.{pos, ltb_ℤ}
use autonolas_subgraph.Prelude.Equality.{nat_eq, pair_eq}
use autonolas_subgraph.Prelude.Result.{Result, throw, ok}
use autonolas_subgraph.Prelude.Table.{get, set}
use autonolas_subgraph.Liquidity.State.{
  Address, Meta, DexKind, PoolMetrics, DailyFees, PriceData, State, UsdPrice, Ctx, Error,
  not_configured,
}

unfoldable pub new_metrics : DexKind → PoolMetrics
new_metrics dex = record {
  dex = dex;
  pool_id = none;
  token0 = none;
  token1 = none;
  reserve0 = 0;
  reserve1 = 0;
  total_supply = 0;
  reserves_refreshed_at_block = 0;
  total_minted = 0;
  total_burned = 0;
  cumulative_fees_token0 = 0;
  cumulative_fees_token1 = 0;
  swap_fee_percentage = 0;
  native_usd_price = pos 0;
  last_updated_block = 0;
  last_updated_timestamp = 0;
  last_updated_transaction = 0;
}

abbrev pub set_metrics : State → Address → PoolMetrics → State
set_metrics s pool v = record s { metrics = set pool v s.metrics; saved = pool ∷ s.saved }

abbrev pub create_metrics : State → Address → Option DexKind → Result Error (State × PoolMetrics)
create_metrics s pool none = throw (not_configured pool)
create_metrics s pool (some dex) = ok (set_metrics s pool (new_metrics dex), new_metrics dex)

abbrev pub or_create :
    Ctx → State → Address → Option PoolMetrics → Result Error (State × PoolMetrics)
or_create ctx s pool (some v) = ok (s, v)
or_create ctx s pool none = create_metrics s pool (ctx.pools pool)

unfoldable pub get_or_create_metrics : Ctx → State → Address → Result Error (State × PoolMetrics)
get_or_create_metrics ctx s pool = or_create ctx s pool (get pool s.metrics)

abbrev pub or_daily_fees : Option DailyFees → Address → ℕ → DailyFees
or_daily_fees none pool day = record {
  pool = pool;
  day_timestamp = day;
  total_fees_token0 = 0;
  total_fees_token1 = 0;
  swap_count = 0;
}
or_daily_fees (some d) pool day = d

unfoldable pub touch : PoolMetrics → Meta → PoolMetrics
touch v m = record v {
  last_updated_block = m.block_number;
  last_updated_timestamp = m.block_timestamp;
  last_updated_transaction = m.tx_hash;
}

-- The feed is read again once the price is an hour old.
abbrev pub is_stale : Option PriceData → Meta → Bool
is_stale none m = true
is_stale (some pd) m = leb (pd.last_updated_timestamp + 3600) m.block_timestamp

abbrev pub read_price : Option PriceData → Option UsdPrice → Meta → Option PriceData
read_price old none m = old
read_price old (some p) m =
    if ltb_ℤ (pos 0) p.answer
    then some (record {
      price = p.answer;
      decimals = p.decimals;
      last_updated_block = m.block_number;
      last_updated_timestamp = m.block_timestamp;
    })
    else old

unfoldable pub refreshed : Option (ℕ → Option UsdPrice) → Option PriceData → Meta → Option PriceData
refreshed none old m = old
refreshed (some usd_at) old m =
    if is_stale old m then read_price old (usd_at m.block_number) m else old

abbrev pub priced : Option PriceData → PoolMetrics → PoolMetrics
priced none v = v
priced (some pd) v = if ltb_ℤ (pos 0) pd.price then record v { native_usd_price = pd.price } else v

-- The pool's price is set only on a chain with a feed.
unfoldable pub with_price :
    Option (ℕ → Option UsdPrice) → Option PriceData → PoolMetrics → PoolMetrics
with_price none pd v = v
with_price (some _) pd v = priced pd v
