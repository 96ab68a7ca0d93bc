-- ===== src/Liquidity/Books.antt =====
-- squids/liquidity/src/handlers.ts: the fees of a pool against its days, and its supply against what was
-- minted and burned.
pub mod Writes
pub mod Batch
use autonolas_subgraph.Prelude.{
  ℕ, ◌+◌, ◌≤◌, ◌≡◌, refl, ap, Bool, true, false, Option, none, some, List, [], ◌∷◌, arith,
}
use autonolas_subgraph.Prelude.Int.{pos}
use autonolas_subgraph.Prelude.Equality.{nat_eq, pair_eq}
use autonolas_subgraph.Prelude.Table.{Table}
use autonolas_subgraph.Prelude.Groups.{IsGrouped, set-IsGrouped, total-IsGrouped}
use autonolas_subgraph.Prelude.Rows.{AllRows, set-AllRows, get-AllRows}
use autonolas_subgraph.Liquidity.State.{
  Address, Meta, PoolMetrics, DailyFees, PriceData, UsdPrice, State, Ctx, subtract_clamped,
}
use autonolas_subgraph.Liquidity.Metrics.{touch, priced, with_price}
use autonolas_subgraph.Liquidity.Transfers.{
  TransferParams, mint, burn, moved, with_reserves, refetched, refetch,
}
use autonolas_subgraph.Liquidity.Swaps.{
  SwapParams, tokened, synced, with_percentage, received, paid, swapped,
}

-- The supply is at most what was minted, and all that was minted is there or was burned: a burn of more
-- than the recorded supply leaves 0.
pub record IsSupplied (v : PoolMetrics) : Type 0 where
  pub within : v.total_supply ≤ v.total_minted
  pub covered : v.total_minted ≤ v.total_supply + v.total_burned

-- Each pool's fees are the sums over its days, in both tokens, and its supply is as above.
pub record AreBooks (metrics : Table Address PoolMetrics) (daily : Table (Address × ℕ) DailyFees)
    : Type 0 where
  pub fees0 :
      IsGrouped
        (λ v. pos v.cumulative_fees_token0)
        (λ (k : Address × ℕ). k.0)
        (λ d. pos d.total_fees_token0)
        metrics
        daily
  pub fees1 :
      IsGrouped
        (λ v. pos v.cumulative_fees_token1)
        (λ (k : Address × ℕ). k.0)
        (λ d. pos d.total_fees_token1)
        metrics
        daily
  pub supplied : AllRows IsSupplied metrics

abbrev pub IsReconciled : State → Type 0
IsReconciled s = AreBooks s.metrics s.daily_fees

-- What a handler does to a row before it charges fees.
pub record IsFine (fees0 fees1 : ℕ) (v : PoolMetrics) : Type 0 where
  pub same0 : v.cumulative_fees_token0 ≡ fees0
  pub same1 : v.cumulative_fees_token1 ≡ fees1
  pub within : v.total_supply ≤ v.total_minted
  pub covered : v.total_minted ≤ v.total_supply + v.total_burned

module _ {fees0 fees1 : ℕ} where
  pub touch-IsFine :
      (v : PoolMetrics) (m : Meta) → IsFine fees0 fees1 v → IsFine fees0 fees1 (touch v m)
  unfolding touch
  touch-IsFine v m h = ground arith

  priced-IsFine :
      (pd : Option PriceData) (v : PoolMetrics)
      → IsFine fees0 fees1 v
      → IsFine fees0 fees1 (priced pd v)
  priced-IsFine none v h = h
  priced-IsFine (some pd) v h = ground arith

  pub with_price-IsFine :
      (feed : Option (ℕ → Option UsdPrice)) (pd : Option PriceData) (v : PoolMetrics)
      → IsFine fees0 fees1 v
      → IsFine fees0 fees1 (with_price feed pd v)
  unfolding with_price
  with_price-IsFine none pd v h = h
  with_price-IsFine (some _) pd v h = priced-IsFine pd v h

  pub moved-IsFine :
      (v : PoolMetrics) (p : TransferParams) → IsFine fees0 fees1 v → IsFine fees0 fees1 (moved v p)
  unfolding moved mint burn
  moved-IsFine v p h = ground arith

  reserves-IsFine :
      (v : PoolMetrics) (block : ℕ) (o : Option (List Address × List ℕ))
      → IsFine fees0 fees1 v
      → IsFine fees0 fees1 (with_reserves v block o)
  reserves-IsFine v block none h = h
  reserves-IsFine v block (some ([], _)) h = h
  reserves-IsFine v block (some (t0 ∷ [], _)) h = h
  reserves-IsFine v block (some (t0 ∷ t1 ∷ _, [])) h = h
  reserves-IsFine v block (some (t0 ∷ t1 ∷ _, b0 ∷ [])) h = h
  reserves-IsFine v block (some (t0 ∷ t1 ∷ _, b0 ∷ b1 ∷ _)) h = ground arith

  refetched-IsFine :
      (ctx : Ctx) (pool : Address) (m : Meta) (v : PoolMetrics) (o : Option ℕ)
      → IsFine fees0 fees1 v
      → IsFine fees0 fees1 (refetched ctx pool m v o)
  refetched-IsFine ctx pool m v none h = h
  refetched-IsFine ctx pool m v (some id) h =
      reserves-IsFine (record v { pool_id = some id }) m.block_number
        (ctx.reserves_at pool m.block_number) (ground arith)

  pub refetch-IsFine :
      (ctx : Ctx) (pool : Address) (m : Meta) (p : TransferParams) (v : PoolMetrics)
      → IsFine fees0 fees1 v
      → IsFine fees0 fees1 (refetch ctx pool m p v)
  unfolding refetch
  refetch-IsFine ctx pool m p v h =
      ground (arith, refetched-IsFine ctx pool m v (ctx.pool_id pool) h)

  tokened-IsFine :
      (v : PoolMetrics) (o : Option (Address × Address))
      → IsFine fees0 fees1 v
      → IsFine fees0 fees1 (tokened v o)
  tokened-IsFine v none h = h
  tokened-IsFine v (some (t0, t1)) h = ground arith

  pub synced-IsFine :
      (ctx : Ctx) (pool : Address) (v : PoolMetrics) (reserve0 reserve1 : ℕ)
      → IsFine fees0 fees1 v
      → IsFine fees0 fees1 (synced ctx pool v reserve0 reserve1)
  unfolding synced
  synced-IsFine ctx pool v reserve0 reserve1 h =
      let v' : PoolMetrics = record v { reserve0 = reserve0; reserve1 = reserve1 } in
      ground (arith, tokened-IsFine v' (ctx.pair_tokens pool) (ground arith))

  pub with_percentage-IsFine :
      (ctx : Ctx) (m : Meta) (pool : Address) (v : PoolMetrics)
      → IsFine fees0 fees1 v
      → IsFine fees0 fees1 (with_percentage ctx m pool v)
  unfolding with_percentage
  with_percentage-IsFine ctx m pool v h = ground arith

  pub swapped-IsFine :
      (v : PoolMetrics) (m : Meta) (t0 t1 : Address) (p : SwapParams)
      → IsFine fees0 fees1 v
      → IsFine fees0 fees1 (swapped v m t0 t1 p)
  unfolding swapped received paid
  swapped-IsFine v m t0 t1 p h = ground arith
