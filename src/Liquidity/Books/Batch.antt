-- ===== src/Liquidity/Books/Batch.antt =====
-- squids/liquidity/src/handlers.ts and main.ts: every log of a batch keeps the books, and none throws.
use autonolas_subgraph.Prelude.{
  ℕ, ◌≡◌, refl, Bool, true, false, Option, none, some, List, [], ◌∷◌, ◌==◌, arith, Bool-cases,
  Option-cases, inl, inr, if◌then◌else◌,
}
use autonolas_subgraph.Prelude.Equality.{nat_eq, pair_eq}
use autonolas_subgraph.Prelude.Result.{Result, ok}
use autonolas_subgraph.Prelude.Table.{get, set, get-set_self}
use autonolas_subgraph.Prelude.Rows.{get-AllRows}
use autonolas_subgraph.Liquidity.State.{
  Address, Meta, DexKind, PoolMetrics, State, Ctx, Error, uniswap_v2_fee, balancer_fee,
  pool_address_from_pool_id,
}
use autonolas_subgraph.Liquidity.Metrics.{
  new_metrics, set_metrics, get_or_create_metrics, touch, refreshed, with_price,
}
use autonolas_subgraph.Liquidity.Transfers.{
  TransferParams, moved, refetch, handle_lp_transfer, transfer_row,
}
use autonolas_subgraph.Liquidity.Swaps.{
  SwapParams, synced, handle_uniswap_sync, add_fees, handle_uniswap_swap, or_id, with_percentage,
  swapped, swap_tokens, set_id, swap_known, swap_pool, handle_vault_swap,
}
use autonolas_subgraph.Liquidity.Events.{
  handle_logs, without_id, is_saved, drop_unsaved, flush, Event, handle_pool, handle_vault, handle,
  run,
}
use autonolas_subgraph.Liquidity.Books.{
  IsSupplied, IsReconciled, IsFine, touch-IsFine, with_price-IsFine, moved-IsFine, refetch-IsFine,
  synced-IsFine, with_percentage-IsFine, swapped-IsFine,
}
use autonolas_subgraph.Liquidity.Books.Writes.{
  IsHeld, supplied-IsFine, new-IsFine, write-AreBooks, fees-IsReconciled, new-AreBooks,
}

-- The row of a configured pool is there or is created.
IsRead : Ctx → State → Address → Type 0
IsRead ctx s pool =
    (r : State × PoolMetrics) × (get_or_create_metrics ctx s pool ≡ ok r) × IsHeld r.0 pool r.1

metrics-IsRead :
    (ctx : Ctx) (s : State) (pool : Address) (dex : DexKind)
    → ctx.pools pool ≡ some dex
    → IsReconciled s
    → IsRead ctx s pool
unfolding get_or_create_metrics IsRead
metrics-IsRead ctx s pool dex configured h = elim (Option-cases (get pool s.metrics)) [
  | inl new ↦ (
    (set_metrics s pool (new_metrics dex), new_metrics dex),
    rw new (rw configured refl),
    record {
      booked = new-AreBooks s.metrics s.daily_fees pool dex new h;
      held = get-set_self pool (new_metrics dex) s.metrics;
      fine = new-IsFine dex;
    },
  )
  | inr (v, old) ↦ (
    (s, v),
    rw old refl,
    record {
      booked = h;
      held = old;
      fine = supplied-IsFine v (get-AllRows IsSupplied pool v s.metrics h.supplied old);
    },
  )
]

-- What a log of a pool comes to.
Returns : Result Error State → Type 0
Returns r = (t : State) × (r ≡ ok t) × IsReconciled t

module _ (ctx : Ctx) (s : State) (m : Meta) (dex : DexKind)
    (configured : ctx.pools m.address ≡ some dex) (h : IsReconciled s) where
  transfer-Returns : (p : TransferParams) → Returns (handle_lp_transfer ctx s m p)
  unfolding handle_lp_transfer Returns IsRead
  transfer-Returns p =
      let ((s1, v), returned, r) = metrics-IsRead ctx s m.address dex configured h in
      let w = touch (refetch ctx m.address m p (moved v p)) m in
      let row = set (m.tx_hash, m.log_index) (transfer_row m p) s1.transfers in
      (
        set_metrics (record s1 { transfers = row }) m.address w,
        rw returned refl,
        write-AreBooks s1.metrics s1.daily_fees m.address v w r.booked r.held
            (touch-IsFine _ m (refetch-IsFine ctx m.address m p _ (moved-IsFine v p r.fine))),
      )

  sync-Returns : (reserve0 reserve1 : ℕ) → Returns (handle_uniswap_sync ctx s m reserve0 reserve1)
  unfolding handle_uniswap_sync Returns IsRead
  sync-Returns reserve0 reserve1 =
      let ((s1, v), returned, r) = metrics-IsRead ctx s m.address dex configured h in
      let pd = refreshed ctx.price s1.price_data m in
      let w = touch (with_price ctx.price pd (synced ctx m.address v reserve0 reserve1)) m in
      (
        set_metrics (record s1 { price_data = pd }) m.address w,
        rw returned refl,
        write-AreBooks s1.metrics s1.daily_fees m.address v w r.booked r.held (
            touch-IsFine _ m (
              with_price-IsFine ctx.price pd _
                (synced-IsFine ctx m.address v reserve0 reserve1 r.fine))),
      )

  swap-Returns : (in0 in1 : ℕ) → Returns (handle_uniswap_swap ctx s m in0 in1)
  unfolding handle_uniswap_swap Returns IsRead
  swap-Returns in0 in1 =
      let ((s1, v), returned, r) = metrics-IsRead ctx s m.address dex configured h in
      (
        add_fees s1 m m.address v (uniswap_v2_fee in0) (uniswap_v2_fee in1),
        rw returned refl,
        fees-IsReconciled s1 m m.address v v (uniswap_v2_fee in0) (uniswap_v2_fee in1) r.booked
            r.held r.fine,
      )

  pool-Returns : (e : Event) → Returns (handle_pool ctx s m e)
  unfolding Returns
  pool-Returns (Event.transfer p) = transfer-Returns p
  pool-Returns (Event.sync reserve0 reserve1) = sync-Returns reserve0 reserve1
  pool-Returns (Event.pair_swap in0 in1) = swap-Returns in0 in1
  pool-Returns (Event.vault_swap p) = (s, refl, h)

module _ (ctx : Ctx) (s : State) (m : Meta) (pool : Address) (p : SwapParams)
    (h : IsReconciled s) where
  tokens-IsReconciled :
      (v w : PoolMetrics) (t0 t1 : Address)
      → get pool s.metrics ≡ some v
      → IsFine v.cumulative_fees_token0 v.cumulative_fees_token1 w
      → IsReconciled (swap_tokens ctx s m pool p w t0 t1)
  unfolding swap_tokens
  tokens-IsReconciled v w t0 t1 held fine =
      let w1 = with_percentage ctx m pool w in
      let fee = balancer_fee p.amount_in w1.swap_fee_percentage in
      let pd = refreshed ctx.price s.price_data m in
      let w2 = with_price ctx.price pd (swapped w1 m t0 t1 p) in
      fees-IsReconciled (record s { price_data = pd }) m pool v w2
        (if p.token_in == t0 then fee else 0) (if p.token_in == t0 then 0 else fee) h held
        (with_price-IsFine ctx.price pd _
          (swapped-IsFine w1 m t0 t1 p (with_percentage-IsFine ctx m pool w fine)))

  known-IsReconciled :
      (v w : PoolMetrics) (t0 t1 : Option Address)
      → get pool s.metrics ≡ some v
      → IsFine v.cumulative_fees_token0 v.cumulative_fees_token1 w
      → IsReconciled (swap_known ctx s m pool p w t0 t1)
  known-IsReconciled v w (some t0) (some t1) held fine = tokens-IsReconciled v w t0 t1 held fine
  known-IsReconciled v w (some t0) none held fine = h
  known-IsReconciled v w none t1 held fine = h

module _ (ctx : Ctx) (s : State) (m : Meta) (pool : Address) (p : SwapParams)
    (h : IsReconciled s) where
  -- The id of the pool is set, if it had none.
  named-IsReconciled :
      (v : PoolMetrics) (o : Option ℕ)
      → v.pool_id ≡ o
      → or_id o p.pool_id ≡ p.pool_id
      → get pool s.metrics ≡ some v
      → IsFine v.cumulative_fees_token0 v.cumulative_fees_token1 v
      → let w : PoolMetrics = record v { pool_id = some p.pool_id } in
        IsReconciled (swap_known ctx (set_id s pool v o p.pool_id) m pool p w v.token0 v.token1)
  named-IsReconciled v (some id) has same held fine =
      known-IsReconciled ctx s m pool p h v _ v.token0 v.token1 held (ground arith)
  named-IsReconciled v none has same held fine =
      let w : PoolMetrics = record v { pool_id = some p.pool_id } in
      let written = write-AreBooks s.metrics s.daily_fees pool v w h held (ground arith) in
      known-IsReconciled ctx (set_id s pool v none p.pool_id) m pool p written w w v.token0 v.token1
        (get-set_self pool w s.metrics) (ground arith)

  pool-IsReconciled :
      (v : PoolMetrics) → get pool s.metrics ≡ some v → IsReconciled (swap_pool ctx s m pool p v)
  unfolding swap_pool
  pool-IsReconciled v held =
      let fine = supplied-IsFine v (get-AllRows IsSupplied pool v s.metrics h.supplied held) in
      elim (Bool-cases (or_id v.pool_id p.pool_id == p.pool_id)) [
        | inl same ↦ rw same (named-IsReconciled v v.pool_id refl (ground arith) held fine)
        | inr other ↦ rw other h
      ]

vault-IsReconciled :
    (ctx : Ctx) (s : State) (m : Meta) (p : SwapParams)
    → IsReconciled s
    → IsReconciled (handle_vault_swap ctx s m p)
unfolding handle_vault_swap
vault-IsReconciled ctx s m p h =
    let pool = pool_address_from_pool_id p.pool_id in
    elim (Option-cases (ctx.pools pool)) [
      | inl foreign ↦ rw (foreign, handle_vault_swap) h
      | inr (_, ours) ↦ elim (Option-cases (get pool s.metrics)) [
        | inl new ↦ rw (ours, handle_vault_swap) (rw new h)
        | inr (v, held) ↦
            rw (ours, handle_vault_swap) (rw held (pool-IsReconciled ctx s m pool p h v held))
      ]
    ]

vault_log-IsReconciled :
    (ctx : Ctx) (s : State) (m : Meta) (e : Event)
    → IsReconciled s
    → IsReconciled (handle_vault ctx s m e)
vault_log-IsReconciled ctx s m (Event.vault_swap p) h = vault-IsReconciled ctx s m p h
vault_log-IsReconciled ctx s m (Event.transfer p) h = h
vault_log-IsReconciled ctx s m (Event.sync reserve0 reserve1) h = h
vault_log-IsReconciled ctx s m (Event.pair_swap in0 in1) h = h

vault_if-IsReconciled :
    (b : Bool) (ctx : Ctx) (s : State) (m : Meta) (e : Event)
    → IsReconciled s
    → IsReconciled (if b then handle_vault ctx s m e else s)
vault_if-IsReconciled true ctx s m e h = vault_log-IsReconciled ctx s m e h
vault_if-IsReconciled false ctx s m e h = h

handle-Returns :
    (ctx : Ctx) (s : State) (m : Meta) (e : Event) → IsReconciled s → Returns (handle ctx s m e)
unfolding handle Returns
handle-Returns ctx s m e h = elim (Option-cases (ctx.pools m.address)) [
  | inl foreign ↦ rw foreign (
    if m.address == ctx.balancer_vault then handle_vault ctx s m e else s,
    refl,
    vault_if-IsReconciled (m.address == ctx.balancer_vault) ctx s m e h,
  )
  | inr (dex, ours) ↦ rw ours (pool-Returns ctx s m dex ours h e)
]

logs-IsReconciled :
    (ctx : Ctx) (s : State) (logs : List (Meta × Event))
    → IsReconciled s
    → Returns (handle_logs ctx s logs)
unfolding handle_logs Returns
logs-IsReconciled ctx s [] h = (s, refl, h)
logs-IsReconciled ctx s ((m, e) ∷ logs) h =
    let (s', returned, h') = handle-Returns ctx s m e h in
    let (t, done, booked) = logs-IsReconciled ctx s' logs h' in (t, rw returned done, booked)

without_id-IsReconciled :
    (s : State) (pool : Address) (o : Option PoolMetrics)
    → get pool s.metrics ≡ o
    → IsReconciled s
    → IsReconciled (without_id s pool o)
without_id-IsReconciled s pool none held h = h
without_id-IsReconciled s pool (some v) held h =
    let fine = supplied-IsFine v (get-AllRows IsSupplied pool v s.metrics h.supplied held) in
    write-AreBooks s.metrics s.daily_fees pool v (record v { pool_id = none }) h held (ground arith)

unsaved-IsReconciled :
    (s : State) (pool : Address) (saved : Bool)
    → IsReconciled s
    → IsReconciled (if saved then s else without_id s pool (get pool s.metrics))
unsaved-IsReconciled s pool true h = h
unsaved-IsReconciled s pool false h = without_id-IsReconciled s pool (get pool s.metrics) refl h

dropped-IsReconciled :
    (named : List Address) (s : State) → IsReconciled s → IsReconciled (drop_unsaved s named)
unfolding drop_unsaved
dropped-IsReconciled [] s h = h
dropped-IsReconciled (pool ∷ named) s h =
    dropped-IsReconciled named _ (unsaved-IsReconciled s pool (is_saved s.saved pool) h)

-- A batch of logs never throws, whatever it holds, and it keeps the books: where each pool's fees in
-- either token are the sums over its days, and its supply is at most what was minted and, with what
-- was burned, at least that, all this holds after the batch too.
pub run-IsReconciled :
    (ctx : Ctx) (s : State) (logs : List (Meta × Event))
    → IsReconciled s
    → (t : State) × (run ctx s logs ≡ ok t) × IsReconciled t
unfolding run flush Returns
run-IsReconciled ctx s logs h =
    let start : State = record s { saved = []; named = [] } in
    let (t, done, booked) = logs-IsReconciled ctx start logs h in
    (flush t, rw done refl, dropped-IsReconciled t.named t booked)
