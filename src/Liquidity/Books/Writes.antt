-- ===== src/Liquidity/Books/Writes.antt =====
-- squids/liquidity/src/handlers.ts: the writes to a pool's row and to its day keep the books.
use autonolas_subgraph.Prelude.{ℕ, ◌+◌, ◌≡◌, refl, ap, ◌∙◌, Option, none, some, arith}
use autonolas_subgraph.Prelude.Int.{pos, ◌+ℤ◌, pos-add}
use autonolas_subgraph.Prelude.Equality.{nat_eq, pair_eq}
use autonolas_subgraph.Prelude.Table.{Table, get, set, value_at}
use autonolas_subgraph.Prelude.Groups.{set-IsGrouped, total-IsGrouped}
use autonolas_subgraph.Prelude.Rows.{set-AllRows}
use autonolas_subgraph.Liquidity.State.{
  Address, Meta, DexKind, PoolMetrics, DailyFees, State, day_of,
}
use autonolas_subgraph.Liquidity.Metrics.{new_metrics, or_daily_fees, touch}
use autonolas_subgraph.Liquidity.Swaps.{charged, daily_charged, add_fees}
use autonolas_subgraph.Liquidity.Books.{IsSupplied, AreBooks, IsReconciled, IsFine}

-- A row that the table has, with a sound supply.
pub record IsHeld (s : State) (pool : Address) (v : PoolMetrics) : Type 0 where
  pub booked : IsReconciled s
  pub held : get pool s.metrics ≡ some v
  pub fine : IsFine v.cumulative_fees_token0 v.cumulative_fees_token1 v

pub supplied-IsFine :
    (v : PoolMetrics) → IsSupplied v → IsFine v.cumulative_fees_token0 v.cumulative_fees_token1 v
supplied-IsFine v h = ground arith

pub new-IsFine :
    (dex : DexKind)
    → let v = new_metrics dex in IsFine v.cumulative_fees_token0 v.cumulative_fees_token1 v
unfolding new_metrics
new-IsFine dex = ground arith

module _ (metrics : Table Address PoolMetrics) (daily : Table (Address × ℕ) DailyFees)
    (pool : Address) (v w : PoolMetrics) where
  pub write-AreBooks :
      AreBooks metrics daily
      → get pool metrics ≡ some v
      → IsFine v.cumulative_fees_token0 v.cumulative_fees_token1 w
      → AreBooks (set pool w metrics) daily
  unfolding value_at
  write-AreBooks h held fine = record {
    fees0 =
        total-IsGrouped (λ x. pos x.cumulative_fees_token0) (λ (k : Address × ℕ). k.0)
          (λ d. pos d.total_fees_token0) metrics daily pool w (rw held (ap pos fine.same0)) h.fees0;
    fees1 =
        total-IsGrouped (λ x. pos x.cumulative_fees_token1) (λ (k : Address × ℕ). k.0)
          (λ d. pos d.total_fees_token1) metrics daily pool w (rw held (ap pos fine.same1)) h.fees1;
    supplied = set-AllRows IsSupplied pool w metrics (ground arith) h.supplied;
  }

  -- Fees of `f0` and `f1` are charged to a row and to its day.
  charge-AreBooks :
      (day : ℕ) (d : DailyFees) (f0 f1 : ℕ)
      → AreBooks metrics daily
      → get pool metrics ≡ some v
      → w.cumulative_fees_token0 ≡ v.cumulative_fees_token0 + f0
      → w.cumulative_fees_token1 ≡ v.cumulative_fees_token1 + f1
      → IsSupplied w
      → pos d.total_fees_token0
        ≡ value_at (λ y. pos y.total_fees_token0) (get (pool, day) daily) +ℤ pos f0
      → pos d.total_fees_token1
        ≡ value_at (λ y. pos y.total_fees_token1) (get (pool, day) daily) +ℤ pos f1
      → AreBooks (set pool w metrics) (set (pool, day) d daily)
  unfolding value_at
  charge-AreBooks day d f0 f1 h held charged0 charged1 supplied more0 more1 = record {
    fees0 =
        set-IsGrouped (λ x. pos x.cumulative_fees_token0) (λ (k : Address × ℕ). k.0)
          (λ y. pos y.total_fees_token0) metrics daily (pool, day) d w (pos f0) more0
          (rw held (ap pos charged0 ∙ pos-add v.cumulative_fees_token0 f0)) h.fees0;
    fees1 =
        set-IsGrouped (λ x. pos x.cumulative_fees_token1) (λ (k : Address × ℕ). k.0)
          (λ y. pos y.total_fees_token1) metrics daily (pool, day) d w (pos f1) more1
          (rw held (ap pos charged1 ∙ pos-add v.cumulative_fees_token1 f1)) h.fees1;
    supplied = set-AllRows IsSupplied pool w metrics supplied h.supplied;
  }

daily-more :
    (o : Option DailyFees) (pool : Address) (day f0 f1 : ℕ)
    → let d = daily_charged (or_daily_fees o pool day) f0 f1 in
      (pos d.total_fees_token0 ≡ value_at (λ y. pos y.total_fees_token0) o +ℤ pos f0)
      × (pos d.total_fees_token1 ≡ value_at (λ y. pos y.total_fees_token1) o +ℤ pos f1)
unfolding value_at daily_charged
daily-more none pool day f0 f1 = (pos-add 0 f0, pos-add 0 f1)
daily-more (some d) pool day f0 f1 =
    (pos-add d.total_fees_token0 f0, pos-add d.total_fees_token1 f1)

pub fees-IsReconciled :
    (s : State) (m : Meta) (pool : Address) (v w : PoolMetrics) (f0 f1 : ℕ)
    → IsReconciled s
    → get pool s.metrics ≡ some v
    → IsFine v.cumulative_fees_token0 v.cumulative_fees_token1 w
    → IsReconciled (add_fees s m pool w f0 f1)
unfolding add_fees touch charged
fees-IsReconciled s m pool v w f0 f1 h held fine =
    let day = day_of m.block_timestamp in
    let o = get (pool, day) s.daily_fees in
    charge-AreBooks s.metrics s.daily_fees pool v (touch (charged w f0 f1) m) day
      (daily_charged (or_daily_fees o pool day) f0 f1) f0 f1 h held (ap (λ x. x + f0) fine.same0)
      (ap (λ x. x + f1) fine.same1) (ground arith) (daily-more o pool day f0 f1).0
      (daily-more o pool day f0 f1).1

pub new-AreBooks :
    (metrics : Table Address PoolMetrics) (daily : Table (Address × ℕ) DailyFees) (pool : Address)
    (dex : DexKind)
    → get pool metrics ≡ none
    → AreBooks metrics daily
    → AreBooks (set pool (new_metrics dex) metrics) daily
unfolding value_at new_metrics
new-AreBooks metrics daily pool dex new h = record {
  fees0 =
      total-IsGrouped (λ x. pos x.cumulative_fees_token0) (λ (k : Address × ℕ). k.0)
        (λ d. pos d.total_fees_token0) metrics daily pool (new_metrics dex) (rw new refl) h.fees0;
  fees1 =
      total-IsGrouped (λ x. pos x.cumulative_fees_token1) (λ (k : Address × ℕ). k.0)
        (λ d. pos d.total_fees_token1) metrics daily pool (new_metrics dex) (rw new refl) h.fees1;
  supplied = set-AllRows IsSupplied pool (new_metrics dex) metrics (ground arith) h.supplied;
}
