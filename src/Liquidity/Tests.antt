-- ===== src/Liquidity/Tests.antt =====
-- squids/liquidity: a mint, a swap of the Vault and a burn of more than the supply.
use autonolas_subgraph.Prelude.{
  ℕ, ◌≡◌, ◌*◌, ◌+◌, ◌^◌, refl, none, some, List, [], ◌∷◌, ◌==◌, if◌then◌else◌,
}
use autonolas_subgraph.Prelude.Int.{pos}
use autonolas_subgraph.Prelude.Equality.{nat_eq, pair_eq}
use autonolas_subgraph.Prelude.Result.{ok}
use autonolas_subgraph.Prelude.Table.{get, set, value_at}
use autonolas_subgraph.Prelude.Groups.{sum_of}
use autonolas_subgraph.Liquidity.State.{
  Meta, balancer_v2, State, Ctx, balancer_fee, subtract_clamped, pool_address_from_pool_id,
}
use autonolas_subgraph.Liquidity.Metrics.{new_metrics, touch, refreshed, with_price}
use autonolas_subgraph.Liquidity.Swaps.{
  charged, daily_charged, add_fees, with_percentage, received, paid, swapped, swap_tokens,
  SwapParams, swap_pool, handle_vault_swap,
}
use autonolas_subgraph.Liquidity.Events.{Event, handle, handle_logs, drop_unsaved, flush, run}
use autonolas_subgraph.Liquidity.Books.{IsReconciled}
use autonolas_subgraph.Liquidity.Books.Batch.{run-IsReconciled}

-- The pool 7, of the tokens 1 and 2, with a fee of a hundredth.
abbrev ctx : Ctx
ctx = record {
  pools = λ a. if a == 7 then some balancer_v2 else none;
  balancer_vault = 99;
  pool_id = λ a. some (7 * 2 ^ 96 + 5);
  swap_fee_percentage = λ a block. some (10 ^ 16);
  reserves_at = λ a block. some (1 ∷ 2 ∷ [], 1000 ∷ 5000 ∷ []);
  pair_tokens = λ a. none;
  price = none;
}

abbrev empty : State
empty = record {
  metrics = [];
  daily_fees = [];
  price_data = none;
  transfers = [];
  saved = [];
  named = [];
}

abbrev at : ℕ → ℕ → Meta
at address n = record {
  address = address;
  block_number = n;
  block_timestamp = 86400 + n;
  tx_hash = n;
  log_index = n;
}

abbrev logs : List (Meta × Event)
logs =
    (at 7 1, Event.transfer (record { from = 0; to = 4; value = 50 }))
    ∷ (
      at 99 2,
      Event.vault_swap (record {
        pool_id = 7 * 2 ^ 96 + 5;
        token_in = 1;
        token_out = 2;
        amount_in = 200;
        amount_out = 900;
      }),
    )
    ∷ (at 7 3, Event.transfer (record { from = 4; to = 0; value = 60 }))
    ∷ []

empty-IsReconciled : IsReconciled empty
unfolding get value_at sum_of
empty-IsReconciled = record { fees0 = λ g. refl; fees1 = λ g. refl; supplied = tt }

run-IsReconciled_example : (t : State) × (run ctx empty logs ≡ ok t) × IsReconciled t
run-IsReconciled_example = run-IsReconciled ctx empty logs empty-IsReconciled

-- The fee of the swap, in the first token.
swap_fee :
    value_at
      (λ v. pos v.cumulative_fees_token0)
      (get 7
        (handle_vault_swap ctx
          (record empty {
            metrics =
                (7, record (new_metrics balancer_v2) { token0 = some 1; token1 = some 2 }) ∷ [];
          })
          (at 99 2)
          (record {
            pool_id = 7 * 2 ^ 96 + 5;
            token_in = 1;
            token_out = 2;
            amount_in = 200;
            amount_out = 900;
          })).metrics)
    ≡ pos 2
unfolding handle_vault_swap swap_pool swap_tokens add_fees charged touch with_price swapped received
    paid with_percentage refreshed subtract_clamped balancer_fee pool_address_from_pool_id
    new_metrics get set value_at daily_charged
swap_fee = refl

-- A swap of a pool whose tokens are not known gives it an id, which the batch does not save.
abbrev unset : State
unset = record empty { metrics = (7, new_metrics balancer_v2) ∷ [] }

abbrev skipped : SwapParams
skipped = record {
  pool_id = 7 * 2 ^ 96 + 5;
  token_in = 1;
  token_out = 2;
  amount_in = 200;
  amount_out = 900;
}

id_in_batch :
    (handle_vault_swap ctx unset (at 99 2) skipped).metrics
    ≡ (7, record (new_metrics balancer_v2) { pool_id = some (7 * 2 ^ 96 + 5) }) ∷ []
unfolding handle_vault_swap swap_pool pool_address_from_pool_id new_metrics get set
id_in_batch = refl

id_lost :
    run ctx unset ((at 99 2, Event.vault_swap skipped) ∷ []) ≡ ok (record unset { named = 7 ∷ [] })
unfolding run handle_logs handle flush drop_unsaved handle_vault_swap swap_pool
    pool_address_from_pool_id new_metrics get set
id_lost = refl
