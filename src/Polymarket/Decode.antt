-- ===== src/Polymarket/Decode.antt =====
-- squids/predict-polymarket/src/decode.ts and main.ts: what a fill's handler gets from a raw log.
use autonolas_subgraph.Prelude.{ℕ, ◌/◌, Bool, none, some, ◌==◌, if◌then◌else◌}
use autonolas_subgraph.Polymarket.State.{Address, Meta}
use autonolas_subgraph.Polymarket.Fills.{OrderFill}

-- The timestamp of a block is in milliseconds.
unfoldable pub event_meta : ℕ → ℕ → ℕ → ℕ → Meta
event_meta block_number timestamp transaction_hash log_index = record {
  block_number = block_number;
  block_timestamp = timestamp / 1000;
  transaction_hash = transaction_hash;
  log_index = log_index;
}

-- Whether the maker buys, and the outcome token.
unfoldable pub infer_v1_direction : ℕ → ℕ → Bool × ℕ
infer_v1_direction maker_asset_id taker_asset_id =
    let is_buying = maker_asset_id == 0 in
    (is_buying, (if is_buying then taker_asset_id else maker_asset_id))

unfoldable pub infer_v2_direction : ℕ → Bool
infer_v2_direction side = side == 0

-- `OrderFilled` of the first exchange, whose fee is not passed on.
unfoldable pub v1_order_fill : Address → ℕ → ℕ → ℕ → ℕ → OrderFill
v1_order_fill maker maker_asset_id taker_asset_id maker_amount taker_amount =
    let (is_buying, token) = infer_v1_direction maker_asset_id taker_asset_id in
    record {
      maker = maker;
      is_buying = is_buying;
      outcome_token_id = token;
      maker_amount_filled = maker_amount;
      taker_amount_filled = taker_amount;
      fee = 0;
      builder = none;
      metadata = none;
    }

-- `OrderFilled` of the later exchanges.
unfoldable pub v2_order_fill : Address → ℕ → ℕ → ℕ → ℕ → ℕ → ℕ → ℕ → OrderFill
v2_order_fill maker side token_id maker_amount taker_amount fee builder metadata = record {
  maker = maker;
  is_buying = infer_v2_direction side;
  outcome_token_id = token_id;
  maker_amount_filled = maker_amount;
  taker_amount_filled = taker_amount;
  fee = fee;
  builder = some builder;
  metadata = some metadata;
}
