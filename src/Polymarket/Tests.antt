-- ===== src/Polymarket/Tests.antt =====
-- squids/predict-polymarket: one trader, one market, and its logs.
use autonolas_subgraph.Prelude.{
  ℕ, ◌+◌, ◌*◌, ◌^◌, ◌<◌, ◌≡◌, refl, ◌≤◌, true, false, none, some, List, [], ◌∷◌, arith, length,
  take,
}
use autonolas_subgraph.Prelude.Int.{pos, ◌≤ℤ◌, neg_ℤ, ◌+ℤ◌, ◌-ℤ◌}
use autonolas_subgraph.Prelude.Equality.{nat_eq, pair_eq}
use autonolas_subgraph.Prelude.Table.{get, sum_by}
use autonolas_subgraph.Polymarket.Brier.{probability_scale, compute_implied_probability}
use autonolas_subgraph.Polymarket.Brier.Bounds.{compute_implied_probability_bounds}
use autonolas_subgraph.Polymarket.State.{Meta, State, MarketParticipant, Question}
use autonolas_subgraph.Polymarket.Resolution.{
  Verdict, resolution_row, settled_participant, expected_payout_of, process_market_resolution,
}
use autonolas_subgraph.Polymarket.Resolution.Once.{resolution-once}
use autonolas_subgraph.Polymarket.Resolution.Settled.{resolution-settles, after_result}
use autonolas_subgraph.Polymarket.Resolution.Bounds.{expected_payout_of-bounds}
use autonolas_subgraph.Polymarket.Registry.{Chain, MarketText, new_agent}
use autonolas_subgraph.Pearl.MultiSend.{parse_hex}
use autonolas_subgraph.Pearl.MultiSend.Digits.{digits, length-digits, is_hex-digits}
use autonolas_subgraph.Polymarket.PositionId.{HexText, key_of, decode_position_id, pad_condition_id}
use autonolas_subgraph.Polymarket.PositionId.RoundTrip.{decode_position_id-roundtrip}
use autonolas_subgraph.Polymarket.Fills.{OrderFill}
use autonolas_subgraph.Polymarket.Events.{Event, run}
use autonolas_subgraph.Polymarket.Ledger.{IsLedger}
use autonolas_subgraph.Polymarket.Ledger.Batch.{run-IsBalanced}
use autonolas_subgraph.Polymarket.Days.{IsBooked}
use autonolas_subgraph.Polymarket.Days.Batch.{run-IsBooked}
use autonolas_subgraph.Polymarket.Scores.{AreFair, run-AreFair}
use autonolas_subgraph.Polymarket.Finality.{run-IsFinal}

abbrev chain : Chain
chain = record {
  neg_risk_adapter = 1;
  usdc_e = 2;
  pusd = 3;
  router = 4;
  derive_token_id = λ condition collateral index_set. some (condition + index_set);
  get_legacy_condition_id = λ condition. 0;
}

abbrev at : ℕ → Meta
at n = record {
  block_number = n;
  block_timestamp = 86400 + n;
  transaction_hash = 1000 + n;
  log_index = 0;
}

abbrev text : MarketText
text = record { raw = 5; title = 6; outcomes = 7 ∷ 8 ∷ [] }

abbrev empty : State
empty = record {
  totals = none;
  agents = [];
  participants = [];
  participated = [];
  daily = [];
  bets = [];
  questions = [];
  metadata = [];
  resolutions = [];
  redemptions = [];
  services = [];
  instances = [];
  wallets = [];
  tokens = [];
  bridges = [];
}

-- A buy of 10 shares of outcome 0 for 4 and a fee of 1.
abbrev buy : OrderFill
buy = record {
  maker = 50;
  is_buying = true;
  outcome_token_id = 701;
  maker_amount_filled = 4;
  taker_amount_filled = 10;
  fee = 1;
  builder = none;
  metadata = none;
}

abbrev sale : OrderFill
sale = record buy { is_buying = false; maker_amount_filled = 3; taker_amount_filled = 2 }

-- The trader is registered, buys, sells, wins and claims.
abbrev logs : List (Meta × Event)
logs =
    (at 1, Event.register_instance 40 9 86)
    ∷ (at 2, Event.create_multisig_with_agents 9 50)
    ∷ (at 3, Event.condition_preparation 700 33 600 2)
    ∷ (at 4, Event.question_initialized 600 text)
    ∷ (at 5, Event.order_filled buy)
    ∷ (at 6, Event.order_filled sale)
    ∷ (at 7, Event.question_resolved 600 (pos 1) (1 ∷ 0 ∷ []))
    ∷ (at 8, Event.payout_redemption 50 700 7)
    ∷ []

empty-IsLedger : IsLedger empty
unfolding sum_by ◌+ℤ◌ get
empty-IsLedger = record {
  keyed = tt;
  bets_by_agents = refl;
  bets_by_parts = refl;
  traded_by_agents = refl;
  traded_by_parts = refl;
  payout_by_agents = refl;
  payout_by_parts = refl;
  settled_by_agents = refl;
  settled_by_parts = refl;
  expected_by_agents = refl;
  expected_by_parts = refl;
  unsettled = λ id p found due. absurd (ground arith);
}

run-IsBalanced_example : IsLedger (run chain logs empty)
run-IsBalanced_example = run-IsBalanced chain logs empty empty-IsLedger

empty-IsBooked : IsBooked empty
unfolding sum_by ◌+ℤ◌ ◌-ℤ◌
empty-IsBooked = record {
  bets_by_days = refl;
  traded_by_days = refl;
  payout_by_days = refl;
  settled_by_days = refl;
  profit_by_days = refl;
}

run-IsBooked_example : IsBooked (run chain logs empty)
run-IsBooked_example = run-IsBooked chain logs empty empty-IsBooked

run-AreFair_example : AreFair (run chain logs empty)
run-AreFair_example = run-AreFair chain logs empty (tt, tt)

abbrev verdict : Verdict
verdict = record { winning_outcome = pos 0; settled_price = pos 1; payouts = 1 ∷ 0 ∷ [] }

abbrev holding : MarketParticipant
holding = record {
  question = some 700;
  total_bets = 1;
  total_traded = pos 5;
  total_traded_settled = pos 0;
  total_payout = pos 0;
  outcome_shares_0 = pos 10;
  outcome_shares_1 = pos 4;
  expected_payout = pos 0;
  settled = false;
  created_at = 86401;
  block_number = 1;
  block_timestamp = 86401;
  transaction_hash = 1001;
}

abbrev question : Question
question = record {
  question_id = 600;
  is_neg_risk = false;
  market_id = none;
  metadata = 600;
  block_number = 1;
  block_timestamp = 86401;
  transaction_hash = 1001;
}

abbrev trading : State
trading = record empty {
  agents = (50, new_agent 9 (at 2)) ∷ [];
  participants = ((50, 700), holding) ∷ [];
  questions = (700, question) ∷ [];
}

resolution-settles_example :
    get (50, 700) (process_market_resolution trading 700 verdict (at 7)).participants
    ≡ after_result verdict 700 true (some holding)
unfolding get
resolution-settles_example =
    resolution-settles trading 700 verdict (at 7) (50, 700) (refl, tt) refl refl

-- What the settled part holds.
settled_test :
    get (50, 700) (process_market_resolution trading 700 verdict (at 7)).participants
    ≡ some
        (record holding { expected_payout = pos 10; total_traded_settled = pos 5; settled = true })
unfolding get settled_participant expected_payout_of
settled_test = resolution-settles_example

abbrev opposite : Verdict
opposite = record { winning_outcome = pos 1; settled_price = pos 0; payouts = 0 ∷ 1 ∷ [] }

resolution-once_example :
    process_market_resolution
      (process_market_resolution trading 700 verdict (at 7))
      700
      opposite
      (at 8)
    ≡ process_market_resolution trading 700 verdict (at 7)
resolution-once_example = resolution-once trading 700 verdict opposite (at 7) (at 8)

abbrev resolved : State
resolved = record trading { resolutions = (700, resolution_row verdict (at 6)) ∷ [] }

run-IsFinal_example :
    get 700 (run chain logs resolved).resolutions ≡ some (resolution_row verdict (at 6))
unfolding get
run-IsFinal_example = run-IsFinal 700 (resolution_row verdict (at 6)) chain logs resolved refl

abbrev split : Verdict
split = record { winning_outcome = neg_ℤ (pos 1); settled_price = pos 0; payouts = 1 ∷ 1 ∷ [] }

expected_payout_of-bounds_example :
    (pos 0 ≤ℤ expected_payout_of split holding) × (expected_payout_of split holding ≤ℤ pos 10)
expected_payout_of-bounds_example =
    expected_payout_of-bounds split holding 10 (omega arith) (omega arith)

compute_implied_probability_bounds_example :
    let p = compute_implied_probability (pos 5) (pos 10) in
    (p ≤ probability_scale)
    × (p * 10 ≤ 5 * probability_scale)
    × (p < probability_scale → 5 * probability_scale < (p + 1) * 10)
compute_implied_probability_bounds_example =
    compute_implied_probability_bounds (pos 5) (pos 10) (λ e. ground arith)

-- A condition of the binary module, whose first byte is 1.
abbrev condition : HexText
condition = digits 62 (2 ^ 240 + 3)

decode_position_id-roundtrip_example :
    let p = decode_position_id 770 in
    (key_of (pad_condition_id p.condition_id) + p.outcome_index ≡ 770)
    × (length p.condition_id ≡ 62)
    × (decode_position_id (key_of (pad_condition_id condition) + 1) ≡ record {
      module_id = parse_hex (take 2 condition);
      condition_id = condition;
      outcome_index = 1;
    })
decode_position_id-roundtrip_example =
    decode_position_id-roundtrip 770 1 condition (omega arith) (length-digits 62 (2 ^ 240 + 3))
      (is_hex-digits 62 (2 ^ 240 + 3)) (omega arith)
