-- ===== src/Polymarket/Brier.antt =====
-- squids/predict-polymarket/src/brier.ts and constants.ts: prices and scores as fixed-point numbers,
-- 10 ^ 18 for 1.
pub mod Bounds
use autonolas_subgraph.Prelude.{ℕ, ◌+◌, ◌*◌, ◌/◌, ◌^◌, Bool, ltb, if◌then◌else◌}
use autonolas_subgraph.Prelude.Int.{ℤ, pos, pos_part, neg_part, eqb_ℤ, sub_ℕ, neg_ℤ}

unfoldable pub probability_scale : ℕ
probability_scale = 10 ^ 18

unfoldable pub half_probability_scale : ℕ
half_probability_scale = probability_scale / 2

-- `abs`: one of the two parts is 0.
abbrev pub abs : ℤ → ℕ
abs x = pos_part x + neg_part x

-- The price of one share of a fill, at most 1; 0 for no shares.
unfoldable pub compute_implied_probability : ℤ → ℤ → ℕ
compute_implied_probability amount shares =
    let price = abs amount * probability_scale / abs shares in
    if eqb_ℤ shares (pos 0)
    then 0
    else if ltb probability_scale price
    then probability_scale
    else price

-- Both arguments are scaled and never negative; `diff * diff` is the square of the absolute value.
unfoldable pub brier_contribution : ℕ → ℕ → ℕ
brier_contribution implied_probability actual =
    let diff = sub_ℕ implied_probability actual in abs diff * abs diff / probability_scale

-- The winning outcome is -1 where the market has no single winner.
unfoldable pub actual_for_outcome : ℕ → ℤ → ℕ
actual_for_outcome bet_outcome_index winning_outcome =
    if eqb_ℤ winning_outcome (neg_ℤ (pos 1))
    then half_probability_scale
    else if eqb_ℤ (pos bet_outcome_index) winning_outcome
    then probability_scale
    else 0
