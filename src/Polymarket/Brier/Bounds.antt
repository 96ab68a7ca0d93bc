-- ===== src/Polymarket/Brier/Bounds.antt =====
-- squids/predict-polymarket/src/brier.ts: prices and scores stay between 0 and 1.
use native.Mathlib.Nat.{
  div-le_of_le-mul, div-mul-le_self, lt-div-mul-add, mul-le-mul, mul-le-mul_right,
}
use autonolas_subgraph.Prelude.{
  ℕ, ◌+◌, ◌*◌, ◌/◌, ◌≤◌, ◌<◌, ◌≡◌, ◌≢◌, arith, tests, false, Bool-cases, inl, inr, ltb,
  if◌then◌else◌,
}
use autonolas_subgraph.Prelude.Int.{ℤ, pos, eqb_ℤ, sub_ℕ}
use autonolas_subgraph.Polymarket.Brier.{
  probability_scale, half_probability_scale, abs, compute_implied_probability, brier_contribution,
  actual_for_outcome,
}

abs-pos : (x : ℤ) → x ≢ pos 0 → 0 < abs x
abs-pos x h = ground arith

not_zero : (x : ℤ) → x ≢ pos 0 → eqb_ℤ x (pos 0) ≡ false
not_zero x h = ground arith

-- A quotient that is cut off at `k`.
cut_off :
    (k q d n : ℕ)
    → q * d ≤ n
    → n < q * d + d
    → let p = if ltb k q then k else q in (p ≤ k) × (p * d ≤ n) × (p < k → n < (p + 1) * d)
cut_off k q d n below above = elim (Bool-cases (ltb k q)) [
  | inl over ↦
      let less : k * d ≤ q * d = mul-le-mul_right d (omega (tests)) in
      rw over (omega arith, omega arith, λ h. absurd (omega arith))
  | inr within ↦ rw within (ground arith, below, λ h. grind arith)
]

-- The price of a fill with shares is at most 1, at most what was paid for a share, and below that by
-- less than the last digit unless it was cut off at 1.
pub compute_implied_probability_bounds :
    (amount shares : ℤ)
    → shares ≢ pos 0
    → let p = compute_implied_probability amount shares in
      (p ≤ probability_scale)
      × (p * abs shares ≤ abs amount * probability_scale)
      × (p < probability_scale → abs amount * probability_scale < (p + 1) * abs shares)
unfolding compute_implied_probability
compute_implied_probability_bounds amount shares h =
    let n = abs amount * probability_scale in
    rw (not_zero shares h) (
      cut_off probability_scale (n / abs shares) (abs shares) n (div-mul-le_self n (abs shares))
        (lt-div-mul-add {a = n} (abs-pos shares h)))

pub probability-le-scale :
    (amount shares : ℤ) → compute_implied_probability amount shares ≤ probability_scale
unfolding compute_implied_probability
probability-le-scale amount shares = ground arith

square-le : (x k : ℕ) → x ≤ k → x * x / k ≤ k
square-le x k h = div-le_of_le-mul k (mul-le-mul h h)

abs_diff : (p a k : ℕ) → p ≤ k → a ≤ k → abs (sub_ℕ p a) ≤ k
abs_diff p a k h g = ground arith

-- The score of a bet is at most 1.
pub brier_contribution-le :
    (p a : ℕ)
    → p ≤ probability_scale
    → a ≤ probability_scale
    → brier_contribution p a ≤ probability_scale
unfolding brier_contribution
brier_contribution-le p a h g =
    square-le (abs (sub_ℕ p a)) probability_scale (abs_diff p a probability_scale h g)

pub actual_for_outcome-le : (i : ℕ) (w : ℤ) → actual_for_outcome i w ≤ probability_scale
unfolding actual_for_outcome half_probability_scale
actual_for_outcome-le i w = ground arith
