-- ===== src/Polymarket/Resolution/Bounds.antt =====
-- squids/predict-polymarket/src/logic.ts, `processMarketResolution`: what a result can pay, and the scores.
use native.Mathlib.Nat.{
  div-le_of_le-mul, div-mul-le_self, le_of_mul-le-mul_right, mul-le-mul_left, mul-le-mul_right,
}
use autonolas_subgraph.Prelude.{
  ℕ, zero, suc, ◌+◌, ◌*◌, ◌/◌, ◌≤◌, ◌<◌, ◌≡◌, ◌&&◌, false, List, [], ◌∷◌, arith, tests, ltb, get_or,
  Bool-cases, inl, inr,
}
use autonolas_subgraph.Prelude.Int.{ℤ, pos, pos_part, ◌+ℤ◌, ◌≤ℤ◌, ltb_ℤ, eqb_ℤ, neg_ℤ, int_laws}
use autonolas_subgraph.Polymarket.Brier.{probability_scale}
use autonolas_subgraph.Polymarket.Brier.Bounds.{actual_for_outcome-le}
use autonolas_subgraph.Polymarket.State.{MarketParticipant}
use autonolas_subgraph.Polymarket.Resolution.{
  Verdict, payout_total, clamped, sum, part, expected_payout_of, actual_of,
}

-- A payout is at most the sum of all, and so are the first two together.
get_or-le-sum : (l : List ℕ) (i : ℕ) → get_or l i 0 ≤ sum l
unfolding sum
get_or-le-sum [] i = ground arith
get_or-le-sum (x ∷ l) zero = ground arith
get_or-le-sum (x ∷ l) (suc i) = ground (arith, get_or-le-sum l i)

first_two-le-sum : (l : List ℕ) → get_or l 0 0 + get_or l 1 0 ≤ sum l
unfolding sum
first_two-le-sum [] = ground arith
first_two-le-sum (x ∷ l) = ground (arith, get_or-le-sum l 0)

-- Two shares of `n`, of which each holding is at most `most`, are at most `most` together.
shares-le :
    (s0 s1 a b n most : ℕ)
    → 0 < n
    → a + b ≤ n
    → s0 ≤ most
    → s1 ≤ most
    → s0 * a / n + s1 * b / n ≤ most
shares-le s0 s1 a b n most some_paid within h0 h1 =
    let d0 = div-mul-le_self (s0 * a) n in
    let d1 = div-mul-le_self (s1 * b) n in
    let m0 = mul-le-mul_right a h0 in
    let m1 = mul-le-mul_right b h1 in
    let m2 = mul-le-mul_left most within in le_of_mul-le-mul_right {k = n} (omega arith) some_paid

pub actual_of-le : (v : Verdict) (i : ℕ) → actual_of v i ≤ probability_scale
unfolding actual_of
actual_of-le v i =
    elim (Bool-cases (eqb_ℤ v.winning_outcome (neg_ℤ (pos 1)) && ltb 0 (payout_total v))) [
      | inl split ↦
          rw (split, actual_of)
            (div-le_of_le-mul (payout_total v)
              (mul-le-mul_right probability_scale (get_or-le-sum v.payouts i)))
      | inr single ↦ rw (single, actual_of) (actual_for_outcome-le i v.winning_outcome)
    ]

abbrev IsBetween : ℤ → ℕ → Type 0
IsBetween x most = (pos 0 ≤ℤ x) × (x ≤ℤ pos most)

clamped-IsBetween : (x : ℤ) (most : ℕ) → pos_part x ≤ most → IsBetween (clamped x) most
clamped-IsBetween x most h = ground arith

-- The part of a holding, as a number.
pub part_pos :
    (v : Verdict) (x : ℤ) (i : ℕ)
    → 0 < payout_total v
    → part v x i ≡ pos (pos_part x * get_or v.payouts i 0 / payout_total v)
unfolding part
part_pos v x i paid = elim (Bool-cases (ltb_ℤ (pos 0) x)) [
  | inl held ↦ ground arith
  | inr none_held ↦
      let empty : pos_part x ≡ 0 = ground arith in
      let nothing : 0 * get_or v.payouts i 0 / payout_total v ≤ 0 =
        div-le_of_le-mul (payout_total v) (omega arith) in
      rw empty (ground arith)
]

pub part_none : (v : Verdict) (x : ℤ) (i : ℕ) → ltb 0 (payout_total v) ≡ false → part v x i ≡ pos 0
unfolding part
part_none v x i unpaid = ground arith

split-IsBetween :
    (v : Verdict) (x y : ℤ) (most : ℕ)
    → pos_part x ≤ most
    → pos_part y ≤ most
    → IsBetween (part v x 0 +ℤ part v y 1) most
split-IsBetween v x y most h0 h1 = elim (Bool-cases (ltb 0 (payout_total v))) [
  | inr unpaid ↦
      rw (part_none v x 0 unpaid, part_none v y 1 unpaid) (omega int_laws, omega int_laws)
  | inl paid ↦
      let some_paid : 0 < payout_total v = omega (tests) in
      let both =
        shares-le (pos_part x) (pos_part y) (get_or v.payouts 0 0) (get_or v.payouts 1 0)
          (payout_total v) most some_paid (first_two-le-sum v.payouts) h0 h1 in
      rw (part_pos v x 0 some_paid, part_pos v y 1 some_paid) (omega int_laws, omega int_laws)
]

-- What a result pays on a part of a market is never negative, and never more than the larger of the two
-- holdings, whoever wins and also where the payouts are split.
pub expected_payout_of-bounds :
    (v : Verdict) (p : MarketParticipant) (most : ℕ)
    → pos_part p.outcome_shares_0 ≤ most
    → pos_part p.outcome_shares_1 ≤ most
    → (pos 0 ≤ℤ expected_payout_of v p) × (expected_payout_of v p ≤ℤ pos most)
unfolding expected_payout_of
expected_payout_of-bounds v p most h0 h1 = elim (Bool-cases (eqb_ℤ v.winning_outcome (pos 0))) [
  | inl first ↦ rw (first, expected_payout_of) (clamped-IsBetween p.outcome_shares_0 most h0)
  | inr other ↦ elim (Bool-cases (eqb_ℤ v.winning_outcome (pos 1))) [
    | inl second ↦
        rw (other, expected_payout_of)
          (rw (second, expected_payout_of) (clamped-IsBetween p.outcome_shares_1 most h1))
    | inr none_wins ↦
        rw (other, expected_payout_of)
          (rw (none_wins, expected_payout_of)
            (split-IsBetween v p.outcome_shares_0 p.outcome_shares_1 most h0 h1))
  ]
]
