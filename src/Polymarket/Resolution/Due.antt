-- ===== src/Polymarket/Resolution/Due.antt =====
-- squids/predict-polymarket/src/logic.ts, `processMarketResolution`: what a result owes a part of a market.
use native.Mathlib.Nat.{div-zero}
use autonolas_subgraph.Prelude.{
  ℕ, zero, suc, ◌+◌, ◌*◌, ◌/◌, ◌≡◌, refl, sym, ap, ◌∙◌, true, arith, tests, ltb, get_or, Bool-cases,
  inl, inr,
}
use autonolas_subgraph.Prelude.Int.{ℤ, pos, negsuc, pos_part, ◌+ℤ◌, pos-add}
use autonolas_subgraph.Polymarket.State.{MarketParticipant}
use autonolas_subgraph.Polymarket.Resolution.{
  Verdict, payout_total, clamped, sum, part, expected_payout_of, settled_participant,
}
use autonolas_subgraph.Polymarket.Resolution.Bounds.{part_pos, part_none}

-- What the payouts pay on a holding of the outcome `i`, rounded down; a debt is paid nothing.
abbrev pub paid_on : Verdict → ℤ → ℕ → ℕ
paid_on v shares i = pos_part shares * get_or v.payouts i 0 / sum v.payouts

-- What is due to a part: its holding of the outcome that wins, and where none of the two wins alone, what
-- the payouts pay on both holdings.
abbrev pub due_to : ℤ → Verdict → MarketParticipant → ℕ
due_to (pos zero) v p = pos_part p.outcome_shares_0
due_to (pos (suc zero)) v p = pos_part p.outcome_shares_1
due_to (pos (suc (suc _))) v p = paid_on v p.outcome_shares_0 0 + paid_on v p.outcome_shares_1 1
due_to (negsuc _) v p = paid_on v p.outcome_shares_0 0 + paid_on v p.outcome_shares_1 1

clamped_pos : (x : ℤ) → clamped x ≡ pos (pos_part x)
clamped_pos x = ground arith

part-paid_on : (v : Verdict) (x : ℤ) (i : ℕ) → part v x i ≡ pos (paid_on v x i)
part-paid_on v x i = elim (Bool-cases (ltb 0 (payout_total v))) [
  | inl paid ↦ part_pos v x i (omega tests)
  | inr unpaid ↦
      let zero_total : payout_total v ≡ 0 = ground arith in
      part_none v x i unpaid
      ∙ rw zero_total (ap pos (sym (div-zero (pos_part x * get_or v.payouts i 0))))
]

split-due :
    (v : Verdict) (p : MarketParticipant)
    → part v p.outcome_shares_0 0 +ℤ part v p.outcome_shares_1 1
      ≡ pos (paid_on v p.outcome_shares_0 0 + paid_on v p.outcome_shares_1 1)
split-due v p =
    rw (part-paid_on v p.outcome_shares_0 0, part-paid_on v p.outcome_shares_1 1)
      (sym (pos-add (paid_on v p.outcome_shares_0 0) (paid_on v p.outcome_shares_1 1)))

-- The code pays what is due.
expected-due :
    (w : ℤ) (v : Verdict) (p : MarketParticipant)
    → v.winning_outcome ≡ w
    → expected_payout_of v p ≡ pos (due_to w v p)
unfolding expected_payout_of
expected-due (pos zero) v p h = simp (h, expected_payout_of) (clamped_pos p.outcome_shares_0)
expected-due (pos (suc zero)) v p h = simp (h, expected_payout_of) (clamped_pos p.outcome_shares_1)
expected-due (pos (suc (suc n))) v p h = ground (arith, split-due v p)
expected-due (negsuc n) v p h = ground (arith, split-due v p)

-- The rows that the code writes are those.
pub settled-due :
    (v : Verdict) (p : MarketParticipant)
    → settled_participant v p ≡ record p {
      expected_payout = pos (due_to v.winning_outcome v p);
      total_traded_settled = p.total_traded;
      settled = true;
    }
unfolding settled_participant
settled-due v p = rw (expected-due v.winning_outcome v p refl) refl
