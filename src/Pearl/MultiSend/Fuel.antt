-- ===== src/Pearl/MultiSend/Fuel.antt =====
-- squids/pearl-transactions/src/logic.ts, `unpackMultiSend`: the loop ends.
use autonolas_subgraph.Prelude.{
  ℕ, zero, suc, ◌+◌, ◌*◌, ◌≤◌, ◌≡◌, ◌≢◌, refl, Bool, true, false, List, [], arith, if◌then◌else◌,
  ltb, ◌==◌, Bool-cases, inl, inr, length, length-drop, drop,
}
use autonolas_subgraph.Pearl.MultiSend.{
  Unpacked, unpacked, malformed, out_of_fuel, keep_leg, parse_hex, slice, unpack_legs,
}
use autonolas_subgraph.Pearl.Execution.{NativeLeg}

not_short : (n k : ℕ) → ltb n k ≡ false → k ≤ n
not_short n k h = ground arith

at_rest : (n : ℕ) → n ≤ 0 → (n == 0) ≡ true
at_rest n h = ground arith

-- Any two fuels that are at least the number of digits give the same.
same_fuel :
    (f g index : ℕ) (hex : List ℕ)
    → length hex ≤ f
    → length hex ≤ g
    → unpack_legs f index hex ≡ unpack_legs g index hex
unfolding unpack_legs
same_fuel zero zero index hex h k = refl
same_fuel zero (suc g) index hex h k = rw (at_rest (length hex) h) refl
same_fuel (suc f) zero index hex h k = rw (at_rest (length hex) k) refl
same_fuel (suc f) (suc g) index hex h k = elim (Bool-cases (ltb (length hex) 170)) [
  | inl short ↦ rw short refl
  | inr long ↦
      let n = parse_hex (slice 106 170 hex) * 2 in
      let body = length-drop 170 hex in
      let rest = length-drop n (drop 170 hex) in
      let head : 170 ≤ length hex = not_short (length hex) 170 long in
      rw (same_fuel f g (index + 1) (drop n (drop 170 hex)) (omega arith) (omega arith)) refl
]

keep_leg-ends :
    (keep : Bool) (leg : NativeLeg) (later : Unpacked)
    → later ≢ out_of_fuel
    → keep_leg keep leg later ≢ out_of_fuel
keep_leg-ends keep leg malformed h e = absurd (ground arith)
keep_leg-ends keep leg out_of_fuel h e = h refl
keep_leg-ends keep leg (unpacked legs) h e = absurd (ground arith)

round-ends :
    (through short cut : Bool) (later : Unpacked)
    → (short ≡ false → later ≢ out_of_fuel)
    → (if through
        then unpacked []
        else if short
        then malformed
        else if cut
        then malformed
        else later)
      ≢ out_of_fuel
round-ends true short cut later h e = absurd (ground arith)
round-ends false true cut later h e = absurd (ground arith)
round-ends false false true later h e = absurd (ground arith)
round-ends false false false later h e = h refl e

ends :
    (fuel index : ℕ) (hex : List ℕ) → length hex ≤ fuel → unpack_legs fuel index hex ≢ out_of_fuel
unfolding unpack_legs
ends zero index hex h = rw (at_rest (length hex) h) (λ e. absurd (ground arith))
ends (suc fuel) index hex h =
    let n = parse_hex (slice 106 170 hex) * 2 in
    let body = length-drop 170 hex in
    let rest = length-drop n (drop 170 hex) in
    round-ends (length hex == 0) (ltb (length hex) 170) (ltb (length (drop 170 hex)) n) _ λ long.
      let head : 170 ≤ length hex = not_short (length hex) 170 long in
      keep_leg-ends _ _ _ (ends fuel (index + 1) (drop n (drop 170 hex)) (omega arith))

-- As much fuel as there are digits is enough for every text: the loop ends with the legs or with text
-- that is cut short, never out of fuel, and more fuel gives the same.
pub unpack_legs-fuel :
    (fuel index : ℕ) (hex : List ℕ)
    → length hex ≤ fuel
    → (unpack_legs fuel index hex ≢ out_of_fuel)
      × (unpack_legs fuel index hex ≡ unpack_legs (length hex) index hex)
unpack_legs-fuel fuel index hex h =
    (ends fuel index hex h, same_fuel fuel (length hex) index hex h (omega arith))
