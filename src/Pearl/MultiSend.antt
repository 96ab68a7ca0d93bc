-- ===== src/Pearl/MultiSend.antt =====
-- squids/pearl-transactions/src/logic.ts, `unpackMultiSend`: the legs of a batch, packed as hex digits.
pub mod Digits
pub mod Pack
pub mod Fuel
mod Tests
use autonolas_subgraph.Prelude.{
  ℕ, zero, suc, ◌+◌, ◌-◌, ◌*◌, ◌%◌, ◌&&◌, ◌||◌, Bool, true, false, not, Option, none, some, List,
  [], ◌∷◌, ltb, ◌==◌, if◌then◌else◌, length, take, drop,
}
use autonolas_subgraph.Pearl.Execution.{NativeLeg}

-- A character is the value of its digit, upper case or lower case, and 16 or more if it is none.
abbrev pub is_hex : List ℕ → Bool
is_hex [] = true
is_hex (digit ∷ hex) = ltb digit 16 && is_hex hex

-- `parseInt(…, 16)` and `BigInt`, after the digits that make `acc`.
unfoldable pub parse_from : ℕ → List ℕ → ℕ
parse_from acc [] = acc
parse_from acc (digit ∷ hex) = parse_from (16 * acc + digit) hex

abbrev pub parse_hex : List ℕ → ℕ
parse_hex hex = parse_from 0 hex

-- Widths and places of the fields in the head of a leg.
abbrev pub to_start : ℕ
to_start = 2

abbrev pub value_start : ℕ
value_start = 42

abbrev pub data_length_start : ℕ
data_length_start = 106

abbrev pub head_width : ℕ
head_width = 170

-- `hex.slice(start, stop)`
abbrev pub slice : ℕ → ℕ → List ℕ → List ℕ
slice start stop hex = take (stop - start) (drop start hex)

-- How the loop ends: with the legs, with text that is cut short, or, on fuel, before it is through.
pub data Unpacked : Type 0 where
  unpacked : List NativeLeg → Unpacked
  malformed out_of_fuel : Unpacked

abbrev pub keep_leg : Bool → NativeLeg → Unpacked → Unpacked
keep_leg keep leg malformed = malformed
keep_leg keep leg out_of_fuel = out_of_fuel
keep_leg keep leg (unpacked legs) = unpacked (if keep then leg ∷ legs else legs)

-- `null` for what does not unpack.
abbrev pub legs_of : Unpacked → Option (List NativeLeg)
legs_of malformed = none
legs_of out_of_fuel = none
legs_of (unpacked legs) = some legs

-- The loop, on the digits from `pos` on; no more rounds than digits are needed.
unfoldable pub unpack_legs : ℕ → ℕ → List ℕ → Unpacked
unpack_legs zero index hex = if length hex == 0 then unpacked [] else out_of_fuel
unpack_legs (suc fuel) index hex =
    let operation = parse_hex (slice 0 to_start hex) in
    let to = parse_hex (slice to_start value_start hex) in
    let value = parse_hex (slice value_start data_length_start hex) in
    let data_length = parse_hex (slice data_length_start head_width hex) in
    let body = drop head_width hex in
    let later = unpack_legs fuel (index + 1) (drop (data_length * 2) body) in
    if length hex == 0
    then unpacked []
    else if ltb (length hex) head_width
    then malformed
    else if ltb (length body) (data_length * 2)
    then malformed
    else keep_leg (operation == 0 && (data_length == 0 && ltb 0 value))
        (record { index = index; to = to; value = value }) later

unfoldable pub unpack_multi_send : List ℕ → Option (List NativeLeg)
unpack_multi_send hex =
    if not (length hex % 2 == 0) || not (is_hex hex)
    then none
    else legs_of (unpack_legs (length hex) 0 hex)
