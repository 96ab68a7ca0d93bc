-- ===== src/Pearl/MultiSend/Pack.antt =====
-- squids/pearl-transactions/src/logic.ts, `unpackMultiSend`: against the packing of MultiSend.
use autonolas_subgraph.Prelude.{
  ℕ, zero, suc, ◌+◌, ◌*◌, ◌%◌, ◌^◌, ◌<◌, ◌≤◌, ◌≡◌, refl, ap, ◌∙◌, sym, ◌&&◌, true, false, some,
  List, [], ◌∷◌, ◌++◌, arith, ltb, ◌==◌, if◌then◌else◌, length, length-append, take, drop,
}
use autonolas_subgraph.Pearl.Execution.{NativeLeg}
use autonolas_subgraph.Pearl.MultiSend.{
  is_hex, parse_hex, slice, unpacked, legs_of, keep_leg, unpack_legs, unpack_multi_send,
}
use autonolas_subgraph.Pearl.MultiSend.Digits.{
  digits, is_hex-append, is_hex-digits, length-digits, parse_hex-digits, take_front, drop_front,
}

-- A leg of a batch, its payload as digits.
pub record Leg : Type 0 where
  pub operation : ℕ
  pub to : ℕ
  pub value : ℕ
  pub data_length : ℕ
  pub payload : List ℕ

-- The fields fit their widths, and the payload has two digits for each byte.
pub record IsLeg (l : Leg) : Type 0 where
  pub operation_fits : l.operation < 16 ^ 2
  pub to_fits : l.to < 16 ^ 40
  pub value_fits : l.value < 16 ^ 64
  pub data_length_fits : l.data_length < 16 ^ 64
  pub payload_whole : length l.payload ≡ l.data_length * 2
  pub payload_hex : is_hex l.payload ≡ true

abbrev pub AreLegs : List Leg → Type 0
AreLegs [] = Unit
AreLegs (l ∷ legs) = IsLeg l × AreLegs legs

-- The digits of a leg's head, and what follows.
abbrev pub with_head : Leg → List ℕ → List ℕ
with_head l rest =
    digits 2 l.operation
    ++ (digits 40 l.to ++ (digits 64 l.value ++ (digits 64 l.data_length ++ rest)))

abbrev pub pack : List Leg → List ℕ
pack [] = []
pack (l ∷ legs) = with_head l (l.payload ++ pack legs)

-- The plain transfers among the legs, with their places.
abbrev pub native_legs : ℕ → List Leg → List NativeLeg
native_legs index [] = []
native_legs index (l ∷ legs) =
    let rest = native_legs (index + 1) legs in
    if l.operation == 0 && (l.data_length == 0 && ltb 0 l.value)
    then record { index = index; to = l.to; value = l.value } ∷ rest
    else rest

drop_past : (l r : List ℕ) (n m : ℕ) → n ≡ length l + m → drop n (l ++ r) ≡ drop m r
drop_past [] r n m h = ap (λ k. drop k r) (omega arith)
drop_past (x ∷ l) r n m h =
    let longer : n ≡ suc (length l + m) = omega arith in
    ap (λ k. drop k ((x ∷ l) ++ r)) longer ∙ drop_past l r (length l + m) m refl

skip :
    (width n : ℕ) (r : List ℕ) (k m : ℕ) → k ≡ width + m → drop k (digits width n ++ r) ≡ drop m r
skip width n r k m h = drop_past (digits width n) r k m (omega (arith, length-digits width n))

-- A field at the front is read back.
read :
    (width n : ℕ) (r : List ℕ) → n < 16 ^ width → parse_hex (take width (digits width n ++ r)) ≡ n
read width n r h =
    let taken : take width (digits width n ++ r) ≡ digits width n =
      ap (λ k. take k (digits width n ++ r)) (sym (length-digits width n))
      ∙ take_front (digits width n) r in
    ap parse_hex taken ∙ parse_hex-digits width n h

length-digits-append : (width n : ℕ) (r : List ℕ) → length (digits width n ++ r) ≡ width + length r
length-digits-append width n r =
    omega (arith, length-append (digits width n) r, length-digits width n)

module _ (l : Leg) (rest : List ℕ) where
  abbrev after_value : List ℕ
  after_value = digits 64 l.data_length ++ rest

  abbrev after_to : List ℕ
  after_to = digits 64 l.value ++ (digits 64 l.data_length ++ rest)

  abbrev after_operation : List ℕ
  after_operation = digits 40 l.to ++ (digits 64 l.value ++ (digits 64 l.data_length ++ rest))

  length-with_head : length (with_head l rest) ≡ 170 + length rest
  length-with_head = omega (
    arith,
    length-digits-append 2 l.operation after_operation,
    length-digits-append 40 l.to after_to,
    length-digits-append 64 l.value after_value,
    length-digits-append 64 l.data_length rest,
  )

  to_field : drop 2 (with_head l rest) ≡ after_operation
  to_field = skip 2 l.operation after_operation 2 0 refl

  value_field : drop 42 (with_head l rest) ≡ after_to
  value_field = skip 2 l.operation _ 42 40 refl ∙ skip 40 l.to after_to 40 0 refl

  length_field : drop 106 (with_head l rest) ≡ after_value
  length_field =
      skip 2 l.operation _ 106 104 refl
      ∙ skip 40 l.to _ 104 64 refl
      ∙ skip 64 l.value after_value 64 0 refl

  body_of : drop 170 (with_head l rest) ≡ rest
  body_of =
      skip 2 l.operation _ 170 168 refl
      ∙ skip 40 l.to _ 168 128 refl
      ∙ skip 64 l.value _ 128 64 refl
      ∙ skip 64 l.data_length rest 64 0 refl

not_short : (n k : ℕ) → k ≤ n → ltb n k ≡ false
not_short n k h = ground arith

not_empty : (n : ℕ) → 0 < n → (n == 0) ≡ false
not_empty n h = ground arith

-- One round of the loop, by what the fields say.
round :
    (fuel index : ℕ) (hex : List ℕ) (l : Leg) (rest : List ℕ)
    → parse_hex (slice 0 2 hex) ≡ l.operation
    → parse_hex (slice 2 42 hex) ≡ l.to
    → parse_hex (slice 42 106 hex) ≡ l.value
    → parse_hex (slice 106 170 hex) ≡ l.data_length
    → drop 170 hex ≡ l.payload ++ rest
    → length l.payload ≡ l.data_length * 2
    → length hex ≡ 170 + length (l.payload ++ rest)
    → unpack_legs (suc fuel) index hex
      ≡ keep_leg
          (l.operation == 0 && (l.data_length == 0 && ltb 0 l.value))
          (record { index = index; to = l.to; value = l.value })
          (unpack_legs fuel (index + 1) rest)
unfolding unpack_legs
round fuel index hex l rest operation to value data_length body payload long =
    let whole = length-append l.payload rest in
    let left : drop (l.data_length * 2) (l.payload ++ rest) ≡ rest =
      ap (λ k. drop k (l.payload ++ rest)) (sym payload) ∙ drop_front l.payload rest in
    let some_hex : (length hex == 0) ≡ false = not_empty (length hex) (omega arith) in
    let has_head : ltb (length hex) 170 ≡ false = not_short (length hex) 170 (omega arith) in
    let has_payload : ltb (length (l.payload ++ rest)) (l.data_length * 2) ≡ false =
      not_short _ _ (omega arith) in
    rw (operation, to, value, data_length, body, some_hex, has_head, has_payload, left) refl

step :
    (fuel index : ℕ) (l : Leg) (rest : List ℕ)
    → IsLeg l
    → unpack_legs (suc fuel) index (with_head l (l.payload ++ rest))
      ≡ keep_leg
          (l.operation == 0 && (l.data_length == 0 && ltb 0 l.value))
          (record { index = index; to = l.to; value = l.value })
          (unpack_legs fuel (index + 1) rest)
step fuel index l rest h =
    let after = l.payload ++ rest in
    round fuel index (with_head l after) l rest (read 2 l.operation _ h.operation_fits)
      (ap (λ r. parse_hex (take 40 r)) (to_field l after) ∙ read 40 l.to _ h.to_fits)
      (ap (λ r. parse_hex (take 64 r)) (value_field l after) ∙ read 64 l.value _ h.value_fits)
      (ap (λ r. parse_hex (take 64 r)) (length_field l after)
        ∙ read 64 l.data_length after h.data_length_fits)
      (body_of l after) h.payload_whole (length-with_head l after)

-- Any fuel that is at least the number of digits is enough.
legs_back :
    (fuel index : ℕ) (legs : List Leg)
    → AreLegs legs
    → length (pack legs) ≤ fuel
    → unpack_legs fuel index (pack legs) ≡ unpacked (native_legs index legs)
unfolding unpack_legs
legs_back zero index [] h enough = refl
legs_back (suc fuel) index [] h enough = refl
legs_back zero index (l ∷ legs) h enough =
    absurd (omega (arith, length-with_head l (l.payload ++ pack legs)))
legs_back (suc fuel) index (l ∷ legs) h enough =
    let shorter : length (pack legs) ≤ fuel =
      omega
        (arith, length-with_head l (l.payload ++ pack legs), length-append l.payload (pack legs)) in
    step fuel index l (pack legs) h.0
    ∙ ap (keep_leg (l.operation == 0 && (l.data_length == 0 && ltb 0 l.value)) _)
        (legs_back fuel (index + 1) legs h.1 shorter)

hex_after : (l r : List ℕ) → is_hex l ≡ true → is_hex r ≡ true → is_hex (l ++ r) ≡ true
hex_after l r h g = is_hex-append l r ∙ rw (h, g) refl

hex_digits : (width n : ℕ) (r : List ℕ) → is_hex r ≡ true → is_hex (digits width n ++ r) ≡ true
hex_digits width n r h = hex_after (digits width n) r (is_hex-digits width n) h

pack-hex : (legs : List Leg) → AreLegs legs → is_hex (pack legs) ≡ true
pack-hex [] h = refl
pack-hex (l ∷ legs) h = hex_digits 2 l.operation _ (
    hex_digits 40 l.to _ (
      hex_digits 64 l.value _ (
        hex_digits 64 l.data_length _
          (hex_after l.payload (pack legs) h.0.payload_hex (pack-hex legs h.1)))))

pack-even : (legs : List Leg) → AreLegs legs → length (pack legs) % 2 ≡ 0
pack-even [] h = refl
pack-even (l ∷ legs) h =
    let whole = h.0.payload_whole in
    omega (
      arith,
      length-with_head l (l.payload ++ pack legs),
      length-append l.payload (pack legs),
      pack-even legs h.1,
    )

-- A batch that is packed as MultiSend packs it, with fields that fit, unpacks to its plain transfers,
-- which are calls without data that move a value, each with its place in the batch.
pub unpack_multi_send-pack :
    (legs : List Leg) → AreLegs legs → unpack_multi_send (pack legs) ≡ some (native_legs 0 legs)
unfolding unpack_multi_send
unpack_multi_send-pack legs h =
    rw (pack-even legs h, pack-hex legs h)
      (ap legs_of (legs_back (length (pack legs)) 0 legs h (omega arith)))
