-- ===== src/Polymarket/PositionId/RoundTrip.antt =====
-- squids/predict-polymarket/src/positionId.ts: a position id against its parts.
use native.Mathlib.Nat.{mul-le-mul_right}
use autonolas_subgraph.Prelude.{
  ℕ, zero, suc, ◌+◌, ◌-◌, ◌*◌, ◌/◌, ◌%◌, ◌^◌, ◌<◌, ◌≤◌, ◌≡◌, refl, sym, ap, subst, ◌∙◌, true, [],
  ◌∷◌, ◌++◌, arith, length, take, drop,
}
use autonolas_subgraph.Pearl.MultiSend.{is_hex, parse_from, parse_hex}
use autonolas_subgraph.Pearl.MultiSend.Digits.{
  digits, parse_from-append, parse_hex-digits, length-digits, take_front, drop_front,
}
use autonolas_subgraph.Polymarket.PositionId.{
  HexText, to_hex_from, to_hex, zeros, pad_start, key_of, decode_position_id, pad_condition_id,
}

append_assoc : (k l r : HexText) → (k ++ l) ++ r ≡ k ++ (l ++ r)
append_assoc [] l r = refl
append_assoc (x ∷ k) l r = ap (λ t. x ∷ t) (append_assoc k l r)

append_nil : (l : HexText) → l ++ [] ≡ l
append_nil [] = refl
append_nil (x ∷ l) = ap (λ t. x ∷ t) (append_nil l)

zeros-snoc : (w : ℕ) → zeros w ++ 0 ∷ [] ≡ zeros (suc w)
unfolding zeros
zeros-snoc zero = refl
zeros-snoc (suc w) = ap (λ t. 0 ∷ t) (zeros-snoc w)

digits_of_zero : (w : ℕ) → digits w 0 ≡ zeros w
unfolding digits zeros
digits_of_zero zero = refl
digits_of_zero (suc w) = ap (λ t. t ++ 0 ∷ []) (digits_of_zero w) ∙ zeros-snoc w

filled_zero :
    (w : ℕ) (text : HexText) → zeros (w + length text - length text) ++ text ≡ digits w 0 ++ text
filled_zero w text =
    let left : w + length text - length text ≡ w = omega arith in
    ap (λ k. zeros k ++ text) left ∙ ap (λ l. l ++ text) (sym (digits_of_zero w))

-- Filled up with zeros, the digits in front of a text are the digits of the width.
filled :
    (w fuel n : ℕ) (text : HexText)
    → n < 16 ^ w
    → n ≤ fuel
    → zeros (w + length text - length (to_hex_from fuel n text)) ++ to_hex_from fuel n text
      ≡ digits w n ++ text
unfolding to_hex_from digits
filled w zero zero text small enough = filled_zero w text
filled w zero (suc n) text small enough = absurd (omega arith)
filled w (suc fuel) zero text small enough = filled_zero w text
filled zero (suc fuel) (suc n) text small enough = absurd (omega arith)
filled (suc w) (suc fuel) (suc n) text small enough =
    let digit = suc n % 16 in
    let later = to_hex_from fuel (suc n / 16) (digit ∷ text) in
    let width : suc w + length text ≡ w + length (digit ∷ text) = omega arith in
    ap (λ k. zeros (k - length later) ++ later) width
    ∙ filled w fuel (suc n / 16) (digit ∷ text) (omega arith) (omega arith)
    ∙ sym (append_assoc (digits w (suc n / 16)) (digit ∷ []) text)

-- A text of hex digits is the digits of its number, behind those of what stands in front.
digits-parse_from :
    (w a : ℕ) (c : HexText)
    → is_hex c ≡ true
    → digits (w + length c) (parse_from a c) ≡ digits w a ++ c
unfolding parse_from digits
digits-parse_from w a [] h =
    let width : w + 0 ≡ w = omega arith in
    ap (λ k. digits k a) width ∙ sym (append_nil (digits w a))
digits-parse_from w a (d ∷ c) h =
    let small : d < 16 = ground arith in
    let hex : is_hex c ≡ true = ground arith in
    let quotient : (16 * a + d) / 16 ≡ a = omega arith in
    let remainder : (16 * a + d) % 16 ≡ d = omega arith in
    let width : w + suc (length c) ≡ suc w + length c = omega arith in
    ap (λ k. digits k (parse_from (16 * a + d) c)) width
    ∙ digits-parse_from (suc w) (16 * a + d) c hex
    ∙ rw (quotient, remainder) (append_assoc (digits w a) (d ∷ []) c)

digits-key_of : (c : HexText) → is_hex c ≡ true → digits (length c) (key_of c) ≡ c
unfolding digits
digits-key_of c h =
    let width : length c ≡ 0 + length c = omega arith in
    ap (λ k. digits k (key_of c)) width ∙ digits-parse_from 0 0 c h

scaled : (a x y : ℕ) → y ≡ 16 * x → (a + 1) * y ≡ (16 * a + 16) * x
scaled a x y h = rw h (grind arith)

parse_from-bound :
    (a : ℕ) (c : HexText) → is_hex c ≡ true → parse_from a c < (a + 1) * 16 ^ length c
unfolding parse_from
parse_from-bound a [] h = omega arith
parse_from-bound a (d ∷ c) h =
    let small : d < 16 = ground arith in
    let hex : is_hex c ≡ true = ground arith in
    let later = parse_from-bound (16 * a + d) c hex in
    let wider : (16 * a + d + 1) * 16 ^ length c ≤ (16 * a + 16) * 16 ^ length c =
      mul-le-mul_right (16 ^ length c) (omega arith) in
    let step : (a + 1) * 16 ^ suc (length c) ≡ (16 * a + 16) * 16 ^ length c =
      scaled a (16 ^ length c) (16 ^ suc (length c)) (omega arith) in
    subst (λ x. parse_from (16 * a + d) c < x) (sym step) (omega arith)

-- The text of an id is its 64 digits.
text_of_id : (w id : ℕ) → id < 16 ^ w → 0 < w → pad_start w (to_hex id) ≡ digits w id
unfolding pad_start to_hex zeros
text_of_id zero zero small some_width = absurd (omega arith)
text_of_id (suc w) zero small some_width =
    let left : suc w - 1 ≡ w = omega arith in
    ap (λ k. zeros k ++ 0 ∷ []) left ∙ zeros-snoc w ∙ sym (digits_of_zero (suc w))
text_of_id w (suc n) small some_width =
    let later = to_hex_from (suc n) (suc n) [] in
    let width : w ≡ w + 0 = omega arith in
    ap (λ k. zeros (k - length later) ++ later) width
    ∙ filled w (suc n) (suc n) [] small (omega arith)
    ∙ append_nil (digits w (suc n))

-- The last byte of a text apart.
last_byte :
    (w id : ℕ) → digits (suc (suc w)) id ≡ digits w (id / 16 / 16) ++ id / 16 % 16 ∷ id % 16 ∷ []
unfolding digits
last_byte w id = append_assoc (digits w (id / 16 / 16)) (id / 16 % 16 ∷ []) (id % 16 ∷ [])

take_within : (n : ℕ) (l r : HexText) → n ≤ length l → take n (l ++ r) ≡ take n l
take_within zero l r h = refl
take_within (suc n) [] r h = absurd (omega arith)
take_within (suc n) (x ∷ l) r h = ap (λ t. x ∷ t) (take_within n l r (omega arith))

front : (w : ℕ) (l r : HexText) → length l ≡ w → take w (l ++ r) ≡ l
front w l r h = ap (λ k. take k (l ++ r)) (sym h) ∙ take_front l r

back : (w : ℕ) (l r : HexText) → length l ≡ w → drop w (l ++ r) ≡ r
back w l r h = ap (λ k. drop k (l ++ r)) (sym h) ∙ drop_front l r

byte_value : (a b : ℕ) → parse_hex (a ∷ b ∷ []) ≡ 16 * a + b
unfolding parse_from
byte_value a b = omega arith

-- An id of 32 bytes, taken apart: the byte in front, 62 digits, and the byte at the end.
decoded :
    (id : ℕ)
    → id < 16 ^ 64
    → let c = digits 62 (id / 16 / 16) in
      decode_position_id id ≡ record {
        module_id = parse_hex (take 2 c);
        condition_id = c;
        outcome_index = 16 * (id / 16 % 16) + id % 16;
      }
unfolding decode_position_id
decoded id small =
    let c = digits 62 (id / 16 / 16) in
    let byte = id / 16 % 16 ∷ id % 16 ∷ [] in
    let text : pad_start 64 (to_hex id) ≡ c ++ byte =
      text_of_id 64 id small (omega arith) ∙ last_byte 62 id in
    let long : length c ≡ 62 = length-digits 62 (id / 16 / 16) in
    let module_text : take 2 (c ++ byte) ≡ take 2 c = take_within 2 c byte (omega arith) in
    rw (text, module_text, front 62 c byte long, back 62 c byte long, byte_value) refl

padded_value : (c : HexText) → key_of (pad_condition_id c) ≡ 256 * key_of c
unfolding pad_condition_id parse_from
padded_value c = parse_from-append 0 c (0 ∷ 0 ∷ []) ∙ omega arith

-- An id below 2 ^ 256 is its condition id, padded, with its outcome's index for the last byte, and its
-- condition id has 62 digits. A condition id of 62 hex digits and an index below 256 make an id from
-- which the same digits and the same index are read, with the first two digits for the module.
pub decode_position_id-roundtrip :
    (id i : ℕ) (c : HexText)
    → id < 2 ^ 256
    → length c ≡ 62
    → is_hex c ≡ true
    → i < 256
    → let p = decode_position_id id in
      (key_of (pad_condition_id p.condition_id) + p.outcome_index ≡ id)
      × (length p.condition_id ≡ 62)
      × (decode_position_id (key_of (pad_condition_id c) + i)
          ≡ record { module_id = parse_hex (take 2 c); condition_id = c; outcome_index = i })
decode_position_id-roundtrip id i c small long hex index =
    let top = digits 62 (id / 16 / 16) in
    let back = parse_hex-digits 62 (id / 16 / 16) (omega arith) in
    let n = key_of (pad_condition_id c) + i in
    let value : n ≡ 256 * key_of c + i = ap (λ k. k + i) (padded_value c) in
    let bound : key_of c < 1 * 16 ^ 62 =
      subst (λ k. key_of c < 1 * 16 ^ k) long (parse_from-bound 0 c hex) in
    let same : digits 62 (key_of c) ≡ c =
      ap (λ k. digits k (key_of c)) (sym long) ∙ digits-key_of c hex in
    let quotient : n / 16 / 16 ≡ key_of c = omega arith in
    let remainder : 16 * (n / 16 % 16) + n % 16 ≡ i = omega arith in
    (
      rw (decoded id (omega arith), padded_value top, back) (omega arith),
      rw (decoded id (omega arith)) (length-digits 62 (id / 16 / 16)),
      rw (decoded n (omega arith), quotient, remainder, same) refl,
    )
