-- ===== src/Pearl/MultiSend/Digits.antt =====
-- squids/pearl-transactions/src/logic.ts: the digits of a number in a fixed width, read back.
use autonolas_subgraph.Prelude.{
  ℕ, zero, suc, ◌+◌, ◌*◌, ◌/◌, ◌%◌, ◌^◌, ◌<◌, ◌≡◌, refl, ap, ◌∙◌, ◌&&◌, true, List, [], ◌∷◌, ◌++◌,
  arith, length, length-append, take, drop,
}
use autonolas_subgraph.Pearl.MultiSend.{is_hex, parse_from, parse_hex}

-- The last `width` digits of a number, the largest first.
unfoldable pub digits : ℕ → ℕ → List ℕ
digits zero n = []
digits (suc width) n = digits width (n / 16) ++ n % 16 ∷ []

pub parse_from-append :
    (acc : ℕ) (l r : List ℕ) → parse_from acc (l ++ r) ≡ parse_from (parse_from acc l) r
unfolding parse_from
parse_from-append acc [] r = refl
parse_from-append acc (d ∷ l) r = parse_from-append (16 * acc + d) l r

pub is_hex-append : (l r : List ℕ) → is_hex (l ++ r) ≡ (is_hex l && is_hex r)
is_hex-append [] r = refl
is_hex-append (d ∷ l) r = ground (arith, is_hex-append l r)

pub is_hex-digits : (width n : ℕ) → is_hex (digits width n) ≡ true
unfolding digits
is_hex-digits zero n = refl
is_hex-digits (suc width) n =
    ground
      (arith, is_hex-append (digits width (n / 16)) (n % 16 ∷ []), is_hex-digits width (n / 16))

pub length-digits : (width n : ℕ) → length (digits width n) ≡ width
unfolding digits
length-digits zero n = refl
length-digits (suc width) n =
    omega (arith, length-append (digits width (n / 16)) (n % 16 ∷ []), length-digits width (n / 16))

-- A number that fits is what its digits say.
pub parse_hex-digits : (width n : ℕ) → n < 16 ^ width → parse_hex (digits width n) ≡ n
unfolding digits parse_from
parse_hex-digits zero n h = omega arith
parse_hex-digits (suc width) n h =
    let smaller : n / 16 < 16 ^ width = omega arith in
    parse_from-append 0 (digits width (n / 16)) (n % 16 ∷ [])
    ∙ ap (λ x. 16 * x + n % 16) (parse_hex-digits width (n / 16) smaller)
    ∙ omega arith

-- What stands first is taken, and the rest is left.
pub take_front : (l r : List ℕ) → take (length l) (l ++ r) ≡ l
take_front [] r = refl
take_front (x ∷ l) r = ap (λ t. x ∷ t) (take_front l r)

pub drop_front : (l r : List ℕ) → drop (length l) (l ++ r) ≡ r
drop_front [] r = refl
drop_front (x ∷ l) r = drop_front l r
