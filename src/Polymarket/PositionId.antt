-- ===== src/Polymarket/PositionId.antt =====
-- squids/predict-polymarket/src/positionId.ts: ids as texts of hex digits, each digit its value, without
-- the "0x" that every text starts with.
pub mod RoundTrip
use autonolas_subgraph.Prelude.{ℕ, zero, suc, ◌-◌, ◌/◌, ◌%◌, List, [], ◌∷◌, ◌++◌, length, drop}
use autonolas_subgraph.Pearl.MultiSend.{parse_hex, slice}
use autonolas_subgraph.Polymarket.State.{ConditionId}

abbrev pub HexText : Type 0
HexText = List ℕ

-- The digits of a number in front of `text`; a number has no more digits than the fuel it gives.
unfoldable pub to_hex_from : ℕ → ℕ → HexText → HexText
to_hex_from zero n text = text
to_hex_from (suc fuel) zero text = text
to_hex_from (suc fuel) (suc n) text = to_hex_from fuel (suc n / 16) (suc n % 16 ∷ text)

-- `toString(16)`
unfoldable pub to_hex : ℕ → HexText
to_hex zero = 0 ∷ []
to_hex (suc n) = to_hex_from (suc n) (suc n) []

unfoldable pub zeros : ℕ → HexText
zeros zero = []
zeros (suc n) = 0 ∷ zeros n

-- `padStart(width, "0")`
unfoldable pub pad_start : ℕ → HexText → HexText
pad_start width text = zeros (width - length text) ++ text

-- The key of a row, which the text is read as.
abbrev pub key_of : HexText → ConditionId
key_of text = parse_hex text

pub record Position : Type 0 where
  pub module_id : ℕ
  pub condition_id : HexText
  pub outcome_index : ℕ

-- `decodePositionId`
unfoldable pub decode_position_id : ℕ → Position
decode_position_id id =
    let hex = pad_start 64 (to_hex id) in
    record {
      module_id = parse_hex (slice 0 2 hex);
      condition_id = slice 0 62 hex;
      outcome_index = parse_hex (drop 62 hex);
    }

-- `padConditionId`
unfoldable pub pad_condition_id : HexText → HexText
pad_condition_id condition = condition ++ 0 ∷ 0 ∷ []
