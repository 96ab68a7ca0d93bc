-- ===== src/Pearl/MultiSend/Tests.antt =====
-- squids/pearl-transactions: a batch of two legs.
use autonolas_subgraph.Prelude.{◌≡◌, ◌≢◌, refl, some, [], ◌∷◌, arith, length}
use autonolas_subgraph.Pearl.MultiSend.{out_of_fuel, unpack_legs, unpack_multi_send}
use autonolas_subgraph.Pearl.MultiSend.Digits.{digits}
use autonolas_subgraph.Pearl.MultiSend.Pack.{Leg, pack, unpack_multi_send-pack}
use autonolas_subgraph.Pearl.MultiSend.Fuel.{unpack_legs-fuel}

-- A plain transfer, and a call with data.
abbrev plain_leg : Leg
plain_leg = record { operation = 0; to = 77; value = 5; data_length = 0; payload = [] }

abbrev call_leg : Leg
call_leg = record { operation = 0; to = 78; value = 0; data_length = 1; payload = 10 ∷ 11 ∷ [] }

unpack_multi_send-pack_example :
    unpack_multi_send (pack (call_leg ∷ plain_leg ∷ []))
    ≡ some (record { index = 1; to = 77; value = 5 } ∷ [])
unpack_multi_send-pack_example = unpack_multi_send-pack (call_leg ∷ plain_leg ∷ []) (
  record {
    operation_fits = omega arith;
    to_fits = omega arith;
    value_fits = omega arith;
    data_length_fits = omega arith;
    payload_whole = refl;
    payload_hex = refl;
  },
  (
    record {
      operation_fits = omega arith;
      to_fits = omega arith;
      value_fits = omega arith;
      data_length_fits = omega arith;
      payload_whole = refl;
      payload_hex = refl;
    },
    tt,
  ),
)

unpack_legs-fuel_example :
    (unpack_legs 400 0 (pack (plain_leg ∷ [])) ≢ out_of_fuel)
    × (unpack_legs 400 0 (pack (plain_leg ∷ []))
        ≡ unpack_legs (length (pack (plain_leg ∷ []))) 0 (pack (plain_leg ∷ [])))
unfolding digits
unpack_legs-fuel_example = unpack_legs-fuel 400 0 (pack (plain_leg ∷ [])) (omega arith)
