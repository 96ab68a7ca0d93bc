-- ===== src/Marketplace/Mechs.antt =====
-- squids/marketplace/src/handlers.ts: mechs, by their address and by the service that they belong to.
use autonolas_subgraph.Prelude.{ℕ, ◌+◌, Bool, Option, none, some, ◌==◌, if◌then◌else◌}
use autonolas_subgraph.Prelude.Int.{ℤ, pos, ◌+ℤ◌}
use autonolas_subgraph.Prelude.Equality.{nat_eq}
use autonolas_subgraph.Prelude.Result.{Result, throw, ok}
use autonolas_subgraph.Prelude.Table.{get, set}
use autonolas_subgraph.Marketplace.State.{
  Address, Meta, Service, Mech, CreateMech, Market, State, Error, unknown_factory, missing_mech,
  remove,
}
use autonolas_subgraph.Marketplace.Fees.{FactoryConfig, Chain, calculate_max_delivery_rate_usd}
use autonolas_subgraph.Marketplace.Books.{book_mech}

abbrev pub service_of : Option CreateMech → Option ℕ
service_of none = none
service_of (some row) = some row.service_id

unfoldable pub get_service_id_from_mech : Market → Address → Option ℕ
get_service_id_from_mech k mech = service_of (get mech k.create_mechs)

abbrev pub mech_of : Market → Option ℕ → Option (ℕ × Mech)
mech_of k none = none
mech_of k (some service) = elim (get service k.mechs) [ none ↦ none | some v ↦ some (service, v) ]

-- The mech that an address stands for, with its id.
unfoldable pub get_mech_by_address : Market → Address → Option (ℕ × Mech)
get_mech_by_address k mech = mech_of k (get_service_id_from_mech k mech)

abbrev pub set_mech : Market → ℕ → Mech → Market
set_mech k id v = record k { mechs = set id v k.mechs }

-- A change of the mech at an address, if it is there.
abbrev pub with_mech : Market → Option (ℕ × Mech) → (Mech → Mech) → Market
with_mech k none change = k
with_mech k (some (id, v)) change = set_mech k id (change v)

unfoldable pub change_mech : Market → Address → (Mech → Mech) → Market
change_mech k mech change = with_mech k (get_mech_by_address k mech) change

unfoldable pub update_mech_counters_on_request : Market → Address → Market
update_mech_counters_on_request k mech =
    change_mech k mech λ v. record v { received_requests = v.received_requests + 1 }

unfoldable pub count_delivery : Mech → Bool → Mech
count_delivery v itself =
    if itself
    then record v { self_delivered_from_received = v.self_delivered_from_received + 1 }
    else record v { delivered_by_others_from_received = v.delivered_by_others_from_received + 1 }

unfoldable pub update_mech_counters_on_delivery : Market → Option Address → Address → Market
update_mech_counters_on_delivery k none delivery_mech = k
update_mech_counters_on_delivery k (some priority_mech) delivery_mech =
    change_mech k priority_mech λ v. count_delivery v (priority_mech == delivery_mech)

unfoldable pub handle_mech_karma_changed : Market → Address → ℤ → Market
handle_mech_karma_changed k mech change =
    change_mech k mech λ v. record v { karma = v.karma +ℤ change }

module _ (c : Chain) where
  -- The rate of the mech at `mech`, in dollars where its factory is known.
  unfoldable pub with_rate : Option CreateMech → Mech → ℕ → ℕ → Mech
  with_rate none v rate block = record v { max_delivery_rate = some rate }
  with_rate (some row) v rate block = record v {
    max_delivery_rate = some rate;
    max_delivery_rate_usd = some (calculate_max_delivery_rate_usd c rate row.mech_factory block);
  }

  abbrev pub heal_rate : Option ℕ → Option CreateMech → Mech → ℕ → ℕ → Mech
  heal_rate (some _) row v rate block = v
  heal_rate none row v rate block = with_rate row v rate block

  -- Only events of the service's current mech fill a rate that is missing.
  unfoldable pub refresh_mech_delivery_rate : Market → Address → ℕ → ℕ → Market
  refresh_mech_delivery_rate k mech rate block = change_mech k mech λ v.
      if v.address == mech
      then heal_rate v.max_delivery_rate (get mech k.create_mechs) v rate block
      else v

  abbrev pub update_rate : State → Meta → ℕ → ℕ → Option Mech → Result Error State
  update_rate s m rate service none = throw (missing_mech service)
  update_rate s m rate service (some v) = ok (
      if v.address == m.address
      then record s {
        market =
            set_mech s.market service
              (with_rate (get m.address s.market.create_mechs) v rate m.block_number);
      }
      else s)

  unfoldable pub handle_max_delivery_rate_updated : State → Meta → ℕ → Result Error State
  handle_max_delivery_rate_updated s m rate = elim (get_service_id_from_mech s.market m.address) [
    | none ↦ ok s
    | some service ↦ update_rate s m rate service (get service s.market.mechs)
  ]

  unfoldable pub handle_mech_factory_create : Market → Address → ℕ → Market
  handle_mech_factory_create k mech rate = record k {
    pending_mech_rates = set mech rate k.pending_mech_rates;
  }

  abbrev pub or_address : Option Address → Address → Address
  or_address none other = other
  or_address (some address) other = address

  abbrev pub hash_of : Option Service → Option ℕ
  hash_of none = none
  hash_of (some v) = some v.config_hash

  abbrev pub link_of : Option Service → ℕ → Option ℕ
  link_of none id = none
  link_of (some _) id = some id

  unfoldable pub new_mech : Market → Meta → Address → ℕ → Address → ℕ → Mech
  new_mech k m mech service factory payment_type = record {
    address = mech;
    mech_factory = factory;
    config_hash = hash_of (get service k.services);
    owner = or_address m.tx_from mech;
    service = link_of (get service k.services) service;
    total_deliveries_transactions = 0;
    received_requests = 0;
    self_delivered_from_received = 0;
    delivered_by_others_from_received = 0;
    max_delivery_rate = none;
    max_delivery_rate_usd = none;
    karma = pos 0;
    payment_type = payment_type;
  }

  abbrev pub advertised : Mech → Meta → Option ℕ → Mech
  advertised v m none = v
  advertised v m (some rate) = record v {
    max_delivery_rate = some rate;
    max_delivery_rate_usd =
        some (calculate_max_delivery_rate_usd c rate v.mech_factory m.block_number);
  }

  unfoldable pub create_mech : State → Meta → Address → ℕ → Address → FactoryConfig → State
  create_mech s m mech service factory config =
      let k = s.market in
      let v = new_mech k m mech service factory config.payment_type in
      record s {
        market = record k {
          mechs = set service (advertised v m (get mech k.pending_mech_rates)) k.mechs;
          pending_mech_rates = remove mech k.pending_mech_rates;
        };
        books = book_mech c.decimals.zero_usd s.books;
      }

  -- A factory that is not listed ends the batch.
  unfoldable pub handle_create_mech : State → Meta → Address → ℕ → Address → Result Error State
  handle_create_mech s m mech service factory =
      let s' : State = record s {
        market = record s.market {
          create_mechs =
              set mech (record { service_id = service; mech_factory = factory; created_by = m })
                s.market.create_mechs;
        };
      } in
      elim (c.factory_config factory) [
        | none ↦ throw (unknown_factory factory)
        | some config ↦ ok (create_mech s' m mech service factory config)
      ]
