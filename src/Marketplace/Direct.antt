-- ===== src/Marketplace/Direct.antt =====
-- squids/marketplace/src/handlers.ts: deliveries straight from a mech.
use autonolas_subgraph.Prelude.{ℕ, true, false, not, Option, none, some, if◌then◌else◌}
use autonolas_subgraph.Prelude.Equality.{nat_eq, pair_eq}
use autonolas_subgraph.Prelude.Table.{get}
use autonolas_subgraph.Marketplace.State.{
  Address, Usd, Meta, Request, Deliver, Market, State, log_deliver_id,
}
use autonolas_subgraph.Marketplace.Fees.{Chain}
use autonolas_subgraph.Marketplace.Books.{book_direct_delivery}
use autonolas_subgraph.Marketplace.Mechs.{
  get_service_id_from_mech, update_mech_counters_on_delivery, refresh_mech_delivery_rate,
  or_address,
}
use autonolas_subgraph.Marketplace.Registry.{found}
use autonolas_subgraph.Marketplace.Requests.{is_marketplace_transaction}
use autonolas_subgraph.Marketplace.Deliveries.{
  or_deliver_link, set_deliver_link, increment_service_deliveries,
}
use autonolas_subgraph.Marketplace.Signed.{
  update_fees_on_delivery, SignedDeliver, set_deliver, ipfs_of,
}

-- `handleMechDeliver`: the first delivery of a request that has no fee yet.
abbrev pub first_delivery : Request → Address → Request
first_delivery r mech =
    if r.is_delivered then r else record r { is_delivered = true; delivered_by_mech = some mech }

unfoldable pub deliver_directly : Market → Request → Address → Option ℕ → Market
deliver_directly k r mech service =
    if r.is_delivered
    then k
    else increment_service_deliveries (update_mech_counters_on_delivery k r.priority_mech mech)
        service

abbrev pub mech_deliver_unpaid : Chain → State → Meta → ℕ → ℕ → ℕ → Request → Option Usd → State
mech_deliver_unpaid c s m id rate service r (some _) = s
mech_deliver_unpaid c s m id rate service r none =
    let direct = not (is_marketplace_transaction c m.tx_to) in
    let k = if direct then deliver_directly s.market r m.address (some service) else s.market in
    update_fees_on_delivery c (record s { market = k }) id (first_delivery r m.address) rate
      m.block_number

abbrev pub mech_deliver_request : Chain → State → Meta → ℕ → ℕ → ℕ → Option Request → State
mech_deliver_request c s m id rate service none = s
mech_deliver_request c s m id rate service (some r) =
    mech_deliver_unpaid c s m id rate service r r.final_fee_usd

unfoldable pub mech_deliver_row : Chain → Market → Meta → ℕ → ℕ → Deliver
mech_deliver_row c k m id service = record {
  request_id = id;
  mech = m.address;
  sender = or_address c m.tx_from m.address;
  service = found (get service k.services) service;
  request = found (get id k.requests) id;
  block_number = m.block_number;
  block_timestamp = m.block_timestamp;
  transaction_hash = m.tx_hash;
}

unfoldable pub link_mech_deliver : Market → Meta → ℕ → SignedDeliver → Market
link_mech_deliver k m id a =
    let row = or_deliver_link (get id k.deliver_links) in
    set_deliver_link k id (record row {
      mech_service_multisig = some a.mech_service_multisig;
      delivery_rate = some a.delivery_rate;
      is_marketplace = true;
      is_off_chain = false;
      deliver = some (log_deliver_id m);
      ipfs_hash_bytes = ipfs_of a.payload row.ipfs_hash_bytes;
    })

unfoldable pub mech_deliver : Chain → State → Meta → ℕ → SignedDeliver → ℕ → State
mech_deliver c s m id a service =
    let s1 = mech_deliver_request c s m id a.delivery_rate service (get id s.market.requests) in
    let k = set_deliver s1.market (log_deliver_id m) (mech_deliver_row c s1.market m id service) in
    let direct = not (is_marketplace_transaction c m.tx_to) in
    record s1 {
      market =
          refresh_mech_delivery_rate c (link_mech_deliver k m id a) m.address a.delivery_rate
            m.block_number;
      books = if direct then book_direct_delivery c.decimals.zero_usd s1.books m else s1.books;
    }

-- A log of an address that is no mech is dropped.
unfoldable pub handle_mech_deliver : Chain → State → Meta → ℕ → SignedDeliver → State
handle_mech_deliver c s m id a = elim (get_service_id_from_mech s.market m.address) [
  | none ↦ s
  | some service ↦ mech_deliver c s m id a service
]
