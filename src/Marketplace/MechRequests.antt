-- ===== src/Marketplace/MechRequests.antt =====
-- squids/marketplace/src/handlers.ts: requests straight to a mech.
use autonolas_subgraph.Prelude.{ℕ, Bool, true, false, Option, none, some, if◌then◌else◌}
use autonolas_subgraph.Prelude.Equality.{nat_eq, pair_eq}
use autonolas_subgraph.Prelude.Table.{get, set}
use autonolas_subgraph.Marketplace.State.{
  Address, Meta, Payload, Request, RequestToMarketplace, Market, State,
}
use autonolas_subgraph.Marketplace.Fees.{Chain}
use autonolas_subgraph.Marketplace.Books.{get_or_create_sender}
use autonolas_subgraph.Marketplace.Mechs.{get_service_id_from_mech, or_address}
use autonolas_subgraph.Marketplace.Registry.{found}
use autonolas_subgraph.Marketplace.Requests.{
  is_marketplace_transaction, is_ipfs_payload, or_request, or_link,
}

-- The request of a mech's own log, outside the marketplace.
unfoldable pub direct_request : Request → Meta → Address → Option ℕ → Request
direct_request r m sender service = record r {
  sender = some sender;
  mech = some m.address;
  service = service;
  block_number = m.block_number;
  block_timestamp = m.block_timestamp;
  transaction_hash = m.tx_hash;
  is_delivered = false;
  priority_mech = some m.address;
}

abbrev pub link_payload : Market → ℕ → ℕ → Bool → Option RequestToMarketplace → Market
link_payload k id text direct (some row) = record k {
  request_links = set id (record row { ipfs_hash_bytes = some text }) k.request_links;
}
link_payload k id text true none = record k {
  request_links =
      set id (record (or_link none) { ipfs_hash_bytes = some text; request = some id })
        k.request_links;
}
link_payload k id text false none = record k {
  pending_request_payloads = set id text k.pending_request_payloads;
}

unfoldable pub keep_payload : Market → ℕ → Payload → Bool → Market
keep_payload k id p direct =
    if is_ipfs_payload p then link_payload k id p.text direct (get id k.request_links) else k

unfoldable pub mech_request : Chain → State → Meta → ℕ → Payload → ℕ → State
mech_request c s m id payload service =
    if is_marketplace_transaction c m.tx_to
    then record s { market = keep_payload s.market id payload false }
    else let k = s.market in
      let sender = or_address c m.tx_from m.address in
      let r =
        direct_request (or_request (get id k.requests)) m sender
          (found (get service k.services) service) in
      record s {
        books = get_or_create_sender c.decimals.zero_usd s.books sender;
        market = keep_payload (record k { requests = set id r k.requests }) id payload true;
      }

-- A log of an address that is no mech is dropped.
unfoldable pub handle_mech_request : Chain → State → Meta → ℕ → Payload → State
handle_mech_request c s m id payload = elim (get_service_id_from_mech s.market m.address) [
  | none ↦ s
  | some service ↦ mech_request c s m id payload service
]
