-- ===== src/Marketplace/Requests.antt =====
-- squids/marketplace/src/handlers.ts: requests through the marketplace.
use autonolas_subgraph.Prelude.{ℕ, ◌+◌, Bool, true, false, Option, none, some, List, [], ◌∷◌, ◌==◌}
use autonolas_subgraph.Prelude.Equality.{nat_eq, pair_eq}
use autonolas_subgraph.Prelude.Table.{get, set}
use autonolas_subgraph.Marketplace.State.{
  Address, Usd, Meta, FeeUnit, Payload, Service, Mech, CreateMech, CreateMultisigWithAgents,
  Request, RequestToMarketplace, Market, EventRow, State, remove,
}
use autonolas_subgraph.Marketplace.Fees.{Chain, convert_fee_to_usd, fee_unit_of}
use autonolas_subgraph.Marketplace.Books.{book_request, bump_requests_per_agent}
use autonolas_subgraph.Marketplace.Mechs.{update_mech_counters_on_request}
use autonolas_subgraph.Marketplace.Registry.{add_row, change_service, found}

-- `isMarketplaceTransaction`
abbrev pub is_marketplace_transaction : Chain → Option Address → Bool
is_marketplace_transaction c none = false
is_marketplace_transaction c (some to) = to == c.mech_marketplace

-- "0x" and 32 bytes; every payload starts with the two characters.
unfoldable pub is_ipfs_payload : Payload → Bool
is_ipfs_payload p = p.length == 66

abbrev pub multisig_service : Option CreateMultisigWithAgents → Option ℕ
multisig_service none = none
multisig_service (some row) = some row.service_id

unfoldable pub get_service_id_from_multisig : Market → Address → Option ℕ
get_service_id_from_multisig k multisig = multisig_service (get multisig k.multisigs)

abbrev pub is_some : Option ℕ → Bool
is_some none = false
is_some (some _) = true

-- What the requests of one event have in common.
pub record Snapshot : Type 0 where
  pub sender : Address
  pub service : Option ℕ
  pub priority_mech : Address
  pub fee_raw : Option ℕ
  pub fee_unit : Option FeeUnit
  pub fee_usd : Option Usd

abbrev pub new_request : Request
new_request = record {
  sender = none;
  service = none;
  mech = none;
  priority_mech = none;
  block_number = 0;
  block_timestamp = 0;
  transaction_hash = 0;
  is_delivered = false;
  delivered_by_mech = none;
  fee_raw = none;
  fee_unit = none;
  fee_usd = none;
  final_fee_usd = none;
}

abbrev pub or_request : Option Request → Request
or_request none = new_request
or_request (some r) = r

-- The new value, or the old one where there is none.
abbrev pub or_old : {A : Type 0} → Option A → Option A → Option A
or_old none old = old
or_old (some v) old = some v

unfoldable pub requested_row : Request → Meta → Snapshot → Request
requested_row r m q = record r {
  sender = some q.sender;
  block_number = m.block_number;
  block_timestamp = m.block_timestamp;
  transaction_hash = m.tx_hash;
  is_delivered = false;
  priority_mech = some q.priority_mech;
  mech = some q.priority_mech;
  fee_raw = or_old q.fee_raw r.fee_raw;
  fee_unit = or_old q.fee_unit r.fee_unit;
  fee_usd = or_old q.fee_usd r.fee_usd;
  service = or_old q.service r.service;
}

abbrev pub or_link : Option RequestToMarketplace → RequestToMarketplace
or_link none = record {
  is_marketplace = false;
  is_off_chain = false;
  request = none;
  ipfs_hash_bytes = none;
}
or_link (some row) = row

abbrev pub count_request : Market → Option ℕ → Market
count_request k none = k
count_request k (some service) =
    change_service k service λ v. record v { total_requests = v.total_requests + 1 }

-- The link of a request, with the payload that its mech's log left.
unfoldable pub link_request : Market → ℕ → Market
link_request k id =
    let row = or_link (get id k.request_links) in
    record k {
      request_links =
          set id
            (record row {
              is_marketplace = true;
              is_off_chain = false;
              request = some id;
              ipfs_hash_bytes = or_old (get id k.pending_request_payloads) row.ipfs_hash_bytes;
            })
            k.request_links;
      pending_request_payloads = remove id k.pending_request_payloads;
    }

unfoldable pub request_one : Market → Meta → Snapshot → ℕ → Market
request_one k m q id =
    let r = requested_row (or_request (get id k.requests)) m q in
    let k1 = count_request (record k { requests = set id r k.requests }) q.service in
    link_request (update_mech_counters_on_request k1 q.priority_mech) id

unfoldable pub request_all : Market → Meta → Snapshot → List ℕ → Market
request_all k m q [] = k
request_all k m q (id ∷ ids) = request_all (request_one k m q id) m q ids

-- The advertised maximum of the priority mech.
abbrev pub priced : Chain → Meta → Address → Option ℕ → Snapshot → Snapshot
priced c m factory none q = q
priced c m factory (some rate) q =
    let unit = fee_unit_of (c.factory_config factory) in
    record q {
      fee_raw = some rate;
      fee_unit = some unit;
      fee_usd = some (convert_fee_to_usd c rate unit m.block_number);
    }

abbrev pub rate_of : Option Mech → Option ℕ
rate_of none = none
rate_of (some v) = v.max_delivery_rate

abbrev pub quoted : Chain → Market → Meta → Option CreateMech → Snapshot → Snapshot
quoted c k m none q = q
quoted c k m (some row) q = priced c m row.mech_factory (rate_of (get row.service_id k.mechs)) q

abbrev pub service_link : Market → Option ℕ → Option ℕ
service_link k none = none
service_link k (some id) = found (get id k.services) id

unfoldable pub snapshot : Chain → Market → Meta → Address → Address → Snapshot
snapshot c k m priority_mech requester = quoted c k m (get priority_mech k.create_mechs) (record {
  sender = requester;
  service = service_link k (get_service_id_from_multisig k requester);
  priority_mech = priority_mech;
  fee_raw = none;
  fee_unit = none;
  fee_usd = none;
})

abbrev pub agents_of : Option Service → List ℕ
agents_of none = []
agents_of (some v) = v.agent_ids

abbrev pub agents_at : Market → Option ℕ → List ℕ
agents_at k none = []
agents_at k (some id) = agents_of (get id k.services)

unfoldable pub handle_marketplace_request :
    Chain → State → Meta → Address → Address → ℕ → List ℕ → State
handle_marketplace_request c s m priority_mech requester n ids =
    let service = get_service_id_from_multisig s.market requester in
    let k = request_all s.market m (snapshot c s.market m priority_mech requester) ids in
    let b = book_request c.decimals.zero_usd s.books m requester n (is_some service) in
    add_row (record s { market = k; books = bump_requests_per_agent b (agents_at k service) n }) m
      (EventRow.marketplace_request priority_mech requester n ids)
