-- ===== src/Marketplace/Signed.antt =====
-- squids/marketplace/src/handlers.ts: the fee of a delivered request, and deliveries that are signed.
use autonolas_subgraph.Prelude.{ℕ, ◌+◌, true, Option, none, some, List, [], ◌∷◌, if◌then◌else◌}
use autonolas_subgraph.Prelude.Equality.{nat_eq, pair_eq}
use autonolas_subgraph.Prelude.Table.{get, set}
use autonolas_subgraph.Marketplace.State.{
  Address, Usd, Meta, DeliverId, FeeUnit, Payload, Request, RequestToMarketplace, Deliver,
  DeliverForMarketplace, Market, EventRow, State, signed_deliver_id,
}
use autonolas_subgraph.Marketplace.Fees.{Chain, convert_fee_to_usd}
use autonolas_subgraph.Marketplace.Books.{book_signed_delivery, bump_requests_per_agent, pay_fee}
use autonolas_subgraph.Marketplace.Mechs.{get_service_id_from_mech, change_mech}
use autonolas_subgraph.Marketplace.Registry.{add_row}
use autonolas_subgraph.Marketplace.Requests.{
  is_ipfs_payload, get_service_id_from_multisig, is_some, or_old, service_link, agents_at,
}
use autonolas_subgraph.Marketplace.Deliveries.{or_deliver_link, set_deliver_link}

-- `updateFeesOnDelivery`: the fee of a request, if it came through the marketplace and has a unit.
abbrev pub fee_of : Chain → ℕ → ℕ → Option FeeUnit → Option Usd
fee_of c rate block none = none
fee_of c rate block (some unit) = some (convert_fee_to_usd c rate unit block)

abbrev pub final_fee : Chain → Option RequestToMarketplace → Request → ℕ → ℕ → Option Usd
final_fee c none r rate block = none
final_fee c (some link) r rate block =
    if link.is_marketplace then fee_of c rate block r.fee_unit else none

-- The request is written with its fee, and the fee is added to the sums.
unfoldable pub pay_request : Chain → State → ℕ → Request → Option Usd → State
pay_request c s id r none = record s {
  market = record s.market { requests = set id r s.market.requests };
}
pay_request c s id r (some usd) = record s {
  market = record s.market {
    requests = set id (record r { final_fee_usd = some usd }) s.market.requests;
  };
  books = pay_fee c.decimals s.books r.sender usd;
}

unfoldable pub update_fees_on_delivery : Chain → State → ℕ → Request → ℕ → ℕ → State
update_fees_on_delivery c s id r rate block =
    pay_request c s id r (final_fee c (get id s.market.request_links) r rate block)

-- `persistSignedDeliver`, with what only the delivery's own log knows.
pub record SignedDeliver : Type 0 where
  pub delivery_rate : ℕ
  pub mech_service_multisig : Address
  pub payload : Payload

unfoldable pub set_deliver : Market → DeliverId → Deliver → Market
set_deliver k id row = record k { delivers = set id row k.delivers }

abbrev pub old_service : Option Deliver → Option ℕ
old_service none = none
old_service (some row) = row.service

abbrev pub service_at : Market → Address → Option ℕ
service_at k mech = service_link k (get_service_id_from_mech k mech)

unfoldable pub signed_row : Market → Meta → ℕ → Address → Deliver
signed_row k m id mech = record {
  request_id = id;
  mech = mech;
  sender = mech;
  service = or_old (service_at k mech) (old_service (get (signed_deliver_id m id) k.delivers));
  request = none;
  block_number = m.block_number;
  block_timestamp = m.block_timestamp;
  transaction_hash = m.tx_hash;
}

-- The fee of a request that has none yet.
abbrev pub settle_unpaid : Chain → State → Meta → ℕ → Request → ℕ → Option Usd → State
settle_unpaid c s m id r rate (some _) = s
settle_unpaid c s m id r rate none = update_fees_on_delivery c s id r rate m.block_number

abbrev pub settle_request : Chain → State → Meta → ℕ → ℕ → Option Request → State
settle_request c s m id rate none = s
settle_request c s m id rate (some r) = settle_unpaid c s m id r rate r.final_fee_usd

unfoldable pub settle_fee : Chain → State → Meta → ℕ → Option SignedDeliver → State
settle_fee c s m id none = s
settle_fee c s m id (some a) = settle_request c s m id a.delivery_rate (get id s.market.requests)

abbrev pub ipfs_of : Payload → Option ℕ → Option ℕ
ipfs_of p old = if is_ipfs_payload p then some p.text else old

abbrev pub with_signed : DeliverForMarketplace → Option SignedDeliver → DeliverForMarketplace
with_signed row none = row
with_signed row (some a) = record row {
  delivery_rate = some a.delivery_rate;
  mech_service_multisig = some a.mech_service_multisig;
  ipfs_hash_bytes = ipfs_of a.payload row.ipfs_hash_bytes;
}

unfoldable pub link_signed : Market → Meta → ℕ → Option SignedDeliver → Market
link_signed k m id a =
    let row = or_deliver_link (get id k.deliver_links) in
    set_deliver_link k id (
      with_signed
        (record row {
          is_marketplace = true;
          is_off_chain = true;
          deliver = some (signed_deliver_id m id);
        })
        a)

unfoldable pub persist_signed_deliver :
    Chain → State → Meta → ℕ → Address → Option SignedDeliver → State
persist_signed_deliver c s m id mech a =
    let s1 : State = record s {
      market = set_deliver s.market (signed_deliver_id m id) (signed_row s.market m id mech);
    } in
    let s2 = settle_fee c s1 m id a in record s2 { market = link_signed s2.market m id a }

unfoldable pub persist_all : Chain → State → Meta → Address → List ℕ → State
persist_all c s m mech [] = s
persist_all c s m mech (id ∷ ids) =
    persist_all c (persist_signed_deliver c s m id mech none) m mech ids

unfoldable pub handle_marketplace_delivery_with_signatures :
    Chain → State → Meta → Address → Address → ℕ → List ℕ → State
handle_marketplace_delivery_with_signatures c s m mech requester n ids =
    let s1 = persist_all c s m mech ids in
    let k = change_mech s1.market mech λ v. record v {
      total_deliveries_transactions = v.total_deliveries_transactions + n;
      received_requests = v.received_requests + n;
      self_delivered_from_received = v.self_delivered_from_received + n;
    } in
    let service = get_service_id_from_multisig k requester in
    let b = book_signed_delivery c.decimals.zero_usd s1.books m requester n (is_some service) in
    add_row (record s1 { market = k; books = bump_requests_per_agent b (agents_at k service) n }) m
      (EventRow.marketplace_delivery_with_signatures mech requester n ids)

unfoldable pub handle_deliver_with_signatures :
    Chain → State → Meta → Address → ℕ → SignedDeliver → State
handle_deliver_with_signatures c s m mech id a = persist_signed_deliver c s m id mech (some a)
