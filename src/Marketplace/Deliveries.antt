-- ===== src/Marketplace/Deliveries.antt =====
-- squids/marketplace/src/handlers.ts: deliveries through the marketplace.
use autonolas_subgraph.Prelude.{
  ℕ, ◌+◌, Bool, true, false, Option, none, some, List, [], ◌∷◌, ltb, if◌then◌else◌,
}
use autonolas_subgraph.Prelude.Equality.{nat_eq, pair_eq}
use autonolas_subgraph.Prelude.Table.{get, set}
use autonolas_subgraph.Marketplace.State.{
  Address, Meta, Request, DeliverForMarketplace, Market, EventRow, State,
}
use autonolas_subgraph.Marketplace.Fees.{Chain}
use autonolas_subgraph.Marketplace.Books.{book_delivery}
use autonolas_subgraph.Marketplace.Mechs.{
  get_service_id_from_mech, change_mech, update_mech_counters_on_delivery,
}
use autonolas_subgraph.Marketplace.Registry.{add_row, change_service}

abbrev pub or_deliver_link : Option DeliverForMarketplace → DeliverForMarketplace
or_deliver_link none = record {
  is_marketplace = false;
  is_off_chain = false;
  deliver = none;
  delivery_rate = none;
  mech_service_multisig = none;
  ipfs_hash_bytes = none;
}
or_deliver_link (some row) = row

abbrev pub set_deliver_link : Market → ℕ → DeliverForMarketplace → Market
set_deliver_link k id row = record k { deliver_links = set id row k.deliver_links }

abbrev pub increment_service_deliveries : Market → Option ℕ → Market
increment_service_deliveries k none = k
increment_service_deliveries k (some service) =
    change_service k service λ v. record v { total_deliveries = v.total_deliveries + 1 }

-- `handleMarketplaceDelivery`: one request that is delivered for the first time.
unfoldable pub deliver_one : Market → Address → ℕ → Request → Market
deliver_one k mech id r =
    let r' : Request = record r { is_delivered = true; delivered_by_mech = some mech } in
    let k1 : Market = record k { requests = set id r' k.requests } in
    let k2 = update_mech_counters_on_delivery k1 r.priority_mech mech in
    let link = or_deliver_link (get id k2.deliver_links) in
    let k3 = set_deliver_link k2 id (record link { is_marketplace = true; is_off_chain = false }) in
    increment_service_deliveries k3 (get_service_id_from_mech k mech)

abbrev pub deliver_request : Market → Address → ℕ → Option Request → Market × ℕ
deliver_request k mech id none = (k, 0)
deliver_request k mech id (some r) = if r.is_delivered then (k, 0) else (deliver_one k mech id r, 1)

abbrev pub deliver_if : Market → Address → ℕ → Bool → Market × ℕ
deliver_if k mech id false = (k, 0)
deliver_if k mech id true = deliver_request k mech id (get id k.requests)

-- A request past the end of the flags is not delivered.
abbrev pub first_flag : List Bool → Bool
first_flag [] = false
first_flag (b ∷ _) = b

abbrev pub other_flags : List Bool → List Bool
other_flags [] = []
other_flags (_ ∷ flags) = flags

unfoldable pub deliver_all : Market → Address → List ℕ → List Bool → Market × ℕ
deliver_all k mech [] flags = (k, 0)
deliver_all k mech (id ∷ ids) flags =
    let (k', one) = deliver_if k mech id (first_flag flags) in
    let (k'', more) = deliver_all k' mech ids (other_flags flags) in (k'', one + more)

unfoldable pub credit_mech : Market → Address → ℕ → Market
credit_mech k mech n =
    if ltb 0 n
    then change_mech k mech
        (λ v. record v { total_deliveries_transactions = v.total_deliveries_transactions + n })
    else k

unfoldable pub handle_marketplace_delivery :
    Chain → State → Meta → Address → ℕ → List ℕ → List Bool → State
handle_marketplace_delivery c s m mech n ids flags =
    let (k, delivered) = deliver_all s.market mech ids flags in
    add_row
      (record s {
        market = credit_mech k mech delivered;
        books = book_delivery c.decimals.zero_usd s.books m delivered;
      })
      m (EventRow.marketplace_delivery mech n ids flags)
