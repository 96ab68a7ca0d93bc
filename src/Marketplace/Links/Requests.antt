-- ===== src/Marketplace/Links/Requests.antt =====
-- squids/marketplace/src/handlers.ts: requests and deliveries keep the mechs.
use autonolas_subgraph.Prelude.{
  ℕ, refl, Bool, true, false, Option, none, some, List, [], ◌∷◌, Bool-cases, Option-cases, inl, inr,
}
use autonolas_subgraph.Prelude.Equality.{nat_eq}
use autonolas_subgraph.Prelude.Table.{get, set}
use autonolas_subgraph.Marketplace.State.{
  Address, Usd, Meta, Request, RequestToMarketplace, Payload, Market, State,
}
use autonolas_subgraph.Marketplace.Fees.{Chain}
use autonolas_subgraph.Marketplace.Mechs.{
  get_service_id_from_mech, update_mech_counters_on_request, update_mech_counters_on_delivery,
  refresh_mech_delivery_rate,
}
use autonolas_subgraph.Marketplace.Requests.{
  Snapshot, or_request, requested_row, count_request, link_request, request_one, request_all,
  is_marketplace_transaction, is_ipfs_payload,
}
use autonolas_subgraph.Marketplace.MechRequests.{
  link_payload, keep_payload, mech_request, handle_mech_request,
}
use autonolas_subgraph.Marketplace.Deliveries.{
  deliver_one, deliver_request, deliver_if, first_flag, other_flags, deliver_all,
}
use autonolas_subgraph.Marketplace.Signed.{
  SignedDeliver, pay_request, update_fees_on_delivery, settle_unpaid, settle_request, settle_fee,
  set_deliver, link_signed, persist_signed_deliver, persist_all,
}
use autonolas_subgraph.Marketplace.Direct.{
  first_delivery, deliver_directly, mech_deliver_unpaid, mech_deliver_request, link_mech_deliver,
  mech_deliver, handle_mech_deliver,
}
use autonolas_subgraph.Marketplace.Links.{
  IsKept, same-IsKept, then-IsKept, change_mech-IsKept, change_service-IsKept, increment-IsKept,
  counters-IsKept,
}

count-IsKept : (k : Market) (service : Option ℕ) → IsKept k (count_request k service)
count-IsKept k none = same-IsKept k k refl refl
count-IsKept k (some service) = change_service-IsKept k service _

request_one-IsKept : (k : Market) (m : Meta) (q : Snapshot) (j : ℕ) → IsKept k (request_one k m q j)
unfolding request_one link_request update_mech_counters_on_request
request_one-IsKept k m q j =
    let r = requested_row (or_request (get j k.requests)) m q in
    let k1 : Market = record k { requests = set j r k.requests } in
    let k2 = count_request k1 q.service in
    let k3 = update_mech_counters_on_request k2 q.priority_mech in
    then-IsKept k k3 (link_request k3 j)
      (then-IsKept k k2 k3
        (then-IsKept k k1 k2 (same-IsKept k k1 refl refl) (count-IsKept k1 q.service))
        (change_mech-IsKept k2 q.priority_mech _))
      (same-IsKept k3 _ refl refl)

pub request_all-IsKept :
    (k : Market) (m : Meta) (q : Snapshot) (ids : List ℕ) → IsKept k (request_all k m q ids)
unfolding request_all
request_all-IsKept k m q [] = same-IsKept k k refl refl
request_all-IsKept k m q (j ∷ ids) =
    then-IsKept k (request_one k m q j) _ (request_one-IsKept k m q j)
      (request_all-IsKept (request_one k m q j) m q ids)

deliver_one-IsKept :
    (k : Market) (mech : Address) (j : ℕ) (r : Request) → IsKept k (deliver_one k mech j r)
unfolding deliver_one
deliver_one-IsKept k mech j r =
    let r' : Request = record r { is_delivered = true; delivered_by_mech = some mech } in
    let k1 : Market = record k { requests = set j r' k.requests } in
    let k2 = update_mech_counters_on_delivery k1 r.priority_mech mech in
    then-IsKept k k2 _
      (then-IsKept k k1 k2 (same-IsKept k k1 refl refl) (counters-IsKept k1 r.priority_mech mech))
      (then-IsKept k2 _ _ (same-IsKept k2 _ refl refl)
        (increment-IsKept _ (get_service_id_from_mech k mech)))

deliver_request-IsKept :
    (k : Market) (mech : Address) (j : ℕ) (o : Option Request)
    → IsKept k (deliver_request k mech j o).0
unfolding deliver_one
deliver_request-IsKept k mech j none = same-IsKept k k refl refl
deliver_request-IsKept k mech j (some r) = elim (Bool-cases r.is_delivered) [
  | inl before ↦ rw before (same-IsKept k k refl refl)
  | inr first ↦ rw first (deliver_one-IsKept k mech j r)
]

deliver_if-IsKept :
    (k : Market) (mech : Address) (j : ℕ) (b : Bool) → IsKept k (deliver_if k mech j b).0
deliver_if-IsKept k mech j false = same-IsKept k k refl refl
deliver_if-IsKept k mech j true = deliver_request-IsKept k mech j (get j k.requests)

pub deliver_all-IsKept :
    (k : Market) (mech : Address) (ids : List ℕ) (flags : List Bool)
    → IsKept k (deliver_all k mech ids flags).0
unfolding deliver_all
deliver_all-IsKept k mech [] flags = same-IsKept k k refl refl
deliver_all-IsKept k mech (j ∷ ids) flags =
    let k1 = (deliver_if k mech j (first_flag flags)).0 in
    then-IsKept k k1 _ (deliver_if-IsKept k mech j (first_flag flags))
      (deliver_all-IsKept k1 mech ids (other_flags flags))

link_payload-IsKept :
    (k : Market) (id text : ℕ) (direct : Bool) (o : Option RequestToMarketplace)
    → IsKept k (link_payload k id text direct o)
link_payload-IsKept k id text direct (some _) = same-IsKept k _ refl refl
link_payload-IsKept k id text true none = same-IsKept k _ refl refl
link_payload-IsKept k id text false none = same-IsKept k _ refl refl

keep_payload-IsKept :
    (k : Market) (id : ℕ) (p : Payload) (direct : Bool) → IsKept k (keep_payload k id p direct)
unfolding keep_payload
keep_payload-IsKept k id p direct = elim (Bool-cases (is_ipfs_payload p)) [
  | inl digest ↦ rw digest (link_payload-IsKept k id p.text direct (get id k.request_links))
  | inr text ↦ rw text (same-IsKept k k refl refl)
]

directly-IsKept :
    (k : Market) (r : Request) (mech : Address) (service : Option ℕ)
    → IsKept k (deliver_directly k r mech service)
unfolding deliver_directly
directly-IsKept k r mech service =
    let k1 = update_mech_counters_on_delivery k r.priority_mech mech in
    elim (Bool-cases r.is_delivered) [
      | inl before ↦ simp before (same-IsKept k k refl refl)
      | inr first ↦ simp first (
          then-IsKept k k1 _ (counters-IsKept k r.priority_mech mech) (increment-IsKept k1 service))
    ]

module _ (c : Chain) where
  abbrev pub Kept : State → State → Type 0
  Kept s t = IsKept s.market t.market

  pay-Kept : (s : State) (j : ℕ) (r : Request) (o : Option Usd) → Kept s (pay_request c s j r o)
  unfolding pay_request
  pay-Kept s j r none = same-IsKept s.market _ refl refl
  pay-Kept s j r (some fee) = same-IsKept s.market _ refl refl

  unpaid-Kept :
      (s : State) (m : Meta) (j : ℕ) (r : Request) (rate : ℕ) (o : Option Usd)
      → Kept s (settle_unpaid c s m j r rate o)
  unfolding update_fees_on_delivery
  unpaid-Kept s m j r rate (some _) = same-IsKept s.market _ refl refl
  unpaid-Kept s m j r rate none = pay-Kept s j r _

  settle-Kept :
      (s : State) (m : Meta) (j rate : ℕ) (o : Option Request)
      → Kept s (settle_request c s m j rate o)
  settle-Kept s m j rate none = same-IsKept s.market _ refl refl
  settle-Kept s m j rate (some r) = unpaid-Kept s m j r rate r.final_fee_usd

  pub persist-Kept :
      (s : State) (m : Meta) (j : ℕ) (mech : Address) (a : Option SignedDeliver)
      → Kept s (persist_signed_deliver c s m j mech a)
  unfolding persist_signed_deliver settle_fee set_deliver link_signed
  persist-Kept s m j mech none = same-IsKept s.market _ refl refl
  persist-Kept s m j mech (some a) =
      let h = settle-Kept _ m j a.delivery_rate (get j s.market.requests) in
      record { created = h.created; there = h.there }

  pub persist_all-Kept :
      (s : State) (m : Meta) (mech : Address) (ids : List ℕ) → Kept s (persist_all c s m mech ids)
  unfolding persist_all
  persist_all-Kept s m mech [] = same-IsKept s.market _ refl refl
  persist_all-Kept s m mech (j ∷ ids) =
      let s1 = persist_signed_deliver c s m j mech none in
      then-IsKept s.market s1.market _ (persist-Kept s m j mech none)
        (persist_all-Kept s1 m mech ids)

  mech_request-Kept :
      (s : State) (m : Meta) (j : ℕ) (payload : Payload) (service : ℕ)
      → Kept s (mech_request c s m j payload service)
  unfolding mech_request
  mech_request-Kept s m j payload service =
      elim (Bool-cases (is_marketplace_transaction c m.tx_to)) [
        | inl through ↦ rw (through, mech_request) (keep_payload-IsKept s.market j payload false)
        | inr direct ↦
            rw (direct, mech_request)
              (then-IsKept s.market _ _ (same-IsKept s.market _ refl refl)
                (keep_payload-IsKept _ j payload true))
      ]

  pub request-Kept :
      (s : State) (m : Meta) (j : ℕ) (payload : Payload)
      → Kept s (handle_mech_request c s m j payload)
  unfolding handle_mech_request
  request-Kept s m j payload = elim (Option-cases (get_service_id_from_mech s.market m.address)) [
    | inl foreign ↦ rw (foreign, handle_mech_request) (same-IsKept s.market _ refl refl)
    | inr (service, ours) ↦ rw (ours, handle_mech_request) (mech_request-Kept s m j payload service)
  ]

  unpaid_deliver-Kept :
      (s : State) (m : Meta) (j rate service : ℕ) (r : Request) (o : Option Usd)
      → Kept s (mech_deliver_unpaid c s m j rate service r o)
  unfolding update_fees_on_delivery
  unpaid_deliver-Kept s m j rate service r (some _) = same-IsKept s.market _ refl refl
  unpaid_deliver-Kept s m j rate service r none =
      elim (Bool-cases (is_marketplace_transaction c m.tx_to)) [
        | inl through ↦ rw through (pay-Kept s j (first_delivery r m.address) _)
        | inr direct ↦
            let k = deliver_directly s.market r m.address (some service) in
            rw direct (
              then-IsKept s.market k _ (directly-IsKept s.market r m.address (some service))
                (pay-Kept (record s { market = k }) j (first_delivery r m.address) _))
      ]

  deliver_request-Kept :
      (s : State) (m : Meta) (j rate service : ℕ) (o : Option Request)
      → Kept s (mech_deliver_request c s m j rate service o)
  deliver_request-Kept s m j rate service none = same-IsKept s.market _ refl refl
  deliver_request-Kept s m j rate service (some r) =
      unpaid_deliver-Kept s m j rate service r r.final_fee_usd

  pub deliver-Kept :
      (s : State) (m : Meta) (j : ℕ) (a : SignedDeliver) → Kept s (handle_mech_deliver c s m j a)
  unfolding mech_deliver handle_mech_deliver refresh_mech_delivery_rate link_mech_deliver
      set_deliver
  deliver-Kept s m j a = elim (Option-cases (get_service_id_from_mech s.market m.address)) [
    | inl foreign ↦ rw (foreign, handle_mech_deliver) (same-IsKept s.market _ refl refl)
    | inr (service, ours) ↦
        let h = deliver_request-Kept s m j a.delivery_rate service (get j s.market.requests) in
        rw (ours, handle_mech_deliver)
          (then-IsKept s.market _ _ (record { created = h.created; there = h.there })
            (change_mech-IsKept _ m.address _))
  ]
