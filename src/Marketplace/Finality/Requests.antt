-- ===== src/Marketplace/Finality/Requests.antt =====
-- squids/marketplace/src/handlers.ts: the handlers that write a request keep the fee that is paid.
use autonolas_subgraph.Prelude.{
  ℕ, ◌≡◌, refl, sym, subst, ap, ◌∙◌, Bool, true, false, Option, none, some, List, [], ◌∷◌, arith,
  Bool-cases, Option-cases, inl, inr,
}
use autonolas_subgraph.Prelude.Equality.{nat_eq}
use autonolas_subgraph.Prelude.Table.{get}
use autonolas_subgraph.Marketplace.State.{
  Address, Usd, Meta, Request, RequestToMarketplace, Payload, Mech, Market, State,
}
use autonolas_subgraph.Marketplace.Fees.{Chain}
use autonolas_subgraph.Marketplace.Mechs.{
  update_mech_counters_on_delivery, get_service_id_from_mech, or_address,
  refresh_mech_delivery_rate,
}
use autonolas_subgraph.Marketplace.Registry.{change_mech_of, found}
use autonolas_subgraph.Marketplace.Requests.{is_marketplace_transaction, or_request}
use autonolas_subgraph.Marketplace.MechRequests.{
  direct_request, link_payload, keep_payload, mech_request, handle_mech_request,
}
use autonolas_subgraph.Marketplace.Signed.{
  SignedDeliver, final_fee, pay_request, update_fees_on_delivery, settle_unpaid, settle_request,
  settle_fee, set_deliver, link_signed, persist_signed_deliver, persist_all,
}
use autonolas_subgraph.Marketplace.Direct.{
  first_delivery, deliver_directly, mech_deliver_unpaid, mech_deliver_request, link_mech_deliver,
  mech_deliver, handle_mech_deliver,
}
use autonolas_subgraph.Marketplace.Finality.{
  fee_at, change_mech-requests, increment-requests, counters-requests, IsFinal, set-IsFinal,
}

link_payload-requests :
    (k : Market) (id text : ℕ) (direct : Bool) (o : Option RequestToMarketplace)
    → (link_payload k id text direct o).requests ≡ k.requests
link_payload-requests k id text direct (some _) = refl
link_payload-requests k id text true none = refl
link_payload-requests k id text false none = refl

keep_payload-requests :
    (k : Market) (id : ℕ) (p : Payload) (direct : Bool)
    → (keep_payload k id p direct).requests ≡ k.requests
unfolding keep_payload
keep_payload-requests k id p direct =
    ground (arith, link_payload-requests k id p.text direct (get id k.request_links))

pub change_mech_of-requests :
    (k : Market) (id : ℕ) (change : Mech → Mech)
    → (change_mech_of k id change).requests ≡ k.requests
unfolding change_mech_of
change_mech_of-requests k id change = elim (Option-cases (get id k.mechs)) [
  | inl missing ↦ rw missing refl
  | inr (_, there) ↦ rw there refl
]

directly-requests :
    (k : Market) (r : Request) (mech : Address) (service : Option ℕ)
    → (deliver_directly k r mech service).requests ≡ k.requests
unfolding deliver_directly
directly-requests k r mech service = ground (
  arith,
  increment-requests (update_mech_counters_on_delivery k r.priority_mech mech) service,
  counters-requests k r.priority_mech mech,
)

module _ (c : Chain) (id : ℕ) (usd : Usd) where
  abbrev pub Final : State → Type 0
  Final s = IsFinal id usd s.market.requests

  -- Only a request without a fee is paid.
  pay-Final :
      (s : State) (j : ℕ) (r : Request) (o : Option Usd)
      → fee_at (get j s.market.requests) ≡ none
      → Final s
      → Final (pay_request c s j r o)
  unfolding pay_request
  pay-Final s j r none unpaid h =
      set-IsFinal id usd s.market.requests j r (λ paid. absurd (ground arith)) h
  pay-Final s j r (some fee) unpaid h =
      set-IsFinal id usd s.market.requests j (record r { final_fee_usd = some fee })
        (λ paid. absurd (ground arith)) h

  unpaid-Final :
      (s : State) (m : Meta) (j : ℕ) (r : Request) (rate : ℕ) (o : Option Usd)
      → fee_at (get j s.market.requests) ≡ o
      → Final s
      → Final (settle_unpaid c s m j r rate o)
  unfolding update_fees_on_delivery
  unpaid-Final s m j r rate (some _) same h = h
  unpaid-Final s m j r rate none same h =
      pay-Final s j r (final_fee c (get j s.market.request_links) r rate m.block_number) same h

  settle-Final :
      (s : State) (m : Meta) (j rate : ℕ) (o : Option Request)
      → get j s.market.requests ≡ o
      → Final s
      → Final (settle_request c s m j rate o)
  settle-Final s m j rate none same h = h
  settle-Final s m j rate (some r) same h =
      unpaid-Final s m j r rate r.final_fee_usd (ap fee_at same) h

  pub persist-Final :
      (s : State) (m : Meta) (j : ℕ) (mech : Address) (a : Option SignedDeliver)
      → Final s
      → Final (persist_signed_deliver c s m j mech a)
  unfolding persist_signed_deliver settle_fee set_deliver link_signed
  persist-Final s m j mech none h = h
  persist-Final s m j mech (some a) h = settle-Final _ m j a.delivery_rate _ refl h

  pub persist_all-Final :
      (s : State) (m : Meta) (mech : Address) (ids : List ℕ)
      → Final s
      → Final (persist_all c s m mech ids)
  unfolding persist_all
  persist_all-Final s m mech [] h = h
  persist_all-Final s m mech (j ∷ ids) h =
      persist_all-Final (persist_signed_deliver c s m j mech none) m mech ids
        (persist-Final s m j mech none h)

  direct-fee :
      (o : Option Request) (m : Meta) (sender : Address) (service : Option ℕ)
      → fee_at o ≡ some usd
      → (direct_request (or_request o) m sender service).final_fee_usd ≡ some usd
  unfolding direct_request
  direct-fee none m sender service h = absurd (ground arith)
  direct-fee (some r) m sender service h = h

  mech_request-Final :
      (s : State) (m : Meta) (j : ℕ) (payload : Payload) (service : ℕ)
      → Final s
      → Final (mech_request c s m j payload service)
  unfolding mech_request
  mech_request-Final s m j payload service h =
      elim (Bool-cases (is_marketplace_transaction c m.tx_to)) [
        | inl through ↦
            rw (through, mech_request)
              (subst (IsFinal id usd) (sym (keep_payload-requests s.market j payload false)) h)
        | inr direct ↦
            rw (direct, mech_request)
              (subst (IsFinal id usd) (sym (keep_payload-requests _ j payload true)) (
                set-IsFinal id usd s.market.requests j _
                  (direct-fee (get j s.market.requests) m (or_address c m.tx_from m.address)
                    (found (get service s.market.services) service))
                  h))
      ]

  pub request-Final :
      (s : State) (m : Meta) (j : ℕ) (payload : Payload)
      → Final s
      → Final (handle_mech_request c s m j payload)
  unfolding handle_mech_request
  request-Final s m j payload h =
      elim (Option-cases (get_service_id_from_mech s.market m.address)) [
        | inl foreign ↦ rw (foreign, handle_mech_request) h
        | inr (service, ours) ↦
            rw (ours, handle_mech_request) (mech_request-Final s m j payload service h)
      ]

  unpaid_deliver-Final :
      (s : State) (m : Meta) (j rate service : ℕ) (r : Request) (o : Option Usd)
      → fee_at (get j s.market.requests) ≡ o
      → Final s
      → Final (mech_deliver_unpaid c s m j rate service r o)
  unfolding update_fees_on_delivery
  unpaid_deliver-Final s m j rate service r (some _) same h = h
  unpaid_deliver-Final s m j rate service r none same h =
      elim (Bool-cases (is_marketplace_transaction c m.tx_to)) [
        | inl through ↦ rw through (pay-Final s j (first_delivery r m.address) _ same h)
        | inr direct ↦
            let k = deliver_directly s.market r m.address (some service) in
            let kept = directly-requests s.market r m.address (some service) in
            rw direct (
              pay-Final (record s { market = k }) j (first_delivery r m.address) _
                (ap (λ t. fee_at (get j t)) kept ∙ same) (subst (IsFinal id usd) (sym kept) h))
      ]

  deliver_request-Final :
      (s : State) (m : Meta) (j rate service : ℕ) (o : Option Request)
      → get j s.market.requests ≡ o
      → Final s
      → Final (mech_deliver_request c s m j rate service o)
  deliver_request-Final s m j rate service none same h = h
  deliver_request-Final s m j rate service (some r) same h =
      unpaid_deliver-Final s m j rate service r r.final_fee_usd (ap fee_at same) h

  pub deliver-Final :
      (s : State) (m : Meta) (j : ℕ) (a : SignedDeliver)
      → Final s
      → Final (handle_mech_deliver c s m j a)
  unfolding mech_deliver handle_mech_deliver refresh_mech_delivery_rate link_mech_deliver
      set_deliver
  deliver-Final s m j a h = elim (Option-cases (get_service_id_from_mech s.market m.address)) [
    | inl foreign ↦ rw (foreign, handle_mech_deliver) h
    | inr (service, ours) ↦
        rw (ours, handle_mech_deliver)
          (subst (IsFinal id usd) (sym (change_mech-requests _ m.address _))
            (deliver_request-Final s m j a.delivery_rate service (get j s.market.requests) refl h))
  ]
