-- ===== src/Marketplace/Tally/Batch.antt =====
-- squids/marketplace/src/handlers.ts and main.ts: every log of a batch keeps the totals.
use autonolas_subgraph.Prelude.{
  ℕ, ◌≡◌, subst, sym, Bool, true, false, not, Option, none, some, List, [], ◌∷◌, arith, Bool-cases,
  Option-cases, inl, inr, if◌then◌else◌,
}
use autonolas_subgraph.Prelude.Equality.{nat_eq}
use autonolas_subgraph.Prelude.Result.{Result, ok, >>=-eq-ok, ok-injective}
use autonolas_subgraph.Prelude.Table.{get}
use autonolas_subgraph.Marketplace.State.{
  Address, Usd, Meta, Request, Payload, Mech, Books, State, Error,
}
use autonolas_subgraph.Marketplace.Fees.{Chain}
use autonolas_subgraph.Marketplace.Books.{
  or_sender, get_or_create_sender, book_mech, book_direct_delivery,
}
use autonolas_subgraph.Marketplace.Mechs.{
  get_service_id_from_mech, create_mech, handle_create_mech, update_rate,
  handle_max_delivery_rate_updated, or_address,
}
use autonolas_subgraph.Marketplace.Registry.{
  handle_create_service, handle_register_instance, handle_terminate_service,
  handle_service_transfer, handle_update_service,
}
use autonolas_subgraph.Marketplace.Requests.{
  is_marketplace_transaction, handle_marketplace_request, is_some, get_service_id_from_multisig,
}
use autonolas_subgraph.Marketplace.MechRequests.{mech_request, handle_mech_request}
use autonolas_subgraph.Marketplace.Deliveries.{deliver_all, handle_marketplace_delivery}
use autonolas_subgraph.Marketplace.Signed.{
  SignedDeliver, update_fees_on_delivery, persist_all, handle_marketplace_delivery_with_signatures,
  handle_deliver_with_signatures,
}
use autonolas_subgraph.Marketplace.Direct.{
  mech_deliver_unpaid, mech_deliver_request, mech_deliver, handle_mech_deliver,
}
use autonolas_subgraph.Marketplace.Events.{Event, handle, run}
use autonolas_subgraph.Marketplace.Tally.{
  AreTallied, request-AreTallied, signed-AreTallied, delivery-AreTallied, direct-AreTallied,
}
use autonolas_subgraph.Marketplace.Tally.Payments.{
  totals-AreTallied, sender-AreTallied, bump-AreTallied, Tallied, fees-Tallied, persist-Tallied,
  persist_all-Tallied,
}

module _ (c : Chain) where
  mech_request-Tallied :
      (s : State) (m : Meta) (id : ℕ) (payload : Payload) (service : ℕ)
      → Tallied c s
      → Tallied c (mech_request c s m id payload service)
  unfolding mech_request get_or_create_sender
  mech_request-Tallied s m id payload service h =
      elim (Bool-cases (is_marketplace_transaction c m.tx_to)) [
        | inl through ↦ rw (through, mech_request) h
        | inr direct ↦
            rw (direct, mech_request)
              (sender-AreTallied c.decimals.zero_usd s.books (or_address c m.tx_from m.address)
                (or_sender (get (or_address c m.tx_from m.address) s.books.senders)
                  c.decimals.zero_usd).total_fees_paid_usd
                h)
      ]

  request-Tallied :
      (s : State) (m : Meta) (id : ℕ) (payload : Payload)
      → Tallied c s
      → Tallied c (handle_mech_request c s m id payload)
  unfolding handle_mech_request
  request-Tallied s m id payload h =
      elim (Option-cases (get_service_id_from_mech s.market m.address)) [
        | inl foreign ↦ rw (foreign, handle_mech_request) h
        | inr (service, ours) ↦
            rw (ours, handle_mech_request) (mech_request-Tallied s m id payload service h)
      ]

  unpaid_deliver-Tallied :
      (s : State) (m : Meta) (id rate service : ℕ) (r : Request) (o : Option Usd)
      → Tallied c s
      → Tallied c (mech_deliver_unpaid c s m id rate service r o)
  unfolding update_fees_on_delivery
  unpaid_deliver-Tallied s m id rate service r (some _) h = h
  unpaid_deliver-Tallied s m id rate service r none h = fees-Tallied c _ id _ _ h

  deliver_request-Tallied :
      (s : State) (m : Meta) (id rate service : ℕ) (o : Option Request)
      → Tallied c s
      → Tallied c (mech_deliver_request c s m id rate service o)
  deliver_request-Tallied s m id rate service none h = h
  deliver_request-Tallied s m id rate service (some r) h =
      unpaid_deliver-Tallied s m id rate service r r.final_fee_usd h

  direct_if-AreTallied :
      (direct : Bool) (b : Books) (m : Meta)
      → AreTallied c.decimals.zero_usd b
      → AreTallied c.decimals.zero_usd
          (if direct then book_direct_delivery c.decimals.zero_usd b m else b)
  direct_if-AreTallied true b m h = direct-AreTallied c.decimals.zero_usd b m h
  direct_if-AreTallied false b m h = h

  deliver-Tallied :
      (s : State) (m : Meta) (id : ℕ) (a : SignedDeliver)
      → Tallied c s
      → Tallied c (handle_mech_deliver c s m id a)
  unfolding mech_deliver handle_mech_deliver
  deliver-Tallied s m id a h = elim (Option-cases (get_service_id_from_mech s.market m.address)) [
    | inl foreign ↦ rw (foreign, handle_mech_deliver) h
    | inr (service, ours) ↦
        let o = get id s.market.requests in
        let s1 = mech_deliver_request c s m id a.delivery_rate service o in
        rw (ours, handle_mech_deliver)
          (direct_if-AreTallied (not (is_marketplace_transaction c m.tx_to)) s1.books m
            (deliver_request-Tallied s m id a.delivery_rate service o h))
  ]

  rate-Tallied :
      (s t : State) (m : Meta) (rate service : ℕ) (o : Option Mech)
      → update_rate c s m rate service o ≡ ok t
      → t.books ≡ s.books
  rate-Tallied s t m rate service none returned = absurd (ground arith)
  rate-Tallied s t m rate service (some v) returned = ground arith

  updated-Tallied :
      (s t : State) (m : Meta) (rate : ℕ)
      → handle_max_delivery_rate_updated c s m rate ≡ ok t
      → t.books ≡ s.books
  unfolding handle_max_delivery_rate_updated
  updated-Tallied s t m rate returned =
      elim (Option-cases (get_service_id_from_mech s.market m.address)) [
        | inl foreign ↦ ground arith
        | inr (service, ours) ↦
            rate-Tallied s t m rate service (get service s.market.mechs) (ground arith)
      ]

  created-Tallied :
      (s t : State) (m : Meta) (mech : Address) (service : ℕ) (factory : Address)
      → handle_create_mech c s m mech service factory ≡ ok t
      → t.books ≡ book_mech c.decimals.zero_usd s.books
  unfolding handle_create_mech create_mech
  created-Tallied s t m mech service factory returned =
      elim (Option-cases (c.factory_config factory)) [
        | inl unknown ↦ absurd (ground arith)
        | inr (config, known) ↦ ground arith
      ]

  request_log-Tallied :
      (s : State) (m : Meta) (mech requester : Address) (n : ℕ) (ids : List ℕ)
      → Tallied c s
      → Tallied c (handle_marketplace_request c s m mech requester n ids)
  unfolding handle_marketplace_request
  request_log-Tallied s m mech requester n ids h =
      let service = get_service_id_from_multisig s.market requester in
      bump-AreTallied c.decimals.zero_usd _ n _
        (request-AreTallied c.decimals.zero_usd s.books m requester n (is_some service) h)

  signed_log-Tallied :
      (s : State) (m : Meta) (mech requester : Address) (n : ℕ) (ids : List ℕ)
      → Tallied c s
      → Tallied c (handle_marketplace_delivery_with_signatures c s m mech requester n ids)
  unfolding handle_marketplace_delivery_with_signatures
  signed_log-Tallied s m mech requester n ids h = bump-AreTallied c.decimals.zero_usd _ n _ (
      signed-AreTallied c.decimals.zero_usd (persist_all c s m mech ids).books m requester n _
        (persist_all-Tallied c s m mech ids h))

  returns : (s t : State) → Path (Result Error State) (ok s) (ok t) → Tallied c s → Tallied c t
  returns s t same h = subst (Tallied c) (ok-injective same) h

  handle-Tallied :
      (s t : State) (m : Meta) (e : Event) → handle c s m e ≡ ok t → Tallied c s → Tallied c t
  unfolding handle handle_create_service handle_update_service handle_register_instance
      handle_terminate_service handle_service_transfer handle_marketplace_delivery
      handle_deliver_with_signatures book_mech
  handle-Tallied s t m (Event.create_mech mech service factory) returned h =
      subst (AreTallied c.decimals.zero_usd)
        (sym (created-Tallied s t m mech service factory returned))
        (totals-AreTallied c.decimals.zero_usd s.books _ _ h)
  handle-Tallied s t m (Event.marketplace_request mech requester n ids) returned h =
      returns _ t returned (request_log-Tallied s m mech requester n ids h)
  handle-Tallied s t m (Event.marketplace_delivery mech n ids flags) returned h =
      returns _ t returned (
        delivery-AreTallied c.decimals.zero_usd s.books m (deliver_all s.market mech ids flags).1 h)
  handle-Tallied s t m (Event.marketplace_delivery_with_signatures mech requester n ids) returned
        h =
      returns _ t returned (signed_log-Tallied s m mech requester n ids h)
  handle-Tallied s t m (Event.deliver_with_signatures mech id a) returned h =
      returns _ t returned (persist-Tallied c s m id mech (some a) h)
  handle-Tallied s t m (Event.create_service id config) returned h = returns _ t returned h
  handle-Tallied s t m (Event.update_service id config) returned h = returns _ t returned h
  handle-Tallied s t m (Event.create_multisig_with_agents id multisig) returned h =
      returns _ t returned h
  handle-Tallied s t m (Event.register_instance operator id instance agent) returned h =
      returns _ t returned h
  handle-Tallied s t m (Event.terminate_service id) returned h = returns _ t returned h
  handle-Tallied s t m (Event.service_transfer from to id) returned h = returns _ t returned h
  handle-Tallied s t m (Event.mech_karma_changed mech change) returned h = returns _ t returned h
  handle-Tallied s t m (Event.metadata_updated id hash) returned h = returns _ t returned h
  handle-Tallied s t m (Event.mech_factory_create mech rate) returned h = returns _ t returned h
  handle-Tallied s t m (Event.mech_request id payload) returned h =
      returns _ t returned (request-Tallied s m id payload h)
  handle-Tallied s t m (Event.mech_deliver id a) returned h =
      returns _ t returned (deliver-Tallied s m id a h)
  handle-Tallied s t m (Event.max_delivery_rate_updated rate) returned h =
      subst (AreTallied c.decimals.zero_usd) (sym (updated-Tallied s t m rate returned)) h

  -- A batch of logs that runs to its end keeps the totals: where the squid's requests, those of the
  -- marketplace and those off chain are the sums over the senders, the senders' transactions are the
  -- requests and the signed deliveries of the marketplace, all transactions are those and its
  -- deliveries, a signed one counted twice, and the transactions of agents are between the number of
  -- counted ones and twice that, all this holds after the batch too.
  pub run-AreTallied :
      (s t : State) (logs : List (Meta × Event))
      → run c s logs ≡ ok t
      → AreTallied c.decimals.zero_usd s.books
      → AreTallied c.decimals.zero_usd t.books
  unfolding run
  run-AreTallied s t [] returned h = returns s t returned h
  run-AreTallied s t ((m, e) ∷ logs) returned h =
      let (s', one_log, rest) = >>=-eq-ok (handle c s m e) (λ x. run c x logs) returned in
      run-AreTallied s' t logs rest (handle-Tallied s s' m e one_log h)
