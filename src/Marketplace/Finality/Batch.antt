-- ===== src/Marketplace/Finality/Batch.antt =====
-- squids/marketplace/src/handlers.ts and main.ts: no log of a batch changes a fee that is paid.
use autonolas_subgraph.Prelude.{
  ℕ, ◌≡◌, sym, subst, ◌∙◌, Option, none, some, List, [], ◌∷◌, arith, Option-cases, inl, inr,
}
use autonolas_subgraph.Prelude.Equality.{nat_eq}
use autonolas_subgraph.Prelude.Result.{Result, ok, >>=-eq-ok, ok-injective}
use autonolas_subgraph.Prelude.Table.{get}
use autonolas_subgraph.Marketplace.State.{Address, Usd, Meta, Mech, State, Error}
use autonolas_subgraph.Marketplace.Fees.{Chain}
use autonolas_subgraph.Marketplace.Mechs.{
  get_service_id_from_mech, create_mech, handle_create_mech, update_rate,
  handle_max_delivery_rate_updated, handle_mech_karma_changed, handle_mech_factory_create,
}
use autonolas_subgraph.Marketplace.Registry.{
  handle_create_service, handle_create_multisig_with_agents, update_service_multisig,
  handle_register_instance, handle_terminate_service, handle_service_transfer,
  handle_update_service, handle_complementary_metadata_updated,
}
use autonolas_subgraph.Marketplace.Requests.{snapshot, handle_marketplace_request}
use autonolas_subgraph.Marketplace.Deliveries.{deliver_all, handle_marketplace_delivery}
use autonolas_subgraph.Marketplace.Signed.{
  persist_all, handle_marketplace_delivery_with_signatures, handle_deliver_with_signatures,
}
use autonolas_subgraph.Marketplace.Events.{Event, handle, run}
use autonolas_subgraph.Marketplace.Finality.{
  fee_at, change_mech-requests, change_service-requests, IsFinal, request_all-IsFinal,
  deliver_all-IsFinal, credit-IsFinal,
}
use autonolas_subgraph.Marketplace.Finality.Requests.{
  change_mech_of-requests, Final, persist-Final, persist_all-Final, request-Final, deliver-Final,
}

module _ (c : Chain) (id : ℕ) (usd : Usd) where
  rate-Final :
      (s t : State) (m : Meta) (rate service : ℕ) (o : Option Mech)
      → update_rate c s m rate service o ≡ ok t
      → t.market.requests ≡ s.market.requests
  rate-Final s t m rate service none returned = absurd (ground arith)
  rate-Final s t m rate service (some v) returned = ground arith

  updated-Final :
      (s t : State) (m : Meta) (rate : ℕ)
      → handle_max_delivery_rate_updated c s m rate ≡ ok t
      → t.market.requests ≡ s.market.requests
  unfolding handle_max_delivery_rate_updated
  updated-Final s t m rate returned =
      elim (Option-cases (get_service_id_from_mech s.market m.address)) [
        | inl foreign ↦ ground arith
        | inr (service, ours) ↦
            rate-Final s t m rate service (get service s.market.mechs) (ground arith)
      ]

  created-Final :
      (s t : State) (m : Meta) (mech : Address) (service : ℕ) (factory : Address)
      → handle_create_mech c s m mech service factory ≡ ok t
      → t.market.requests ≡ s.market.requests
  unfolding handle_create_mech create_mech
  created-Final s t m mech service factory returned =
      elim (Option-cases (c.factory_config factory)) [
        | inl unknown ↦ absurd (ground arith)
        | inr (config, known) ↦ ground arith
      ]

  -- A log that leaves the rows of the requests alone.
  apart :
      (s s' t : State)
      → Path (Result Error State) (ok s') (ok t)
      → s'.market.requests ≡ s.market.requests
      → Final c id usd s
      → Final c id usd t
  apart s s' t returned same h =
      subst (Final c id usd) (ok-injective returned) (subst (IsFinal id usd) (sym same) h)

  returns :
      (s t : State) → Path (Result Error State) (ok s) (ok t) → Final c id usd s → Final c id usd t
  returns s t same h = subst (Final c id usd) (ok-injective same) h

  handle-Final :
      (s t : State) (m : Meta) (e : Event)
      → handle c s m e ≡ ok t
      → Final c id usd s
      → Final c id usd t
  unfolding handle handle_create_service handle_create_multisig_with_agents update_service_multisig
      handle_update_service handle_register_instance handle_terminate_service
      handle_service_transfer handle_mech_karma_changed handle_mech_factory_create
      handle_complementary_metadata_updated handle_marketplace_request handle_marketplace_delivery
      handle_marketplace_delivery_with_signatures handle_deliver_with_signatures
  handle-Final s t m (Event.create_mech mech service factory) returned h =
      subst (IsFinal id usd) (sym (created-Final s t m mech service factory returned)) h
  handle-Final s t m (Event.marketplace_request mech requester n ids) returned h =
      returns _ t returned
        (request_all-IsFinal id usd s.market m (snapshot c s.market m mech requester) ids h)
  handle-Final s t m (Event.marketplace_delivery mech n ids flags) returned h =
      let (k, delivered) = deliver_all s.market mech ids flags in
      returns _ t returned (
        credit-IsFinal id usd k mech delivered
          (deliver_all-IsFinal id usd s.market mech ids flags h))
  handle-Final s t m (Event.marketplace_delivery_with_signatures mech requester n ids) returned h =
      let s1 = persist_all c s m mech ids in
      apart s1 _ t returned (change_mech-requests s1.market mech _)
        (persist_all-Final c id usd s m mech ids h)
  handle-Final s t m (Event.deliver_with_signatures mech j a) returned h =
      returns _ t returned (persist-Final c id usd s m j mech (some a) h)
  handle-Final s t m (Event.create_service service config) returned h = returns _ t returned h
  handle-Final s t m (Event.update_service service config) returned h =
      apart s _ t returned
        (change_mech_of-requests _ service _ ∙ change_service-requests s.market service _) h
  handle-Final s t m (Event.create_multisig_with_agents service multisig) returned h =
      apart s _ t returned (change_service-requests _ service _) h
  handle-Final s t m (Event.register_instance operator service instance agent) returned h =
      apart s _ t returned (change_service-requests s.market service _) h
  handle-Final s t m (Event.terminate_service service) returned h =
      apart s _ t returned (change_service-requests s.market service _) h
  handle-Final s t m (Event.service_transfer from to service) returned h =
      apart s _ t returned (change_mech_of-requests s.market service _) h
  handle-Final s t m (Event.mech_karma_changed mech change) returned h =
      apart s _ t returned (change_mech-requests s.market mech _) h
  handle-Final s t m (Event.metadata_updated service hash) returned h = returns _ t returned h
  handle-Final s t m (Event.mech_factory_create mech rate) returned h = returns _ t returned h
  handle-Final s t m (Event.mech_request j payload) returned h =
      returns _ t returned (request-Final c id usd s m j payload h)
  handle-Final s t m (Event.mech_deliver j a) returned h =
      returns _ t returned (deliver-Final c id usd s m j a h)
  handle-Final s t m (Event.max_delivery_rate_updated rate) returned h =
      subst (IsFinal id usd) (sym (updated-Final s t m rate returned)) h

  -- The final fee of a request, once it is set, is the same after any batch of logs that runs to its
  -- end, whatever deliveries and repeated requests of the same id the batch holds.
  pub run-fee_final :
      (s t : State) (logs : List (Meta × Event))
      → run c s logs ≡ ok t
      → fee_at (get id s.market.requests) ≡ some usd
      → fee_at (get id t.market.requests) ≡ some usd
  unfolding run
  run-fee_final s t [] returned h = returns s t returned h
  run-fee_final s t ((m, e) ∷ logs) returned h =
      let (s', one_log, rest) = >>=-eq-ok (handle c s m e) (λ x. run c x logs) returned in
      run-fee_final s' t logs rest (handle-Final s s' m e one_log h)
