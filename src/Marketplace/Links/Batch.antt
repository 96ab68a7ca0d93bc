-- ===== src/Marketplace/Links/Batch.antt =====
-- squids/marketplace/src/handlers.ts and main.ts: what ends a batch.
use autonolas_subgraph.Prelude.{
  ℕ, ◌≡◌, refl, ◌∙◌, some, List, [], ◌∷◌, arith, Bool-cases, Option-cases, inl, inr, ◌==◌,
}
use autonolas_subgraph.Prelude.Equality.{nat_eq}
use autonolas_subgraph.Prelude.Result.{Result, ok}
use autonolas_subgraph.Prelude.Table.{get, set, get-set}
use autonolas_subgraph.Marketplace.State.{Address, Meta, Mech, CreateMech, Market, State, Error}
use autonolas_subgraph.Marketplace.Fees.{Chain, FactoryConfig}
use autonolas_subgraph.Marketplace.Mechs.{
  get_service_id_from_mech, create_mech, handle_create_mech, update_rate,
  handle_max_delivery_rate_updated, handle_mech_karma_changed, handle_mech_factory_create,
}
use autonolas_subgraph.Marketplace.Registry.{
  handle_create_service, handle_create_multisig_with_agents, update_service_multisig,
  handle_register_instance, handle_terminate_service, handle_service_transfer,
  handle_update_service, handle_complementary_metadata_updated,
}
use autonolas_subgraph.Marketplace.Requests.{snapshot, handle_marketplace_request}
use autonolas_subgraph.Marketplace.Deliveries.{deliver_all, handle_marketplace_delivery}
use autonolas_subgraph.Marketplace.Signed.{
  persist_all, handle_marketplace_delivery_with_signatures, handle_deliver_with_signatures,
}
use autonolas_subgraph.Marketplace.Events.{Event, handle, run}
use autonolas_subgraph.Marketplace.Links.{
  IsLinked, IsKept, same-IsKept, then-IsKept, kept-IsLinked, set-there, change_mech-IsKept,
  change_mech_of-IsKept, change_service-IsKept, credit-IsKept,
}
use autonolas_subgraph.Marketplace.Links.Requests.{
  request_all-IsKept, deliver_all-IsKept, persist-Kept, persist_all-Kept, request-Kept,
  deliver-Kept,
}

module _ (c : Chain) where
  -- The factory of a mech that is created is one of the configuration.
  abbrev pub IsListed : Event → Type 0
  IsListed (Event.create_mech mech service factory) =
      (config : FactoryConfig) × (c.factory_config factory ≡ some config)
  IsListed _ = Unit

  pub data AreListed : List (Meta × Event) → Type 0 where
    none_listed : AreListed []
    listed :
        {m : Meta} {e : Event} {logs : List (Meta × Event)}
        → IsListed e
        → AreListed logs
        → AreListed ((m, e) ∷ logs)

  abbrev Returns : Result Error State → Type 0
  Returns r = (t : State) × (r ≡ ok t) × IsLinked t.market

  kept-Returns : (s t : State) → IsLinked s.market → IsKept s.market t.market → Returns (ok t)
  kept-Returns s t h kept = (t, refl, kept-IsLinked s.market t.market kept h)

  -- A mech that is created comes with its service's row.
  created-IsLinked :
      (k : Market) (mech : Address) (made : CreateMech) (v : Mech)
      → IsLinked k
      → IsLinked (record k {
        create_mechs = set mech made k.create_mechs;
        mechs = set made.service_id v k.mechs;
      })
  created-IsLinked k mech made v h other row there = elim (Bool-cases (nat_eq.same mech other)) [
    | inl here ↦ (
      v,
      get-set made.service_id row.service_id v k.mechs
          ∙ ground (
            arith,
            get-set mech other made k.create_mechs,
            nat_eq.same_iff made.service_id row.service_id,
          ),
    )
    | inr apart ↦
        let (w, held) = h other row (ground (arith, get-set mech other made k.create_mechs)) in
        set-there k.mechs made.service_id row.service_id v w held
  ]

  create-Returns :
      (s : State) (m : Meta) (mech : Address) (service : ℕ) (factory : Address)
      (config : FactoryConfig)
      → c.factory_config factory ≡ some config
      → IsLinked s.market
      → Returns (handle_create_mech c s m mech service factory)
  unfolding handle_create_mech create_mech
  create-Returns s m mech service factory config known h =
      rw (known, handle_create_mech)
        (
          _,
          refl,
          created-IsLinked s.market mech
              (record { service_id = service; mech_factory = factory; created_by = m }) _ h,
        )

  known-Returns :
      (s : State) (m : Meta) (rate service : ℕ) (v : Mech)
      → IsLinked s.market
      → Returns (update_rate c s m rate service (some v))
  known-Returns s m rate service v h = elim (Bool-cases (v.address == m.address)) [
    | inl current ↦ simp current (
        kept-Returns s _ h (record {
          created = refl;
          there = λ j w held. set-there s.market.mechs service j _ w held;
        }))
    | inr replaced ↦ simp replaced (kept-Returns s s h (same-IsKept s.market s.market refl refl))
  ]

  -- The mech of a log that is not foreign has its row.
  rate-Returns :
      (s : State) (m : Meta) (rate : ℕ)
      → IsLinked s.market
      → Returns (handle_max_delivery_rate_updated c s m rate)
  unfolding handle_max_delivery_rate_updated get_service_id_from_mech
  rate-Returns s m rate h = elim (Option-cases (get m.address s.market.create_mechs)) [
    | inl foreign ↦
        rw (foreign, handle_max_delivery_rate_updated)
          (kept-Returns s s h (same-IsKept s.market s.market refl refl))
    | inr (row, ours) ↦
        let (v, there) = h m.address row ours in
        rw (ours, there, handle_max_delivery_rate_updated)
          (known-Returns s m rate row.service_id v h)
  ]

  handle-Returns :
      (s : State) (m : Meta) (e : Event) → IsListed e → IsLinked s.market → Returns (handle c s m e)
  unfolding handle handle_create_service handle_create_multisig_with_agents update_service_multisig
      handle_update_service handle_register_instance handle_terminate_service
      handle_service_transfer handle_mech_karma_changed handle_mech_factory_create
      handle_complementary_metadata_updated handle_marketplace_request handle_marketplace_delivery
      handle_marketplace_delivery_with_signatures handle_deliver_with_signatures
  handle-Returns s m (Event.create_mech mech service factory) (config, known) h =
      create-Returns s m mech service factory config known h
  handle-Returns s m (Event.marketplace_request mech requester n ids) _ h =
      kept-Returns s _ h (request_all-IsKept s.market m (snapshot c s.market m mech requester) ids)
  handle-Returns s m (Event.marketplace_delivery mech n ids flags) _ h =
      let (k, delivered) = deliver_all s.market mech ids flags in
      kept-Returns s _ h (
        then-IsKept s.market k _ (deliver_all-IsKept s.market mech ids flags)
          (credit-IsKept k mech delivered))
  handle-Returns s m (Event.marketplace_delivery_with_signatures mech requester n ids) _ h =
      let k = (persist_all c s m mech ids).market in
      kept-Returns s _ h
        (then-IsKept s.market k _ (persist_all-Kept c s m mech ids) (change_mech-IsKept k mech _))
  handle-Returns s m (Event.deliver_with_signatures mech j a) _ h =
      kept-Returns s _ h (persist-Kept c s m j mech (some a))
  handle-Returns s m (Event.create_service service config) _ h =
      kept-Returns s _ h (same-IsKept s.market _ refl refl)
  handle-Returns s m (Event.update_service service config) _ h = kept-Returns s _ h (
      then-IsKept s.market _ _ (change_service-IsKept s.market service _)
        (change_mech_of-IsKept _ service _))
  handle-Returns s m (Event.create_multisig_with_agents service multisig) _ h = kept-Returns s _ h (
      then-IsKept s.market _ _ (same-IsKept s.market _ refl refl)
        (change_service-IsKept _ service _))
  handle-Returns s m (Event.register_instance operator service instance agent) _ h =
      kept-Returns s _ h (change_service-IsKept s.market service _)
  handle-Returns s m (Event.terminate_service service) _ h =
      kept-Returns s _ h (change_service-IsKept s.market service _)
  handle-Returns s m (Event.service_transfer from to service) _ h =
      kept-Returns s _ h (change_mech_of-IsKept s.market service _)
  handle-Returns s m (Event.mech_karma_changed mech change) _ h =
      kept-Returns s _ h (change_mech-IsKept s.market mech _)
  handle-Returns s m (Event.metadata_updated service hash) _ h =
      kept-Returns s _ h (same-IsKept s.market _ refl refl)
  handle-Returns s m (Event.mech_factory_create mech rate) _ h =
      kept-Returns s _ h (same-IsKept s.market _ refl refl)
  handle-Returns s m (Event.mech_request j payload) _ h =
      kept-Returns s _ h (request-Kept c s m j payload)
  handle-Returns s m (Event.mech_deliver j a) _ h = kept-Returns s _ h (deliver-Kept c s m j a)
  handle-Returns s m (Event.max_delivery_rate_updated rate) _ h = rate-Returns s m rate h

  -- Where each created mech has the row of its service and the logs create mechs of listed factories
  -- only, a batch runs to its end, and each created mech has the row of its service after it.
  pub run-IsLinked :
      (s : State) (logs : List (Meta × Event))
      → AreListed logs
      → IsLinked s.market
      → (t : State) × (run c s logs ≡ ok t) × IsLinked t.market
  unfolding run
  run-IsLinked s [] none_listed h = (s, refl, h)
  run-IsLinked s ((m, e) ∷ logs) (listed one others) h =
      let (s', returned, h') = handle-Returns s m e one h in
      let (t, done, linked) = run-IsLinked s' logs others h' in (t, rw returned done, linked)
