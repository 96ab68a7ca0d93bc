-- ===== src/Marketplace/Events.antt =====
-- squids/marketplace/src/main.ts: the decoded logs, by the contract that emits them.
use autonolas_subgraph.Prelude.{ℕ, Bool, List, [], ◌∷◌}
use autonolas_subgraph.Prelude.Int.{ℤ}
use autonolas_subgraph.Prelude.Result.{Result, ok, ◌>>=◌}
use autonolas_subgraph.Marketplace.State.{Address, Meta, Payload, State, Error}
use autonolas_subgraph.Marketplace.Fees.{Chain}
use autonolas_subgraph.Marketplace.Mechs.{
  handle_create_mech, handle_mech_karma_changed, handle_mech_factory_create,
  handle_max_delivery_rate_updated,
}
use autonolas_subgraph.Marketplace.Registry.{
  handle_create_service, handle_create_multisig_with_agents, handle_register_instance,
  handle_terminate_service, handle_service_transfer, handle_update_service,
  handle_complementary_metadata_updated,
}
use autonolas_subgraph.Marketplace.Requests.{handle_marketplace_request}
use autonolas_subgraph.Marketplace.MechRequests.{handle_mech_request}
use autonolas_subgraph.Marketplace.Deliveries.{handle_marketplace_delivery}
use autonolas_subgraph.Marketplace.Signed.{
  SignedDeliver, handle_marketplace_delivery_with_signatures, handle_deliver_with_signatures,
}
use autonolas_subgraph.Marketplace.Direct.{handle_mech_deliver}

pub data Event : Type 0 where
  create_mech : Address → ℕ → Address → Event
  marketplace_request : Address → Address → ℕ → List ℕ → Event
  marketplace_delivery : Address → ℕ → List ℕ → List Bool → Event
  marketplace_delivery_with_signatures : Address → Address → ℕ → List ℕ → Event
  deliver_with_signatures : Address → ℕ → SignedDeliver → Event
  create_service update_service : ℕ → ℕ → Event
  create_multisig_with_agents : ℕ → Address → Event
  register_instance : Address → ℕ → Address → ℕ → Event
  terminate_service : ℕ → Event
  service_transfer : Address → Address → ℕ → Event
  mech_karma_changed : Address → ℤ → Event
  metadata_updated : ℕ → ℕ → Event
  mech_factory_create : Address → ℕ → Event
  mech_request : ℕ → Payload → Event
  mech_deliver : ℕ → SignedDeliver → Event
  max_delivery_rate_updated : ℕ → Event

module _ (c : Chain) where
  unfoldable pub handle : State → Meta → Event → Result Error State
  handle s m (Event.create_mech mech service factory) =
      handle_create_mech c s m mech service factory
  handle s m (Event.marketplace_request mech requester n ids) =
      ok (handle_marketplace_request c s m mech requester n ids)
  handle s m (Event.marketplace_delivery mech n ids flags) =
      ok (handle_marketplace_delivery c s m mech n ids flags)
  handle s m (Event.marketplace_delivery_with_signatures mech requester n ids) =
      ok (handle_marketplace_delivery_with_signatures c s m mech requester n ids)
  handle s m (Event.deliver_with_signatures mech id a) =
      ok (handle_deliver_with_signatures c s m mech id a)
  handle s m (Event.create_service id config) = ok (handle_create_service s m id config)
  handle s m (Event.update_service id config) = ok (handle_update_service s m id config)
  handle s m (Event.create_multisig_with_agents id multisig) =
      ok (record s { market = handle_create_multisig_with_agents s.market m id multisig })
  handle s m (Event.register_instance operator id instance agent) =
      ok (handle_register_instance s m operator id instance agent)
  handle s m (Event.terminate_service id) = ok (handle_terminate_service s m id)
  handle s m (Event.service_transfer from to id) = ok (handle_service_transfer s m from to id)
  handle s m (Event.mech_karma_changed mech change) =
      ok (record s { market = handle_mech_karma_changed s.market mech change })
  handle s m (Event.metadata_updated id hash) =
      ok (record s { market = handle_complementary_metadata_updated s.market id hash })
  handle s m (Event.mech_factory_create mech rate) =
      ok (record s { market = handle_mech_factory_create c s.market mech rate })
  handle s m (Event.mech_request id payload) = ok (handle_mech_request c s m id payload)
  handle s m (Event.mech_deliver id a) = ok (handle_mech_deliver c s m id a)
  handle s m (Event.max_delivery_rate_updated rate) = handle_max_delivery_rate_updated c s m rate

  unfoldable pub run : State → List (Meta × Event) → Result Error State
  run s [] = ok s
  run s ((m, e) ∷ logs) = do s' ← handle s m e; run s' logs
