-- ===== src/Marketplace/Tests.antt =====
-- squids/marketplace: a request of a service to a mech of another one, and its delivery.
use autonolas_subgraph.Prelude.{
  ℕ, ◌+◌, ◌*◌, ◌≡◌, true, refl, arith, none, some, List, [], ◌∷◌, ◌==◌, if◌then◌else◌,
}
use autonolas_subgraph.Prelude.Int.{pos, ◌+ℤ◌}
use autonolas_subgraph.Prelude.Equality.{nat_eq, pair_eq}
use autonolas_subgraph.Prelude.Result.{throw, ok}
use autonolas_subgraph.Prelude.Table.{get, set, sum_by}
use autonolas_subgraph.Marketplace.State.{Meta, native, State}
use autonolas_subgraph.Marketplace.Fees.{
  Chain, convert_fee_to_usd, native_to_usd, gn, gn_times, gn_div, gn_plus, dec,
}
use autonolas_subgraph.Marketplace.Books.{new_global}
use autonolas_subgraph.Marketplace.Mechs.{
  get_service_id_from_mech, get_mech_by_address, change_mech, update_mech_counters_on_request,
  create_mech, handle_create_mech, handle_mech_factory_create, new_mech,
  update_mech_counters_on_delivery, refresh_mech_delivery_rate,
}
use autonolas_subgraph.Marketplace.Registry.{
  handle_create_service, handle_create_multisig_with_agents, update_service_multisig,
  change_service, push_unique,
}
use autonolas_subgraph.Marketplace.Requests.{
  link_request, request_one, request_all, handle_marketplace_request, requested_row, snapshot,
  get_service_id_from_multisig,
}
use autonolas_subgraph.Marketplace.Deliveries.{
  handle_marketplace_delivery, deliver_all, deliver_one, credit_mech,
}
use autonolas_subgraph.Marketplace.Direct.{
  handle_mech_deliver, mech_deliver, deliver_directly, link_mech_deliver, mech_deliver_row,
}
use autonolas_subgraph.Marketplace.Signed.{update_fees_on_delivery, pay_request, set_deliver}
use autonolas_subgraph.Marketplace.Events.{Event, handle, run}
use autonolas_subgraph.Marketplace.Tally.{AreTallied}
use autonolas_subgraph.Marketplace.Tally.Batch.{run-AreTallied}
use autonolas_subgraph.Marketplace.Finality.{fee_at}
use autonolas_subgraph.Marketplace.Links.{IsLinked}
use autonolas_subgraph.Marketplace.Links.Batch.{AreListed, none_listed, listed, run-IsLinked}
use autonolas_subgraph.Marketplace.Finality.Batch.{run-fee_final}

-- Decimals without digits: an amount stands for itself, and a quotient for its dividend.
abbrev chain : Chain
chain = record {
  decimals = record {
    zero_usd = 0;
    is_zero = λ x. x == 0;
    of_int = λ x. elim x [ pos n ↦ n | _ ↦ 0 ];
    plus = λ a b. a + b;
    times = λ a b. a * b;
    div = λ a b. a;
    prec = λ x. x;
    pow10 = λ n. 1;
  };
  mech_marketplace = 100;
  factory_config =
      λ a. if a == 90 then some (record { payment_type = 1; fee_unit = native }) else none;
  native_decimals = 18;
  usdc_decimals = 6;
  olas_pool = none;
  nvm = none;
  usd_at = λ block. some (record { answer = pos 3; decimals = 8 });
  balances_at = λ block. none;
}

abbrev empty : State
empty = record {
  books = record { totals = none; senders = []; ata_transactions = []; requests_per_agent = [] };
  market = record {
    services = [];
    mechs = [];
    create_mechs = [];
    multisigs = [];
    requests = [];
    request_links = [];
    delivers = [];
    deliver_links = [];
    metadata = [];
    pending_mech_rates = [];
    pending_request_payloads = [];
  };
  rows = [];
}

abbrev at : ℕ → ℕ → ℕ → Meta
at address tx log = record {
  address = address;
  block_number = tx;
  block_timestamp = tx;
  tx_hash = tx;
  log_index = log;
  tx_from = some 8;
  tx_to = some 100;
}

-- Service 2 with the multisig 22 asks the mech 50 of service 1.
abbrev logs : List (Meta × Event)
logs =
    (at 60 1 1, Event.create_service 1 11)
    ∷ (at 90 1 2, Event.mech_factory_create 50 7)
    ∷ (at 100 1 3, Event.create_mech 50 1 90)
    ∷ (at 60 2 1, Event.create_multisig_with_agents 2 22)
    ∷ (at 100 3 1, Event.marketplace_request 50 22 1 (70 ∷ []))
    ∷ (at 100 4 1, Event.marketplace_delivery 50 1 (70 ∷ []) (true ∷ []))
    ∷ (
      at 50 4 2,
      Event.mech_deliver 70 (record {
        delivery_rate = 7;
        mech_service_multisig = 33;
        payload = record { length = 66; text = 5 };
      }),
    )
    ∷ []

abbrev done : State
done = elim (run chain empty logs) [ throw why ↦ empty | ok s ↦ s ]

logs_return : run chain empty logs ≡ ok done
unfolding run handle handle_create_service handle_create_mech handle_create_multisig_with_agents
    handle_mech_deliver get_service_id_from_mech get set create_mech handle_mech_factory_create
    handle_marketplace_request request_all request_one link_request update_mech_counters_on_request
    change_mech get_mech_by_address handle_marketplace_delivery
logs_return = refl

empty-AreTallied : AreTallied 0 empty.books
unfolding sum_by new_global ◌+ℤ◌
empty-AreTallied = record {
  total = record {
    requests = refl;
    marketplace = refl;
    off_chain = refl;
    sent = refl;
    transactions = refl;
  };
  counted = record { least = omega arith; most = omega arith };
}

run-AreTallied_example : AreTallied 0 done.books
run-AreTallied_example = run-AreTallied chain empty done logs logs_return empty-AreTallied

-- The request is made and delivered again, at another rate.
abbrev more_logs : List (Meta × Event)
more_logs =
    (at 100 5 1, Event.marketplace_request 50 22 1 (70 ∷ []))
    ∷ (
      at 50 6 1,
      Event.mech_deliver 70 (record {
        delivery_rate = 9;
        mech_service_multisig = 33;
        payload = record { length = 66; text = 6 };
      }),
    )
    ∷ []

abbrev again : State
again = elim (run chain done more_logs) [ throw why ↦ empty | ok s ↦ s ]

abbrev paid : ℕ
paid = 21

more_return : run chain done more_logs ≡ ok again
unfolding run handle handle_mech_deliver get_service_id_from_mech get set handle_marketplace_request
    request_all request_one link_request update_mech_counters_on_request change_mech
    get_mech_by_address
more_return = refl

done_paid : fee_at (get 70 done.market.requests) ≡ some paid
unfolding run handle handle_create_service handle_create_mech handle_create_multisig_with_agents
    handle_mech_deliver get_service_id_from_mech get set create_mech handle_mech_factory_create
    handle_marketplace_request request_all request_one link_request update_mech_counters_on_request
    change_mech get_mech_by_address handle_marketplace_delivery new_mech update_service_multisig
    change_service push_unique requested_row snapshot get_service_id_from_multisig
    convert_fee_to_usd native_to_usd gn gn_times gn_div gn_plus dec deliver_all deliver_one
    update_mech_counters_on_delivery credit_mech mech_deliver deliver_directly
    update_fees_on_delivery pay_request set_deliver link_mech_deliver mech_deliver_row
    refresh_mech_delivery_rate
done_paid = refl

run-fee_final_example : fee_at (get 70 again.market.requests) ≡ some paid
run-fee_final_example = run-fee_final chain 70 paid done again more_logs more_return done_paid

-- The mech of service 1 is created and changes its rate.
abbrev rate_logs : List (Meta × Event)
rate_logs =
    (at 60 1 1, Event.create_service 1 11)
    ∷ (at 100 1 3, Event.create_mech 50 1 90)
    ∷ (at 50 2 1, Event.max_delivery_rate_updated 9)
    ∷ []

rate_logs-AreListed : AreListed chain rate_logs
rate_logs-AreListed =
    listed tt
      (listed (record { payment_type = 1; fee_unit = native }, refl) (listed tt none_listed))

empty-IsLinked : IsLinked empty.market
unfolding get
empty-IsLinked mech row created = absurd (ground arith)

run-IsLinked_example : (t : State) × (run chain empty rate_logs ≡ ok t) × IsLinked t.market
run-IsLinked_example = run-IsLinked chain empty rate_logs rate_logs-AreListed empty-IsLinked
