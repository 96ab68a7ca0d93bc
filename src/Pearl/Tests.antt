-- ===== src/Pearl/Tests.antt =====
-- squids/pearl-transactions/src: the handlers on concrete logs of one wallet. 10 is a Master Safe, 11
-- its Master EOA, 20 the Agent Safe of service 5, 21 its signer, 902 the OLAS token.
use autonolas_subgraph.Prelude.{
  ℕ, ◌≡◌, ◌≢◌, refl, ◌&&◌, ◌||◌, ◌==◌, true, false, Option, none, some, [], ◌∷◌, ◌++◌, arith,
  if◌then◌else◌, List,
}
use autonolas_subgraph.Prelude.Equality.{nat_eq, pair_eq}
use autonolas_subgraph.Prelude.Int.{pos, ◌+ℤ◌, ◌-ℤ◌}
use autonolas_subgraph.Prelude.Table.{get, set}
use autonolas_subgraph.Pearl.Model.{Address, Role, Category, Tracked, Meta}
use autonolas_subgraph.Pearl.Classify as Classify
use autonolas_subgraph.Pearl.Classify.{classify_transfer, category_of}
use autonolas_subgraph.Pearl.BondQueue.{
  BondQueue, BondId, new, enqueue, dequeue, dequeue_agent_bond_once,
}
use autonolas_subgraph.Pearl.BondQueue.Fifo as Fifo
use autonolas_subgraph.Pearl.State.{State, Chain, Service, ServiceState, BondType, BondMovement}
use autonolas_subgraph.Pearl.Ledger as Ledger
use autonolas_subgraph.Pearl.Ledger.{balance_of, upsert_token_balance}
use autonolas_subgraph.Pearl.Transfer.{input_of, handle_transfer}
use autonolas_subgraph.Pearl.Transfer.Sides.{credits_recipient, debits_sender}
use autonolas_subgraph.Pearl.Transfer.Booking as Booking
use autonolas_subgraph.Pearl.Bonds.{
  tracked_master_id, handle_token_deposit, handle_activate_registration, dequeue_and_attribute,
}
use autonolas_subgraph.Pearl.Bonds.Attribution as Attribution
use autonolas_subgraph.Pearl.Execution.{Call, Tx, handle_safe_execution_success}
use autonolas_subgraph.Pearl.Execution.Idempotent as Idempotent
use autonolas_subgraph.Pearl.Registry.{
  LogPosition, includes, merge_unique, is_after, link_agent_instance,
}
use autonolas_subgraph.Pearl.Registry.Latest as Latest
use autonolas_subgraph.Pearl.Registry.Unique as Unique
use autonolas_subgraph.Pearl.Staking.{Reward, handle_reward_claimed, handle_any_unstake}
use autonolas_subgraph.Pearl.Staking.Rewards as Rewards
use autonolas_subgraph.Pearl.Events.{Event, run}
use autonolas_subgraph.Pearl.Events.WriteOnce as WriteOnce

abbrev mainnet : Chain
mainnet = record {
  srtu = 900;
  service_registry = 901;
  olas = 902;
  safe_config = λ a block. none;
  wrapped_native = 903;
  wrapped_native_symbol = 2;
  stablecoins = (904, 3) ∷ [];
}

abbrev meta : ℕ → Address → Meta
meta i emitter = record {
  block_number = 7;
  block_timestamp = 90;
  tx_hash = 5;
  log_index = i;
  address = emitter;
}

abbrev master_safe : Tracked
master_safe = record { id = 10; role = Role.master; master_safe_id = some 10; service_id = none }

abbrev agent_safe : Tracked
agent_safe = record { id = 20; role = Role.agent; master_safe_id = some 10; service_id = some 5 }

abbrev trader : Service
trader = record {
  agent_ids = 25 ∷ [];
  operators = [];
  state = ServiceState.deployed;
  total_olas_rewards_claimed = 0;
  registered_timestamp = 3;
  updated_timestamp = 4;
  master_safe = some 10;
  agent_safe = some 20;
  nft_custodian = some 10;
  current_staking_contract = none;
}

abbrev wallet : State
wallet = record {
  services = (5, trader) ∷ [];
  master_safes = [];
  agent_safes = [];
  tokens = [];
  token_balances = [];
  tracked = (10, master_safe) ∷ (20, agent_safe) ∷ [];
  funding_events = [];
  movements = [];
  bonds = [];
  daily_funds = [];
  staking_contracts = [];
  agent_instances = (21, record { service = 5; updated_block = 2; updated_log_index = 0 }) ∷ [];
  pending = [];
  service_index = [];
  custody_changes = [];
  bond_queue = new;
}

abbrev top_up : Call
top_up = record { to = 21; value = 30; operation = 0; data_is_empty = true; legs = none }

abbrev top_up_tx : Tx
top_up_tx = record { from = 77; to = some 10; call = some top_up }

abbrev first_funding : Classify.Input
first_funding = record {
  from_tracked = some (record master_safe { role = Role.master_eoa });
  to_tracked = some master_safe;
  from_is_srtu = false;
  to_is_srtu = false;
  from_is_service_registry = false;
  to_master_setup_transfer_seen = false;
}

first_funding-category :
    category_of (classify_transfer first_funding) ≡ some Category.safe_setup_transfer
unfolding classify_transfer
first_funding-category = refl

waiting-enqueue_example :
    (Fifo.waiting 5 (enqueue 5 (5, 2) (enqueue 5 (5, 1) new))
      ≡ Fifo.waiting 5 (enqueue 5 (5, 1) new) ++ (5, 2) ∷ [])
    × (◌≢◌ {A = ℕ} 6 5
        → Fifo.waiting 6 (enqueue 5 (5, 2) (enqueue 5 (5, 1) new))
          ≡ Fifo.waiting 6 (enqueue 5 (5, 1) new))
    × ((enqueue 5 (5, 2) (enqueue 5 (5, 1) new)).agent_bond_guard
        ≡ (enqueue 5 (5, 1) new).agent_bond_guard)
waiting-enqueue_example = Fifo.waiting-enqueue 5 6 (5, 2) (enqueue 5 (5, 1) new)

abbrev two_rows : BondQueue
two_rows = enqueue 5 (5, 2) (enqueue 5 (5, 1) new)

waiting-dequeue_example :
    ((dequeue 5 two_rows).0 ≡ Fifo.head? (Fifo.waiting 5 two_rows))
    × (Fifo.waiting 5 (dequeue 5 two_rows).1 ≡ Fifo.rest (Fifo.waiting 5 two_rows))
    × (◌≢◌ {A = ℕ} 6 5 → Fifo.waiting 6 (dequeue 5 two_rows).1 ≡ Fifo.waiting 6 two_rows)
    × ((dequeue 5 two_rows).1.agent_bond_guard ≡ two_rows.agent_bond_guard)
waiting-dequeue_example = Fifo.waiting-dequeue 5 6 two_rows

abbrev once : Option BondId × BondQueue
once = dequeue_agent_bond_once 5 9 two_rows

-- A call for another service, and a row that comes in, between two calls for one service.
abbrev between : List Fifo.QueueCall
between = Fifo.agent_bond_call 5 8 ∷ Fifo.enqueue_call 5 (5, 3) ∷ []

dequeue_agent_bond_once-once_example :
    (once.0 ≡ Fifo.head? (Fifo.waiting 5 two_rows))
    × (Fifo.waiting 5 once.1 ≡ Fifo.rest (Fifo.waiting 5 two_rows))
    × (dequeue_agent_bond_once 5 9 (Fifo.after_calls between once.1)
        ≡ (none, Fifo.after_calls between once.1))
unfolding get set enqueue
dequeue_agent_bond_once-once_example = Fifo.dequeue_agent_bond_once-once 5 9 two_rows between refl

upsert_token_balance-delta_example :
    balance_of (upsert_token_balance mainnet wallet 10 902 (pos 8) (meta 1 902) true) 10 902
    ≡ balance_of wallet 10 902 +ℤ (if 10 == 10 && 902 == 902 then pos 8 else pos 0)
upsert_token_balance-delta_example =
    Ledger.upsert_token_balance-delta mainnet wallet 10 902 (pos 8) (meta 1 902) 10 902

handle_transfer-balances_example :
    balance_of (handle_transfer mainnet wallet (meta 1 902) 10 20 8 (some 902)) 20 902
    ≡ balance_of wallet 20 902
      +ℤ Booking.amount_if
          (credits_recipient (input_of mainnet wallet 10 20) && (20 == 20 && 902 == 902))
          8
      -ℤ Booking.amount_if
          (debits_sender (input_of mainnet wallet 10 20) && (10 == 20 && 902 == 902))
          8
handle_transfer-balances_example =
    Booking.handle_transfer-balances mainnet wallet (meta 1 902) 10 20 8 902 20 902

deposit_books_once_example :
    balance_of
      (handle_token_deposit mainnet
        (handle_transfer mainnet wallet (meta 1 902) 10 900 8 (some 902))
        (meta 2 900)
        10
        902
        8)
      10
      902
    ≡ balance_of wallet 10 902 -ℤ (if 10 == 10 && 902 == 902 then pos 8 else pos 0)
unfolding get
deposit_books_once_example =
    Attribution.deposit_books_once mainnet wallet (meta 1 902) (meta 2 900) 10 902 8 10 902
      master_safe refl refl (ground arith)

abbrev deposited : State
deposited = handle_token_deposit mainnet wallet (meta 1 900) 10 902 8

abbrev waiting_row : BondMovement
waiting_row = record {
  category = Category.service_bond_deposit;
  token = 902;
  amount = 8;
  from = 10;
  to = 900;
  master_safe = some 10;
  service = none;
  agent_safe = none;
  bond_type = none;
  block_number = 7;
  block_timestamp = 90;
  transaction_hash = 5;
}

abbrev with_row : State
with_row = record wallet { bonds = ((5, 1), waiting_row) ∷ []; bond_queue = enqueue 5 (5, 1) new }

dequeue_and_attribute_lem_example :
    (get (5, 1) (dequeue_and_attribute with_row (meta 2 901) 5 BondType.security_deposit).bonds
      ≡ some
          (Attribution.stamped waiting_row 5 (get 5 with_row.services) BondType.security_deposit))
    × (Fifo.waiting 5
          (dequeue_and_attribute with_row (meta 2 901) 5 BondType.security_deposit).bond_queue
        ≡ [])
unfolding get set enqueue
dequeue_and_attribute_lem_example =
    Attribution.dequeue_and_attribute_lem with_row (meta 2 901) 5 BondType.security_deposit (5, 1)
      [] waiting_row refl refl

deposit_then_activate_example :
    (get (5, 1) (handle_activate_registration deposited (meta 2 901) 5).bonds
      ≡ some (record waiting_row {
        service = some 5;
        agent_safe = trader.agent_safe;
        bond_type = some BondType.security_deposit;
      }))
    × (Fifo.waiting 5 (handle_activate_registration deposited (meta 2 901) 5).bond_queue ≡ [])
unfolding get tracked_master_id
deposit_then_activate_example =
    Attribution.deposit_then_activate mainnet wallet (meta 1 900) (meta 2 901) 10 902 8 5 trader
      refl refl refl

handle_safe_execution_success-twice_example :
    handle_safe_execution_success 999 mainnet
      (handle_safe_execution_success 999 mainnet wallet (meta 3 10) top_up_tx)
      (meta 4 10)
      top_up_tx
    ≡ handle_safe_execution_success 999 mainnet wallet (meta 3 10) top_up_tx
handle_safe_execution_success-twice_example =
    Idempotent.handle_safe_execution_success-twice mainnet (meta 3 10) 999 wallet top_up_tx 4

abbrev logs : List (Meta × Event)
logs =
    (meta 1 902, Event.erc20_transfer 10 20 8)
    ∷ (meta 3 10, Event.safe_execution_success top_up_tx)
    ∷ (meta 4 901, Event.create_multisig_with_agents 6 10)
    ∷ []

run-Keeps_example : get 10 (run 999 mainnet logs wallet).tracked ≡ some master_safe
unfolding get
run-Keeps_example = WriteOnce.run-Keeps 999 mainnet logs wallet 10 master_safe refl

abbrev early : LogPosition
early = record { block = 8; log_index = 1 }

abbrev late : LogPosition
late = record { block = 8; log_index = 4 }

link_agent_instance-commutes_example :
    get 21 (link_agent_instance (link_agent_instance wallet 21 6 early) 21 7 late).agent_instances
    ≡ get 21 (link_agent_instance (link_agent_instance wallet 21 7 late) 21 6 early).agent_instances
unfolding is_after
link_agent_instance-commutes_example =
    Latest.link_agent_instance-commutes wallet 21 6 7 early late 21 refl

abbrev claim : Reward
claim = record { service_id = 5; owner = 10; multisig = 20; reward = 12; epoch = 2 }

rewards-IsBooked_example :
    Rewards.IsBooked (handle_reward_claimed mainnet wallet (meta 1 30) claim) 5
    × Rewards.IsBooked (handle_any_unstake mainnet wallet (meta 1 30) claim) 5
unfolding get Rewards.sum_for
rewards-IsBooked_example = Rewards.rewards-IsBooked mainnet wallet (meta 1 30) claim 5 refl

abbrev some_ids : List ℕ
some_ids = 25 ∷ 40 ∷ []

merge_unique-is_unique_example :
    (Unique.is_unique (merge_unique some_ids (40 ∷ 33 ∷ [])) ≡ true)
    × (includes (merge_unique some_ids (40 ∷ 33 ∷ [])) 33
        ≡ (includes some_ids 33 || includes (40 ∷ 33 ∷ []) 33))
unfolding Unique.is_unique includes
merge_unique-is_unique_example = Unique.merge_unique-is_unique some_ids (40 ∷ 33 ∷ []) 33 refl
