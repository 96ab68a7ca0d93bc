-- ===== src/Pearl/Bonds.antt =====
-- squids/pearl-transactions/src/handlers.ts: the bond rows of the token utility contract, and the
-- registry events that name their service.
pub mod Attribution
use autonolas_subgraph.Prelude.{ℕ, Option, none, some, true, if◌then◌else◌}
use autonolas_subgraph.Prelude.Equality.{nat_eq, pair_eq}
use autonolas_subgraph.Prelude.Int.{ℤ, pos, neg_ℤ}
use autonolas_subgraph.Prelude.Table.{get, set}
use autonolas_subgraph.Pearl.Model.{Address, Category, Meta, role_of, is_master, master_of, or_else}
use autonolas_subgraph.Pearl.BondQueue.{BondId, enqueue, dequeue}
use autonolas_subgraph.Pearl.State.{State, Chain, BondType, Service, ServiceState, BondMovement}
use autonolas_subgraph.Pearl.Ledger.{upsert_token_balance}
use autonolas_subgraph.Pearl.Safes.{get_or_create_service, set_service}

-- `trackedMasterId`
unfoldable pub tracked_master_id : State → Address → Option Address
tracked_master_id s account =
    let t = get account s.tracked in if is_master (role_of t) then master_of t else none

pub bond_row : Meta → Category → Address → ℕ → Address → Address → Option Address → BondMovement
bond_row m category token amount from to master = record {
  category = category;
  token = token;
  amount = amount;
  from = from;
  to = to;
  master_safe = master;
  service = none;
  agent_safe = none;
  bond_type = none;
  block_number = m.block_number;
  block_timestamp = m.block_timestamp;
  transaction_hash = m.tx_hash;
}

-- The shape of both handlers: the row, the balance of a tracked Master Safe, the queue.
unfoldable pub book_bond :
    Chain → State → Meta → BondMovement → Option Address → Address → Address → ℤ → State
book_bond chain s m row master account token amount =
    let id : BondId = (m.tx_hash, m.log_index) in
    let written : State = record s { bonds = set id row s.bonds } in
    let booked : State = elim master [
      | none ↦ written
      | some _ ↦ upsert_token_balance chain written account token amount m true
    ] in
    record booked { bond_queue = enqueue m.tx_hash id booked.bond_queue }

unfoldable pub handle_token_deposit : Chain → State → Meta → Address → Address → ℕ → State
handle_token_deposit chain s m account token amount =
    let master = tracked_master_id s account in
    let row = bond_row m Category.service_bond_deposit token amount account m.address master in
    book_bond chain s m row master account token (neg_ℤ (pos amount))

unfoldable pub handle_token_refund : Chain → State → Meta → Address → Address → ℕ → State
handle_token_refund chain s m account token amount =
    let master = tracked_master_id s account in
    let row = bond_row m Category.service_bond_refund token amount m.address account master in
    book_bond chain s m row master account token (pos amount)

-- The row with the service and the bond's type filled in.
pub attributed : BondMovement → ℕ → Option Service → BondType → BondMovement
attributed row id none type = record row { bond_type = some type }
attributed row id (some service) type = record row {
  bond_type = some type;
  service = some id;
  master_safe = or_else row.master_safe service.master_safe;
  agent_safe = or_else service.agent_safe row.agent_safe;
}

unfoldable pub attribute_bond : State → Option BondId → ℕ → BondType → State
attribute_bond s none service type = s
attribute_bond s (some id) service type = elim (get id s.bonds) [
  | none ↦ s
  | some row ↦ record s {
    bonds = set id (attributed row service (get service s.services) type) s.bonds;
  }
]

-- The registry event takes the oldest waiting row of its transaction.
unfoldable pub dequeue_and_attribute : State → Meta → ℕ → BondType → State
dequeue_and_attribute s m service type =
    let (id, queue) = dequeue m.tx_hash s.bond_queue in
    attribute_bond (record s { bond_queue = queue }) id service type

unfoldable pub handle_activate_registration : State → Meta → ℕ → State
handle_activate_registration s m service =
    dequeue_and_attribute s m service BondType.security_deposit

unfoldable pub handle_operator_unbond : State → Meta → ℕ → State
handle_operator_unbond s m service = dequeue_and_attribute s m service BondType.agent_bond

unfoldable pub handle_terminate_service : State → Meta → ℕ → State
handle_terminate_service s m id =
    let (service, s1) = get_or_create_service s id m in
    let service' : Service = record service {
      state = ServiceState.terminated;
      updated_timestamp = m.block_timestamp;
    } in
    dequeue_and_attribute (set_service s1 id service') m id BondType.security_deposit
