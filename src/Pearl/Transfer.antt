-- ===== src/Pearl/Transfer.antt =====
-- squids/pearl-transactions/src/handlers.ts: `handleTransfer`, the shared body for ERC-20 transfers
-- and for native amounts that a Safe receives.
pub mod Sides
pub mod Booking
use autonolas_subgraph.Prelude.{
  ℕ, ◌&&◌, Bool, true, false, not, Option, none, some, ◌==◌, if◌then◌else◌, ◌||◌,
}
use autonolas_subgraph.Prelude.Equality.{nat_eq, pair_eq}
use autonolas_subgraph.Prelude.Int.{pos, neg_ℤ}
use autonolas_subgraph.Prelude.Table.{get, set}
use autonolas_subgraph.Pearl.Model.{
  Address, Category, Tracked, Meta, role_of, is_master, is_master_eoa, is_agent, is_none,
}
use autonolas_subgraph.Pearl.Classify.{Input, Class, classify_transfer}
use autonolas_subgraph.Pearl.State.{State, Chain, Source, MasterSafe, FundsMovement, event_id}
use autonolas_subgraph.Pearl.Ledger.{upsert_token_balance, add_to_agent_funding_event, funding_id}

-- `ms?.setupTransferSeen ?? true`
abbrev pub seen_or_true : Option MasterSafe → Bool
seen_or_true none = true
seen_or_true (some ms) = ms.setup_transfer_seen

-- The Master Safe is loaded only where the setup gate can fire.
pub setup_seen : State → Option Tracked → Option Tracked → Bool
setup_seen s none from_tracked = false
setup_seen s (some t) from_tracked =
    if is_master (some t.role) && is_master_eoa (role_of from_tracked)
    then seen_or_true (get t.id s.master_safes)
    else false

unfoldable pub input_of : Chain → State → Address → Address → Input
input_of chain s from to = record {
  from_tracked = get from s.tracked;
  to_tracked = get to s.tracked;
  from_is_srtu = from == chain.srtu;
  to_is_srtu = to == chain.srtu;
  from_is_service_registry = from == chain.service_registry;
  to_master_setup_transfer_seen = setup_seen s (get to s.tracked) (get from s.tracked);
}

abbrev pub is_olas : Chain → Option Address → Bool
is_olas chain none = false
is_olas chain (some token) = token == chain.olas

-- An OLAS return from an Agent Safe gets a category of its own.
pub retag : Chain → Option Address → Category → Category
retag chain token Category.agent_to_master =
    if is_olas chain token then Category.agent_olas_to_master else Category.agent_to_master
retag chain token c = c

-- The setup flag is set by the first transfer from the Master EOA.
unfoldable pub mark_setup : State → Category → Option Address → State
mark_setup s Category.safe_setup_transfer (some safe) = elim (get safe s.master_safes) [
  | none ↦ s
  | some ms ↦ if ms.setup_transfer_seen then s else record s {
    master_safes = set safe (record ms { setup_transfer_seen = true }) s.master_safes;
  }
]
mark_setup s _ _ = s

-- The funding event of a MASTER_TO_AGENT row: the state with its leg added, and its id.
unfoldable pub fund_agent :
    Chain
    → State
    → Meta
    → Category
    → Option Address
    → Option ℕ
    → Option Address
    → ℕ
    → State × Option (ℕ × (Address × ℕ))
fund_agent chain s m Category.master_to_agent (some master) (some service) token amount = (
  add_to_agent_funding_event chain s m master service token amount,
  some (funding_id m.tx_hash master service),
)
fund_agent chain s m _ _ _ token amount = (s, none)

-- The members of `credits` and of `debits`.
pub is_credit : Category → Bool
is_credit Category.safe_setup_transfer = true
is_credit Category.master_funding_in = true
is_credit Category.agent_to_master = true
is_credit Category.agent_olas_to_master = true
is_credit Category.app_to_agent = true
is_credit Category.staking_reward_claim = true
is_credit _ = false

pub is_debit : Category → Bool
is_debit Category.master_withdrawal = true
is_debit Category.master_to_agent = true
is_debit Category.agent_to_app = true
is_debit Category.agent_to_master = true
is_debit Category.agent_olas_to_master = true
is_debit _ = false

abbrev pub is_master_to_agent : Category → Bool
is_master_to_agent Category.master_to_agent = true
is_master_to_agent _ = false

-- The four balance updates at the end of the handler, in its order.
unfoldable pub book :
    Chain → State → Meta → Category → Bool → Address → Address → ℕ → Address → State
book chain s m category sender_too from to amount token =
    let credit = λ (s : State). upsert_token_balance chain s to token (pos amount) m true in
    let debit =
      λ (s : State). upsert_token_balance chain s from token (neg_ℤ (pos amount)) m true in
    let s1 = if is_credit category then credit s else s in
    let s2 = if is_debit category then debit s1 else s1 in
    let s3 = if is_master_to_agent category then credit s2 else s2 in
    if sender_too then debit s3 else s3

abbrev pub book_token :
    Chain → State → Meta → Category → Bool → Address → Address → ℕ → Option Address → State
book_token chain s m category sender_too from to amount none = s
book_token chain s m category sender_too from to amount (some token) =
    book chain s m category sender_too from to amount token

pub movement_row :
    Meta
    → Class
    → Category
    → Option (ℕ × (Address × ℕ))
    → Option Address
    → ℕ
    → Address
    → Address
    → FundsMovement
movement_row m c category event token amount from to = record {
  service = c.service_id;
  master_safe = c.master_safe_id;
  agent_safe = c.agent_safe_id;
  staking_contract = none;
  epoch = none;
  category = category;
  source = Source.raw_transfer;
  agent_funding_event = event;
  token = token;
  amount = amount;
  from = from;
  to = to;
  block_number = m.block_number;
  block_timestamp = m.block_timestamp;
  transaction_hash = m.tx_hash;
}

-- The rows that a classified transfer writes before the balances: the setup flag, the funding
-- event and the movement.
unfoldable pub record_movement :
    Chain → State → Meta → Class → Category → Address → Address → ℕ → Option Address → State
record_movement chain s m c category from to amount token =
    let s1 = mark_setup s category c.master_safe_id in
    let (s2, event) = fund_agent chain s1 m category c.master_safe_id c.service_id token amount in
    record s2 {
      movements =
          set (event_id m.tx_hash m.log_index)
            (movement_row m c category event token amount from to) s2.movements;
    }

unfoldable pub apply_class :
    Chain → State → Meta → Class → Address → Address → ℕ → Option Address → State
apply_class chain s m c from to amount token =
    let category = retag chain token c.category in
    let s' = record_movement chain s m c category from to amount token in
    book_token chain s' m category (not (is_none c.sender_master_id)) from to amount token

unfoldable pub handle_transfer :
    Chain → State → Meta → Address → Address → ℕ → Option Address → State
handle_transfer chain s m from to amount token =
    elim (classify_transfer (input_of chain s from to)) [
      | none ↦ s
      | some c ↦ apply_class chain s m c from to amount token
    ]

unfoldable pub handle_erc20_transfer : Chain → State → Meta → Address → Address → ℕ → State
handle_erc20_transfer chain s m from to value =
    handle_transfer chain s m from to value (some m.address)

unfoldable pub handle_safe_received : Chain → State → Meta → Address → ℕ → State
handle_safe_received chain s m sender value =
    let role = role_of (get m.address s.tracked) in
    if is_master role || is_agent role
    then handle_transfer chain s m sender m.address value none
    else s
