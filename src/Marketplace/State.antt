-- ===== src/Marketplace/State.antt =====
-- squids/marketplace/src/model/generated: the rows of the squid, apart by what they are for: the books,
-- which count, the market, which the handlers look things up in, and a row for each event.
use autonolas_subgraph.Prelude.{ℕ, Bool, Option, List, [], ◌∷◌, if◌then◌else◌}
use autonolas_subgraph.Prelude.Int.{ℤ}
use autonolas_subgraph.Prelude.Equality.{Key}
use autonolas_subgraph.Prelude.Table.{Table}

abbrev pub Address : Type 0
Address = ℕ

-- A decimal is the number that stands for it; only the operations of `Decimals` read it.
abbrev pub Usd : Type 0
Usd = ℕ

pub record Meta : Type 0 where
  pub address : Address
  pub block_number : ℕ
  pub block_timestamp : ℕ
  pub tx_hash : ℕ
  pub log_index : ℕ
  pub tx_from : Option Address
  pub tx_to : Option Address

abbrev pub EventId : Type 0
EventId = ℕ × ℕ

-- A delivery's id is that of its log, or the transaction and the request, with a tag for which.
abbrev pub DeliverId : Type 0
DeliverId = ℕ × (ℕ × ℕ)

pub data FeeUnit : Type 0 where
  native token usdc nvm_credits : FeeUnit

-- A payload in hexadecimal: its number of characters, and what stands for the text.
pub record Payload : Type 0 where
  pub length : ℕ
  pub text : ℕ

pub record Service : Type 0 where
  pub service_id : ℕ
  pub config_hash : ℕ
  pub latest_multisig : Option Address
  pub historical_multisigs : List Address
  pub total_requests : ℕ
  pub total_deliveries : ℕ
  pub agent_ids : List ℕ

pub record Mech : Type 0 where
  pub address : Address
  pub mech_factory : Address
  pub config_hash : Option ℕ
  pub owner : Address
  pub service : Option ℕ
  pub total_deliveries_transactions : ℕ
  pub received_requests : ℕ
  pub self_delivered_from_received : ℕ
  pub delivered_by_others_from_received : ℕ
  pub max_delivery_rate : Option ℕ
  pub max_delivery_rate_usd : Option Usd
  pub karma : ℤ
  pub payment_type : ℕ

-- What the lookup rows hold; the only handler that writes them sets every column.
pub record CreateMech : Type 0 where
  pub service_id : ℕ
  pub mech_factory : Address
  pub created_by : Meta

pub record CreateMultisigWithAgents : Type 0 where
  pub service_id : ℕ
  pub created_by : Meta

pub record Request : Type 0 where
  pub sender : Option Address
  pub service : Option ℕ
  pub mech : Option Address
  pub priority_mech : Option Address
  pub block_number : ℕ
  pub block_timestamp : ℕ
  pub transaction_hash : ℕ
  pub is_delivered : Bool
  pub delivered_by_mech : Option Address
  pub fee_raw : Option ℕ
  pub fee_unit : Option FeeUnit
  pub fee_usd : Option Usd
  pub final_fee_usd : Option Usd

-- A flag that was never set is false.
pub record RequestToMarketplace : Type 0 where
  pub is_marketplace : Bool
  pub is_off_chain : Bool
  pub request : Option ℕ
  pub ipfs_hash_bytes : Option ℕ

pub record Deliver : Type 0 where
  pub request_id : ℕ
  pub mech : Address
  pub sender : Address
  pub service : Option ℕ
  pub request : Option ℕ
  pub block_number : ℕ
  pub block_timestamp : ℕ
  pub transaction_hash : ℕ

pub record DeliverForMarketplace : Type 0 where
  pub is_marketplace : Bool
  pub is_off_chain : Bool
  pub deliver : Option DeliverId
  pub delivery_rate : Option ℕ
  pub mech_service_multisig : Option Address
  pub ipfs_hash_bytes : Option ℕ

pub record Metadata : Type 0 where
  pub service : Option ℕ
  pub mech : Option Address
  pub metadata : ℕ

pub record Sender : Type 0 where
  pub total_legacy_requests : ℕ
  pub total_legacy_transactions : ℕ
  pub total_legacy_ata_transactions : ℕ
  pub total_marketplace_requests : ℕ
  pub total_off_chain_requests : ℕ
  pub total_fees_paid_usd : Usd

pub record Global : Type 0 where
  pub total_mechs : ℕ
  pub total_marketplace_requests : ℕ
  pub total_marketplace_deliveries : ℕ
  pub total_marketplace_deliveries_with_signatures : ℕ
  pub total_off_chain_requests : ℕ
  pub total_requests : ℕ
  pub total_deliveries : ℕ
  pub total_transactions : ℕ
  pub total_ata_transactions : ℕ
  pub total_fees_paid_usd : Usd

pub record AtaTransaction : Type 0 where
  pub block_number : ℕ
  pub block_timestamp : ℕ

pub record Books : Type 0 where
  pub totals : Option Global
  pub senders : Table Address Sender
  pub ata_transactions : Table ℕ AtaTransaction
  pub requests_per_agent : Table ℕ ℕ

-- The last two are the maps of the batch, `pendingMechRates` and `pendingRequestPayloads`.
pub record Market : Type 0 where
  pub services : Table ℕ Service
  pub mechs : Table ℕ Mech
  pub create_mechs : Table Address CreateMech
  pub multisigs : Table Address CreateMultisigWithAgents
  pub requests : Table ℕ Request
  pub request_links : Table ℕ RequestToMarketplace
  pub delivers : Table DeliverId Deliver
  pub deliver_links : Table ℕ DeliverForMarketplace
  pub metadata : Table ℕ Metadata
  pub pending_mech_rates : Table Address ℕ
  pub pending_request_payloads : Table ℕ ℕ

-- The rows that repeat an event's parameters; the id of each is its log's.
pub data EventRow : Type 0 where
  create_service update_service : ℕ → ℕ → EventRow
  register_instance : Address → ℕ → Address → ℕ → EventRow
  terminate_service : ℕ → EventRow
  transfer : Address → Address → ℕ → EventRow
  marketplace_request : Address → Address → ℕ → List ℕ → EventRow
  marketplace_delivery : Address → ℕ → List ℕ → List Bool → EventRow
  marketplace_delivery_with_signatures : Address → Address → ℕ → List ℕ → EventRow

pub record State : Type 0 where
  pub books : Books
  pub market : Market
  pub rows : Table EventId (Meta × EventRow)

pub data Error : Type 0 where
  unknown_factory : Address → Error
  missing_mech : ℕ → Error

-- `delete`
module _ {ℓ κ} {K : Type ℓ} {V : Type κ} ⦃e : Key K⦄ where
  unfoldable pub remove : K → Table K V → Table K V
  remove k [] = []
  remove k ((j, v) ∷ t) = if e.same j k then remove k t else (j, v) ∷ remove k t

abbrev pub event_id : Meta → EventId
event_id m = (m.tx_hash, m.log_index)

abbrev pub log_deliver_id : Meta → DeliverId
log_deliver_id m = (0, (m.tx_hash, m.log_index))

abbrev pub signed_deliver_id : Meta → ℕ → DeliverId
signed_deliver_id m request = (1, (m.tx_hash, request))
