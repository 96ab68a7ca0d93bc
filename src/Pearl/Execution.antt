-- ===== src/Pearl/Execution.antt =====
-- squids/pearl-transactions/src/handlers.ts: native amounts that leave a Safe through its own
-- `execTransaction`, and the upkeep of a Master Safe's owners.
pub mod Idempotent
pub mod ReadOnly
use autonolas_subgraph.Prelude.{
  ℕ, ◌&&◌, ◌||◌, Bool, true, false, not, Option, none, some, List, [], ◌∷◌, ◌++◌, ◌==◌, ltb,
  if◌then◌else◌,
}
use autonolas_subgraph.Prelude.Equality.{nat_eq, pair_eq}
use autonolas_subgraph.Prelude.Table.{get, set}
use autonolas_subgraph.Pearl.Model.{
  Address, Category, Tracked, Meta, role_of, is_master, is_agent, is_none, master_of, service_of,
  id_of,
}
use autonolas_subgraph.Pearl.State.{
  State, Chain, Source, Service, MasterSafe, FundsMovement, agent_safe_top_up_id,
  agent_signer_leg_id,
}
use autonolas_subgraph.Pearl.Ledger.{add_to_agent_funding_event, funding_id}
use autonolas_subgraph.Pearl.Registry.{includes}

-- `NativeLeg`
pub record NativeLeg : Type 0 where
  pub index : ℕ
  pub to : Address
  pub value : ℕ

-- The decoded call: what the calldata of `execTransaction` holds, `data` as far as the handler
-- reads it: whether it is empty, and the native legs if it is a MultiSend batch that unpacks.
pub record Call : Type 0 where
  pub to : Address
  pub value : ℕ
  pub operation : ℕ
  pub data_is_empty : Bool
  pub legs : Option (List NativeLeg)

-- The outer transaction: its sender, its target, and the call where the input decodes as one.
pub record Tx : Type 0 where
  pub from : Address
  pub to : Option Address
  pub call : Option Call

abbrev pub native_row :
    Meta
    → Category
    → Option (ℕ × (Address × ℕ))
    → Option ℕ
    → Option Address
    → Option Address
    → Address
    → ℕ
    → FundsMovement
native_row m category event service master agent to amount = record {
  service = service;
  master_safe = master;
  agent_safe = agent;
  staking_contract = none;
  epoch = none;
  category = category;
  source = Source.semantic;
  agent_funding_event = event;
  token = none;
  amount = amount;
  from = m.address;
  to = to;
  block_number = m.block_number;
  block_timestamp = m.block_timestamp;
  transaction_hash = m.tx_hash;
}

abbrev pub is_address : Option Address → Address → Bool
is_address none a = false
is_address (some b) a = b == a

-- One leg to an Agent Signer of a service of the emitting Safe, written once.
pub write_leg : Chain → State → Meta → ℕ → Service → NativeLeg → State
write_leg chain s m id service leg =
    let row = agent_signer_leg_id m.tx_hash leg.index in
    if not (is_address service.master_safe m.address) || not (is_none (get row s.movements))
    then s
    else let s1 = add_to_agent_funding_event chain s m m.address id none leg.value in
      record s1 {
        movements =
            set row
              (native_row m Category.master_to_agent (some (funding_id m.tx_hash m.address id))
                (some id) service.master_safe service.agent_safe leg.to leg.value)
              s1.movements;
      }

pub write_agent_signer_leg : Chain → State → Meta → NativeLeg → State
write_agent_signer_leg chain s m leg = elim (get leg.to s.agent_instances) [
  | none ↦ s
  | some link ↦ elim (get link.service s.services) [
    | none ↦ s
    | some service ↦ write_leg chain s m link.service service leg
  ]
]

pub write_agent_signer_legs : Chain → State → Meta → List NativeLeg → State
write_agent_signer_legs chain s m [] = s
write_agent_signer_legs chain s m (leg ∷ legs) =
    write_agent_signer_legs chain (write_agent_signer_leg chain s m leg) m legs

abbrev pub is_plain_native : Call → Bool
is_plain_native c = c.operation == 0 && c.data_is_empty && ltb 0 c.value

abbrev pub is_multi_send : ℕ → Call → Bool
is_multi_send multisend c = c.operation == 1 && c.to == multisend

abbrev pub write_optional_legs : Chain → State → Meta → Option (List NativeLeg) → State
write_optional_legs chain s m none = s
write_optional_legs chain s m (some legs) = write_agent_signer_legs chain s m legs

-- The Master Safe's part: the one leg of a plain call, or the legs of the batch.
pub execute_master : Chain → State → Meta → Call → State
execute_master chain s m c =
    if is_plain_native c
    then write_agent_signer_legs chain s m (record { index = 0; to = c.to; value = c.value } ∷ [])
    else write_optional_legs chain s m c.legs

-- The Agent Safe's part: a plain payment to the signer that submits it.
pub execute_agent : State → Meta → Option Tracked → Address → Call → State
execute_agent s m safe signer c =
    let row = agent_safe_top_up_id m.tx_hash in
    if not (is_plain_native c) || not (c.to == signer)
    then s
    else if not (is_agent (role_of safe)) || not (is_none (get row s.movements))
    then s
    else record s {
      movements =
          set row
            (native_row m Category.agent_safe_to_agent_eoa none (service_of safe) (master_of safe)
              (id_of safe) signer c.value)
            s.movements;
    }

pub execute_call : ℕ → Chain → State → Meta → Address → Call → State
execute_call multisend chain s m signer c =
    let safe = get m.address s.tracked in
    if not (is_plain_native c) && not (is_multi_send multisend c)
    then s
    else if is_master (role_of safe)
    then execute_master chain s m c
    else execute_agent s m safe signer c

-- `multisend` is the address of the canonical MultiSend deployment.
pub handle_safe_execution_success : ℕ → Chain → State → Meta → Tx → State
handle_safe_execution_success multisend chain s m tx =
    if is_address tx.to m.address
    then elim tx.call [ none ↦ s | some c ↦ execute_call multisend chain s m tx.from c ]
    else s

unfoldable pub handle_safe_added_owner : State → Meta → Address → State
handle_safe_added_owner s m owner = elim (get m.address s.master_safes) [
  | none ↦ s
  | some ms ↦ if includes ms.owners owner then s else record s {
    master_safes =
        set m.address
          (record ms {
            owners = ms.owners ++ owner ∷ [];
            last_activity_timestamp = m.block_timestamp;
          })
          s.master_safes;
  }
]

-- `owners.filter((o) => o !== owner)`
pub without : Address → List Address → List Address
without owner [] = []
without owner (o ∷ l) = let l' = without owner l in if o == owner then l' else o ∷ l'

-- The removed Master EOA is replaced by the first owner that is left.
pub promoted : Address → Address → List Address → Address
promoted eoa owner [] = eoa
promoted eoa owner (o ∷ _) = if eoa == owner then o else eoa

unfoldable pub handle_safe_removed_owner : State → Meta → Address → State
handle_safe_removed_owner s m owner = elim (get m.address s.master_safes) [
  | none ↦ s
  | some ms ↦
      let left = without owner ms.owners in
      record s {
        master_safes =
            set m.address
              (record ms {
                owners = left;
                master_eoa = promoted ms.master_eoa owner left;
                last_activity_timestamp = m.block_timestamp;
              })
              s.master_safes;
      }
]

unfoldable pub handle_safe_changed_threshold : State → Meta → ℕ → State
handle_safe_changed_threshold s m threshold = elim (get m.address s.master_safes) [
  | none ↦ s
  | some ms ↦ record s {
    master_safes =
        set m.address
          (record ms { threshold = threshold; last_activity_timestamp = m.block_timestamp })
          s.master_safes;
  }
]
