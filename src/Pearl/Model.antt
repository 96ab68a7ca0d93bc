-- ===== src/Pearl/Model.antt =====
-- squids/pearl-transactions/src/logic.ts and constants.ts: roles, categories, tracked addresses and
-- the metadata of a log. Addresses, hashes and service ids are numbers: the code only compares them.
use autonolas_subgraph.Prelude.{ℕ, Bool, true, false, Option, none, some}

abbrev pub Address : Type 0
Address = ℕ

abbrev pub Hash : Type 0
Hash = ℕ

abbrev pub zero_address : Address
zero_address = 0

-- `Role` of constants.ts: what an address is to Pearl.
pub data Role : Type 0 where
  master master_eoa agent agent_eoa staking : Role

-- `FundsCategory`.
pub data Category : Type 0 where
  safe_deployed service_bond_deposit service_bond_refund staking_reward_claim : Category
  unstake_reward service_evicted safe_setup_transfer master_funding_in : Category
  master_withdrawal master_to_agent agent_to_master agent_olas_to_master : Category
  agent_to_app app_to_agent agent_safe_to_agent_eoa other : Category

-- `TrackedInfo`: a row of the tracked-address table.
pub record Tracked : Type 0 where
  pub id : Address
  pub role : Role
  pub master_safe_id : Option Address
  pub service_id : Option ℕ

-- `EventMeta`.
pub record Meta : Type 0 where
  pub block_number : ℕ
  pub block_timestamp : ℕ
  pub tx_hash : Hash
  pub log_index : ℕ
  pub address : Address

-- `t?.role ?? ""`.
abbrev pub role_of : Option Tracked → Option Role
role_of none = none
role_of (some t) = some t.role

abbrev pub is_master : Option Role → Bool
is_master (some Role.master) = true
is_master _ = false

abbrev pub is_master_eoa : Option Role → Bool
is_master_eoa (some Role.master_eoa) = true
is_master_eoa _ = false

abbrev pub is_agent : Option Role → Bool
is_agent (some Role.agent) = true
is_agent _ = false

abbrev pub is_agent_eoa : Option Role → Bool
is_agent_eoa (some Role.agent_eoa) = true
is_agent_eoa _ = false

abbrev pub is_staking : Option Role → Bool
is_staking (some Role.staking) = true
is_staking _ = false

abbrev pub is_none {ℓ} : {A : Type ℓ} → Option A → Bool
is_none none = true
is_none (some _) = false

-- The fields of a row that may be missing: `t!.id` and the like, under a test that it is there.
abbrev pub id_of : Option Tracked → Option Address
id_of none = none
id_of (some t) = some t.id

abbrev pub master_of : Option Tracked → Option Address
master_of none = none
master_of (some t) = t.master_safe_id

abbrev pub service_of : Option Tracked → Option ℕ
service_of none = none
service_of (some t) = t.service_id

-- `a ?? b`.
abbrev pub or_else {ℓ} : {A : Type ℓ} → Option A → Option A → Option A
or_else none b = b
or_else (some a) _ = some a
