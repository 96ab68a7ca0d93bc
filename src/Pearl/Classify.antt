-- ===== src/Pearl/Classify.antt =====
-- squids/pearl-transactions/src/logic.ts, `classifyTransfer`: the category of a transfer between two
-- addresses, from what is tracked about them.
use autonolas_subgraph.Prelude.{
  ℕ, ◌≡◌, ◌↔◌, Bool, true, not, ◌&&◌, ◌||◌, Option, none, some, arith, if◌then◌else◌,
}
use autonolas_subgraph.Pearl.Model.{
  Address, Category, Tracked, role_of, is_master, is_master_eoa, is_agent, is_agent_eoa, is_staking,
  is_none, id_of, master_of, service_of, or_else,
}

-- `ClassifyInput`.
pub record Input : Type 0 where
  pub from_tracked : Option Tracked
  pub to_tracked : Option Tracked
  pub from_is_srtu : Bool
  pub to_is_srtu : Bool
  pub from_is_service_registry : Bool
  pub to_master_setup_transfer_seen : Bool

-- `ClassifyResult`.
pub record Class : Type 0 where
  pub category : Category
  pub service_id : Option ℕ
  pub master_safe_id : Option Address
  pub agent_safe_id : Option Address
  pub sender_master_id : Option Address

-- `result`
abbrev pub result : Category → Option ℕ → Option Address → Option Address → Class
result c service master agent = record {
  category = c;
  service_id = service;
  master_safe_id = master;
  agent_safe_id = agent;
  sender_master_id = none;
}

-- The branch for a recipient that is a Master Safe.
abbrev pub to_master : Input → Class
to_master i =
    let funding = result Category.master_funding_in none (id_of i.to_tracked) none in
    if i.from_is_service_registry
    then result Category.other none (id_of i.to_tracked) none
    else if is_master_eoa (role_of i.from_tracked) && not i.to_master_setup_transfer_seen
    then result Category.safe_setup_transfer none (id_of i.to_tracked) none
    else if is_master (role_of i.from_tracked)
    then record funding { sender_master_id = id_of i.from_tracked }
    else funding

-- The branches for a recipient that is no Master Safe.
abbrev pub not_to_master : Input → Class
not_to_master i =
    if is_master (role_of i.from_tracked)
    then result Category.master_withdrawal none (id_of i.from_tracked) none
    else if is_agent (role_of i.from_tracked)
    then result Category.agent_to_app (service_of i.from_tracked) (master_of i.from_tracked)
        (id_of i.from_tracked)
    else if is_agent (role_of i.to_tracked)
    then result Category.app_to_agent (service_of i.to_tracked) (master_of i.to_tracked)
        (id_of i.to_tracked)
    else result Category.other none (or_else (master_of i.from_tracked) (master_of i.to_tracked))
        none

unfoldable pub classify_transfer : Input → Option Class
classify_transfer i =
    let from_role = role_of i.from_tracked in
    let to_role = role_of i.to_tracked in
    if is_none i.from_tracked && is_none i.to_tracked && not i.from_is_srtu && not i.to_is_srtu
    then none
    else if is_master from_role && i.to_is_srtu
    then none
    else if i.from_is_srtu && is_master to_role
    then none
    else if is_master from_role && (is_agent to_role || is_agent_eoa to_role)
    then some (
        result Category.master_to_agent (service_of i.to_tracked) (master_of i.from_tracked)
          (if is_agent to_role then id_of i.to_tracked else none))
    else if is_agent from_role && is_master to_role
    then some (
        result Category.agent_to_master (service_of i.from_tracked) (id_of i.to_tracked)
          (id_of i.from_tracked))
    else if is_staking from_role && is_agent to_role
    then some (
        result Category.staking_reward_claim (service_of i.to_tracked) (master_of i.to_tracked)
          (id_of i.to_tracked))
    else if is_master to_role
    then some (to_master i)
    else some (not_to_master i)

-- `isStakingProxy`
pub is_staking_proxy : Option Tracked → Bool
is_staking_proxy t = not (is_none t) && is_staking (role_of t)

-- A leg of a bond: between a Master Safe and the token utility contract.
abbrev pub is_bond_leg : Input → Bool
is_bond_leg i =
    is_master (role_of i.from_tracked) && i.to_is_srtu
    || i.from_is_srtu && is_master (role_of i.to_tracked)

-- Neither side is tracked nor the token utility contract.
abbrev pub is_foreign : Input → Bool
is_foreign i =
    is_none i.from_tracked && is_none i.to_tracked && not i.from_is_srtu && not i.to_is_srtu

-- A transfer has no row exactly when it is foreign or the leg of a bond.
pub classify_transfer-none_iff :
    (i : Input) → (classify_transfer i ≡ none) ↔ ((is_foreign i || is_bond_leg i) ≡ true)
unfolding classify_transfer
classify_transfer-none_iff i = ground arith

-- The category of a transfer, if it has one.
abbrev pub category_of : Option Class → Option Category
category_of none = none
category_of (some class) = some class.category

-- What each category says of the two sides of a transfer, apart from the order of the tests: `c` is the
-- category, `none` where there is no row.
abbrev pub IsClassified : Input → Option Category → Type 0
IsClassified i c =
    let from = role_of i.from_tracked in
    let to = role_of i.to_tracked in
    let paid_in = is_master to && not i.from_is_srtu && not (is_master from && i.to_is_srtu) in
    let first = is_master_eoa from && not i.to_master_setup_transfer_seen in
    ((c ≡ some Category.master_to_agent)
      ↔ ((is_master from && not i.to_is_srtu && (is_agent to || is_agent_eoa to)) ≡ true))
    × ((c ≡ some Category.agent_to_master)
        ↔ ((is_agent from && is_master to && not i.from_is_srtu) ≡ true))
    × ((c ≡ some Category.staking_reward_claim) ↔ ((is_staking from && is_agent to) ≡ true))
    × ((c ≡ some Category.safe_setup_transfer)
        ↔ ((paid_in && first && not i.from_is_service_registry) ≡ true))
    × ((c ≡ some Category.master_funding_in)
        ↔ ((paid_in && not first && not (is_agent from) && not i.from_is_service_registry) ≡ true))
    × ((c ≡ some Category.master_withdrawal) ↔ (
        (is_master from && not i.to_is_srtu && not (is_master to || is_agent to || is_agent_eoa to))
        ≡ true))
    × ((c ≡ some Category.agent_to_app) ↔ ((is_agent from && not (is_master to)) ≡ true))
    × ((c ≡ some Category.app_to_agent)
        ↔ ((is_agent to && not (is_master from || is_agent from || is_staking from)) ≡ true))
    × ((c ≡ none) ↔ ((is_foreign i || is_bond_leg i) ≡ true))
