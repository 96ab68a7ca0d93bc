-- ===== src/Pearl/Transfer/Sides.antt =====
-- squids/pearl-transactions/src/handlers.ts, `handleTransfer`: which sides of a transfer
-- its category books.
use autonolas_subgraph.Prelude.{◌≡◌, refl, ◌&&◌, ◌||◌, Bool, false, not, Option, none, some, arith}
use autonolas_subgraph.Prelude.Equality.{nat_eq, pair_eq}
use autonolas_subgraph.Pearl.Model.{
  Address, Role, Category, role_of, is_master, is_agent, is_agent_eoa, is_none,
}
use autonolas_subgraph.Pearl.Classify.{Input, Class, classify_transfer, is_bond_leg}
use autonolas_subgraph.Pearl.State.{Chain}
use autonolas_subgraph.Pearl.Transfer.{retag, is_credit, is_debit, is_master_to_agent}

-- The sender's side is booked if it is a tracked Safe and the transfer is no leg of a bond, except
-- where the sender is at once a Master Safe and the service registry.
abbrev pub debits_sender : Input → Bool
debits_sender i =
    let from_role = role_of i.from_tracked in
    not (is_bond_leg i)
    && (is_agent from_role
        || is_master from_role
          && not (is_master (role_of i.to_tracked) && i.from_is_service_registry))

-- The recipient's side is booked if the transfer is no leg of a bond and the recipient is a Master
-- Safe (but for dust from the registry), an Agent Safe that is not paid by an Agent Safe, or an
-- agent's EOA that a Master Safe funds.
abbrev pub credits_recipient : Input → Bool
credits_recipient i =
    let from_role = role_of i.from_tracked in
    let to_role = role_of i.to_tracked in
    not (is_bond_leg i)
    && (is_master to_role && (is_agent from_role || not i.from_is_service_registry)
        || is_agent to_role && not (is_agent from_role)
        || is_agent_eoa to_role && is_master from_role)

-- What the updates do for one category: no side is booked twice.
pub record Sides (i : Input) (category : Category) (sender_too : Bool) : Type 0 where
  pub credit : (is_credit category || is_master_to_agent category) ≡ credits_recipient i
  pub credit_once : (is_credit category && is_master_to_agent category) ≡ false
  pub debit : (is_debit category || sender_too) ≡ debits_sender i
  pub debit_once : (is_debit category && sender_too) ≡ false

module _ (chain : Chain) (token : Option Address) (i : Input) where
  -- One role of the sender at a time.
  Sides-at :
      (r : Option Role) (c : Class)
      → role_of i.from_tracked ≡ r
      → classify_transfer i ≡ some c
      → Sides i (retag chain token c.category) (not (is_none c.sender_master_id))
  unfolding classify_transfer retag is_credit is_debit
  Sides-at (some Role.master) c p e = record {
    credit = ground arith;
    credit_once = ground arith;
    debit = ground arith;
    debit_once = ground arith;
  }
  Sides-at r c p e = record {
    credit = ground arith;
    credit_once = ground arith;
    debit = ground arith;
    debit_once = ground arith;
  }

  pub classify-Sides :
      (c : Class)
      → classify_transfer i ≡ some c
      → Sides i (retag chain token c.category) (not (is_none c.sender_master_id))
  classify-Sides c e = Sides-at (role_of i.from_tracked) c refl e

  -- A transfer with no row books no side.
  pub classify-no_sides :
      classify_transfer i ≡ none → (credits_recipient i ≡ false) × (debits_sender i ≡ false)
  unfolding classify_transfer
  classify-no_sides e = (ground arith, ground arith)
