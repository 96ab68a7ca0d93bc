-- ===== src/Pearl/Events/Untouched.antt =====
-- squids/pearl-transactions/src/handlers.ts: the operations that leave the tracked-address table
-- as it is.
use autonolas_subgraph.Prelude.{
  ℕ, ◌≡◌, refl, ◌∙◌, Bool, true, false, Option, none, some, List, [], ◌∷◌, arith, if◌then◌else◌,
  Option-cases, inl, inr,
}
use autonolas_subgraph.Prelude.Int.{ℤ}
use autonolas_subgraph.Prelude.Equality.{nat_eq, pair_eq}
use autonolas_subgraph.Prelude.Table.{get}
use autonolas_subgraph.Pearl.Model.{Address, Category, Meta}
use autonolas_subgraph.Pearl.Classify.{Class, classify_transfer}
use autonolas_subgraph.Pearl.BondQueue.{BondId}
use autonolas_subgraph.Pearl.State.{State, Chain, BondMovement, BondType, BufferedAgentInstance}
use autonolas_subgraph.Pearl.Ledger.{
  get_or_create_token, upsert_token_balance, add_to_agent_funding_event,
}
use autonolas_subgraph.Pearl.Transfer.{
  mark_setup, fund_agent, book, book_token, record_movement, apply_class, handle_transfer, input_of,
}
use autonolas_subgraph.Pearl.Safes.{set_service}
use autonolas_subgraph.Pearl.Bonds.{book_bond, attribute_bond, dequeue_and_attribute}
use autonolas_subgraph.Pearl.Registry.{
  LogPosition, link_agent_instance, register_instance, link_buffered,
}

-- The operations that write no tracked row leave the table as it is.
token-same :
    (chain : Chain) (s : State) (token : Address)
    → (get_or_create_token chain s token).tracked ≡ s.tracked
unfolding get_or_create_token
token-same chain s token = ground arith

balance-same :
    (chain : Chain) (s : State) (safe token : Address) (x : ℤ) (m : Meta) (d : Bool)
    → (upsert_token_balance chain s safe token x m d).tracked ≡ s.tracked
unfolding upsert_token_balance
balance-same chain s safe token x m d = ground (arith, token-same chain s token)

balance_if-same :
    (chain : Chain) (s : State) (safe token : Address) (x : ℤ) (m : Meta) (b : Bool)
    → (if b then upsert_token_balance chain s safe token x m true else s).tracked ≡ s.tracked
balance_if-same chain s safe token x m true = balance-same chain s safe token x m true
balance_if-same chain s safe token x m false = refl

book-same :
    (chain : Chain) (s : State) (m : Meta) (c : Category) (b : Bool) (from to : Address) (n : ℕ)
    (token : Address)
    → (book chain s m c b from to n token).tracked ≡ s.tracked
unfolding book
book-same chain s m c b from to n token =
    rw balance_if-same (rw balance_if-same (rw balance_if-same (rw balance_if-same refl)))

book_token-same :
    (chain : Chain) (s : State) (m : Meta) (c : Category) (b : Bool) (from to : Address) (n : ℕ)
    (token : Option Address)
    → (book_token chain s m c b from to n token).tracked ≡ s.tracked
book_token-same chain s m c b from to n none = refl
book_token-same chain s m c b from to n (some token) = book-same chain s m c b from to n token

record-same :
    (chain : Chain) (s : State) (m : Meta) (c : Class) (category : Category) (from to : Address)
    (n : ℕ) (token : Option Address)
    → (record_movement chain s m c category from to n token).tracked ≡ s.tracked
unfolding record_movement mark_setup fund_agent add_to_agent_funding_event
record-same chain s m c category from to n token = ground arith

pub transfer-same :
    (chain : Chain) (s : State) (m : Meta) (from to : Address) (n : ℕ) (token : Option Address)
    → (handle_transfer chain s m from to n token).tracked ≡ s.tracked
unfolding handle_transfer apply_class
transfer-same chain s m from to n token =
    elim (Option-cases (classify_transfer (input_of chain s from to))) [
      | inl dropped ↦ rw (dropped, handle_transfer) refl
      | inr (c, e) ↦
          rw (e, handle_transfer, book_token-same) (record-same chain s m c _ from to n token)
    ]

pub attribute-same :
    (s : State) (id : Option BondId) (service : ℕ) (type : BondType)
    → (attribute_bond s id service type).tracked ≡ s.tracked
unfolding attribute_bond
attribute-same s id service type = ground arith

pub dequeue-same :
    (s : State) (m : Meta) (service : ℕ) (type : BondType)
    → (dequeue_and_attribute s m service type).tracked ≡ s.tracked
unfolding dequeue_and_attribute
dequeue-same s m service type = rw attribute-same refl

pub book_bond-same :
    (chain : Chain) (s : State) (m : Meta) (row : BondMovement) (master : Option Address)
    (account token : Address) (x : ℤ)
    → (book_bond chain s m row master account token x).tracked ≡ s.tracked
unfolding book_bond
book_bond-same chain s m row none account token x = refl
book_bond-same chain s m row (some a) account token x = rw balance-same refl

link-same :
    (s : State) (a : Address) (service : ℕ) (p : LogPosition)
    → (link_agent_instance s a service p).tracked ≡ s.tracked
unfolding link_agent_instance
link-same s a service p = ground arith

pub link_buffered-same :
    (s : State) (id : ℕ) (l : List BufferedAgentInstance)
    → (link_buffered s id l).tracked ≡ s.tracked
unfolding link_buffered
link_buffered-same s id [] = refl
link_buffered-same s id (b ∷ l) =
    let at : LogPosition = record { block = b.block; log_index = b.log_index } in
    link_buffered-same (link_agent_instance s b.signer id at) id l ∙ link-same s b.signer id at

pub register-same :
    (s : State) (m : Meta) (id agent : ℕ) (operator signer : Address)
    → (register_instance s m id agent operator signer).tracked ≡ s.tracked
unfolding register_instance set_service
register-same s m id agent operator signer = elim (Option-cases (get id s.services)) [
  | inl new ↦ rw (new, register_instance) refl
  | inr (service, old) ↦ rw (old, register_instance, link-same) refl
]
