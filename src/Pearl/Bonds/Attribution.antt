-- ===== src/Pearl/Bonds/Attribution.antt =====
-- squids/pearl-transactions/src/handlers.ts: the balance effect of a bond, booked once, and the
-- service that its row is given.
use autonolas_subgraph.Prelude.{
  ℕ, ◌≡◌, ◌≢◌, refl, sym, ap, subst, ◌∙◌, not, ◌&&◌, Bool, true, false, Option, none, some, List,
  [], ◌∷◌, ◌++◌, arith, ◌==◌, if◌then◌else◌,
}
use autonolas_subgraph.Prelude.Equality.{nat_eq, pair_eq}
use autonolas_subgraph.Prelude.Int.{ℤ, pos, ◌+ℤ◌, ◌-ℤ◌, neg_ℤ, int_laws}
use autonolas_subgraph.Prelude.Table.{get, set, get-set_self}
use autonolas_subgraph.Pearl.Model.{Address, Role, Category, Tracked, Meta, is_none, or_else}
use autonolas_subgraph.Pearl.Classify.{classify_transfer-none_iff, is_bond_leg}
use autonolas_subgraph.Pearl.BondQueue.{BondId, dequeue}
use autonolas_subgraph.Pearl.BondQueue.Fifo.{waiting, waiting-enqueue, waiting-dequeue, rest, head?}
use autonolas_subgraph.Pearl.State.{State, Chain, Service, BondType, BondMovement}
use autonolas_subgraph.Pearl.Ledger.{
  get_or_create_token, upsert_token_balance, balance_of, upsert_token_balance-delta,
}
use autonolas_subgraph.Pearl.Transfer.{input_of, handle_transfer}
use autonolas_subgraph.Pearl.Bonds.{
  tracked_master_id, book_bond, bond_row, attributed, attribute_bond, dequeue_and_attribute,
  handle_token_deposit, handle_activate_registration,
}

book_bond-balances :
    (chain : Chain) (s : State) (m : Meta) (row : BondMovement) (master : Option Address)
    (account token : Address) (x : ℤ) (k t : Address)
    → balance_of (book_bond chain s m row master account token x) k t
      ≡ balance_of s k t
        +ℤ (if not (is_none master) && (account == k && token == t) then x else pos 0)
unfolding book_bond
book_bond-balances chain s m row none account token x k t = omega int_laws
book_bond-balances chain s m row (some a) account token x k t =
    upsert_token_balance-delta chain (record s { bonds = set (m.tx_hash, m.log_index) row s.bonds })
      account token x m k t

suppressed :
    (chain : Chain) (s : State) (m : Meta) (account : Address) (amount : ℕ) (token : Option Address)
    (safe : Tracked)
    → get account s.tracked ≡ some safe
    → safe.role ≡ Role.master
    → handle_transfer chain s m account chain.srtu amount token ≡ s
unfolding handle_transfer input_of
suppressed chain s m account amount token safe found role =
    let leg : is_bond_leg (input_of chain s account chain.srtu) ≡ true = ground arith in
    let dropped =
      (classify_transfer-none_iff (input_of chain s account chain.srtu)).1 (ground arith) in
    rw (dropped, handle_transfer) refl

debit_arith :
    (b : ℤ) (n : ℕ) (here : Bool)
    → b +ℤ (if here then neg_ℤ (pos n) else pos 0) ≡ b -ℤ (if here then pos n else pos 0)
debit_arith b n true = omega int_laws
debit_arith b n false = omega int_laws

-- For a tracked Master Safe with a Master Safe id: after the raw transfer of a bond from it to the
-- token utility contract and the deposit event of the bond, its balance in the token is less by the
-- amount, once, and every other balance is as before.
pub deposit_books_once :
    (chain : Chain) (s : State) (m m' : Meta) (account token : Address) (amount : ℕ) (k t : Address)
    (safe : Tracked)
    → get account s.tracked ≡ some safe
    → safe.role ≡ Role.master
    → safe.master_safe_id ≢ none
    → let s1 = handle_transfer chain s m account chain.srtu amount (some token) in
      balance_of (handle_token_deposit chain s1 m' account token amount) k t
      ≡ balance_of s k t -ℤ (if account == k && token == t then pos amount else pos 0)
unfolding handle_token_deposit tracked_master_id
deposit_books_once chain s m m' account token amount k t safe found role owned =
    let same = suppressed chain s m account amount (some token) safe found role in
    let master = tracked_master_id s account in
    let row = bond_row m' Category.service_bond_deposit token amount account m'.address master in
    let booked : not (is_none master) ≡ true = ground arith in
    rw same (
      book_bond-balances chain s m' row master account token (neg_ℤ (pos amount)) k t
      ∙ rw booked (debit_arith (balance_of s k t) amount (account == k && token == t)))

-- What a registry event makes of a row, column by column: the type of the bond always, the service only
-- where it has a row, its Master Safe where the row has none, its Agent Safe where it has one.
abbrev pub stamped : BondMovement → ℕ → Option Service → BondType → BondMovement
stamped row id known type = record row {
  bond_type = some type;
  service = elim known [ none ↦ row.service | some _ ↦ some id ];
  master_safe = or_else row.master_safe (elim known [ none ↦ none | some v ↦ v.master_safe ]);
  agent_safe = or_else (elim known [ none ↦ none | some v ↦ v.agent_safe ]) row.agent_safe;
}

or_else-none : (o : Option Address) → or_else o none ≡ o
or_else-none none = refl
or_else-none (some a) = refl

attributed-stamped :
    (row : BondMovement) (id : ℕ) (known : Option Service) (type : BondType)
    → attributed row id known type ≡ stamped row id known type
unfolding attributed
attributed-stamped row id none type =
    ap (λ o. record row { bond_type = some type; master_safe = o })
      (sym (or_else-none row.master_safe))
attributed-stamped row id (some v) type = refl

-- The oldest waiting row of the transaction leaves the queue and gets the type of the event, and where
-- the service has a row, the service, its Master Safe if the row names none, and its Agent Safe if it
-- has one. Every other column of the row is as before.
pub dequeue_and_attribute_lem :
    (s : State) (m : Meta) (service : ℕ) (type : BondType) (id : BondId) (later : List BondId)
    (row : BondMovement)
    → waiting m.tx_hash s.bond_queue ≡ id ∷ later
    → get id s.bonds ≡ some row
    → let s' = dequeue_and_attribute s m service type in
      (get id s'.bonds ≡ some (stamped row service (get service s.services) type))
      × (waiting m.tx_hash s'.bond_queue ≡ later)
unfolding dequeue_and_attribute attribute_bond
dequeue_and_attribute_lem s m service type id later row queued found =
    let (first, left, _, _) = waiting-dequeue m.tx_hash m.tx_hash s.bond_queue in
    let at : (dequeue m.tx_hash s.bond_queue).0 ≡ some id = first ∙ ap head? queued in
    (
      rw (at, attribute_bond)
          (rw (found, attribute_bond)
            (get-set_self id (attributed row service (get service s.services) type) s.bonds
              ∙ ap some (attributed-stamped row service (get service s.services) type))),
      rw (at, attribute_bond) (rw (found, attribute_bond) (left ∙ ap rest queued)),
    )

-- Booking a balance leaves the bonds, the queue and the services alone.
upsert-others :
    (chain : Chain) (s : State) (safe token : Address) (x : ℤ) (m : Meta) (d : Bool)
    → let s' = upsert_token_balance chain s safe token x m d in
      (s'.bonds ≡ s.bonds) × (s'.bond_queue ≡ s.bond_queue) × (s'.services ≡ s.services)
unfolding upsert_token_balance get_or_create_token
upsert-others chain s safe token x m d = (ground arith, ground arith, ground arith)

book_bond-queues :
    (chain : Chain) (s : State) (m : Meta) (row : BondMovement) (master : Option Address)
    (account token : Address) (x : ℤ)
    → let s' = book_bond chain s m row master account token x in
      (waiting m.tx_hash s'.bond_queue
        ≡ waiting m.tx_hash s.bond_queue ++ (m.tx_hash, m.log_index) ∷ [])
      × (get (m.tx_hash, m.log_index) s'.bonds ≡ some row)
      × (s'.services ≡ s.services)
unfolding book_bond
book_bond-queues chain s m row none account token x = (
  (waiting-enqueue m.tx_hash m.tx_hash (m.tx_hash, m.log_index) s.bond_queue).0,
  get-set_self (m.tx_hash, m.log_index) row s.bonds,
  refl,
)
book_bond-queues chain s m row (some a) account token x =
    let id : BondId = (m.tx_hash, m.log_index) in
    let written : State = record s { bonds = set id row s.bonds } in
    let (bonds, queue, services) = upsert-others chain written account token x m true in
    (
      (waiting-enqueue m.tx_hash m.tx_hash id _).0 ∙ ap (λ q. waiting m.tx_hash q ++ id ∷ []) queue,
      ap (get id) bonds ∙ get-set_self id row s.bonds,
      services,
    )

-- In a transaction with no bond row waiting, a deposit and then the activation of a service that has a
-- row: the deposit's row names the service, its Agent Safe, the Master Safe of the depositor or else
-- that of the service, and the security deposit as its type, with the account, the amount and the token
-- of the deposit, and nothing waits any more.
pub deposit_then_activate :
    (chain : Chain) (s : State) (m m' : Meta) (account token : Address) (amount service : ℕ)
    (v : Service)
    → m'.tx_hash ≡ m.tx_hash
    → waiting m.tx_hash s.bond_queue ≡ []
    → get service s.services ≡ some v
    → let s1 = handle_token_deposit chain s m account token amount in
      let s2 = handle_activate_registration s1 m' service in
      (get (m.tx_hash, m.log_index) s2.bonds
        ≡ some (record {
          category = Category.service_bond_deposit;
          token = token;
          amount = amount;
          from = account;
          to = m.address;
          master_safe = or_else (tracked_master_id s account) v.master_safe;
          service = some service;
          agent_safe = v.agent_safe;
          bond_type = some BondType.security_deposit;
          block_number = m.block_number;
          block_timestamp = m.block_timestamp;
          transaction_hash = m.tx_hash;
        }))
      × (waiting m.tx_hash s2.bond_queue ≡ [])
unfolding handle_token_deposit handle_activate_registration bond_row
deposit_then_activate chain s m m' account token amount service v same fresh known =
    let master = tracked_master_id s account in
    let row = bond_row m Category.service_bond_deposit token amount account m.address master in
    let type = BondType.security_deposit in
    let s1 = book_bond chain s m row master account token (neg_ℤ (pos amount)) in
    let (queued, found, services) =
      book_bond-queues chain s m row master account token (neg_ℤ (pos amount)) in
    let one : waiting m'.tx_hash s1.bond_queue ≡ (m.tx_hash, m.log_index) ∷ [] =
      rw same (queued ∙ ap (λ l. l ++ (m.tx_hash, m.log_index) ∷ []) fresh) in
    let done =
      dequeue_and_attribute_lem s1 m' service type (m.tx_hash, m.log_index) [] row one found in
    (
      done.0
          ∙ ap (λ t. some (stamped row service (get service t) type)) services
          ∙ ap (λ o. some (stamped row service o type)) known
          ∙ ap (λ a. some (record (stamped row service (some v) type) { agent_safe = a }))
              (or_else-none v.agent_safe),
      subst (λ tx. waiting tx (dequeue_and_attribute s1 m' service type).bond_queue ≡ []) same
          done.1,
    )
