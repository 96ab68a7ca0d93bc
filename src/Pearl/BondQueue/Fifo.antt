-- ===== src/Pearl/BondQueue/Fifo.antt =====
-- squids/pearl-transactions/src/logic.ts, `BondQueue`: the queue implements one first-in first-out
-- list of ids for each transaction.
use autonolas_subgraph.Prelude.{
  ℕ, ◌≡◌, ◌≢◌, refl, sym, false, Option, none, some, List, [], ◌∷◌, ◌++◌, if◌then◌else◌, arith,
  Option-cases, inl, inr,
}
use autonolas_subgraph.Prelude.Equality.{nat_eq, pair_eq}
use autonolas_subgraph.Prelude.Table.{get, set, get-set, get-set_self, get-set_ne}
use autonolas_subgraph.Pearl.BondQueue.{
  BondId, Entry, BondQueue, enqueue, take_first, dequeue, dequeue_agent_bond_once,
}

-- The ids that wait in a list of entries, oldest first.
abbrev pub undone : List Entry → List BondId
undone [] = []
undone (entry ∷ l) = if entry.done then undone l else entry.bond_movement_id ∷ undone l

abbrev pub undone_rows : Option (List Entry) → List BondId
undone_rows none = []
undone_rows (some l) = undone l

-- The abstract queue of a transaction.
abbrev pub waiting : ℕ → BondQueue → List BondId
waiting tx q = undone_rows (get tx q.rows)

abbrev pub head? : List BondId → Option BondId
head? [] = none
head? (x ∷ _) = some x

abbrev pub rest : List BondId → List BondId
rest [] = []
rest (_ ∷ l) = l

undone-append :
    (l : List Entry) (id : BondId)
    → undone (l ++ record { bond_movement_id = id; done = false } ∷ []) ≡ undone l ++ id ∷ []
undone-append [] id = refl
undone-append (entry ∷ l) id = ground (arith, undone-append l id)

undone-take_first :
    (l : List Entry)
    → ((take_first l).0 ≡ head? (undone l)) × (undone (take_first l).1 ≡ rest (undone l))
unfolding take_first
undone-take_first [] = (refl, refl)
undone-take_first (entry ∷ l) = ground (arith, undone-take_first l)

-- Enqueueing appends the id to the queue of its transaction, and leaves every other transaction's
-- queue and the guard alone.
pub waiting-enqueue :
    (tx other : ℕ) (id : BondId) (q : BondQueue)
    → (waiting tx (enqueue tx id q) ≡ waiting tx q ++ id ∷ [])
      × (other ≢ tx → waiting other (enqueue tx id q) ≡ waiting other q)
      × ((enqueue tx id q).agent_bond_guard ≡ q.agent_bond_guard)
unfolding enqueue
waiting-enqueue tx other id q = elim (Option-cases (get tx q.rows)) [
  | inl new ↦
      rw (new, enqueue)
        (rw get-set_self refl, λ h. rw (get-set_ne tx other _ q.rows (λ e. h (sym e))) refl, refl)
  | inr (l, old) ↦
      rw (old, enqueue)
        (
          rw get-set_self (undone-append l id),
          λ h. rw (get-set_ne tx other _ q.rows (λ e. h (sym e))) refl,
          refl,
        )
]

-- Dequeueing returns the oldest waiting id of its transaction, `none` if nothing waits, removes it,
-- and leaves every other transaction's queue and the guard alone.
pub waiting-dequeue :
    (tx other : ℕ) (q : BondQueue)
    → ((dequeue tx q).0 ≡ head? (waiting tx q))
      × (waiting tx (dequeue tx q).1 ≡ rest (waiting tx q))
      × (other ≢ tx → waiting other (dequeue tx q).1 ≡ waiting other q)
      × ((dequeue tx q).1.agent_bond_guard ≡ q.agent_bond_guard)
unfolding dequeue
waiting-dequeue tx other q = elim (Option-cases (get tx q.rows)) [
  | inl new ↦ rw (new, dequeue) (refl, rw new refl, λ h. refl, refl)
  | inr (l, old) ↦
      rw (old, dequeue)
        (
          (undone-take_first l).0,
          rw get-set_self (undone-take_first l).1,
          λ h. rw (get-set_ne tx other _ q.rows (λ e. h (sym e))) refl,
          refl,
        )
]

guarded :
    (tx service : ℕ) (q : BondQueue)
    → get (tx, service) q.agent_bond_guard ≡ some tt
    → dequeue_agent_bond_once tx service q ≡ (none, q)
unfolding dequeue_agent_bond_once
guarded tx service q h = rw (h, dequeue_agent_bond_once)

guard-dequeue :
    (tx service : ℕ) (q : BondQueue)
    → get (tx, service) (dequeue_agent_bond_once tx service q).1.agent_bond_guard ≡ some tt
unfolding dequeue_agent_bond_once
guard-dequeue tx service q = elim (Option-cases (get (tx, service) q.agent_bond_guard)) [
  | inl new ↦
      let q' : BondQueue = record q {
        agent_bond_guard = set (tx, service) tt q.agent_bond_guard;
      } in
      let kept = (waiting-dequeue tx tx q').3 in
      rw (new, dequeue_agent_bond_once) (rw kept (get-set_self (tx, service) tt q.agent_bond_guard))
  | inr (_, old) ↦ rw (old, dequeue_agent_bond_once) old
]

-- What a handler does to the queue within a batch.
pub data QueueCall : Type 0 where
  enqueue_call : ℕ → BondId → QueueCall
  dequeue_call : ℕ → QueueCall
  agent_bond_call : ℕ → ℕ → QueueCall

abbrev pub after_call : QueueCall → BondQueue → BondQueue
after_call (enqueue_call tx id) q = enqueue tx id q
after_call (dequeue_call tx) q = (dequeue tx q).1
after_call (agent_bond_call tx service) q = (dequeue_agent_bond_once tx service q).1

abbrev pub after_calls : List QueueCall → BondQueue → BondQueue
after_calls [] q = q
after_calls (call ∷ calls) q = after_calls calls (after_call call q)

-- No call takes a pair out of the guard.
guard-agent_bond :
    (tx service tx' service' : ℕ) (q : BondQueue)
    → get (tx, service) q.agent_bond_guard ≡ some tt
    → get (tx, service) (dequeue_agent_bond_once tx' service' q).1.agent_bond_guard ≡ some tt
unfolding dequeue_agent_bond_once
guard-agent_bond tx service tx' service' q h =
    elim (Option-cases (get (tx', service') q.agent_bond_guard)) [
      | inl new ↦
          let guard = set (tx', service') tt q.agent_bond_guard in
          let kept = (waiting-dequeue tx' tx' (record q { agent_bond_guard = guard })).3 in
          rw (new, dequeue_agent_bond_once)
            (rw kept (ground (arith, get-set (tx', service') (tx, service) tt q.agent_bond_guard)))
      | inr (_, old) ↦ rw (old, dequeue_agent_bond_once) h
    ]

guard-call :
    (tx service : ℕ) (call : QueueCall) (q : BondQueue)
    → get (tx, service) q.agent_bond_guard ≡ some tt
    → get (tx, service) (after_call call q).agent_bond_guard ≡ some tt
guard-call tx service (enqueue_call tx' id) q h = rw ((waiting-enqueue tx' tx' id q).2) h
guard-call tx service (dequeue_call tx') q h = rw ((waiting-dequeue tx' tx' q).3) h
guard-call tx service (agent_bond_call tx' service') q h =
    guard-agent_bond tx service tx' service' q h

guard-calls :
    (tx service : ℕ) (calls : List QueueCall) (q : BondQueue)
    → get (tx, service) q.agent_bond_guard ≡ some tt
    → get (tx, service) (after_calls calls q).agent_bond_guard ≡ some tt
guard-calls tx service [] q h = h
guard-calls tx service (call ∷ calls) q h =
    guard-calls tx service calls (after_call call q) (guard-call tx service call q h)

-- For one transaction and service, the first call yields the oldest waiting id and removes it. A later
-- call, after any enqueues and dequeues and any calls for whatever transaction and service, yields
-- nothing and changes nothing, as long as the queue is not cleared in between.
pub dequeue_agent_bond_once-once :
    (tx service : ℕ) (q : BondQueue) (calls : List QueueCall)
    → get (tx, service) q.agent_bond_guard ≡ none
    → let (found, q') = dequeue_agent_bond_once tx service q in
      (found ≡ head? (waiting tx q))
      × (waiting tx q' ≡ rest (waiting tx q))
      × (dequeue_agent_bond_once tx service (after_calls calls q') ≡ (none, after_calls calls q'))
dequeue_agent_bond_once-once tx service q calls new =
    let q1 : BondQueue = record q { agent_bond_guard = set (tx, service) tt q.agent_bond_guard } in
    let first = waiting-dequeue tx tx q1 in
    (
      unfold dequeue_agent_bond_once in rw (new, dequeue_agent_bond_once) first.0,
      unfold dequeue_agent_bond_once in rw (new, dequeue_agent_bond_once) first.1,
      guarded tx service _ (guard-calls tx service calls _ (guard-dequeue tx service q)),
    )
