-- ===== src/Pearl/BondQueue.antt =====
-- squids/pearl-transactions/src/logic.ts, `BondQueue`: the bond rows of a transaction that wait for
-- the registry event that names their service, oldest first.
pub mod Fifo
use autonolas_subgraph.Prelude.{
  ℕ, Bool, true, false, Option, none, some, List, [], ◌∷◌, ◌++◌, if◌then◌else◌,
}
use autonolas_subgraph.Prelude.Equality.{nat_eq, pair_eq}
use autonolas_subgraph.Prelude.Table.{Table, get, set}

-- The id of a BondMovement row: the event's transaction hash and log index.
abbrev pub BondId : Type 0
BondId = ℕ × ℕ

pub record Entry : Type 0 where
  pub bond_movement_id : BondId
  pub done : Bool

pub record BondQueue : Type 0 where
  pub rows : Table ℕ (List Entry)
  pub agent_bond_guard : Table (ℕ × ℕ) (Unit {0})

abbrev pub new : BondQueue
new = record { rows = []; agent_bond_guard = [] }

unfoldable pub enqueue : ℕ → BondId → BondQueue → BondQueue
enqueue tx id q =
    let entry : Entry = record { bond_movement_id = id; done = false } in
    elim (get tx q.rows) [
      | none ↦ record q { rows = set tx (entry ∷ []) q.rows }
      | some l ↦ record q { rows = set tx (l ++ entry ∷ []) q.rows }
    ]

-- The loop of `dequeue`: the first entry that is not done, and the list with it marked.
pub take_first : List Entry → Option BondId × List Entry
take_first [] = (none, [])
take_first (entry ∷ l) =
    let (found, l') = take_first l in
    if entry.done
    then (found, entry ∷ l')
    else (some entry.bond_movement_id, record entry { done = true } ∷ l)

pub dequeue : ℕ → BondQueue → Option BondId × BondQueue
dequeue tx q = elim (get tx q.rows) [
  | none ↦ (none, q)
  | some l ↦ let (found, l') = take_first l in (found, record q { rows = set tx l' q.rows })
]

pub dequeue_agent_bond_once : ℕ → ℕ → BondQueue → Option BondId × BondQueue
dequeue_agent_bond_once tx service q = elim (get (tx, service) q.agent_bond_guard) [
  | some _ ↦ (none, q)
  | none ↦ dequeue tx (record q { agent_bond_guard = set (tx, service) tt q.agent_bond_guard })
]

pub clear : BondQueue → BondQueue
clear q = record q { rows = []; agent_bond_guard = [] }
