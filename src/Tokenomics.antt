-- ===== src/Tokenomics.antt =====
-- squids/tokenomics/src/handlers.ts: the OLAS ledger, a supply and a holder count for the token, a
-- balance for each holder, and a row for each transfer.
pub mod Sums
pub mod Laws
pub mod Overdraft
mod Tests
use autonolas_subgraph.Prelude.{ℕ, List, [], ◌∷◌, ◌&&◌, Option, none, some, if◌then◌else◌, ◌==◌}
use autonolas_subgraph.Prelude.Equality.{nat_eq, pair_eq}
use autonolas_subgraph.Prelude.Int.{ℤ, pos, ◌+ℤ◌, ◌-ℤ◌, ltb_ℤ, eqb_ℤ}
use autonolas_subgraph.Prelude.Table.{Table, get, set}
use autonolas_subgraph.Prelude.Result.{Result, ok, throw, ◌>>=◌}

-- An address as a number. `ZERO_ADDRESS` is 0.
abbrev pub Address : Type 0
Address = ℕ

abbrev pub zero_address : Address
zero_address = 0

pub record Meta : Type 0 where
  pub block_number : ℕ
  pub block_timestamp : ℕ
  pub tx_hash : ℕ
  pub log_index : ℕ
  pub address : Address

-- The decoded `Transfer(from, to, amount)` log. The amount is a uint256.
pub record Params : Type 0 where
  pub from : Address
  pub to : Address
  pub amount : ℕ

pub record Token : Type 0 where
  pub balance : ℤ
  pub holder_count : ℤ

pub record TokenHolder : Type 0 where
  pub token : Address
  pub balance : ℤ

pub record Transfer : Type 0 where
  pub from : Address
  pub to : Address
  pub value : ℕ
  pub block_number : ℕ
  pub block_timestamp : ℕ
  pub transaction_hash : ℕ

pub record State : Type 0 where
  pub transfers : Table (ℕ × ℕ) Transfer
  pub tokens : Table Address Token
  pub holders : Table Address TokenHolder

-- The thrown "Token holder … balance would become negative at …".
pub data Error : Type 0 where
  negative_balance : Address → ℕ → Error

pub or_token : Option Token → Token
or_token none = record { balance = pos 0; holder_count = pos 0 }
or_token (some t) = t

pub or_holder : Address → Option TokenHolder → TokenHolder
or_holder token none = record { token = token; balance = pos 0 }
or_holder token (some h) = h

pub get_or_create_token : State → Address → Token
get_or_create_token s address = or_token (get address s.tokens)

pub get_or_create_holder : Table Address TokenHolder → Address → Address → TokenHolder
get_or_create_holder holders token address = or_holder token (get address holders)

-- The supply moves at a mint and at a burn.
pub move_supply : Params → Token → Token
move_supply p t =
    if p.from == zero_address
    then record t { balance = t.balance +ℤ pos p.amount }
    else if p.to == zero_address
    then record t { balance = t.balance -ℤ pos p.amount }
    else t

-- The sender's half of the handler, with the holder count that it leaves.
pub debit :
    Meta
    → Params
    → Table Address TokenHolder × Token
    → Result Error (Table Address TokenHolder × Token)
debit m p (holders, t) =
    let holder = get_or_create_holder holders m.address p.from in
    let left = holder.balance -ℤ pos p.amount in
    let emptied = ltb_ℤ (pos 0) holder.balance && eqb_ℤ left (pos 0) in
    if p.from == zero_address
    then ok (holders, t)
    else if ltb_ℤ left (pos 0)
    then throw (negative_balance p.from m.block_number)
    else ok (
      set p.from (record holder { balance = left }) holders,
      (if emptied then record t { holder_count = t.holder_count -ℤ pos 1 } else t),
    )

-- The recipient's half: the row is loaded after the sender's is saved.
pub credit : Meta → Params → Table Address TokenHolder × Token → Table Address TokenHolder × Token
credit m p (holders, t) =
    let holder = get_or_create_holder holders m.address p.to in
    let grown = holder.balance +ℤ pos p.amount in
    let opened = eqb_ℤ holder.balance (pos 0) && ltb_ℤ (pos 0) grown in
    if p.to == zero_address then (holders, t) else (
      set p.to (record holder { balance = grown }) holders,
      (if opened then record t { holder_count = t.holder_count +ℤ pos 1 } else t),
    )

pub transfer_row : Meta → Params → Transfer
transfer_row m p = record {
  from = p.from;
  to = p.to;
  value = p.amount;
  block_number = m.block_number;
  block_timestamp = m.block_timestamp;
  transaction_hash = m.tx_hash;
}

pub handle_transfer : State → Meta → Params → Result Error State
handle_transfer s m p = do
  debited ← debit m p (s.holders, move_supply p (get_or_create_token s m.address))
  let (holders, token) = credit m p debited
  ok (record {
    transfers = set (m.tx_hash, m.log_index) (transfer_row m p) s.transfers;
    tokens = set m.address token s.tokens;
    holders = holders;
  })

-- A batch of logs, in order.
pub run : List (Meta × Params) → State → Result Error State
run [] s = ok s
run ((m, p) ∷ logs) s = do s' ← handle_transfer s m p; run logs s'
