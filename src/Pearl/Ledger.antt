-- ===== src/Pearl/Ledger.antt =====
-- squids/pearl-transactions/src/handlers.ts: `getOrCreateToken`, `upsertTokenBalance` and
-- `addToAgentFundingEvent`, the rows that hold sums of amounts.
use autonolas_subgraph.Prelude.{
  ℕ, ◌+◌, ◌≡◌, refl, ◌&&◌, ◌||◌, Bool, true, Option, none, some, arith, ◌==◌, Bool-cases, inl, inr,
  if◌then◌else◌,
}
use autonolas_subgraph.Prelude.Equality.{nat_eq, pair_eq}
use autonolas_subgraph.Prelude.Int.{ℤ, pos, ◌+ℤ◌, int_laws}
use autonolas_subgraph.Prelude.Table.{get, set, value_at, value_at-set}
use autonolas_subgraph.Pearl.Model.{Address, Hash, Meta}
use autonolas_subgraph.Pearl.State.{
  State, Chain, Symbol, Token, TokenBalance, AgentFundingEvent, olas_symbol, unknown_symbol,
}

-- `knownTokenSymbol`
pub known_token_symbol : Chain → Address → Option Symbol
known_token_symbol chain address =
    if address == chain.olas
    then some olas_symbol
    else if address == chain.wrapped_native
    then some chain.wrapped_native_symbol
    else get address chain.stablecoins

-- The row of a new token: 18 decimals for OLAS and the wrapped native token, 6 for any other.
pub new_token : Chain → Option Symbol → Token
new_token chain none = record { symbol = unknown_symbol; decimals = 6 }
new_token chain (some symbol) = record {
  symbol = symbol;
  decimals = if symbol == olas_symbol || symbol == chain.wrapped_native_symbol then 18 else 6;
}

unfoldable pub get_or_create_token : Chain → State → Address → State
get_or_create_token chain s address = elim (get address s.tokens) [
  | some _ ↦ s
  | none ↦ record s {
    tokens = set address (new_token chain (known_token_symbol chain address)) s.tokens;
  }
]

-- The row that `upsertTokenBalance` writes: a first row holds the amount itself.
pub balance_row : Option TokenBalance → ℤ → Meta → Bool → TokenBalance
balance_row none amount m is_delta = record {
  balance = amount;
  last_updated_timestamp = m.block_timestamp;
  last_updated_block = m.block_number;
}
balance_row (some b) amount m is_delta = record {
  balance = if is_delta then b.balance +ℤ amount else amount;
  last_updated_timestamp = m.block_timestamp;
  last_updated_block = m.block_number;
}

-- The token's row is made only with the first balance in it.
unfoldable pub upsert_token_balance : Chain → State → Address → Address → ℤ → Meta → Bool → State
upsert_token_balance chain s safe token amount m is_delta =
    let old = get (safe, token) s.token_balances in
    let row = balance_row old amount m is_delta in
    let s' : State = elim old [ none ↦ get_or_create_token chain s token | some _ ↦ s ] in
    record s' { token_balances = set (safe, token) row s'.token_balances }

-- `agentFundingEventId`
abbrev pub funding_id : Hash → Address → ℕ → Hash × (Address × ℕ)
funding_id tx master service = (tx, (master, service))

pub or_funding_event : Option AgentFundingEvent → Meta → AgentFundingEvent
or_funding_event none m = record {
  block_timestamp = m.block_timestamp;
  total_native_amount = 0;
  total_olas_amount = 0;
}
or_funding_event (some e) m = e

-- `token` is `none` for the native currency.
pub add_leg : Chain → Option Address → ℕ → AgentFundingEvent → AgentFundingEvent
add_leg chain none amount e = record e { total_native_amount = e.total_native_amount + amount }
add_leg chain (some token) amount e =
    if token == chain.olas then record e { total_olas_amount = e.total_olas_amount + amount } else e

unfoldable pub add_to_agent_funding_event :
    Chain → State → Meta → Address → ℕ → Option Address → ℕ → State
add_to_agent_funding_event chain s m master service token amount =
    let id = funding_id m.tx_hash master service in
    let e = or_funding_event (get id s.funding_events) m in
    record s { funding_events = set id (add_leg chain token amount e) s.funding_events }

-- The recorded balance of a Safe in a token, 0 if it has no row.
abbrev pub balance_of : State → Address → Address → ℤ
balance_of s safe token = value_at (λ b. b.balance) (get (safe, token) s.token_balances)

token_balances-get_or_create_token :
    (chain : Chain) (s : State) (token : Address)
    → (get_or_create_token chain s token).token_balances ≡ s.token_balances
unfolding get_or_create_token
token_balances-get_or_create_token chain s token = ground arith

-- The balances table after a write: the row is stored, whether or not the token was new.
token_balances-upsert :
    (chain : Chain) (s : State) (safe token : Address) (amount : ℤ) (m : Meta) (is_delta : Bool)
    → (upsert_token_balance chain s safe token amount m is_delta).token_balances
      ≡ set
          (safe, token)
          (balance_row (get (safe, token) s.token_balances) amount m is_delta)
          s.token_balances
unfolding upsert_token_balance
token_balances-upsert chain s safe token amount m is_delta =
    ground (arith, token_balances-get_or_create_token chain s token)

balance_row-delta :
    (old : Option TokenBalance) (amount : ℤ) (m : Meta)
    → (balance_row old amount m true).balance ≡ value_at (λ b. b.balance) old +ℤ amount
unfolding balance_row value_at
balance_row-delta none amount m = omega int_laws
balance_row-delta (some b) amount m = refl

-- A signed delta moves the one balance by its amount, whether or not it had a row before.
pub upsert_token_balance-delta :
    (chain : Chain) (s : State) (safe token : Address) (amount : ℤ) (m : Meta) (k t : Address)
    → balance_of (upsert_token_balance chain s safe token amount m true) k t
      ≡ balance_of s k t +ℤ (if safe == k && token == t then amount else pos 0)
upsert_token_balance-delta chain s safe token amount m k t =
    let old = get (safe, token) s.token_balances in
    rw token_balances-upsert (
      rw value_at-set (
        rw balance_row-delta (elim (Bool-cases (safe == k && token == t)) [
          | inl here ↦
              let place : (safe ≡ k) × (token ≡ t) = (ground arith, ground arith) in
              rw here (rw (place.0, place.1) refl)
          | inr there ↦ rw there (omega int_laws)
        ])))
