-- ===== src/Polymarket/Events/SameBooks.antt =====
-- squids/predict-polymarket/src/handlers.ts: the handlers that leave the accounts and the results alone.
use autonolas_subgraph.Prelude.{ℕ, ◌≡◌, some, arith}
use autonolas_subgraph.Prelude.Equality.{nat_eq, pair_eq}
use autonolas_subgraph.Prelude.Table.{get}
use autonolas_subgraph.Polymarket.PositionId.{HexText}
use autonolas_subgraph.Polymarket.State.{Address, Meta, State, TraderAgent}
use autonolas_subgraph.Polymarket.Registry.{
  Chain, MarketText, add_wallet, add_question, handle_register_instance, handle_wallet_deployed,
  handle_condition_preparation, handle_question_initialization, handle_question_prepared,
  handle_request_registered, handle_token_registered,
}
use autonolas_subgraph.Polymarket.Fills.{
  with_id, resolve_maker_agent, market_metadata, ensure_binary_question,
}

-- The rows of the accounts and of the results are the same.
abbrev pub IsSameBooks : State → State → Type 0
IsSameBooks s t =
    (t.totals ≡ s.totals)
    × (t.agents ≡ s.agents)
    × (t.participants ≡ s.participants)
    × (t.daily ≡ s.daily)
    × (t.bets ≡ s.bets)
    × (t.resolutions ≡ s.resolutions)

pub register-same :
    (s : State) (m : Meta) (a service agent : ℕ)
    → IsSameBooks s (handle_register_instance s m a service agent)
unfolding handle_register_instance
register-same s m a service agent = ground arith

pub wallet-same :
    (s : State) (m : Meta) (wallet owner : ℕ)
    → IsSameBooks s (handle_wallet_deployed s m wallet owner)
unfolding handle_wallet_deployed add_wallet
wallet-same s m wallet owner = ground arith

pub condition-same :
    (chain : Chain) (s : State) (m : Meta) (condition oracle question slots : ℕ)
    → IsSameBooks s (handle_condition_preparation chain s m condition oracle question slots)
unfolding handle_condition_preparation
condition-same chain s m condition oracle question slots = ground arith

pub initialization-same :
    (s : State) (m : Meta) (question : ℕ) (text : MarketText)
    → IsSameBooks s (handle_question_initialization s m question text)
unfolding handle_question_initialization add_question
initialization-same s m question text = ground arith

pub prepared-same :
    (s : State) (m : Meta) (question market : ℕ) (text : MarketText)
    → IsSameBooks s (handle_question_prepared s m question market text)
unfolding handle_question_prepared add_question
prepared-same s m question market text = ground arith

pub request-same :
    (s : State) (id : ℕ) (rules : MarketText) → IsSameBooks s (handle_request_registered s id rules)
unfolding handle_request_registered
request-same s id rules = ground arith

pub token-same :
    (s : State) (m : Meta) (token0 token1 condition : ℕ)
    → IsSameBooks s (handle_token_registered s m token0 token1 condition)
unfolding handle_token_registered
token-same s m token0 token1 condition = ground arith

pub binary-same :
    (chain : Chain) (s : State) (m : Meta) (condition : HexText)
    → IsSameBooks s (ensure_binary_question chain s m condition)
unfolding ensure_binary_question market_metadata
binary-same chain s m condition = ground arith

-- The agent that a maker resolves to is stored under its id.
pub resolve_maker_agent-stored :
    (s : State) (maker id : Address) (agent : TraderAgent)
    → resolve_maker_agent s maker ≡ some (id, agent)
    → get id s.agents ≡ some agent
unfolding resolve_maker_agent with_id
resolve_maker_agent-stored s maker id agent = ground arith
