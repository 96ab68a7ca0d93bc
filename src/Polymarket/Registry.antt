-- ===== src/Polymarket/Registry.antt =====
-- squids/predict-polymarket/src/handlers.ts: the agents and their wallets, and the markets' conditions,
-- tokens, questions and texts. A text comes as ancillary.ts reads it.
use autonolas_subgraph.Prelude.{
  ℕ, ◌+◌, Bool, true, false, not, Option, none, some, List, [], ◌∷◌, ◌==◌, if◌then◌else◌,
}
use autonolas_subgraph.Prelude.Int.{pos}
use autonolas_subgraph.Prelude.Equality.{nat_eq, pair_eq}
use autonolas_subgraph.Prelude.Table.{Table, get, set}
use autonolas_subgraph.Polymarket.State.{
  Address, ConditionId, Meta, State, TraderAgent, Question, TokenRegistry, get_global,
}
use autonolas_subgraph.Polymarket.PositionId.{HexText, decode_position_id}
use autonolas_subgraph.Polymarket.Trade.{is_none}

-- The addresses of constants.ts, and what the chain answers: the token of an outcome (`none` where
-- the call fails) and the condition that a new one was migrated from, 0 for none.
pub record Chain : Type 0 where
  pub neg_risk_adapter : Address
  pub usdc_e : Address
  pub pusd : Address
  pub router : Address
  pub derive_token_id : ConditionId → Address → ℕ → Option ℕ
  pub get_legacy_condition_id : HexText → ConditionId

abbrev pub predict_agent_id : ℕ
predict_agent_id = 86

-- What ancillary.ts finds in the bytes of an event.
pub record MarketText : Type 0 where
  pub raw : ℕ
  pub title : ℕ
  pub outcomes : List ℕ

abbrev pub binary_module_id : ℕ
binary_module_id = 1

unfoldable pub handle_register_instance : State → Meta → Address → ℕ → ℕ → State
handle_register_instance s m instance_address service_id agent_id =
    if not (agent_id == predict_agent_id) then s else record s {
      instances =
          set instance_address
            (record {
              service_id = service_id;
              block_number = m.block_number;
              block_timestamp = m.block_timestamp;
              transaction_hash = m.transaction_hash;
            })
            s.instances;
      services =
          if is_none (get service_id s.services)
          then set service_id none s.services
          else s.services;
    }

unfoldable pub new_agent : ℕ → Meta → TraderAgent
new_agent service_id m = record {
  service_id = service_id;
  first_participation = none;
  last_active = none;
  total_bets = 0;
  total_traded = pos 0;
  total_traded_settled = pos 0;
  total_payout = pos 0;
  total_expected_payout = pos 0;
  created = m;
}

-- An agent is made once, and counted then.
unfoldable pub add_agent : State → Meta → ℕ → Address → State
add_agent s m service_id multisig = elim (get multisig s.agents) [
  | some _ ↦ s
  | none ↦
      let g = get_global s in
      record s {
        agents = set multisig (new_agent service_id m) s.agents;
        totals = some (record g { total_trader_agents = g.total_trader_agents + 1 });
      }
]

unfoldable pub handle_create_multisig_with_agents : State → Meta → ℕ → Address → State
handle_create_multisig_with_agents s m service_id multisig = elim (get service_id s.services) [
  | none ↦ s
  | some _ ↦
      add_agent (record s { services = set service_id (some multisig) s.services }) m service_id
        multisig
]

-- `traderService?.multisig`
abbrev pub multisig_of : Option (Option Address) → Option Address
multisig_of none = none
multisig_of (some multisig) = multisig

unfoldable pub add_wallet : State → Meta → Address → Address → Address → State
add_wallet s m wallet owner multisig =
    if is_none (get multisig s.agents)
    then s
    else if not (is_none (get wallet s.wallets))
    then s
    else record s {
      wallets =
          set wallet
            (record {
              trader_agent = multisig;
              agent_instance = owner;
              block_number = m.block_number;
              block_timestamp = m.block_timestamp;
              transaction_hash = m.transaction_hash;
            })
            s.wallets;
    }

unfoldable pub handle_wallet_deployed : State → Meta → Address → Address → State
handle_wallet_deployed s m wallet owner = elim (get owner s.instances) [
  | none ↦ s
  | some link ↦ elim (multisig_of (get link.service_id s.services)) [
    | none ↦ s
    | some multisig ↦ add_wallet s m wallet owner multisig
  ]
]

unfoldable pub token_row : Meta → ConditionId → ℕ → TokenRegistry
token_row m condition outcome = record {
  condition_id = condition;
  outcome_index = outcome;
  transaction_hash = m.transaction_hash;
}

-- One round of the loop over the two outcomes: a token that is known stays as it is.
unfoldable pub add_token :
    Table ℕ TokenRegistry → Meta → ConditionId → Option ℕ → ℕ → Table ℕ TokenRegistry
add_token tokens m condition none outcome = tokens
add_token tokens m condition (some token) outcome =
    if is_none (get token tokens) then set token (token_row m condition outcome) tokens else tokens

unfoldable pub handle_condition_preparation :
    Chain → State → Meta → ConditionId → Address → ℕ → ℕ → State
handle_condition_preparation chain s m condition oracle question_id outcome_slot_count =
    let collateral =
      if oracle == chain.neg_risk_adapter then chain.neg_risk_adapter else chain.usdc_e in
    let first = add_token s.tokens m condition (chain.derive_token_id condition collateral 1) 0 in
    if not (outcome_slot_count == 2)
    then s
    else if not (is_none (get question_id s.bridges))
    then s
    else record s {
      bridges =
          set question_id
            (record {
              condition_id = condition;
              oracle = oracle;
              transaction_hash = m.transaction_hash;
            })
            s.bridges;
      tokens = add_token first m condition (chain.derive_token_id condition collateral 2) 1;
    }

unfoldable pub question_row : Meta → ℕ → ℕ → Bool → Option ℕ → Question
question_row m question_id metadata is_neg_risk market_id = record {
  question_id = question_id;
  is_neg_risk = is_neg_risk;
  market_id = market_id;
  metadata = metadata;
  block_number = m.block_number;
  block_timestamp = m.block_timestamp;
  transaction_hash = m.transaction_hash;
}

-- The question of a condition, and its text under the question's own id.
unfoldable pub add_question :
    State → Meta → ConditionId → ℕ → MarketText → List ℕ → Bool → Option ℕ → State
add_question s m condition question_id text outcomes is_neg_risk market_id = record s {
  metadata =
      set question_id
        (record { title = text.title; outcomes = outcomes; raw_ancillary_data = text.raw })
        s.metadata;
  questions =
      set condition (question_row m question_id question_id is_neg_risk market_id) s.questions;
}

unfoldable pub handle_question_initialization : State → Meta → ℕ → MarketText → State
handle_question_initialization s m question_id text = elim text.outcomes [
  | [] ↦ s
  | first ∷ others ↦ elim (get question_id s.bridges) [
    | none ↦ s
    | some bridge ↦
        add_question s m bridge.condition_id question_id text (first ∷ others) false none
  ]
]

-- The outcomes of a NegRisk market are "Yes" and "No", here 1 and 2.
abbrev pub yes_or_no : List ℕ
yes_or_no = 1 ∷ 2 ∷ []

unfoldable pub handle_question_prepared : State → Meta → ℕ → ℕ → MarketText → State
handle_question_prepared s m question_id market_id text = elim (get question_id s.bridges) [
  | none ↦ s
  | some bridge ↦
      add_question s m bridge.condition_id question_id text yes_or_no true (some market_id)
]

unfoldable pub handle_request_registered : State → ℕ → MarketText → State
handle_request_registered s request_id rules =
    if not ((decode_position_id request_id).module_id == binary_module_id) then s else record s {
      metadata =
          set request_id
            (record {
              title = rules.title;
              outcomes = rules.outcomes;
              raw_ancillary_data = rules.raw;
            })
            s.metadata;
    }

unfoldable pub handle_token_registered : State → Meta → ℕ → ℕ → ConditionId → State
handle_token_registered s m token0 token1 condition =
    if not (is_none (get token0 s.tokens)) then s else record s {
      tokens = set token1 (token_row m condition 1) (set token0 (token_row m condition 0) s.tokens);
    }
