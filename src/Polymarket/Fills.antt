-- ===== src/Polymarket/Fills.antt =====
-- squids/predict-polymarket/src/handlers.ts: the fills of an exchange's orders.
use autonolas_subgraph.Prelude.{
  ℕ, ◌+◌, ◌-◌, ◌||◌, Bool, false, not, Option, none, some, [], ltb, ◌==◌, if◌then◌else◌,
}
use autonolas_subgraph.Prelude.Int.{ℤ, pos, ◌+ℤ◌, neg_ℤ}
use autonolas_subgraph.Prelude.Equality.{nat_eq, pair_eq}
use autonolas_subgraph.Prelude.Table.{get, set}
use autonolas_subgraph.Polymarket.Brier.{compute_implied_probability}
use autonolas_subgraph.Polymarket.State.{
  Address, ConditionId, Meta, State, TraderAgent, Bet, DailyProfitStatistic, daily_id,
  get_daily_profit_statistic,
}
use autonolas_subgraph.Polymarket.Trade.{is_none, process_trade_activity}
use autonolas_subgraph.Polymarket.PositionId.{HexText, key_of, decode_position_id, pad_condition_id}
use autonolas_subgraph.Polymarket.Registry.{Chain, binary_module_id, question_row}

-- `OrderFill`, an unset fee as 0.
pub record OrderFill : Type 0 where
  pub maker : Address
  pub is_buying : Bool
  pub outcome_token_id : ℕ
  pub maker_amount_filled : ℕ
  pub taker_amount_filled : ℕ
  pub fee : ℕ
  pub builder : Option ℕ
  pub metadata : Option ℕ

-- The agent with its id: the maker's Safe, or the owner of the maker's wallet.
unfoldable pub with_id : Address → Option TraderAgent → Option (Address × TraderAgent)
with_id id none = none
with_id id (some agent) = some (id, agent)

unfoldable pub resolve_maker_agent : State → Address → Option (Address × TraderAgent)
resolve_maker_agent s maker = elim (get maker s.agents) [
  | some agent ↦ some (maker, agent)
  | none ↦ elim (get maker s.wallets) [
    | none ↦ none
    | some wallet ↦ with_id wallet.trader_agent (get wallet.trader_agent s.agents)
  ]
]

-- A sale's fee comes out of its proceeds, and no more than these.
unfoldable pub sell_fee : OrderFill → ℕ
sell_fee p = if ltb p.fee p.taker_amount_filled then p.fee else p.taker_amount_filled

unfoldable pub usdc_amount : OrderFill → ℤ
usdc_amount p =
    if p.is_buying
    then pos (p.maker_amount_filled + p.fee)
    else neg_ℤ (pos (p.taker_amount_filled - sell_fee p))

unfoldable pub shares_amount : OrderFill → ℤ
shares_amount p =
    if p.is_buying then pos p.taker_amount_filled else neg_ℤ (pos p.maker_amount_filled)

-- `question ?? null`, as the id.
abbrev pub question_id_of {ℓ} : {A : Type ℓ} → ConditionId → Option A → Option ConditionId
question_id_of condition none = none
question_id_of condition (some _) = some condition

unfoldable pub bet_row : Meta → Address → OrderFill → Option ConditionId → ℕ → Option Address → Bet
bet_row m agent p question outcome_index collateral = record {
  bettor = agent;
  outcome_index = outcome_index;
  amount = usdc_amount p;
  shares = shares_amount p;
  is_buy = p.is_buying;
  implied_probability = compute_implied_probability (usdc_amount p) (shares_amount p);
  counted_in_total = false;
  counted_in_profit = false;
  question = question;
  market_participant = none;
  daily_statistic = daily_id agent m.block_timestamp;
  builder = p.builder;
  metadata = p.metadata;
  collateral = collateral;
  block_timestamp = m.block_timestamp;
  transaction_hash = m.transaction_hash;
}

unfoldable pub bet_statistic : DailyProfitStatistic → ℤ → DailyProfitStatistic
bet_statistic d amount = record d {
  total_bets = d.total_bets + 1;
  total_traded = d.total_traded +ℤ amount;
}

-- The bet is tied to the agent's part of the market once that is there.
unfoldable pub tie_bet : State → Meta → Address × ConditionId → Bet → State
tie_bet s m id bet = elim (get id s.participants) [
  | none ↦ s
  | some _ ↦ record s {
    bets =
        set (m.transaction_hash, m.log_index) (record bet { market_participant = some id }) s.bets;
  }
]

unfoldable pub record_bet :
    State → Meta → Address → TraderAgent → OrderFill → ConditionId → ℕ → Option Address → State
record_bet s m id agent p condition outcome_index collateral =
    let d = bet_statistic (get_daily_profit_statistic s id m.block_timestamp) (usdc_amount p) in
    let question = question_id_of condition (get condition s.questions) in
    let bet = bet_row m id p question outcome_index collateral in
    let written : State = record s {
      daily = set (daily_id id m.block_timestamp) d s.daily;
      bets = set (m.transaction_hash, m.log_index) bet s.bets;
    } in
    tie_bet
      (process_trade_activity written id agent condition question (usdc_amount p) outcome_index
        (shares_amount p) m)
      m (id, condition) bet

-- A fill on a CTF exchange.
unfoldable pub handle_order_fill : State → Meta → OrderFill → State
handle_order_fill s m p = elim (resolve_maker_agent s p.maker) [
  | none ↦ s
  | some (id, agent) ↦ elim (get p.outcome_token_id s.tokens) [
    | none ↦ s
    | some token ↦ record_bet s m id agent p token.condition_id token.outcome_index none
  ]
]

-- The text of the market that the condition was migrated from, by the id of its row.
unfoldable pub migrated_market_metadata : Chain → State → HexText → Option ℕ
migrated_market_metadata chain s condition =
    let legacy = chain.get_legacy_condition_id condition in
    if legacy == 0 then none else elim (get legacy s.questions) [
      | none ↦ none
      | some question ↦ elim (get question.question_id s.metadata) [
        | none ↦ none
        | some _ ↦ some question.question_id
      ]
    ]

-- The id of the text's row, and the rows with it: the market's own, the migrated one's, or an empty
-- one that is made now.
unfoldable pub market_metadata : Chain → State → HexText → ℕ × State
market_metadata chain s condition =
    let id = key_of (pad_condition_id condition) in
    elim (get id s.metadata) [
      | some _ ↦ (id, s)
      | none ↦ elim (migrated_market_metadata chain s condition) [
        | some migrated ↦ (migrated, s)
        | none ↦ (
          id,
          record s {
            metadata =
                set id (record { title = 0; outcomes = []; raw_ancillary_data = 0 }) s.metadata;
          },
        )
      ]
    ]

unfoldable pub ensure_binary_question : Chain → State → Meta → HexText → State
ensure_binary_question chain s m condition =
    let id = key_of (pad_condition_id condition) in
    if not (is_none (get id s.questions))
    then s
    else let (text, s1) = market_metadata chain s condition in
      record s1 { questions = set id (question_row m id text false none) s1.questions }

-- A fill on the order book of the second protocol: the position names the condition.
unfoldable pub handle_position_fill : Chain → State → Meta → OrderFill → State
handle_position_fill chain s m p = elim (resolve_maker_agent s p.maker) [
  | none ↦ s
  | some (id, agent) ↦
      let position = decode_position_id p.outcome_token_id in
      if not (position.module_id == binary_module_id) || ltb 1 position.outcome_index
      then s
      else record_bet (ensure_binary_question chain s m position.condition_id) m id agent p
          (key_of (pad_condition_id position.condition_id)) position.outcome_index (some chain.pusd)
]
