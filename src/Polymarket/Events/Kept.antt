-- ===== src/Polymarket/Events/Kept.antt =====
-- squids/predict-polymarket/src/handlers.ts and main.ts: what a batch of logs keeps, from what its
-- steps keep.
use autonolas_subgraph.Prelude.{
  ℕ, ◌≡◌, refl, ◌∙◌, ap, Bool, not, ◌||◌, Option, none, some, List, [], ◌∷◌, ltb, ◌==◌,
  Option-cases, Bool-cases, inl, inr,
}
use autonolas_subgraph.Prelude.Int.{ℤ}
use autonolas_subgraph.Prelude.Equality.{nat_eq, pair_eq}
use autonolas_subgraph.Prelude.Table.{get, set}
use autonolas_subgraph.Polymarket.State.{Address, ConditionId, Meta, State, TraderAgent}
use autonolas_subgraph.Polymarket.Trade.{is_none}
use autonolas_subgraph.Polymarket.PositionId.{HexText, key_of, decode_position_id, pad_condition_id}
use autonolas_subgraph.Polymarket.Registry.{
  Chain, add_agent, binary_module_id, handle_register_instance, handle_create_multisig_with_agents,
  handle_wallet_deployed, handle_condition_preparation, handle_question_initialization,
  handle_question_prepared, handle_request_registered, handle_token_registered,
}
use autonolas_subgraph.Polymarket.Fills.{
  OrderFill, resolve_maker_agent, record_bet, handle_order_fill, ensure_binary_question,
  handle_position_fill,
}
use autonolas_subgraph.Polymarket.Results.{
  handle_question_resolution, handle_outcome_reported, handle_condition_resolved,
  handle_position_redeemed,
}
use autonolas_subgraph.Polymarket.Events.{Event, handle, run}
use autonolas_subgraph.Polymarket.Resolution.{Verdict, process_market_resolution}
use autonolas_subgraph.Polymarket.Redemption.{process_redemption}
use autonolas_subgraph.Polymarket.Events.SameBooks.{
  IsSameBooks, register-same, wallet-same, condition-same, initialization-same, prepared-same,
  request-same, token-same, binary-same, resolve_maker_agent-stored,
}

-- What each step that writes to the accounts or to the results keeps.
pub record IsKept (P : State → Type 0) : Type 0 where
  pub same : (s t : State) → IsSameBooks s t → P s → P t
  pub agent_added :
      (s : State) (m : Meta) (service : ℕ) (multisig : Address)
      → P s
      → P (add_agent s m service multisig)
  pub bet_recorded :
      (s : State) (m : Meta) (id : Address) (agent : TraderAgent) (p : OrderFill)
      (condition : ConditionId) (index : ℕ) (collateral : Option Address)
      → get id s.agents ≡ some agent
      → P s
      → P (record_bet s m id agent p condition index collateral)
  pub market_resolved :
      (s : State) (condition : ConditionId) (v : Verdict) (m : Meta)
      → P s
      → P (process_market_resolution s condition v m)
  pub payout_claimed :
      (s : State) (id : Address) (condition : ConditionId) (amount : ℕ) (m : Meta)
      → P s
      → P (process_redemption s id condition amount m)

module _ (P : State → Type 0) (kept : IsKept P) where
  multisig-kept :
      (s : State) (m : Meta) (service : ℕ) (multisig : Address)
      → P s
      → P (handle_create_multisig_with_agents s m service multisig)
  unfolding handle_create_multisig_with_agents
  multisig-kept s m service multisig h = elim (Option-cases (get service s.services)) [
    | inl unknown ↦ rw (unknown, handle_create_multisig_with_agents) h
    | inr (t, known) ↦
        let named : State = record s { services = set service (some multisig) s.services } in
        rw (known, handle_create_multisig_with_agents)
          (kept.agent_added named m service multisig
            (kept.same s named (refl, refl, refl, refl, refl, refl) h))
  ]

  order_fill-kept : (s : State) (m : Meta) (p : OrderFill) → P s → P (handle_order_fill s m p)
  unfolding handle_order_fill
  order_fill-kept s m p h = elim (Option-cases (resolve_maker_agent s p.maker)) [
    | inl unknown ↦ rw (unknown, handle_order_fill) h
    | inr ((id, agent), known) ↦ elim (Option-cases (get p.outcome_token_id s.tokens)) [
      | inl no_token ↦ rw (known, handle_order_fill) (rw (no_token, handle_order_fill) h)
      | inr (token, listed) ↦
          rw (known, handle_order_fill)
            (rw (listed, handle_order_fill)
              (kept.bet_recorded s m id agent p token.condition_id token.outcome_index none
                (resolve_maker_agent-stored s p.maker id agent known) h))
    ]
  ]

  position_fill-kept :
      (chain : Chain) (s : State) (m : Meta) (p : OrderFill)
      → P s
      → P (handle_position_fill chain s m p)
  unfolding handle_position_fill
  position_fill-kept chain s m p h = elim (Option-cases (resolve_maker_agent s p.maker)) [
    | inl unknown ↦ rw (unknown, handle_position_fill) h
    | inr ((id, agent), known) ↦
        let position = decode_position_id p.outcome_token_id in
        let same = binary-same chain s m position.condition_id in
        elim (Bool-cases
          (not (position.module_id == binary_module_id) || ltb 1 position.outcome_index)) [
            | inl other ↦ rw (known, handle_position_fill) (rw (other, handle_position_fill) h)
            | inr binary ↦
                rw (known, handle_position_fill)
                  (rw (binary, handle_position_fill)
                    (kept.bet_recorded (ensure_binary_question chain s m position.condition_id) m id
                      agent p (key_of (pad_condition_id position.condition_id))
                      position.outcome_index (some chain.pusd)
                      (ap (get id) same.1 ∙ resolve_maker_agent-stored s p.maker id agent known)
                      (kept.same s (ensure_binary_question chain s m position.condition_id) same
                        h)))
          ]
  ]

  question_resolution-kept :
      (s : State) (m : Meta) (question : ℕ) (price : ℤ) (payouts : List ℕ)
      → P s
      → P (handle_question_resolution s m question price payouts)
  unfolding handle_question_resolution
  question_resolution-kept s m question price payouts h =
      elim (Option-cases (get question s.bridges)) [
        | inl unknown ↦ rw (unknown, handle_question_resolution) h
        | inr (bridge, known) ↦
            rw (known, handle_question_resolution)
              (kept.market_resolved s bridge.condition_id _ m h)
      ]

  outcome_reported-kept :
      (s : State) (m : Meta) (question : ℕ) (is_yes : Bool)
      → P s
      → P (handle_outcome_reported s m question is_yes)
  unfolding handle_outcome_reported
  outcome_reported-kept s m question is_yes h = elim (Option-cases (get question s.bridges)) [
    | inl unknown ↦ rw (unknown, handle_outcome_reported) h
    | inr (bridge, known) ↦
        rw (known, handle_outcome_reported) (kept.market_resolved s bridge.condition_id _ m h)
  ]

  condition_resolved-kept :
      (s : State) (m : Meta) (condition : HexText) (result : List ℕ)
      → P s
      → P (handle_condition_resolved s m condition result)
  unfolding handle_condition_resolved
  condition_resolved-kept s m condition result h =
      kept.market_resolved s (key_of (pad_condition_id condition)) _ m h

  position_redeemed-kept :
      (chain : Chain) (s : State) (m : Meta) (initiator : Address) (position_id : ℕ)
      (recipient : Address) (payout : ℕ)
      → P s
      → P (handle_position_redeemed chain s m initiator position_id recipient payout)
  unfolding handle_position_redeemed
  position_redeemed-kept chain s m initiator position_id recipient payout h =
      let condition = key_of (pad_condition_id (decode_position_id position_id).condition_id) in
      elim (Bool-cases (initiator == chain.router)) [
        | inr direct ↦ rw (direct, handle_position_redeemed) h
        | inl routed ↦ elim (Option-cases (resolve_maker_agent s recipient)) [
          | inl unknown ↦
              rw (routed, handle_position_redeemed) (rw (unknown, handle_position_redeemed) h)
          | inr ((id, agent), known) ↦ elim (Bool-cases (is_none (get condition s.resolutions))) [
            | inl early ↦
                rw (routed, handle_position_redeemed)
                  (rw (known, handle_position_redeemed) (rw (early, handle_position_redeemed) h))
            | inr late ↦
                rw (routed, handle_position_redeemed)
                  (rw (known, handle_position_redeemed)
                    (rw (late, handle_position_redeemed)
                      (kept.payout_claimed s id condition payout m h)))
          ]
        ]
      ]

  module _ (chain : Chain) where
    pub handle-kept : (s : State) (m : Meta) (e : Event) → P s → P (handle chain s m e)
    unfolding handle
    handle-kept s m (Event.register_instance a service agent) h =
        kept.same s (handle_register_instance s m a service agent)
          (register-same s m a service agent) h
    handle-kept s m (Event.create_multisig_with_agents service multisig) h =
        multisig-kept s m service multisig h
    handle-kept s m (Event.wallet_deployed wallet owner) h =
        kept.same s (handle_wallet_deployed s m wallet owner) (wallet-same s m wallet owner) h
    handle-kept s m (Event.condition_preparation condition oracle question slots) h =
        kept.same s (handle_condition_preparation chain s m condition oracle question slots)
          (condition-same chain s m condition oracle question slots) h
    handle-kept s m (Event.payout_redemption redeemer condition payout) h =
        kept.payout_claimed s redeemer condition payout m h
    handle-kept s m (Event.question_initialized question text) h =
        kept.same s (handle_question_initialization s m question text)
          (initialization-same s m question text) h
    handle-kept s m (Event.question_resolved question price payouts) h =
        question_resolution-kept s m question price payouts h
    handle-kept s m (Event.question_prepared question market text) h =
        kept.same s (handle_question_prepared s m question market text)
          (prepared-same s m question market text) h
    handle-kept s m (Event.outcome_reported question outcome) h =
        outcome_reported-kept s m question outcome h
    handle-kept s m (Event.order_filled p) h = order_fill-kept s m p h
    handle-kept s m (Event.position_filled p) h = position_fill-kept chain s m p h
    handle-kept s m (Event.token_registered token0 token1 condition) h =
        kept.same s (handle_token_registered s m token0 token1 condition)
          (token-same s m token0 token1 condition) h
    handle-kept s m (Event.condition_resolved condition result) h =
        condition_resolved-kept s m condition result h
    handle-kept s m (Event.position_redeemed initiator position recipient payout) h =
        position_redeemed-kept chain s m initiator position recipient payout h
    handle-kept s m (Event.request_registered request rules) h =
        kept.same s (handle_request_registered s request rules) (request-same s request rules) h

    pub run-kept : (logs : List (Meta × Event)) (s : State) → P s → P (run chain logs s)
    unfolding run
    run-kept [] s h = h
    run-kept ((m, e) ∷ logs) s h = run-kept logs (handle chain s m e) (handle-kept s m e h)
