-- ===== src/Pearl/Execution/ReadOnly.antt =====
-- squids/pearl-transactions/src/handlers.ts, `handleSafeExecutionSuccess`: the tracked-address table
-- is only read.
use autonolas_subgraph.Prelude.{
  ◌≡◌, refl, ◌∙◌, Option, none, some, List, [], ◌∷◌, arith, Option-cases, inl, inr,
}
use autonolas_subgraph.Pearl.Model.{Address, Meta}
use autonolas_subgraph.Pearl.State.{State, Chain}
use autonolas_subgraph.Pearl.Ledger.{add_to_agent_funding_event}
use autonolas_subgraph.Pearl.Execution.{
  NativeLeg, Call, Tx, write_leg, write_agent_signer_leg, write_agent_signer_legs,
  write_optional_legs, execute_master, execute_agent, execute_call, handle_safe_execution_success,
}

leg-same :
    (chain : Chain) (s : State) (m : Meta) (leg : NativeLeg)
    → (write_agent_signer_leg chain s m leg).tracked ≡ s.tracked
unfolding write_agent_signer_leg write_leg add_to_agent_funding_event
leg-same chain s m leg = ground arith

pub legs-same :
    (chain : Chain) (s : State) (m : Meta) (legs : List NativeLeg)
    → (write_agent_signer_legs chain s m legs).tracked ≡ s.tracked
unfolding write_agent_signer_legs
legs-same chain s m [] = refl
legs-same chain s m (leg ∷ legs) =
    legs-same chain (write_agent_signer_leg chain s m leg) m legs ∙ leg-same chain s m leg

pub optional_legs-same :
    (chain : Chain) (s : State) (m : Meta) (legs : Option (List NativeLeg))
    → (write_optional_legs chain s m legs).tracked ≡ s.tracked
optional_legs-same chain s m none = refl
optional_legs-same chain s m (some legs) = legs-same chain s m legs

pub call-same :
    (multisend : Address) (chain : Chain) (s : State) (m : Meta) (signer : Address) (c : Call)
    → (execute_call multisend chain s m signer c).tracked ≡ s.tracked
unfolding execute_call execute_master execute_agent
call-same multisend chain s m signer c = ground (
  arith,
  legs-same chain s m (record { index = 0; to = c.to; value = c.value } ∷ []),
  optional_legs-same chain s m c.legs,
)

pub execution-same :
    (multisend : Address) (chain : Chain) (s : State) (m : Meta) (tx : Tx)
    → (handle_safe_execution_success multisend chain s m tx).tracked ≡ s.tracked
unfolding handle_safe_execution_success
execution-same multisend chain s m tx = elim (Option-cases tx.call) [
  | inl undecoded ↦ rw (undecoded, handle_safe_execution_success) (ground arith)
  | inr (c, decoded) ↦
      rw (decoded, handle_safe_execution_success)
        (ground (arith, call-same multisend chain s m tx.from c))
]
