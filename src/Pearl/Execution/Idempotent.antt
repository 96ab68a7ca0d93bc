-- ===== src/Pearl/Execution/Idempotent.antt =====
-- squids/pearl-transactions/src/handlers.ts, `handleSafeExecutionSuccess`: a second event of the same
-- transaction reads the same outer call and writes nothing more.
use autonolas_subgraph.Prelude.{
  ℕ, ◌≡◌, refl, sym, ap, ◌∙◌, not, ◌&&◌, ◌||◌, Bool, true, false, Option, none, some, List, [], ◌∷◌,
  arith, if◌then◌else◌, Option-cases, Bool-cases, inl, inr,
}
use autonolas_subgraph.Prelude.Equality.{nat_eq, pair_eq}
use autonolas_subgraph.Prelude.Table.{get, get-set, get-set_self}
use autonolas_subgraph.Pearl.Model.{
  Address, Category, Tracked, Meta, is_none, role_of, service_of, master_of, id_of, is_master,
}
use autonolas_subgraph.Pearl.State.{
  State, Chain, AgentInstance, Service, MovementId, agent_signer_leg_id, agent_safe_top_up_id,
}
use autonolas_subgraph.Pearl.Ledger.{add_to_agent_funding_event, funding_id}
use autonolas_subgraph.Pearl.Execution.{
  NativeLeg, Call, Tx, is_address, native_row, write_leg, write_agent_signer_leg,
  write_agent_signer_legs, write_optional_legs, execute_master, execute_agent, execute_call,
  handle_safe_execution_success, is_plain_native, is_multi_send,
}
use autonolas_subgraph.Pearl.Execution.ReadOnly.{call-same}

abbrev skips_row : State → Meta → NativeLeg → Option Service → Bool
skips_row s m leg none = true
skips_row s m leg (some service) =
    not (is_address service.master_safe m.address)
    || not (is_none (get (agent_signer_leg_id m.tx_hash leg.index) s.movements))

abbrev skips_link : State → Meta → NativeLeg → Option AgentInstance → Bool
skips_link s m leg none = true
skips_link s m leg (some link) = skips_row s m leg (get link.service s.services)

-- Whether a leg is left alone: no Agent Signer of a service of the Safe, or its row is there.
abbrev skips : State → Meta → NativeLeg → Bool
skips s m leg = skips_link s m leg (get leg.to s.agent_instances)

module _ (chain : Chain) (m : Meta) where
  skipped :
      (s : State) (leg : NativeLeg)
      → skips s m leg ≡ true
      → write_agent_signer_leg chain s m leg ≡ s
  unfolding write_agent_signer_leg write_leg
  skipped s leg h = elim (Option-cases (get leg.to s.agent_instances)) [
    | inl none_there ↦ rw (none_there, write_agent_signer_leg) refl
    | inr (link, linked) ↦ elim (Option-cases (get link.service s.services)) [
      | inl gone ↦ rw (linked, write_agent_signer_leg) (rw (gone, write_agent_signer_leg) refl)
      | inr (service, found) ↦
          rw (linked, write_agent_signer_leg) (rw (found, write_agent_signer_leg) (ground arith))
    ]
  ]

module _ (chain : Chain) (m : Meta) where
  -- What a leg leaves alone.
  kept :
      (s : State) (leg : NativeLeg)
      → let s' = write_agent_signer_leg chain s m leg in
        (s'.agent_instances ≡ s.agent_instances) × (s'.services ≡ s.services)
  unfolding write_agent_signer_leg write_leg add_to_agent_funding_event
  kept s leg = (ground arith, ground arith)

  movements_kept :
      (s : State) (leg : NativeLeg) (id : MovementId)
      → is_none (get id s.movements) ≡ false
      → is_none (get id (write_agent_signer_leg chain s m leg).movements) ≡ false
  unfolding write_agent_signer_leg write_leg add_to_agent_funding_event
  movements_kept s leg id h = elim (Option-cases (get leg.to s.agent_instances)) [
    | inl none_there ↦ rw (none_there, write_agent_signer_leg) h
    | inr (link, linked) ↦ elim (Option-cases (get link.service s.services)) [
      | inl gone ↦ rw (linked, write_agent_signer_leg) (rw (gone, write_agent_signer_leg) h)
      | inr (service, found) ↦
          let row =
            native_row m Category.master_to_agent
              (some (funding_id m.tx_hash m.address link.service)) (some link.service)
              service.master_safe service.agent_safe leg.to leg.value in
          rw (linked, write_agent_signer_leg)
            (rw (found, write_agent_signer_leg)
              (ground
                (arith, get-set (agent_signer_leg_id m.tx_hash leg.index) id row s.movements)))
    ]
  ]

  skips_row-kept :
      (s : State) (leg other : NativeLeg) (o : Option Service)
      → skips_row s m leg o ≡ true
      → skips_row (write_agent_signer_leg chain s m other) m leg o ≡ true
  skips_row-kept s leg other none h = refl
  skips_row-kept s leg other (some service) h =
      ground (arith, movements_kept s other (agent_signer_leg_id m.tx_hash leg.index))

  -- A leg that is left alone stays so.
  skips-kept :
      (s : State) (leg other : NativeLeg)
      → skips s m leg ≡ true
      → skips (write_agent_signer_leg chain s m other) m leg ≡ true
  skips-kept s leg other h =
      let s' = write_agent_signer_leg chain s m other in
      elim (Option-cases (get leg.to s.agent_instances)) [
        | inl none_there ↦ rw ((kept s other).0, none_there) refl
        | inr (link, linked) ↦
            let h' : skips_row s m leg (get link.service s.services) ≡ true = rw linked at h in
            let now = skips_row-kept s leg other (get link.service s.services) h' in
            rw ((kept s other).0, linked)
              (ap (λ t. skips_row s' m leg (get link.service t)) (kept s other).1 ∙ now)
      ]

  -- Writing a leg to a known service of the Safe leaves its row.
  written :
      (s : State) (leg : NativeLeg)
      → skips s m leg ≡ false
      → is_none (
          get
            (agent_signer_leg_id m.tx_hash leg.index)
            (write_agent_signer_leg chain s m leg).movements)
        ≡ false
  unfolding write_agent_signer_leg write_leg
  written s leg h = elim (Option-cases (get leg.to s.agent_instances)) [
    | inl none_there ↦ absurd (ground arith)
    | inr (link, linked) ↦ elim (Option-cases (get link.service s.services)) [
      | inl gone ↦ absurd (ground arith)
      | inr (service, found) ↦
          let id = agent_signer_leg_id m.tx_hash leg.index in
          let row =
            native_row m Category.master_to_agent
              (some (funding_id m.tx_hash m.address link.service)) (some link.service)
              service.master_safe service.agent_safe leg.to leg.value in
          let s1 = add_to_agent_funding_event chain s m m.address link.service none leg.value in
          rw (linked, write_agent_signer_leg)
            (rw (found, write_agent_signer_leg) (ground (arith, get-set_self id row s1.movements)))
    ]
  ]

  skips_row-there :
      (s : State) (leg : NativeLeg) (o : Option Service)
      → is_none (get (agent_signer_leg_id m.tx_hash leg.index) s.movements) ≡ false
      → skips_row s m leg o ≡ true
  skips_row-there s leg none h = refl
  skips_row-there s leg (some service) h = ground arith

  skips_link-there :
      (s : State) (leg : NativeLeg) (o : Option AgentInstance)
      → is_none (get (agent_signer_leg_id m.tx_hash leg.index) s.movements) ≡ false
      → skips_link s m leg o ≡ true
  skips_link-there s leg none h = refl
  skips_link-there s leg (some link) h = skips_row-there s leg (get link.service s.services) h

  -- A leg that was written is left alone.
  skips_self :
      (s : State) (leg : NativeLeg) → skips (write_agent_signer_leg chain s m leg) m leg ≡ true
  skips_self s leg = elim (Bool-cases (skips s m leg)) [
    | inl before ↦ rw (skipped chain m s leg before) before
    | inr fresh ↦
        skips_link-there (write_agent_signer_leg chain s m leg) leg _ (written s leg fresh)
  ]

  legs-kept :
      (s : State) (leg : NativeLeg) (legs : List NativeLeg)
      → skips s m leg ≡ true
      → skips (write_agent_signer_legs chain s m legs) m leg ≡ true
  unfolding write_agent_signer_legs
  legs-kept s leg [] h = h
  legs-kept s leg (other ∷ legs) h =
      legs-kept (write_agent_signer_leg chain s m other) leg legs (skips-kept s leg other h)

  AllSkip : State → List NativeLeg → Type 0
  AllSkip s [] = Unit {0}
  AllSkip s (leg ∷ legs) = (skips s m leg ≡ true) × AllSkip s legs

  legs-AllSkip :
      (s : State) (legs : List NativeLeg) → AllSkip (write_agent_signer_legs chain s m legs) legs
  unfolding AllSkip write_agent_signer_legs
  legs-AllSkip s [] = tt
  legs-AllSkip s (leg ∷ legs) =
      let s' = write_agent_signer_leg chain s m leg in
      (legs-kept s' leg legs (skips_self s leg), legs-AllSkip s' legs)

  -- Another log of the transaction, of the same Safe.
  abbrev later_log : ℕ → Meta
  later_log log = record m { log_index = log }

  all_skipped :
      (log : ℕ) (s : State) (legs : List NativeLeg)
      → AllSkip s legs
      → write_agent_signer_legs chain s (later_log log) legs ≡ s
  unfolding AllSkip write_agent_signer_legs
  all_skipped log s [] h = refl
  all_skipped log s (leg ∷ legs) h =
      ap (λ t. write_agent_signer_legs chain t (later_log log) legs)
        (skipped chain (later_log log) s leg h.0)
      ∙ all_skipped log s legs h.1

  twice :
      (log : ℕ) (s : State) (legs : List NativeLeg)
      → let s' = write_agent_signer_legs chain s m legs in
        write_agent_signer_legs chain s' (later_log log) legs ≡ s'
  twice log s legs =
      all_skipped log (write_agent_signer_legs chain s m legs) legs (legs-AllSkip s legs)

  optional-twice :
      (log : ℕ) (s : State) (legs : Option (List NativeLeg))
      → let s' = write_optional_legs chain s m legs in
        write_optional_legs chain s' (later_log log) legs ≡ s'
  optional-twice log s none = refl
  optional-twice log s (some legs) = twice log s legs

  master-twice :
      (log : ℕ) (s : State) (c : Call)
      → let s' = execute_master chain s m c in execute_master chain s' (later_log log) c ≡ s'
  unfolding execute_master
  master-twice log s c = elim (Bool-cases (is_plain_native c)) [
    | inl plain ↦ rw plain (twice log s (record { index = 0; to = c.to; value = c.value } ∷ []))
    | inr batch ↦ rw batch (optional-twice log s c.legs)
  ]

  agent-twice :
      (log : ℕ) (s : State) (safe : Option Tracked) (signer : Address) (c : Call)
      → let s' = execute_agent s m safe signer c in
        execute_agent s' (later_log log) safe signer c ≡ s'
  unfolding execute_agent
  agent-twice log s safe signer c = ground (
    arith,
    get-set_self (agent_safe_top_up_id m.tx_hash)
        (native_row m Category.agent_safe_to_agent_eoa none (service_of safe) (master_of safe)
          (id_of safe) signer c.value)
        s.movements,
  )

  -- The Safe's role decides the part, and either part leaves the role as it is.
  part : Meta → State → Option Tracked → Address → Call → State
  part n s safe signer c =
      if is_master (role_of safe)
      then execute_master chain s n c
      else execute_agent s n safe signer c

  part-twice :
      (log : ℕ) (s : State) (safe : Option Tracked) (signer : Address) (c : Call)
      → let s' = part m s safe signer c in part (later_log log) s' safe signer c ≡ s'
  unfolding part
  part-twice log s safe signer c = elim (Bool-cases (is_master (role_of safe))) [
    | inl master ↦ rw master (master-twice log s c)
    | inr agent ↦ rw agent (agent-twice log s safe signer c)
  ]

  call-twice :
      (log : ℕ) (multisend : Address) (s : State) (signer : Address) (c : Call)
      → let s' = execute_call multisend chain s m signer c in
        execute_call multisend chain s' (later_log log) signer c ≡ s'
  unfolding execute_call part
  call-twice log multisend s signer c =
      let s' = execute_call multisend chain s m signer c in
      let seen = ap (get m.address) (call-same multisend chain s m signer c) in
      elim (Bool-cases (not (is_plain_native c) && not (is_multi_send multisend c))) [
        | inl neither ↦ rw neither refl
        | inr sends ↦
            let h : execute_call multisend chain s m signer c
                ≡ part m s (get m.address s.tracked) signer c =
              rw sends refl in
            let h' : execute_call multisend chain s' (later_log log) signer c
                ≡ part (later_log log) s' (get m.address s'.tracked) signer c =
              rw sends refl in
            let safe = get m.address s.tracked in
            h'
            ∙ ap (λ o. part (later_log log) s' o signer c) seen
            ∙ ap (λ t. part (later_log log) t safe signer c) h
            ∙ part-twice log s safe signer c
            ∙ sym h
      ]

  dispatch : Meta → Address → Address → Bool → Option Call → State → State
  dispatch n multisend signer own call s =
      if own then elim call [ none ↦ s | some c ↦ execute_call multisend chain s n signer c ] else s

  dispatch-twice :
      (log : ℕ) (multisend : Address) (s : State) (signer : Address) (own : Bool)
      (call : Option Call)
      → let s' = dispatch m multisend signer own call s in
        dispatch (later_log log) multisend signer own call s' ≡ s'
  unfolding dispatch
  dispatch-twice log multisend s signer false call = refl
  dispatch-twice log multisend s signer true none = refl
  dispatch-twice log multisend s signer true (some c) = call-twice log multisend s signer c

  -- One `execTransaction` is booked once however often its Safe logs the success: a further log of the
  -- Safe in the same transaction, at any log index, writes nothing more.
  pub handle_safe_execution_success-twice :
      (multisend : Address) (s : State) (tx : Tx) (log : ℕ)
      → let s' = handle_safe_execution_success multisend chain s m tx in
        handle_safe_execution_success multisend chain s' (record m { log_index = log }) tx ≡ s'
  unfolding handle_safe_execution_success dispatch
  handle_safe_execution_success-twice multisend s tx log =
      dispatch-twice log multisend s tx.from (is_address tx.to m.address) tx.call
