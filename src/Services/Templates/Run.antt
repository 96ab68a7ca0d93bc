-- ===== src/Services/Templates/Run.antt =====
-- squids/service-registry/src/safeLogs.ts and main.ts: a batch of blocks against the templates.
use autonolas_subgraph.Prelude.{
  ◌≡◌, refl, sym, ap, subst, ◌∙◌, ◌&&◌, Bool, true, false, not, List, [], ◌∷◌, ◌++◌, arith,
  if◌then◌else◌, Bool-cases, inl, inr,
}
use mathlib.Core.List.{append-nil, append_assoc}
use autonolas_subgraph.Services.State.{Address, Meta, State}
use autonolas_subgraph.Services.Registry.{Texts, includes}
use autonolas_subgraph.Services.Events.{
  Event, registry, safe_execution, handle_safe_execution, has_row, BlockSafeLogs, handle_parked,
  end_block, handle, handle_logs, handle_block, run,
}
use autonolas_subgraph.Services.Templates.{
  first_pass, second_step, second_pass, template_block, template_run, AreKnown, IsSplit,
  safe-registry,
}
use autonolas_subgraph.Services.Templates.Block.{waiting_one, handle-IsStep, same-AreKnown}

start-IsSplit : (s : State) → AreKnown s → IsSplit s s []
start-IsSplit s known = record {
  rows = λ a. ground arith;
  apart = λ a no. absurd (ground arith);
  known = known;
}

second_step-same :
    (new : Address → Bool) (s : State) (m : Meta) (e : Event)
    → (second_step new s m e).registry ≡ s.registry
unfolding second_step
second_step-same new s m (registry e) = refl
second_step-same new s m (Event.create_multisig service a from) = refl
second_step-same new s m (safe_execution a) = elim (Bool-cases (new a)) [
  | inl yes_new ↦ rw yes_new (safe-registry s m a)
  | inr old ↦ rw old refl
]

module _ (texts : Texts) where
  -- All that is put off in a block.
  waiting : (Address → Bool) → List (Meta × Event) → List (Address × Meta)
  waiting had [] = []
  waiting had ((m, e) ∷ logs) = waiting_one had m e ++ waiting had logs

  record IsPass (s0 s : State) (b : BlockSafeLogs) (logs : List (Meta × Event)) : Type 0 where
    pub pass : (handle_logs texts s b logs).0 ≡ first_pass texts (has_row s0) s logs
    pub split : IsSplit s0 (handle_logs texts s b logs).0 (handle_logs texts s b logs).1.fresh
    pub waits : (handle_logs texts s b logs).1.parked ≡ b.parked ++ waiting (has_row s0) logs

  logs-IsPass :
      (s0 s : State) (b : BlockSafeLogs) (logs : List (Meta × Event))
      → IsSplit s0 s b.fresh
      → IsPass s0 s b logs
  unfolding handle_logs first_pass waiting
  logs-IsPass s0 s b [] h = record { pass = refl; split = h; waits = sym (append-nil _) }
  logs-IsPass s0 s b ((m, e) ∷ logs) h =
      let one = handle-IsStep texts s0 s b m e h in
      let rest = logs-IsPass s0 (handle texts s b m e).0 (handle texts s b m e).1 logs one.split in
      record {
        pass = rest.pass ∙ ap (λ x. first_pass texts (has_row s0) x logs) one.step;
        split = rest.split;
        waits =
            rest.waits
            ∙ (ap (λ x. x ++ waiting (has_row s0) logs) one.waits
                ∙ append_assoc b.parked (waiting_one (has_row s0) m e) (waiting (has_row s0) logs));
      }

  parked-append :
      (s : State) (fresh : List Address) (l r : List (Address × Meta))
      → handle_parked s fresh (l ++ r) ≡ handle_parked (handle_parked s fresh l) fresh r
  unfolding handle_parked
  parked-append s fresh [] r = refl
  parked-append s fresh ((a, m) ∷ l) r =
      parked-append (if includes fresh a then handle_safe_execution s m a else s) fresh l r

  -- What was put off, of the Safes that are fresh, is the second pass.
  parked-one :
      (had new : Address → Bool) (fresh : List Address) (s : State) (m : Meta) (e : Event)
      → ((a : Address) → (had a ≡ true) → new a ≡ false)
      → ((a : Address) → includes fresh a ≡ new a)
      → handle_parked s fresh (waiting_one had m e) ≡ second_step new s m e
  unfolding handle_parked waiting_one second_step
  parked-one had new fresh s m (registry e) old same = refl
  parked-one had new fresh s m (Event.create_multisig service a from) old same = refl
  parked-one had new fresh s m (safe_execution a) old same = elim (Bool-cases (had a)) [
    | inl before ↦ rw before (rw (old a before) refl)
    | inr after ↦ rw after (rw (same a) refl)
  ]

  parked-pass :
      (had new : Address → Bool) (fresh : List Address) (s : State) (logs : List (Meta × Event))
      → ((a : Address) → (had a ≡ true) → new a ≡ false)
      → ((a : Address) → includes fresh a ≡ new a)
      → handle_parked s fresh (waiting had logs) ≡ second_pass new s logs
  unfolding waiting second_pass handle_parked
  parked-pass had new fresh s [] old same = refl
  parked-pass had new fresh s ((m, e) ∷ logs) old same =
      parked-append s fresh (waiting_one had m e) (waiting had logs)
      ∙ (ap (λ x. handle_parked x fresh (waiting had logs))
            (parked-one had new fresh s m e old same)
          ∙ parked-pass had new fresh (second_step new s m e) logs old same)

  pub handle_block-template :
      (s : State) (logs : List (Meta × Event))
      → AreKnown s
      → handle_block texts s logs ≡ template_block texts s logs
  unfolding handle_block template_block end_block
  handle_block-template s logs known =
      let b : BlockSafeLogs = record { fresh = []; parked = [] } in
      let h = logs-IsPass s s b logs (start-IsSplit s known) in
      let t = (handle_logs texts s b logs).0 in
      let new : Address → Bool = λ a. has_row t a && not (has_row s a) in
      ap (λ l. handle_parked t (handle_logs texts s b logs).1.fresh l) h.waits
      ∙ (parked-pass (has_row s) new (handle_logs texts s b logs).1.fresh t logs
            (λ a old. ground arith) (λ a. ground (arith, h.split.rows a, h.split.apart a))
          ∙ ap (λ x. second_pass (λ a. has_row x a && not (has_row s a)) x logs) h.pass)

  second-same :
      (new : Address → Bool) (s : State) (logs : List (Meta × Event))
      → (second_pass new s logs).registry ≡ s.registry
  unfolding second_pass
  second-same new s [] = refl
  second-same new s ((m, e) ∷ logs) =
      second-same new (second_step new s m e) logs ∙ second_step-same new s m e

  pub template_block-AreKnown :
      (s : State) (logs : List (Meta × Event)) → AreKnown s → AreKnown (template_block texts s logs)
  unfolding template_block
  template_block-AreKnown s logs known =
      let b : BlockSafeLogs = record { fresh = []; parked = [] } in
      let h = logs-IsPass s s b logs (start-IsSplit s known) in
      let after = first_pass texts (has_row s) s logs in
      let same = second-same (λ a. has_row after a && not (has_row s a)) after logs in
      same-AreKnown after (template_block texts s logs) (ap (λ r. r.multisigs) same)
        (ap (λ r. r.known) same) (subst AreKnown h.pass h.split.known)

-- Whatever blocks of decoded logs come, the squid's batch gives the state that graph-node's
-- templates give, where every multisig with a row is known to the process: in each block first the
-- logs of the registry and of the Safes registered before the block, in order, then the logs of the
-- Safes that are registered in the block, those before their registration too, in order, and no
-- others.
pub run-template :
    (texts : Texts) (s : State) (blocks : List (List (Meta × Event)))
    → AreKnown s
    → run texts s blocks ≡ template_run texts s blocks
unfolding run template_run
run-template texts s [] known = refl
run-template texts s (block ∷ blocks) known =
    ap (λ x. run texts x blocks) (handle_block-template texts s block known)
    ∙ run-template texts (template_block texts s block) blocks
        (template_block-AreKnown texts s block known)
