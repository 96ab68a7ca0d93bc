-- ===== src/Services/Templates/Block.antt =====
-- squids/service-registry/src/safeLogs.ts and main.ts: a block's logs against the templates.
use autonolas_subgraph.Prelude.{
  ℕ, ◌≡◌, refl, sym, ap, ◌∙◌, ◌||◌, Bool, true, false, none, some, List, [], ◌∷◌, ◌++◌, arith,
  if◌then◌else◌, Bool-cases, Option-cases, inl, inr, ==_iff, ◌==◌,
}
use mathlib.Core.List.{append-nil}
use autonolas_subgraph.Prelude.Equality.{nat_eq}
use autonolas_subgraph.Prelude.Table.{get, get-set}
use autonolas_subgraph.Services.State.{Address, Meta, Service, State}
use autonolas_subgraph.Services.Registry.{Texts, handle_create_multisig, create_multisig}
use autonolas_subgraph.Services.Events.{
  RegistryEvent, Event, registry, safe_execution, handle_safe_execution, has_row, BlockSafeLogs,
  after_create, note_multisig, park, safe_log, handle,
}
use autonolas_subgraph.Services.Templates.{
  first_step, AreKnown, IsSplit, safe-registry, registry-multisigs,
}

-- A step that leaves the multisigs and the known set alone.
has_row-same :
    (s t : State) (a : Address)
    → t.registry.multisigs ≡ s.registry.multisigs
    → has_row t a ≡ has_row s a
unfolding has_row
has_row-same s t a rows = rw rows refl

pub same-AreKnown :
    (s t : State)
    → t.registry.multisigs ≡ s.registry.multisigs
    → t.registry.known ≡ s.registry.known
    → AreKnown s
    → AreKnown t
same-AreKnown s t rows known h a row = rw known (h a (sym (has_row-same s t a rows) ∙ row))

same-IsSplit :
    (s0 s t : State) (fresh : List Address)
    → t.registry.multisigs ≡ s.registry.multisigs
    → t.registry.known ≡ s.registry.known
    → IsSplit s0 s fresh
    → IsSplit s0 t fresh
same-IsSplit s0 s t fresh rows known h = record {
  rows = λ a. has_row-same s t a rows ∙ h.rows a;
  apart = h.apart;
  known = same-AreKnown s t rows known h.known;
}

module _ (s : State) (m : Meta) (service : ℕ) (a from : Address) where
  create-none : get service s.registry.services ≡ none → after_create s m service a from ≡ s
  unfolding after_create handle_create_multisig
  create-none no_service = ground arith

  module _ (v : Service) (at : get service s.registry.services ≡ some v) where
    create-some :
        after_create s m service a from
        ≡ record s { registry = create_multisig s.registry m service a from v }
    unfolding after_create handle_create_multisig
    create-some = ground arith

    create-has_row :
        (x : Address) → has_row (after_create s m service a from) x ≡ (a == x || has_row s x)
    unfolding create_multisig has_row
    create-has_row x =
        rw create-some
          (rw get-set (elim (Bool-cases (a == x)) [ inl e ↦ rw e refl | inr e ↦ rw e refl ]))

    create-known : (after_create s m service a from).registry.known ≡ a ∷ s.registry.known
    unfolding create_multisig
    create-known = rw create-some refl

create-IsSplit :
    (s0 s t : State) (b : BlockSafeLogs) (a : Address)
    → ((x : Address) → has_row t x ≡ (a == x || has_row s x))
    → t.registry.known ≡ a ∷ s.registry.known
    → IsSplit s0 s b.fresh
    → IsSplit s0 t (note_multisig b a (has_row s a) (has_row t a)).fresh
unfolding note_multisig
create-IsSplit s0 s t b a rows known h = record {
  rows = λ x. ground (arith, rows x, rows a, h.rows x, h.rows a, ==_iff a x);
  apart = λ x fresh. ground (arith, rows a, h.apart x, h.rows a, ==_iff a x);
  known = λ x row. rw known (ground (arith, rows x, h.known x));
}

note-same : (b : BlockSafeLogs) (a : Address) (x : Bool) → note_multisig b a x x ≡ b
unfolding note_multisig
note-same b a true = refl
note-same b a false = refl

note-parked :
    (b : BlockSafeLogs) (a : Address) (x y : Bool) → (note_multisig b a x y).parked ≡ b.parked
unfolding note_multisig
note-parked b a x y = ground arith

-- What is put off at a log.
unfoldable pub waiting_one : (Address → Bool) → Meta → Event → List (Address × Meta)
waiting_one had m (registry e) = []
waiting_one had m (Event.create_multisig service address from) = []
waiting_one had m (safe_execution address) = if had address then [] else (address, m) ∷ []

module _ (texts : Texts) where
  pub record IsStep (s0 s : State) (b : BlockSafeLogs) (m : Meta) (e : Event) : Type 0 where
    pub step : (handle texts s b m e).0 ≡ first_step texts (has_row s0) s m e
    pub split : IsSplit s0 (handle texts s b m e).0 (handle texts s b m e).1.fresh
    pub waits : (handle texts s b m e).1.parked ≡ b.parked ++ waiting_one (has_row s0) m e

  registry-IsStep :
      (s0 s : State) (b : BlockSafeLogs) (m : Meta) (e : RegistryEvent)
      → IsSplit s0 s b.fresh
      → IsStep s0 s b m (registry e)
  unfolding handle first_step waiting_one
  registry-IsStep s0 s b m e h = record {
    step = refl;
    split =
        same-IsSplit s0 s _ b.fresh (registry-multisigs texts s m e).0
          (registry-multisigs texts s m e).1 h;
    waits = sym (append-nil _);
  }

  -- A log of a Safe that had its row before the block is handled, any other is put off.
  module _ (s0 s : State) (b : BlockSafeLogs) (m : Meta) (a : Address)
      (h : IsSplit s0 s b.fresh) where
    safe_log-had : has_row s0 a ≡ true → safe_log s b m a ≡ (handle_safe_execution s m a, b)
    unfolding safe_log
    safe_log-had had = ground (arith, h.rows a, h.apart a, h.known a)

    safe_log-new : has_row s0 a ≡ false → safe_log s b m a ≡ (s, park b a m)
    unfolding safe_log
    safe_log-new new = ground (arith, h.rows a)

    safe_log-IsStep : IsStep s0 s b m (safe_execution a)
    unfolding handle first_step waiting_one park
    safe_log-IsStep = elim (Bool-cases (has_row s0 a)) [
      | inl had ↦
          let t = handle_safe_execution s m a in
          record {
            step = rw (safe_log-had had) (rw had refl);
            split = rw (safe_log-had had) (
                same-IsSplit s0 s t b.fresh (ap (λ r. r.multisigs) (safe-registry s m a))
                  (ap (λ r. r.known) (safe-registry s m a)) h);
            waits = rw (safe_log-had had) (rw had (sym (append-nil _)));
          }
      | inr new ↦ record {
        step = rw (safe_log-new new) (rw new refl);
        split = rw (safe_log-new new) h;
        waits = rw (safe_log-new new) (rw new refl);
      }
    ]

  create-IsStep :
      (s0 s : State) (b : BlockSafeLogs) (m : Meta) (service : ℕ) (a from : Address)
      → IsSplit s0 s b.fresh
      → IsStep s0 s b m (Event.create_multisig service a from)
  unfolding handle first_step waiting_one
  create-IsStep s0 s b m service a from h = elim (Option-cases (get service s.registry.services)) [
    | inl no_service ↦
        let e = create-none s m service a from no_service in
        record {
          step = refl;
          split = rw e (rw note-same h);
          waits = rw e (rw note-same (sym (append-nil _)));
        }
    | inr (v, at) ↦ record {
      step = refl;
      split =
          create-IsSplit s0 s (after_create s m service a from) b a
            (create-has_row s m service a from v at) (create-known s m service a from v at) h;
      waits = rw note-parked (sym (append-nil _));
    }
  ]

  pub handle-IsStep :
      (s0 s : State) (b : BlockSafeLogs) (m : Meta) (e : Event)
      → IsSplit s0 s b.fresh
      → IsStep s0 s b m e
  handle-IsStep s0 s b m (registry e) h = registry-IsStep s0 s b m e h
  handle-IsStep s0 s b m (Event.create_multisig service a from) h =
      create-IsStep s0 s b m service a from h
  handle-IsStep s0 s b m (safe_execution a) h = safe_log-IsStep s0 s b m a h
