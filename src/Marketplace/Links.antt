-- ===== src/Marketplace/Links.antt =====
-- squids/marketplace/src/handlers.ts: the mechs that a change of the rows keeps.
pub mod Requests
pub mod Batch
use autonolas_subgraph.Prelude.{
  ℕ, ◌≡◌, refl, sym, ap, ◌∙◌, Bool, true, false, Option, none, some, List, [], ◌∷◌, arith,
  Bool-cases, Option-cases, inl, inr, ltb,
}
use autonolas_subgraph.Prelude.Equality.{nat_eq}
use autonolas_subgraph.Prelude.Table.{Table, get, set, get-set}
use autonolas_subgraph.Marketplace.State.{Address, Service, Mech, CreateMech, Market}
use autonolas_subgraph.Marketplace.Mechs.{
  set_mech, with_mech, change_mech, get_mech_by_address, update_mech_counters_on_delivery,
}
use autonolas_subgraph.Marketplace.Registry.{
  with_service, change_service, with_mech_of, change_mech_of,
}
use autonolas_subgraph.Marketplace.Deliveries.{increment_service_deliveries, credit_mech}

-- Each mech that was created has the row of its service.
abbrev pub IsLinked : Market → Type 0
IsLinked k =
    (mech : Address) (row : CreateMech)
    → get mech k.create_mechs ≡ some row
    → (v : Mech) × (get row.service_id k.mechs ≡ some v)

-- No mech is created, and none is removed.
pub record IsKept (k k' : Market) : Type 0 where
  pub created : k'.create_mechs ≡ k.create_mechs
  pub there :
      (id : ℕ) (v : Mech) → get id k.mechs ≡ some v → (v' : Mech) × (get id k'.mechs ≡ some v')

pub same-IsKept :
    (k k' : Market) → k'.create_mechs ≡ k.create_mechs → k'.mechs ≡ k.mechs → IsKept k k'
same-IsKept k k' created mechs = record {
  created = created;
  there = λ id v h. (v, ap (get id) mechs ∙ h);
}

pub then-IsKept : (k k' k'' : Market) → IsKept k k' → IsKept k' k'' → IsKept k k''
then-IsKept k k' k'' one other = record {
  created = other.created ∙ one.created;
  there = λ id v h. let (v', h') = one.there id v h in other.there id v' h';
}

pub kept-IsLinked : (k k' : Market) → IsKept k k' → IsLinked k → IsLinked k'
kept-IsLinked k k' kept h mech row created =
    let (v, held) = h mech row (ap (get mech) (sym kept.created) ∙ created) in
    kept.there row.service_id v held

-- A row that is written is there, and the others stay.
pub set-there :
    (t : Table ℕ Mech) (id j : ℕ) (v w : Mech)
    → get j t ≡ some w
    → (v' : Mech) × (get j (set id v t) ≡ some v')
set-there t id j v w h = elim (Bool-cases (nat_eq.same id j)) [
  | inl here ↦ (v, get-set id j v t ∙ rw here refl)
  | inr apart ↦ (w, get-set id j v t ∙ rw apart h)
]

set_mech-IsKept : (k : Market) (id : ℕ) (v : Mech) → IsKept k (set_mech k id v)
set_mech-IsKept k id v = record { created = refl; there = λ j w h. set-there k.mechs id j v w h }

with_mech-IsKept :
    (k : Market) (o : Option (ℕ × Mech)) (change : Mech → Mech) → IsKept k (with_mech k o change)
with_mech-IsKept k none change = same-IsKept k k refl refl
with_mech-IsKept k (some (id, v)) change = set_mech-IsKept k id (change v)

pub change_mech-IsKept :
    (k : Market) (mech : Address) (change : Mech → Mech) → IsKept k (change_mech k mech change)
unfolding change_mech
change_mech-IsKept k mech change = with_mech-IsKept k (get_mech_by_address k mech) change

with_mech_of-IsKept :
    (k : Market) (id : ℕ) (o : Option Mech) (change : Mech → Mech)
    → IsKept k (with_mech_of k id o change)
with_mech_of-IsKept k id none change = same-IsKept k k refl refl
with_mech_of-IsKept k id (some v) change = set_mech-IsKept k id (change v)

pub change_mech_of-IsKept :
    (k : Market) (id : ℕ) (change : Mech → Mech) → IsKept k (change_mech_of k id change)
unfolding change_mech_of
change_mech_of-IsKept k id change = with_mech_of-IsKept k id (get id k.mechs) change

with_service-IsKept :
    (k : Market) (id : ℕ) (o : Option Service) (change : Service → Service)
    → IsKept k (with_service k id o change)
with_service-IsKept k id none change = same-IsKept k k refl refl
with_service-IsKept k id (some v) change = same-IsKept k _ refl refl

pub change_service-IsKept :
    (k : Market) (id : ℕ) (change : Service → Service) → IsKept k (change_service k id change)
unfolding change_service
change_service-IsKept k id change = with_service-IsKept k id (get id k.services) change

pub increment-IsKept :
    (k : Market) (service : Option ℕ) → IsKept k (increment_service_deliveries k service)
increment-IsKept k none = same-IsKept k k refl refl
increment-IsKept k (some service) = change_service-IsKept k service _

pub counters-IsKept :
    (k : Market) (priority : Option Address) (mech : Address)
    → IsKept k (update_mech_counters_on_delivery k priority mech)
unfolding update_mech_counters_on_delivery
counters-IsKept k none mech = same-IsKept k k refl refl
counters-IsKept k (some priority) mech = change_mech-IsKept k priority _

pub credit-IsKept : (k : Market) (mech : Address) (n : ℕ) → IsKept k (credit_mech k mech n)
unfolding credit_mech
credit-IsKept k mech n = elim (Bool-cases (ltb 0 n)) [
  | inl some_more ↦ rw some_more (change_mech-IsKept k mech _)
  | inr nothing ↦ rw nothing (same-IsKept k k refl refl)
]
