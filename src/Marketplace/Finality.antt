-- ===== src/Marketplace/Finality.antt =====
-- squids/marketplace/src/handlers.ts: who writes the rows of the requests, and what stays in them.
pub mod Requests
pub mod Batch
use autonolas_subgraph.Prelude.{
  ℕ, ◌≡◌, refl, sym, subst, ap, ◌∙◌, Bool, true, false, not, Option, none, some, List, [], ◌∷◌,
  arith, Bool-cases, Option-cases, inl, inr, ◌==◌, ltb, if◌then◌else◌,
}
use autonolas_subgraph.Prelude.Equality.{nat_eq}
use autonolas_subgraph.Prelude.Table.{Table, get, set, get-set}
use autonolas_subgraph.Marketplace.State.{Address, Usd, Meta, Request, Service, Mech, Market, State}
use autonolas_subgraph.Marketplace.Fees.{Chain}
use autonolas_subgraph.Marketplace.Mechs.{
  with_mech, change_mech, get_mech_by_address, update_mech_counters_on_request,
  update_mech_counters_on_delivery, get_service_id_from_mech,
}
use autonolas_subgraph.Marketplace.Registry.{with_service, change_service}
use autonolas_subgraph.Marketplace.Requests.{
  Snapshot, or_request, requested_row, count_request, link_request, request_one, request_all,
  new_request,
}
use autonolas_subgraph.Marketplace.Deliveries.{
  increment_service_deliveries, deliver_one, deliver_request, deliver_if, first_flag, other_flags,
  deliver_all, credit_mech,
}

-- The fee that a request has been paid with.
abbrev pub fee_at : Option Request → Option Usd
fee_at none = none
fee_at (some r) = r.final_fee_usd

pub with_mech-requests :
    (k : Market) (o : Option (ℕ × Mech)) (change : Mech → Mech)
    → (with_mech k o change).requests ≡ k.requests
with_mech-requests k none change = refl
with_mech-requests k (some _) change = refl

pub change_mech-requests :
    (k : Market) (mech : Address) (change : Mech → Mech)
    → (change_mech k mech change).requests ≡ k.requests
unfolding change_mech
change_mech-requests k mech change = with_mech-requests k (get_mech_by_address k mech) change

with_service-requests :
    (k : Market) (id : ℕ) (o : Option Service) (change : Service → Service)
    → (with_service k id o change).requests ≡ k.requests
with_service-requests k id none change = refl
with_service-requests k id (some _) change = refl

pub change_service-requests :
    (k : Market) (id : ℕ) (change : Service → Service)
    → (change_service k id change).requests ≡ k.requests
unfolding change_service
change_service-requests k id change = with_service-requests k id (get id k.services) change

count_request-requests :
    (k : Market) (service : Option ℕ) → (count_request k service).requests ≡ k.requests
count_request-requests k none = refl
count_request-requests k (some service) = change_service-requests k service _

pub increment-requests :
    (k : Market) (service : Option ℕ)
    → (increment_service_deliveries k service).requests ≡ k.requests
increment-requests k none = refl
increment-requests k (some service) = change_service-requests k service _

pub counters-requests :
    (k : Market) (priority : Option Address) (mech : Address)
    → (update_mech_counters_on_delivery k priority mech).requests ≡ k.requests
unfolding update_mech_counters_on_delivery
counters-requests k none mech = refl
counters-requests k (some priority) mech = change_mech-requests k priority _

module _ (id : ℕ) (usd : Usd) where
  abbrev pub IsFinal : Table ℕ Request → Type 0
  IsFinal t = fee_at (get id t) ≡ some usd

  -- A request's row is written, with the same fee where it has one.
  pub set-IsFinal :
      (t : Table ℕ Request) (j : ℕ) (r : Request)
      → (fee_at (get j t) ≡ some usd → r.final_fee_usd ≡ some usd)
      → IsFinal t
      → IsFinal (set j r t)
  set-IsFinal t j r same h = elim (Bool-cases (nat_eq.same j id)) [
    | inl here ↦
        let at = (nat_eq.same_iff j id).0 here in
        ap fee_at (get-set j id r t)
        ∙ rw here (same (subst (λ x. fee_at (get x t) ≡ some usd) (sym at) h))
    | inr there ↦ ap fee_at (get-set j id r t) ∙ rw there h
  ]

  requested-fee :
      (o : Option Request) (m : Meta) (q : Snapshot)
      → fee_at o ≡ some usd
      → (requested_row (or_request o) m q).final_fee_usd ≡ some usd
  unfolding requested_row
  requested-fee none m q h = absurd (ground arith)
  requested-fee (some r) m q h = h

  request_one-IsFinal :
      (k : Market) (m : Meta) (q : Snapshot) (j : ℕ)
      → IsFinal k.requests
      → IsFinal (request_one k m q j).requests
  unfolding request_one link_request update_mech_counters_on_request
  request_one-IsFinal k m q j h =
      let r = requested_row (or_request (get j k.requests)) m q in
      let k1 : Market = record k { requests = set j r k.requests } in
      subst IsFinal
        (sym (
          change_mech-requests (count_request k1 q.service) q.priority_mech _
          ∙ count_request-requests k1 q.service))
        (set-IsFinal k.requests j r (requested-fee (get j k.requests) m q) h)

  pub request_all-IsFinal :
      (k : Market) (m : Meta) (q : Snapshot) (ids : List ℕ)
      → IsFinal k.requests
      → IsFinal (request_all k m q ids).requests
  unfolding request_all
  request_all-IsFinal k m q [] h = h
  request_all-IsFinal k m q (j ∷ ids) h =
      request_all-IsFinal (request_one k m q j) m q ids (request_one-IsFinal k m q j h)

  deliver_one-IsFinal :
      (k : Market) (mech : Address) (j : ℕ) (r : Request)
      → get j k.requests ≡ some r
      → IsFinal k.requests
      → IsFinal (deliver_one k mech j r).requests
  unfolding deliver_one
  deliver_one-IsFinal k mech j r old h =
      let r' : Request = record r { is_delivered = true; delivered_by_mech = some mech } in
      let k1 : Market = record k { requests = set j r' k.requests } in
      subst IsFinal
        (sym (
          increment-requests _ (get_service_id_from_mech k mech)
          ∙ counters-requests k1 r.priority_mech mech))
        (set-IsFinal k.requests j r' (λ paid. sym (ap fee_at old) ∙ paid) h)

  deliver_request-IsFinal :
      (k : Market) (mech : Address) (j : ℕ) (o : Option Request)
      → get j k.requests ≡ o
      → IsFinal k.requests
      → IsFinal (deliver_request k mech j o).0.requests
  unfolding deliver_one
  deliver_request-IsFinal k mech j none old h = h
  deliver_request-IsFinal k mech j (some r) old h = elim (Bool-cases r.is_delivered) [
    | inl before ↦ rw before h
    | inr first ↦ rw first (deliver_one-IsFinal k mech j r old h)
  ]

  deliver_if-IsFinal :
      (k : Market) (mech : Address) (j : ℕ) (b : Bool)
      → IsFinal k.requests
      → IsFinal (deliver_if k mech j b).0.requests
  deliver_if-IsFinal k mech j false h = h
  deliver_if-IsFinal k mech j true h = deliver_request-IsFinal k mech j (get j k.requests) refl h

  pub deliver_all-IsFinal :
      (k : Market) (mech : Address) (ids : List ℕ) (flags : List Bool)
      → IsFinal k.requests
      → IsFinal (deliver_all k mech ids flags).0.requests
  unfolding deliver_all
  deliver_all-IsFinal k mech [] flags h = h
  deliver_all-IsFinal k mech (j ∷ ids) flags h =
      deliver_all-IsFinal (deliver_if k mech j (first_flag flags)).0 mech ids (other_flags flags)
        (deliver_if-IsFinal k mech j (first_flag flags) h)

  pub credit-IsFinal :
      (k : Market) (mech : Address) (n : ℕ)
      → IsFinal k.requests
      → IsFinal (credit_mech k mech n).requests
  unfolding credit_mech
  credit-IsFinal k mech n h = elim (Bool-cases (ltb 0 n)) [
    | inl some_more ↦ rw some_more (subst IsFinal (sym (change_mech-requests k mech _)) h)
    | inr nothing ↦ rw nothing h
  ]
