-- ===== src/Marketplace/Tally/Payments.antt =====
-- squids/marketplace/src/handlers.ts: fees, senders and signed deliveries keep the totals.
use autonolas_subgraph.Prelude.{
  ℕ, subst, Option, none, some, List, [], ◌∷◌, arith, Option-cases, inl, inr,
}
use autonolas_subgraph.Prelude.Equality.{nat_eq}
use autonolas_subgraph.Prelude.Table.{get, set}
use autonolas_subgraph.Marketplace.State.{Address, Usd, Meta, Request, Books, State}
use autonolas_subgraph.Marketplace.Fees.{Chain, gn_plus}
use autonolas_subgraph.Marketplace.Books.{
  get_global, or_sender, bump_requests_per_agent, pay_sender, pay_fee,
}
use autonolas_subgraph.Marketplace.Signed.{
  SignedDeliver, final_fee, pay_request, update_fees_on_delivery, settle_unpaid, settle_request,
  settle_fee, persist_signed_deliver, persist_all,
}
use autonolas_subgraph.Marketplace.Tally.{AreTallied, write-IsTotal}

-- Totals that differ in what no sum is about: the fees and the mechs.
pub totals-AreTallied :
    (zero_usd : Usd) (b : Books) (mechs : ℕ) (fees : Usd)
    → AreTallied zero_usd b
    → AreTallied zero_usd (record b {
      totals = some (record (get_global b.totals zero_usd) {
        total_mechs = mechs;
        total_fees_paid_usd = fees;
      });
    })
totals-AreTallied zero_usd b mechs fees h = record {
  total = record {
    requests = h.total.requests;
    marketplace = h.total.marketplace;
    off_chain = h.total.off_chain;
    sent = h.total.sent;
    transactions = h.total.transactions;
  };
  counted = record { least = h.counted.least; most = h.counted.most };
}

-- A sender's row is written with other fees, or is created.
pub sender-AreTallied :
    (zero_usd : Usd) (b : Books) (address : Address) (fees : Usd)
    → AreTallied zero_usd b
    → AreTallied zero_usd (record b {
      senders =
          set address
            (record (or_sender (get address b.senders) zero_usd) { total_fees_paid_usd = fees })
            b.senders;
    })
sender-AreTallied zero_usd b address fees h =
    let g = get_global b.totals zero_usd in
    record {
      total =
          write-IsTotal zero_usd g g b.senders address _ 0 0 0 0
            (omega arith, omega arith, omega arith, omega arith)
            (omega arith, omega arith, omega arith, omega arith) h.total.transactions h.total;
      counted = h.counted;
    }

pub bump-AreTallied :
    (zero_usd : Usd) (agents : List ℕ) (n : ℕ) (b : Books)
    → AreTallied zero_usd b
    → AreTallied zero_usd (bump_requests_per_agent b agents n)
unfolding bump_requests_per_agent
bump-AreTallied zero_usd [] n b h = h
bump-AreTallied zero_usd (agent ∷ agents) n b h =
    bump-AreTallied zero_usd agents n _ (record { total = h.total; counted = h.counted })

module _ (c : Chain) where
  abbrev pub Tallied : State → Type 0
  Tallied s = AreTallied c.decimals.zero_usd s.books

  pay_sender-AreTallied :
      (b : Books) (sender : Option Address) (usd : Usd)
      → AreTallied c.decimals.zero_usd b
      → AreTallied c.decimals.zero_usd (pay_sender c.decimals b sender usd)
  pay_sender-AreTallied b none usd h = h
  pay_sender-AreTallied b (some address) usd h = elim (Option-cases (get address b.senders)) [
    | inl new ↦ rw (new, pay_sender) h
    | inr (v, old) ↦
        let zero_usd = c.decimals.zero_usd in
        let fees = gn_plus c.decimals v.total_fees_paid_usd usd in
        rw (old, pay_sender)
          (subst
            (λ x. AreTallied zero_usd (record b {
              senders =
                  set address (record (or_sender x zero_usd) { total_fees_paid_usd = fees })
                    b.senders;
            }))
            old (sender-AreTallied zero_usd b address fees h))
  ]

  pay-AreTallied :
      (b : Books) (sender : Option Address) (usd : Usd)
      → AreTallied c.decimals.zero_usd b
      → AreTallied c.decimals.zero_usd (pay_fee c.decimals b sender usd)
  unfolding pay_fee
  pay-AreTallied b sender usd h =
      totals-AreTallied c.decimals.zero_usd (pay_sender c.decimals b sender usd) _ _
        (pay_sender-AreTallied b sender usd h)

  pub fees-Tallied :
      (s : State) (id : ℕ) (r : Request) (o : Option Usd)
      → Tallied s
      → Tallied (pay_request c s id r o)
  unfolding pay_request
  fees-Tallied s id r none h = h
  fees-Tallied s id r (some usd) h = pay-AreTallied s.books r.sender usd h

  unpaid-Tallied :
      (s : State) (m : Meta) (id : ℕ) (r : Request) (rate : ℕ) (o : Option Usd)
      → Tallied s
      → Tallied (settle_unpaid c s m id r rate o)
  unfolding update_fees_on_delivery
  unpaid-Tallied s m id r rate (some _) h = h
  unpaid-Tallied s m id r rate none h =
      fees-Tallied s id r (final_fee c (get id s.market.request_links) r rate m.block_number) h

  settle-Tallied :
      (s : State) (m : Meta) (id rate : ℕ) (o : Option Request)
      → Tallied s
      → Tallied (settle_request c s m id rate o)
  settle-Tallied s m id rate none h = h
  settle-Tallied s m id rate (some r) h = unpaid-Tallied s m id r rate r.final_fee_usd h

  pub persist-Tallied :
      (s : State) (m : Meta) (id : ℕ) (mech : Address) (a : Option SignedDeliver)
      → Tallied s
      → Tallied (persist_signed_deliver c s m id mech a)
  unfolding persist_signed_deliver settle_fee
  persist-Tallied s m id mech none h = h
  persist-Tallied s m id mech (some a) h = settle-Tallied _ m id a.delivery_rate _ h

  pub persist_all-Tallied :
      (s : State) (m : Meta) (mech : Address) (ids : List ℕ)
      → Tallied s
      → Tallied (persist_all c s m mech ids)
  unfolding persist_all
  persist_all-Tallied s m mech [] h = h
  persist_all-Tallied s m mech (id ∷ ids) h =
      persist_all-Tallied (persist_signed_deliver c s m id mech none) m mech ids
        (persist-Tallied s m id mech none h)
