-- ===== src/Marketplace/Tally.antt =====
-- squids/marketplace/src/handlers.ts: the squid's totals against the senders and the counted transactions.
pub mod Payments
pub mod Batch
use autonolas_subgraph.Prelude.{
  ℕ, ◌+◌, ◌*◌, ◌≤◌, ◌≡◌, refl, ap, ◌∙◌, ◌&&◌, Bool, true, false, not, Option, none, some, List, [],
  ◌∷◌, arith, Bool-cases, Option-cases, inl, inr, if◌then◌else◌,
}
use autonolas_subgraph.Prelude.Int.{ℤ, pos, ◌+ℤ◌, ◌≤ℤ◌, int_laws, pos-add}
use autonolas_subgraph.Prelude.Equality.{nat_eq}
use autonolas_subgraph.Prelude.Table.{Table, get, set, sum_by, value_at, sum_by-set, sum_by-add}
use autonolas_subgraph.Prelude.Groups.{one}
use autonolas_subgraph.Marketplace.State.{Address, Usd, Meta, Sender, Global, AtaTransaction, Books}
use autonolas_subgraph.Marketplace.Books.{
  new_global, get_global, new_sender, or_sender, is_row, ata_transaction_exists, ata_row, count_ata,
  one_if, get_or_create_sender, requested, request_sender, book_request, delivered, book_delivery,
  book_direct_delivery, signed, signed_sender, book_signed_delivery, book_mech,
  bump_requests_per_agent, pay_fee,
}

-- A total that two kinds of transactions make up, and the sums over the senders.
pub record IsTotal (g : Global) (senders : Table Address Sender) : Type 0 where
  pub requests : pos g.total_requests ≡ sum_by (λ v. pos v.total_legacy_requests) senders
  pub marketplace :
      pos g.total_marketplace_requests ≡ sum_by (λ v. pos v.total_marketplace_requests) senders
  pub off_chain :
      pos g.total_off_chain_requests ≡ sum_by (λ v. pos v.total_off_chain_requests) senders
  pub sent :
      pos (g.total_marketplace_requests + g.total_marketplace_deliveries_with_signatures)
      ≡ sum_by (λ v. pos v.total_legacy_transactions) senders
  pub transactions :
      g.total_transactions
      ≡ g.total_marketplace_requests
        + g.total_marketplace_deliveries
        + 2 * g.total_marketplace_deliveries_with_signatures

-- Each transaction of an agent is counted once or twice.
pub record IsCounted (g : Global) (ata : Table ℕ AtaTransaction) : Type 0 where
  pub least : sum_by one ata ≤ℤ pos g.total_ata_transactions
  pub most : pos g.total_ata_transactions ≤ℤ sum_by one ata +ℤ sum_by one ata

pub record AreTallied (zero_usd : Usd) (b : Books) : Type 0 where
  pub total : IsTotal (get_global b.totals zero_usd) b.senders
  pub counted : IsCounted (get_global b.totals zero_usd) b.ata_transactions

-- What the numbers of a sender are, 0 where it has no row.
sender-values :
    (o : Option Sender) (zero_usd : Usd)
    → let v = or_sender o zero_usd in
      (pos v.total_legacy_requests ≡ value_at (λ x. pos x.total_legacy_requests) o)
      × (pos v.total_marketplace_requests ≡ value_at (λ x. pos x.total_marketplace_requests) o)
      × (pos v.total_off_chain_requests ≡ value_at (λ x. pos x.total_off_chain_requests) o)
      × (pos v.total_legacy_transactions ≡ value_at (λ x. pos x.total_legacy_transactions) o)
unfolding value_at new_sender
sender-values none zero_usd = (refl, refl, refl, refl)
sender-values (some v) zero_usd = (refl, refl, refl, refl)

-- A column that grows by `n` in the total and in one sender's row.
grow :
    (column : Sender → ℤ) (senders : Table Address Sender) (address : Address) (v : Sender)
    (old total total' n : ℕ)
    → column v ≡ pos (old + n)
    → pos old ≡ value_at column (get address senders)
    → total' ≡ total + n
    → pos total ≡ sum_by column senders
    → pos total' ≡ sum_by column (set address v senders)
grow column senders address v old total total' n row held more h =
    ap pos more
    ∙ (pos-add total n
        ∙ sum_by-add column address v senders (pos total) (pos n)
            (row ∙ (pos-add old n ∙ ap (λ x. x +ℤ pos n) held)) h)

two : (b : Bool) → 1 + one_if b ≤ 2
two true = omega arith
two false = omega arith

module _ (zero_usd : Usd) where
  -- A sender's row is written with `r` requests, `p` of the marketplace and `o` off chain, and `t`
  -- transactions more, and the totals with it.
  pub write-IsTotal :
      (g g' : Global) (senders : Table Address Sender) (address : Address) (v : Sender)
      (r p o t : ℕ)
      → let old = or_sender (get address senders) zero_usd in
        (v.total_legacy_requests ≡ old.total_legacy_requests + r)
          × (v.total_marketplace_requests ≡ old.total_marketplace_requests + p)
          × (v.total_off_chain_requests ≡ old.total_off_chain_requests + o)
          × (v.total_legacy_transactions ≡ old.total_legacy_transactions + t)
        → (g'.total_requests ≡ g.total_requests + r)
          × (g'.total_marketplace_requests ≡ g.total_marketplace_requests + p)
          × (g'.total_off_chain_requests ≡ g.total_off_chain_requests + o)
          × (g'.total_marketplace_requests + g'.total_marketplace_deliveries_with_signatures
              ≡ g.total_marketplace_requests + g.total_marketplace_deliveries_with_signatures + t)
        → g'.total_transactions
          ≡ g'.total_marketplace_requests
            + g'.total_marketplace_deliveries
            + 2 * g'.total_marketplace_deliveries_with_signatures
        → IsTotal g senders
        → IsTotal g' (set address v senders)
  write-IsTotal g g' senders address v r p o t row more flow h =
      let values = sender-values (get address senders) zero_usd in
      record {
        requests =
            grow (λ x. pos x.total_legacy_requests) senders address v _ _ _ r (ap pos row.0)
              values.0 more.0 h.requests;
        marketplace =
            grow (λ x. pos x.total_marketplace_requests) senders address v _ _ _ p (ap pos row.1)
              values.1 more.1 h.marketplace;
        off_chain =
            grow (λ x. pos x.total_off_chain_requests) senders address v _ _ _ o (ap pos row.2)
              values.2 more.2 h.off_chain;
        sent =
            grow (λ x. pos x.total_legacy_transactions) senders address v _ _ _ t (ap pos row.3)
              values.3 more.3 h.sent;
        transactions = flow;
      }

  -- The transaction is counted once, by 1 or by 2.
  ata-AreTallied :
      (b : Books) (m : Meta) (g : Global) (more : ℕ)
      → 1 ≤ more
      → more ≤ 2
      → IsTotal g b.senders
      → IsCounted g b.ata_transactions
      → AreTallied zero_usd (count_ata b m g more)
  unfolding count_ata ata_transaction_exists value_at
  ata-AreTallied b m g more least most total counted =
      let row = sum_by-add one m.tx_hash (ata_row m) b.ata_transactions in
      elim (Option-cases (get m.tx_hash b.ata_transactions)) [
        | inl new ↦
            let grown =
              row (sum_by one b.ata_transactions) (pos 1) (rw new (omega int_laws)) refl in
            rw (new, count_ata)
              (record {
                total = record {
                  requests = total.requests;
                  marketplace = total.marketplace;
                  off_chain = total.off_chain;
                  sent = total.sent;
                  transactions = total.transactions;
                };
                counted = record {
                  least =
                      omega (int_laws, grown, counted.least, pos-add g.total_ata_transactions more);
                  most =
                      omega (int_laws, grown, counted.most, pos-add g.total_ata_transactions more);
                };
              })
        | inr (_, old) ↦ rw (old, count_ata) (record { total = total; counted = counted })
      ]

  pub request-AreTallied :
      (b : Books) (m : Meta) (requester : Address) (n : ℕ) (is_service : Bool)
      → AreTallied zero_usd b
      → AreTallied zero_usd (book_request zero_usd b m requester n is_service)
  unfolding book_request request_sender requested
  request-AreTallied b m requester n is_service h =
      let g = get_global b.totals zero_usd in
      let old = or_sender (get requester b.senders) zero_usd in
      let counted = is_service && not (ata_transaction_exists b m) in
      let v = request_sender zero_usd old n (one_if counted) in
      let total =
        write-IsTotal g (requested zero_usd g n) b.senders requester v n 1 0 1
          (refl, refl, omega arith, refl) (refl, refl, omega arith, omega arith)
          (omega (arith, h.total.transactions)) h.total in
      let same : IsCounted (requested zero_usd g n) b.ata_transactions = record {
        least = h.counted.least;
        most = h.counted.most;
      } in
      elim is_service
        as (λ x. AreTallied zero_usd (
          if x
          then count_ata (record b { senders = set requester v b.senders }) m
              (requested zero_usd g n) 1
          else record b {
            senders = set requester v b.senders;
            totals = some (requested zero_usd g n);
          })) [
            | true ↦
                ata-AreTallied (record b { senders = set requester v b.senders }) m
                  (requested zero_usd g n) 1 (omega arith) (omega arith) total same
            | false ↦ record { total = total; counted = same }
          ]

  pub signed-AreTallied :
      (b : Books) (m : Meta) (requester : Address) (n : ℕ) (is_service : Bool)
      → AreTallied zero_usd b
      → AreTallied zero_usd (book_signed_delivery zero_usd b m requester n is_service)
  unfolding book_signed_delivery signed_sender signed
  signed-AreTallied b m requester n is_service h =
      let g = get_global b.totals zero_usd in
      let old = or_sender (get requester b.senders) zero_usd in
      let counted = is_service && not (ata_transaction_exists b m) in
      let v = signed_sender zero_usd old n (one_if counted) in
      ata-AreTallied (record b { senders = set requester v b.senders }) m (signed zero_usd g n)
        (1 + one_if is_service) (omega arith) (two is_service)
        (write-IsTotal g (signed zero_usd g n) b.senders requester v n 0 n 1
          (refl, omega arith, refl, refl) (refl, omega arith, refl, omega arith)
          (omega (arith, h.total.transactions)) h.total)
        (record { least = h.counted.least; most = h.counted.most })

  pub delivery-AreTallied :
      (b : Books) (m : Meta) (n : ℕ)
      → AreTallied zero_usd b
      → AreTallied zero_usd (book_delivery zero_usd b m n)
  unfolding book_delivery delivered
  delivery-AreTallied b m n h =
      ata-AreTallied b m (delivered zero_usd (get_global b.totals zero_usd) n) 1 (omega arith)
        (omega arith)
        (record {
          requests = h.total.requests;
          marketplace = h.total.marketplace;
          off_chain = h.total.off_chain;
          sent = h.total.sent;
          transactions = omega (arith, h.total.transactions);
        })
        (record { least = h.counted.least; most = h.counted.most })

  pub direct-AreTallied :
      (b : Books) (m : Meta)
      → AreTallied zero_usd b
      → AreTallied zero_usd (book_direct_delivery zero_usd b m)
  unfolding book_direct_delivery
  direct-AreTallied b m h =
      ata-AreTallied b m (get_global b.totals zero_usd) 1 (omega arith) (omega arith) h.total
        h.counted
