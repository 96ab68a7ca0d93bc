-- ===== src/Marketplace/Books.antt =====
-- squids/marketplace/src/handlers.ts: what a request, a delivery and a fee add to the squid's totals and to
-- the sender's.
use autonolas_subgraph.Prelude.{
  ℕ, ◌+◌, ◌&&◌, Bool, true, false, not, Option, none, some, List, [], ◌∷◌, if◌then◌else◌,
}
use autonolas_subgraph.Prelude.Equality.{nat_eq}
use autonolas_subgraph.Prelude.Table.{get, set}
use autonolas_subgraph.Marketplace.State.{Address, Usd, Meta, Sender, Global, AtaTransaction, Books}
use autonolas_subgraph.Marketplace.Fees.{Decimals, gn_plus}

unfoldable pub new_global : Usd → Global
new_global zero_usd = record {
  total_mechs = 0;
  total_marketplace_requests = 0;
  total_marketplace_deliveries = 0;
  total_marketplace_deliveries_with_signatures = 0;
  total_off_chain_requests = 0;
  total_requests = 0;
  total_deliveries = 0;
  total_transactions = 0;
  total_ata_transactions = 0;
  total_fees_paid_usd = zero_usd;
}

abbrev pub get_global : Option Global → Usd → Global
get_global none zero_usd = new_global zero_usd
get_global (some g) zero_usd = g

unfoldable pub new_sender : Usd → Sender
new_sender zero_usd = record {
  total_legacy_requests = 0;
  total_legacy_transactions = 0;
  total_legacy_ata_transactions = 0;
  total_marketplace_requests = 0;
  total_off_chain_requests = 0;
  total_fees_paid_usd = zero_usd;
}

abbrev pub or_sender : Option Sender → Usd → Sender
or_sender none zero_usd = new_sender zero_usd
or_sender (some v) zero_usd = v

abbrev pub is_row : Option AtaTransaction → Bool
is_row none = false
is_row (some _) = true

unfoldable pub ata_transaction_exists : Books → Meta → Bool
ata_transaction_exists b m = is_row (get m.tx_hash b.ata_transactions)

abbrev pub ata_row : Meta → AtaTransaction
ata_row m = record { block_number = m.block_number; block_timestamp = m.block_timestamp }

-- The transaction is counted, with `more`, unless it is already.
unfoldable pub count_ata : Books → Meta → Global → ℕ → Books
count_ata b m g more =
    if ata_transaction_exists b m then record b { totals = some g } else record b {
      totals = some (record g { total_ata_transactions = g.total_ata_transactions + more });
      ata_transactions = set m.tx_hash (ata_row m) b.ata_transactions;
    }

abbrev pub one_if : Bool → ℕ
one_if true = 1
one_if false = 0

module _ (zero_usd : Usd) where
  unfoldable pub get_or_create_sender : Books → Address → Books
  get_or_create_sender b address = record b {
    senders = set address (or_sender (get address b.senders) zero_usd) b.senders;
  }

  -- `handleMarketplaceRequest`
  unfoldable pub requested : Global → ℕ → Global
  requested g n = record g {
    total_marketplace_requests = g.total_marketplace_requests + 1;
    total_requests = g.total_requests + n;
    total_transactions = g.total_transactions + 1;
  }

  unfoldable pub request_sender : Sender → ℕ → ℕ → Sender
  request_sender v n ata = record v {
    total_legacy_transactions = v.total_legacy_transactions + 1;
    total_marketplace_requests = v.total_marketplace_requests + 1;
    total_legacy_requests = v.total_legacy_requests + n;
    total_legacy_ata_transactions = v.total_legacy_ata_transactions + ata;
  }

  unfoldable pub book_request : Books → Meta → Address → ℕ → Bool → Books
  book_request b m requester n is_service =
      let counted = is_service && not (ata_transaction_exists b m) in
      let v = request_sender (or_sender (get requester b.senders) zero_usd) n (one_if counted) in
      let b' : Books = record b { senders = set requester v b.senders } in
      let g = requested (get_global b.totals zero_usd) n in
      if is_service then count_ata b' m g 1 else record b' { totals = some g }

  -- `handleMarketplaceDelivery`
  unfoldable pub delivered : Global → ℕ → Global
  delivered g n = record g {
    total_deliveries = g.total_deliveries + n;
    total_marketplace_deliveries = g.total_marketplace_deliveries + 1;
    total_transactions = g.total_transactions + 1;
  }

  unfoldable pub book_delivery : Books → Meta → ℕ → Books
  book_delivery b m n = count_ata b m (delivered (get_global b.totals zero_usd) n) 1

  -- A delivery straight from a mech.
  unfoldable pub book_direct_delivery : Books → Meta → Books
  book_direct_delivery b m = count_ata b m (get_global b.totals zero_usd) 1

  -- `handleMarketplaceDeliveryWithSignatures`
  unfoldable pub signed : Global → ℕ → Global
  signed g n = record g {
    total_requests = g.total_requests + n;
    total_off_chain_requests = g.total_off_chain_requests + n;
    total_deliveries = g.total_deliveries + n;
    total_marketplace_deliveries_with_signatures =
        g.total_marketplace_deliveries_with_signatures + 1;
    total_transactions = g.total_transactions + 2;
  }

  unfoldable pub signed_sender : Sender → ℕ → ℕ → Sender
  signed_sender v n ata = record v {
    total_off_chain_requests = v.total_off_chain_requests + n;
    total_legacy_requests = v.total_legacy_requests + n;
    total_legacy_transactions = v.total_legacy_transactions + 1;
    total_legacy_ata_transactions = v.total_legacy_ata_transactions + ata;
  }

  unfoldable pub book_signed_delivery : Books → Meta → Address → ℕ → Bool → Books
  book_signed_delivery b m requester n is_service =
      let counted = is_service && not (ata_transaction_exists b m) in
      let v = signed_sender (or_sender (get requester b.senders) zero_usd) n (one_if counted) in
      count_ata (record b { senders = set requester v b.senders }) m
        (signed (get_global b.totals zero_usd) n) (1 + one_if is_service)

  unfoldable pub book_mech : Books → Books
  book_mech b =
      let g = get_global b.totals zero_usd in
      record b { totals = some (record g { total_mechs = g.total_mechs + 1 }) }

-- `bumpRequestsPerAgent`
abbrev pub or_count : Option ℕ → ℕ
or_count none = 0
or_count (some n) = n

unfoldable pub bump_requests_per_agent : Books → List ℕ → ℕ → Books
bump_requests_per_agent b [] n = b
bump_requests_per_agent b (agent ∷ agents) n =
    bump_requests_per_agent
      (record b {
        requests_per_agent =
            set agent (or_count (get agent b.requests_per_agent) + n) b.requests_per_agent;
      })
      agents n

-- The part of `updateFeesOnDelivery` that sums.
module _ (d : Decimals) where
  abbrev pub pay_sender : Books → Option Address → Usd → Books
  pay_sender b none usd = b
  pay_sender b (some address) usd = elim (get address b.senders) [
    | none ↦ b
    | some v ↦ record b {
      senders =
          set address (record v { total_fees_paid_usd = gn_plus d v.total_fees_paid_usd usd })
            b.senders;
    }
  ]

  unfoldable pub pay_fee : Books → Option Address → Usd → Books
  pay_fee b sender usd =
      let b' = pay_sender b sender usd in
      let g = get_global b'.totals d.zero_usd in
      record b' {
        totals = some (record g { total_fees_paid_usd = gn_plus d g.total_fees_paid_usd usd });
      }
