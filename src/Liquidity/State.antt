-- ===== src/Liquidity/State.antt =====
-- squids/liquidity/src/model/generated and logic.ts: the rows of the squid and the arithmetic of its fees.
use autonolas_subgraph.Prelude.{
  ℕ, ◌-◌, ◌*◌, ◌/◌, ◌^◌, Bool, true, false, Option, List, ltb, if◌then◌else◌,
}
use autonolas_subgraph.Prelude.Int.{ℤ}
use autonolas_subgraph.Prelude.Table.{Table}

abbrev pub Address : Type 0
Address = ℕ

-- `EventMeta`
pub record Meta : Type 0 where
  pub address : Address
  pub block_number : ℕ
  pub block_timestamp : ℕ
  pub tx_hash : ℕ
  pub log_index : ℕ

pub data DexKind : Type 0 where
  balancer_v2 uniswap_v2 : DexKind

pub record PoolMetrics : Type 0 where
  pub dex : DexKind
  pub pool_id : Option ℕ
  pub token0 : Option Address
  pub token1 : Option Address
  pub reserve0 : ℕ
  pub reserve1 : ℕ
  pub total_supply : ℕ
  pub reserves_refreshed_at_block : ℕ
  pub total_minted : ℕ
  pub total_burned : ℕ
  pub cumulative_fees_token0 : ℕ
  pub cumulative_fees_token1 : ℕ
  pub swap_fee_percentage : ℕ
  pub native_usd_price : ℤ
  pub last_updated_block : ℕ
  pub last_updated_timestamp : ℕ
  pub last_updated_transaction : ℕ

pub record DailyFees : Type 0 where
  pub pool : Address
  pub day_timestamp : ℕ
  pub total_fees_token0 : ℕ
  pub total_fees_token1 : ℕ
  pub swap_count : ℕ

pub record PriceData : Type 0 where
  pub price : ℤ
  pub decimals : ℕ
  pub last_updated_block : ℕ
  pub last_updated_timestamp : ℕ

-- `BPTTransfer`
pub record BptTransfer : Type 0 where
  pub pool : Address
  pub from : Address
  pub to : Address
  pub value : ℕ
  pub block_number : ℕ
  pub block_timestamp : ℕ
  pub transaction_hash : ℕ

-- The cache, as the reads of the batch see it: `saved` are the pools whose row the flush writes, `named`
-- those whose id was set in place, which is lost where the flush does not write the row.
pub record State : Type 0 where
  pub metrics : Table Address PoolMetrics
  pub daily_fees : Table (Address × ℕ) DailyFees
  pub price_data : Option PriceData
  pub transfers : Table (ℕ × ℕ) BptTransfer
  pub saved : List Address
  pub named : List Address

-- An answer of the feed: `p.answer` and `p.decimals`.
pub record UsdPrice : Type 0 where
  pub answer : ℤ
  pub decimals : ℕ

-- `Ctx`: the configured pools, and what the chain answers, `none` where a call fails.
pub record Ctx : Type 0 where
  pub pools : Address → Option DexKind
  pub balancer_vault : Address
  pub pool_id : Address → Option ℕ
  pub swap_fee_percentage : Address → ℕ → Option ℕ
  pub reserves_at : Address → ℕ → Option (List Address × List ℕ)
  pub pair_tokens : Address → Option (Address × Address)
  pub price : Option (ℕ → Option UsdPrice)

pub data Error : Type 0 where
  not_configured : Address → Error

unfoldable pub uniswap_v2_fee : ℕ → ℕ
uniswap_v2_fee amount_in = amount_in * 3 / 1000

abbrev pub wei : ℕ
wei = 10 ^ 18

unfoldable pub balancer_fee : ℕ → ℕ → ℕ
balancer_fee amount_in percentage = amount_in * percentage / wei

-- What is left, and whether it was cut off at 0.
unfoldable pub subtract_clamped : ℕ → ℕ → ℕ × Bool
subtract_clamped reserve out = if ltb reserve out then (0, true) else (reserve - out, false)

-- The first 20 of an id's 32 bytes.
unfoldable pub pool_address_from_pool_id : ℕ → Address
pool_address_from_pool_id id = id / 2 ^ 96

abbrev pub day_of : ℕ → ℕ
day_of timestamp = timestamp / 86400 * 86400
