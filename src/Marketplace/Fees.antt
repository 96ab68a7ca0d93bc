-- ===== src/Marketplace/Fees.antt =====
-- squids/marketplace/src/fee.ts: an amount of a fee unit in dollars. The decimals of the library are a
-- parameter, and so is what the chain answers.
use autonolas_subgraph.Prelude.{ℕ, ◌||◌, Bool, Option, none, some, ◌==◌, if◌then◌else◌}
use autonolas_subgraph.Prelude.Int.{ℤ, pos}
use autonolas_subgraph.Marketplace.State.{Address, Usd, FeeUnit, native, token, usdc, nvm_credits}

-- `BigDecimal`: exact operations, powers of ten, and the rounding to 34 digits.
pub record Decimals : Type 0 where
  pub zero_usd : Usd
  pub is_zero : Usd → Bool
  pub of_int : ℤ → Usd
  pub plus : Usd → Usd → Usd
  pub times : Usd → Usd → Usd
  pub div : Usd → Usd → Usd
  pub prec : Usd → Usd
  pub pow10 : ℕ → Usd

pub record UsdPrice : Type 0 where
  pub answer : ℤ
  pub decimals : ℕ

pub record OlasPoolBalances : Type 0 where
  pub olas : ℕ
  pub stable : ℕ
  pub has_missing_tokens : Bool

pub record NvmCredits : Type 0 where
  pub ratio : Usd
  pub token_decimals : ℕ

pub record FactoryConfig : Type 0 where
  pub payment_type : ℕ
  pub fee_unit : FeeUnit

-- `ChainConfig`, with the decimals of the pool's stablecoin, and the sources; `none` where a read fails.
pub record Chain : Type 0 where
  pub decimals : Decimals
  pub mech_marketplace : Address
  pub factory_config : Address → Option FactoryConfig
  pub native_decimals : ℕ
  pub usdc_decimals : ℕ
  pub olas_pool : Option ℕ
  pub nvm : Option NvmCredits
  pub usd_at : ℕ → Option UsdPrice
  pub balances_at : ℕ → Option OlasPoolBalances

module _ (d : Decimals) where
  unfoldable pub gn : Usd → Usd
  gn x = if d.is_zero x then d.zero_usd else d.prec x

  unfoldable pub gn_times : Usd → Usd → Usd
  gn_times a b = gn (d.times a b)

  unfoldable pub gn_div : Usd → Usd → Usd
  gn_div a b = gn (d.div a b)

  unfoldable pub gn_plus : Usd → Usd → Usd
  gn_plus a b = gn (d.plus a b)

  unfoldable pub dec : ℤ → Usd
  dec x = gn (d.of_int x)

  unfoldable pub native_to_usd : ℕ → UsdPrice → ℕ → Usd
  native_to_usd amount p decimals =
      gn_div (gn_div (gn_times (dec (pos amount)) (dec p.answer)) (d.pow10 p.decimals))
        (d.pow10 decimals)

  unfoldable pub stable_to_usd : ℕ → ℕ → Usd
  stable_to_usd amount decimals = gn_div (dec (pos amount)) (d.pow10 decimals)

  unfoldable pub nvm_credits_to_usd : ℕ → NvmCredits → Usd
  nvm_credits_to_usd credits nvm =
      gn_div (gn_div (gn_times (dec (pos credits)) (gn nvm.ratio)) (d.pow10 18))
        (d.pow10 nvm.token_decimals)

  -- Nothing for an empty pool.
  unfoldable pub olas_to_usd : ℕ → OlasPoolBalances → ℕ → Option Usd
  olas_to_usd amount b stable_decimals =
      let amount_dec = gn_div (dec (pos amount)) (d.pow10 18) in
      let olas_bal = gn_div (dec (pos b.olas)) (d.pow10 18) in
      let stable_bal = gn_div (dec (pos b.stable)) (d.pow10 stable_decimals) in
      if b.olas == 0 || b.stable == 0
      then none
      else some (gn_times amount_dec (gn_div stable_bal olas_bal))

  abbrev pub or_zero : Option Usd → Usd
  or_zero none = d.zero_usd
  or_zero (some usd) = usd

  abbrev pub at_price : ℕ → ℕ → Option UsdPrice → Usd
  at_price amount decimals none = d.zero_usd
  at_price amount decimals (some p) = native_to_usd amount p decimals

  abbrev pub at_balances : ℕ → ℕ → Option OlasPoolBalances → Usd
  at_balances amount stable_decimals none = d.zero_usd
  at_balances amount stable_decimals (some b) =
      if b.has_missing_tokens then d.zero_usd else or_zero (olas_to_usd amount b stable_decimals)

  abbrev pub at_pool : ℕ → Option ℕ → Option OlasPoolBalances → Usd
  at_pool amount none balances = d.zero_usd
  at_pool amount (some stable_decimals) balances = at_balances amount stable_decimals balances

  abbrev pub at_ratio : ℕ → Option NvmCredits → Usd
  at_ratio amount none = d.zero_usd
  at_ratio amount (some nvm) = nvm_credits_to_usd amount nvm

unfoldable pub convert_fee_to_usd : Chain → ℕ → FeeUnit → ℕ → Usd
convert_fee_to_usd c amount native block =
    at_price c.decimals amount c.native_decimals (c.usd_at block)
convert_fee_to_usd c amount usdc block = stable_to_usd c.decimals amount c.usdc_decimals
convert_fee_to_usd c amount token block =
    at_pool c.decimals amount c.olas_pool (c.balances_at block)
convert_fee_to_usd c amount nvm_credits block = at_ratio c.decimals amount c.nvm

-- The unit of a factory that is not listed is the native one.
abbrev pub fee_unit_of : Option FactoryConfig → FeeUnit
fee_unit_of none = native
fee_unit_of (some config) = config.fee_unit

unfoldable pub calculate_max_delivery_rate_usd : Chain → ℕ → Address → ℕ → Usd
calculate_max_delivery_rate_usd c rate factory block =
    convert_fee_to_usd c rate (fee_unit_of (c.factory_config factory)) block
