-- ===== src/Pricing.antt =====
-- The prices of settled trades: apps/indexer/src/pricing.ts.
pub mod Priced
use stunks.Prelude.{
  ℕ, Bool, true, false, ◌||◌, Option, none, some, List, Result, ok, err, if◌then◌else◌, any_by,
}
use stunks.Prelude.Int.{ℤ, pos, ltb_ℤ, leb_ℤ}
use stunks.Prelude.Text.{Text, lower, text_eq}
use stunks.Money.{Fallible, mul_div}

abbrev pub price_scale : ℤ
price_scale = pos 1_000_000_000_000_000_000_000_000_000

pub record TradeAmounts : Type 0 where
  pub quote_amount : ℤ
  pub token_amount : ℤ

unfoldable pub price_from_trade : TradeAmounts → Fallible ℤ
unfolding mul_div
price_from_trade amounts =
    if leb_ℤ amounts.token_amount (pos 0)
    then ok (pos 0)
    else if leb_ℤ amounts.quote_amount (pos 0)
    then ok (pos 0)
    else mul_div amounts.quote_amount price_scale amounts.token_amount

unfoldable pub price_from_reserves : ℤ → ℤ → Fallible ℤ
unfolding mul_div
price_from_reserves pricing_quote_reserve token_reserve =
    if leb_ℤ token_reserve (pos 0)
    then ok (pos 0)
    else mul_div pricing_quote_reserve price_scale token_reserve

unfoldable pub market_cap_from_price : ℤ → ℤ → Fallible ℤ
unfolding mul_div
market_cap_from_price price total_supply =
    if leb_ℤ price (pos 0) || leb_ℤ total_supply (pos 0)
    then ok (pos 0)
    else mul_div price total_supply price_scale

unfoldable pub volume_from_trade : TradeAmounts → ℤ
volume_from_trade amounts =
    if ltb_ℤ (pos 0) amounts.quote_amount then amounts.quote_amount else pos 0

pub data Exclusion : Type 0 where
  below_min_trade_size address_excluded bundle_recipient : Exclusion

pub record CompetitionArgs : Type 0 where
  pub trader_address : Text
  pub recipient_address : Text
  pub quote_amount : ℤ
  pub min_trade_size : ℤ
  pub excluded_addresses : List Text
  pub bundle_wallets : Option (List Text)

abbrev pub is_listed : List Text → Text → Bool
is_listed addresses key = any_by (λ address. text_eq (lower address) key) addresses

-- `bundleWallets?.some(…)`.
abbrev pub is_bundle_wallet : Option (List Text) → Text → Bool
is_bundle_wallet none key = false
is_bundle_wallet (some wallets) key = is_listed wallets key

-- The reason of an exclusion, if the trade is excluded.
unfoldable pub competition_exclusion : CompetitionArgs → Option Exclusion
unfolding text_eq
competition_exclusion args =
    if ltb_ℤ args.quote_amount args.min_trade_size
    then some below_min_trade_size
    else if is_listed args.excluded_addresses (lower args.trader_address)
    then some address_excluded
    else if is_bundle_wallet args.bundle_wallets (lower args.recipient_address)
    then some bundle_recipient
    else none
