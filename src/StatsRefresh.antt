-- ===== src/StatsRefresh.antt =====
-- The stats of tokens, recomputed from the stored trades: refreshTokenStatsBatch and refreshTokenStats
-- of apps/indexer/src/processors/curve.ts, with the reads and writes of
-- packages/database/src/repositories/trade-batch.ts and token.ts that they make. The market cap divides
-- by what is not zero, so that it never throws.
pub mod Carried
pub mod Singly
use stunks.Prelude.{ℕ, ◌-◌, Bool, Option, none, some, List, [], ◌∷◌, ok, if◌then◌else◌}
use stunks.Prelude.Int.{ℤ, pos, ltb_ℤ}
use stunks.Prelude.Text.{Text, text_eq, has}
use stunks.Money.{ratio_bps, basis_points}
use stunks.Quote.{CurveState}
use stunks.Pricing.{market_cap_from_price}
use stunks.Trades.{
  Trade, Dict, TokenTradeAggregate, lookup, aggregate_for_token, aggregate_for_tokens,
  latest_for_token, latest_for_tokens, or_zeros, or_none,
}
use stunks.CurveStream.{TokenStats, Token, Database, TokenInfo, ProcessorDeps, amount_of}

-- `graduationBps` and the reserve: zeros where the state of the curve is not known.
abbrev pub capped : ℤ → ℤ
capped bps = if ltb_ℤ basis_points bps then basis_points else bps

abbrev pub reserve_of : Option CurveState → ℤ
reserve_of none = pos 0
reserve_of (some state) = state.real_quote_reserve

unfoldable pub graduation_bps_of : Option CurveState → ℤ
unfolding ratio_bps
graduation_bps_of none = pos 0
graduation_bps_of (some state) =
    capped (ratio_bps state.real_quote_reserve state.graduation_threshold)

abbrev pub price_of : Option Trade → ℤ
price_of none = pos 0
price_of (some t) = t.price

abbrev pub time_of : Option Trade → Option ℕ
time_of none = none
time_of (some t) = some t.timestamp

abbrev pub info_of : Token → TokenInfo
info_of t = record {
  curve_address = t.curve_address;
  total_supply = t.total_supply;
  holder_count = t.stats.holder_count;
}

unfoldable pub find_by_id : List Token → Text → Option TokenInfo
unfolding text_eq
find_by_id [] id = none
find_by_id (t ∷ tokens) id = if text_eq t.id id then some (info_of t) else find_by_id tokens id

-- `curveAddressesFor`.
unfoldable pub curve_addresses_for : List Token → List Text → Dict TokenInfo
unfolding has
curve_addresses_for [] ids = []
curve_addresses_for (t ∷ tokens) ids =
    let rest = curve_addresses_for tokens ids in
    if has t.id ids then (t.id, info_of t) ∷ rest else rest

-- An absent last trade leaves the time that is there.
abbrev pub coalesce : Option ℕ → Option ℕ → Option ℕ
coalesce (some new) old = some new
coalesce none old = old

abbrev pub with_stats : Option TokenStats → Token → Token
with_stats none t = t
with_stats (some s) t = record t {
  stats = record s { last_trade_at = coalesce s.last_trade_at t.stats.last_trade_at };
}

-- `updateStatsMany`: each row of the table takes the values with its id.
unfoldable pub update_stats_many : Dict TokenStats → List Token → List Token
unfolding lookup
update_stats_many rows [] = []
update_stats_many rows (t ∷ tokens) =
    with_stats (lookup t.id rows) t ∷ update_stats_many rows tokens

abbrev pub add_row : {V : Type 0} → Text → Option V → Dict V → Dict V
add_row id none rows = rows
add_row id (some v) rows = (id, v) ∷ rows

-- `updateStats`.
unfoldable pub update_stats : Text → Option TokenStats → List Token → List Token
unfolding text_eq
update_stats id stats [] = []
update_stats id stats (t ∷ tokens) =
    (if text_eq t.id id then with_stats stats t else t) ∷ update_stats id stats tokens

module _ (deps : ProcessorDeps) where
  unfoldable pub new_stats :
      TokenInfo → TokenTradeAggregate → TokenTradeAggregate → Option Trade → TokenStats
  unfolding graduation_bps_of market_cap_from_price
  new_stats token aggregate day_aggregate last_trade =
      let state = deps.read_curve_state token.curve_address in
      record {
        real_quote_reserve = reserve_of state;
        graduation_bps = graduation_bps_of state;
        price = price_of last_trade;
        market_cap = amount_of (market_cap_from_price (price_of last_trade) token.total_supply);
        volume24h = day_aggregate.volume;
        volume_total = aggregate.volume;
        holder_count = token.holder_count;
        trade_count = aggregate.trade_count;
        buy_count = aggregate.buy_count;
        sell_count = aggregate.sell_count;
        last_trade_at = time_of last_trade;
      }

  -- The time 24 hours before; times are milliseconds.
  abbrev pub since : Option ℕ
  since = some (deps.now - 86_400_000)

  abbrev pub stats_from :
      Option TokenInfo
      → TokenTradeAggregate
      → TokenTradeAggregate
      → Option Trade
      → Option TokenStats
  stats_from none aggregate day_aggregate last_trade = none
  stats_from (some token) aggregate day_aggregate last_trade =
      some (new_stats token aggregate day_aggregate last_trade)

  -- The loop that builds the rows.
  unfoldable pub stats_rows :
      Dict TokenInfo
      → Dict TokenTradeAggregate
      → Dict TokenTradeAggregate
      → Dict (Option Trade)
      → List Text
      → Dict TokenStats
  unfolding new_stats lookup
  stats_rows tokens totals daily latest [] = []
  stats_rows tokens totals daily latest (id ∷ ids) =
      add_row id
        (stats_from (lookup id tokens) (or_zeros (lookup id totals)) (or_zeros (lookup id daily))
          (or_none (lookup id latest)))
        (stats_rows tokens totals daily latest ids)

  unfoldable pub refresh_token_stats_batch : List Text → Database → Database
  unfolding update_stats_many stats_rows curve_addresses_for aggregate_for_tokens latest_for_tokens
  refresh_token_stats_batch [] db = db
  refresh_token_stats_batch (id ∷ ids) db =
      let rows =
        stats_rows (curve_addresses_for db.tokens (id ∷ ids))
          (aggregate_for_tokens db.trades (id ∷ ids) none)
          (aggregate_for_tokens db.trades (id ∷ ids) since) (latest_for_tokens db.trades (id ∷ ids))
          (id ∷ ids) in
      record db { tokens = update_stats_many rows db.tokens }

  unfoldable pub refresh_token_stats : Text → Database → Database
  unfolding update_stats find_by_id new_stats aggregate_for_token latest_for_token
  refresh_token_stats id db = record db {
    tokens =
        update_stats id
          (stats_from (find_by_id db.tokens id) (aggregate_for_token db.trades id none)
            (aggregate_for_token db.trades id since) (latest_for_token db.trades id))
          db.tokens;
  }
