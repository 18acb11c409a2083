-- ===== src/Tests/Trades.antt =====
-- A window of two logs of one curve, recorded and processed, and the price of one trade.
use stunks.Prelude.{
  ℕ, zero, suc, ◌+◌, ◌*◌, ◌≤◌, ◌<◌, ◌≡◌, refl, Option, none, some, List, [], ◌∷◌, ◌++◌, ok, length,
  arith,
}
use stunks.Prelude.Int.{pos}
use stunks.Graduation.{not_graduated}
use stunks.LogSource.{RawLog}
use stunks.Quote.{CurveState}
use stunks.Pricing.{price_from_trade, market_cap_from_price}
use stunks.Pricing.Priced.{price_from_trade_bounds}
use stunks.Trades.{Trade, record_many}
use stunks.Trades.Replay.{IsKeyed, record_many_overlap}
use stunks.CurveStream.{Token, Database, PonsEvent, curve_buy, curve_sell, ProcessorDeps}
use stunks.StatsRefresh.{refresh_token_stats_batch}
use stunks.StatsRefresh.Singly.{refresh_each, refresh_token_stats_batch-refresh_each}
use stunks.CurveLogs.{ProcessResult, process_curve_logs}
use stunks.CurveLogs.Replayed.{all_known, process_curve_logs_twice}
use stunks.Tests.Quotes.{state}

price_from_trade_bounds_example :
    (price : ℕ) × (cap : ℕ) × (price_from_trade
        (record { quote_amount = pos 2823; token_amount = pos 540_440 })
      ≡ ok (pos price))
    × (market_cap_from_price (pos price) (pos 1_000_000) ≡ ok (pos cap))
    × (price * 540_440 ≤ 2823 * 1_000_000_000_000_000_000_000_000_000)
    × (2823 * 1_000_000_000_000_000_000_000_000_000 < (price + 1) * 540_440)
    × (cap * 540_440 ≤ 2823 * 1_000_000)
price_from_trade_bounds_example =
    price_from_trade_bounds 2823 540_440 1_000_000 (omega arith) (omega arith)

abbrev raw : ℕ → RawLog
raw index = record {
  address = b'A' ∷ [];
  topics = [];
  log_data = [];
  block_number = 7;
  block_hash = [];
  transaction_hash = 5 ∷ [];
  log_index = index;
}

abbrev trade : ℕ → Trade
trade index = record {
  chain_id = 1;
  transaction_hash = 5 ∷ [];
  log_index = index;
  block_number = 7;
  block_hash = [];
  token_id = 9 ∷ [];
  curve_address = none;
  trader_address = b'B' ∷ [];
  recipient_address = b'b' ∷ [];
  side = stunks.Quote.buy_side;
  token_amount = pos 100;
  quote_amount = pos 10;
  fee_amount = pos 1;
  creator_tax_amount = pos 0;
  snipe_tax_amount = pos 0;
  refund_amount = pos 0;
  price = pos 3;
  market_cap = pos 30;
  timestamp = 1_000;
  exclusion = none;
}

-- Three windows of one log each, of which the second is recorded twice.
record_many_overlap_example :
    let first = record_many (trade 0 ∷ [] ++ trade 1 ∷ []) [] in
    let second = record_many (trade 1 ∷ [] ++ trade 2 ∷ []) first.1 in
    (second.1 ≡ (record_many (trade 0 ∷ [] ++ (trade 1 ∷ [] ++ trade 2 ∷ [])) []).1)
    × IsKeyed second.1
    × (length second.1 ≡ 0 + first.0 + second.0)
    × (record_many (trade 1 ∷ [] ++ trade 2 ∷ []) second.1 ≡ (0, second.1))
record_many_overlap_example = record_many_overlap (trade 0 ∷ []) (trade 1 ∷ []) (trade 2 ∷ []) [] tt

abbrev token : Token
token = record {
  id = 9 ∷ [];
  chain_id = 1;
  address = b'e' ∷ [];
  curve_address = b'a' ∷ [];
  total_supply = pos 1_000_000;
  phase = not_graduated;
  stats = record {
    real_quote_reserve = pos 0;
    graduation_bps = pos 0;
    price = pos 0;
    market_cap = pos 0;
    volume24h = pos 0;
    volume_total = pos 0;
    holder_count = 4;
    trade_count = 0;
    buy_count = 0;
    sell_count = 0;
    last_trade_at = none;
  };
}

-- The first log is a buy, the second a sale.
abbrev event_of : ℕ → PonsEvent
event_of zero = curve_buy (record {
  quote_amount = pos 10;
  token_amount = pos 100;
  trader = b'B' ∷ [];
  recipient = b'b' ∷ [];
  fee = pos 1;
  tax = pos 0;
})
event_of (suc index) = curve_sell (record {
  quote_amount = pos 5;
  token_amount = pos 60;
  trader = b'b' ∷ [];
  recipient = b'b' ∷ [];
  fee = pos 1;
  tax = pos 0;
})

abbrev deps : ProcessorDeps
deps = record {
  chain_id = 1;
  decode = λ log. some (event_of log.log_index);
  block_time = λ block. some 1_000;
  read_curve_state = λ curve. some state;
  read_launched_token = λ address. none;
  now = 90_000_000;
  min_trade_size = pos 0;
  excluded_addresses = [];
}

abbrev before : Database
before = record { trades = trade 0 ∷ trade 3 ∷ []; tokens = token ∷ [] }

refresh_token_stats_batch-refresh_each_example :
    refresh_token_stats_batch deps ((9 ∷ []) ∷ (8 ∷ []) ∷ []) before
    ≡ refresh_each deps ((9 ∷ []) ∷ (8 ∷ []) ∷ []) before
refresh_token_stats_batch-refresh_each_example =
    refresh_token_stats_batch-refresh_each deps ((9 ∷ []) ∷ (8 ∷ []) ∷ []) before

abbrev window : List RawLog
window = raw 0 ∷ raw 1 ∷ raw 0 ∷ []

abbrev outcome : Option (ProcessResult × Database) → ProcessResult × Database
outcome (some result) = result
outcome none = (record { trades = 0; duplicates = 0; unmatched = 0; tokens_touched = 0 }, before)

abbrev processed : ProcessResult × Database
processed = outcome (process_curve_logs deps window (record { trades = []; tokens = token ∷ [] }))

processes :
    process_curve_logs deps window (record { trades = []; tokens = token ∷ [] }) ≡ some processed
unfolding process_curve_logs
processes = refl

inserted : processed.0.trades ≡ 2
unfolding process_curve_logs
inserted = refl

duplicated : processed.0.duplicates ≡ 1
unfolding process_curve_logs
duplicated = refl

process_curve_logs_twice_example :
    process_curve_logs deps window processed.1 ≡ some (all_known processed.0, processed.1)
process_curve_logs_twice_example =
    process_curve_logs_twice deps window (record { trades = []; tokens = token ∷ [] }) processed.1
      processed.0 processes
