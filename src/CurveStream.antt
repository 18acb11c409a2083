-- ===== src/CurveStream.antt =====
-- What the curve stream reads and writes: the rows of packages/database/src/repositories/token.ts, and
-- the events and the outside of apps/indexer/src/processors/curve.ts. The decoder of logs, the reads of
-- contracts, the times of blocks and the clock are parameters.
use stunks.Prelude.{ℕ, Option, List, ok, err}
use stunks.Prelude.Int.{ℤ, pos}
use stunks.Prelude.Text.{Text}
use stunks.Money.{Fallible}
use stunks.Graduation.{GraduationPhase, LaunchedToken}
use stunks.Quote.{CurveState}
use stunks.LogSource.{RawLog}
use stunks.Trades.{Table}

pub record TokenStats : Type 0 where
  pub real_quote_reserve : ℤ
  pub graduation_bps : ℤ
  pub price : ℤ
  pub market_cap : ℤ
  pub volume24h : ℤ
  pub volume_total : ℤ
  pub holder_count : ℕ
  pub trade_count : ℕ
  pub buy_count : ℕ
  pub sell_count : ℕ
  pub last_trade_at : Option ℕ

-- A row of the table of tokens, as far as the processor reads and writes it.
pub record Token : Type 0 where
  pub id : Text
  pub chain_id : ℕ
  pub address : Text
  pub curve_address : Text
  pub total_supply : ℤ
  pub phase : GraduationPhase
  pub stats : TokenStats

pub record Database : Type 0 where
  pub trades : Table
  pub tokens : List Token

pub record TokenInfo : Type 0 where
  pub curve_address : Text
  pub total_supply : ℤ
  pub holder_count : ℕ

-- The arguments of `CurveBuy` (`quoteIn`, `tokensOut`, `buyer`) and of `CurveSell` (`quoteOut`,
-- `tokensIn`, `seller`).
pub record CurveTrade : Type 0 where
  pub quote_amount : ℤ
  pub token_amount : ℤ
  pub trader : Text
  pub recipient : Text
  pub fee : ℤ
  pub tax : ℤ

pub data PonsEvent : Type 0 where
  curve_buy curve_sell : CurveTrade → PonsEvent
  auto_graduation_failed curve_completed other_event : PonsEvent

pub record ProcessorDeps : Type 0 where
  pub chain_id : ℕ
  pub decode : RawLog → Option PonsEvent
  pub block_time : ℕ → Option ℕ  -- `none`: the call threw
  pub read_curve_state : Text → Option CurveState  -- `none`: the call threw
  pub read_launched_token : Text → Option LaunchedToken  -- `none`: the call threw
  pub now : ℕ
  pub min_trade_size : ℤ
  pub excluded_addresses : List Text

abbrev pub amount_of : Fallible ℤ → ℤ
amount_of (ok amount) = amount
amount_of (err fault) = pos 0
