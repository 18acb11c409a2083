-- ===== src/CurveLogs.antt =====
-- The processor of the curve stream: apps/indexer/src/processors/curve.ts, with the writes of
-- packages/database/src/repositories/token.ts and trade-batch.ts that it makes. The database is the two
-- tables. The price and the market cap divide by what is not zero, so that they never throw.
pub mod Phases
pub mod Replayed
use stunks.Prelude.{
  ℕ, zero, suc, ◌+◌, ◌-◌, Bool, true, false, not, ◌&&◌, Option, none, some, List, [], ◌∷◌, ◌++◌,
  map, Result, ok, err, ltb, ◌==◌, if◌then◌else◌, length,
}
use stunks.Prelude.Int.{ℤ, pos, ltb_ℤ}
use stunks.Prelude.Text.{Text, lower, text_eq, has}
use stunks.Money.{Fallible, ratio_bps, basis_points}
use stunks.Graduation.{GraduationPhase, LaunchedToken}
use stunks.Quote.{TradeSide, buy_side, sell_side}
use stunks.LogSource.{RawLog}
use stunks.Pricing.{Exclusion, price_from_trade, market_cap_from_price, competition_exclusion}
use stunks.Trades.{Trade, Dict, lookup, record_many}
use stunks.CurveStream.{
  Token, Database, CurveTrade, PonsEvent, curve_buy, curve_sell, auto_graduation_failed,
  curve_completed, other_event, ProcessorDeps, amount_of,
}
use stunks.StatsRefresh.{refresh_token_stats_batch}

-- What `findManyByCurves` gives of a token, less the count of holders, which the loop does not use.
pub record TokenRef : Type 0 where
  pub id : Text
  pub address : Text
  pub total_supply : ℤ

pub record ProcessResult : Type 0 where
  pub trades : ℕ
  pub duplicates : ℕ
  pub unmatched : ℕ
  pub tokens_touched : ℕ

-- A token of the chain whose curve was asked for; a curve has one token, so the first is the one.
unfoldable pub find_many_by_curves : List Token → ℕ → List Text → Dict TokenRef
unfolding has
find_many_by_curves [] chain_id curves = []
find_many_by_curves (t ∷ tokens) chain_id curves =
    let rest = find_many_by_curves tokens chain_id curves in
    if t.chain_id == chain_id && has t.curve_address (map lower curves)
    then (t.curve_address, record { id = t.id; address = t.address; total_supply = t.total_supply })
      ∷ rest
    else rest

-- What the loop over the logs has collected.
pub record Gathered : Type 0 where
  pub pending : List Trade
  pub unmatched : ℕ
  pub touched : List Text
  pub phase_syncs : List (Text × Text)

unfoldable pub set_phase : Text → GraduationPhase → List Token → List Token
unfolding text_eq
set_phase id phase [] = []
set_phase id phase (t ∷ tokens) =
    (if text_eq t.id id then record t { phase = phase } else t) ∷ set_phase id phase tokens

abbrev pub add_to_set : Text → List Text → List Text
add_to_set id set = if has id set then set else set ++ id ∷ []

abbrev pub on_phase : Option TokenRef → Gathered → Gathered
on_phase none so_far = so_far
on_phase (some token) so_far = record so_far {
  phase_syncs = so_far.phase_syncs ++ (token.id, token.address) ∷ [];
}

abbrev pub and_then : {A B : Type 0} → Option A → (A → Option B) → Option B
and_then none next = none
and_then (some a) next = next a

abbrev pub addresses_of : List RawLog → List Text
addresses_of logs = map (λ raw. lower raw.address) logs

abbrev pub nothing_yet : Gathered
nothing_yet = record { pending = []; unmatched = 0; touched = []; phase_syncs = [] }

module _ (deps : ProcessorDeps) where
  unfoldable pub trade_row : RawLog → TradeSide → CurveTrade → TokenRef → ℕ → Trade
  unfolding price_from_trade market_cap_from_price competition_exclusion
  trade_row raw side event token timestamp =
      let price = amount_of (
        price_from_trade
          (record { quote_amount = event.quote_amount; token_amount = event.token_amount })) in
      record {
        chain_id = deps.chain_id;
        transaction_hash = raw.transaction_hash;
        log_index = raw.log_index;
        block_number = raw.block_number;
        block_hash = raw.block_hash;
        token_id = token.id;
        curve_address = some (lower raw.address);
        trader_address = event.trader;
        recipient_address = event.recipient;
        side = side;
        token_amount = event.token_amount;
        quote_amount = event.quote_amount;
        fee_amount = event.fee;
        creator_tax_amount = event.tax;
        snipe_tax_amount = pos 0;
        refund_amount = pos 0;
        price = price;
        market_cap = amount_of (market_cap_from_price price token.total_supply);
        timestamp = timestamp;
        exclusion = competition_exclusion (record {
          trader_address = event.trader;
          recipient_address = event.recipient;
          quote_amount = event.quote_amount;
          min_trade_size = deps.min_trade_size;
          excluded_addresses = deps.excluded_addresses;
          bundle_wallets = none;
        });
      }

  -- A trade once its token was looked up, and the time of its block was read.
  unfoldable pub on_time :
      RawLog → TradeSide → CurveTrade → TokenRef → Gathered → Option ℕ → Option Gathered
  unfolding trade_row
  on_time raw side event token so_far none = none
  on_time raw side event token so_far (some timestamp) = some (record so_far {
    pending = so_far.pending ++ trade_row raw side event token timestamp ∷ [];
    touched = add_to_set token.id so_far.touched;
  })

  unfoldable pub on_trade :
      RawLog → TradeSide → CurveTrade → Option TokenRef → Gathered → Option Gathered
  unfolding on_time
  on_trade raw side event none so_far = some (record so_far { unmatched = so_far.unmatched + 1 })
  on_trade raw side event (some token) so_far =
      on_time raw side event token so_far (deps.block_time raw.block_number)

  -- The body of the loop, once the log was decoded and its curve's token looked up.
  unfoldable pub on_event : RawLog → Option PonsEvent → Option TokenRef → Gathered → Option Gathered
  unfolding on_trade
  on_event raw none token so_far = some so_far
  on_event raw (some (curve_buy event)) token so_far = on_trade raw buy_side event token so_far
  on_event raw (some (curve_sell event)) token so_far = on_trade raw sell_side event token so_far
  on_event raw (some auto_graduation_failed) token so_far = some (on_phase token so_far)
  on_event raw (some curve_completed) token so_far = some (on_phase token so_far)
  on_event raw (some other_event) token so_far = some so_far

  unfoldable pub gather : Dict TokenRef → List RawLog → Gathered → Option Gathered
  unfolding on_event lookup
  gather token_by_curve [] so_far = some so_far
  gather token_by_curve (raw ∷ logs) so_far =
      and_then (on_event raw (deps.decode raw) (lookup (lower raw.address) token_by_curve) so_far)
        (gather token_by_curve logs)

  -- `syncPhaseFromChain`, from the answer of the factory on.
  unfoldable pub on_launch : Text → Option LaunchedToken → List Token → List Token
  unfolding set_phase
  on_launch id none tokens = tokens
  on_launch id (some launch) tokens =
      if not launch.exists then tokens else set_phase id launch.phase tokens

  unfoldable pub sync_phases : List (Text × Text) → List Token → List Token
  unfolding on_launch
  sync_phases [] tokens = tokens
  sync_phases ((id, address) ∷ syncs) tokens =
      sync_phases syncs (on_launch id (deps.read_launched_token address) tokens)

  -- From what the loop has collected on.
  unfoldable pub store_window : Gathered → Database → ProcessResult × Database
  unfolding record_many refresh_token_stats_batch sync_phases
  store_window collected db =
      let (inserted, table) = record_many collected.pending db.trades in
      let refreshed =
        refresh_token_stats_batch deps collected.touched (record db { trades = table }) in
      (
        record {
          trades = inserted;
          duplicates = length collected.pending - inserted;
          unmatched = collected.unmatched;
          tokens_touched = length collected.touched;
        },
        record refreshed { tokens = sync_phases collected.phase_syncs refreshed.tokens },
      )

  abbrev pub then_store : Option Gathered → Database → Option (ProcessResult × Database)
  then_store none db = none
  then_store (some collected) db = some (store_window collected db)

  unfoldable pub process_curve_logs : List RawLog → Database → Option (ProcessResult × Database)
  unfolding gather find_many_by_curves store_window
  process_curve_logs logs db =
      then_store
        (gather (find_many_by_curves db.tokens deps.chain_id (addresses_of logs)) logs nothing_yet)
        db
