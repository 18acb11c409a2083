-- ===== src/Lib.antt =====
-- Stunks: a launchpad and trading interface for bonding-curve tokens, with an indexer of the chain.
--
-- The trading side prices buys and sells on a bonding curve, applies fees and the anti-snipe tax, and
-- decides from a launch's phase where it can be traded. The indexer scans ranges of blocks for logs,
-- checks that the chain it has read is still there, and keeps its place in checkpoints.
--
--   Prelude     shared names, Boolean tests, lists, results, signed integers, texts
--   Money       packages/utils/src/money.ts: basis points, division, minimum and maximum
--   Amounts     packages/utils/src/money.ts: the texts of amounts. Digits and Padding are about digits and
--               zeros, Plain and Parts about the texts, Trip about the way there and back
--   Curve       packages/pons/src/curve/math.ts: computeCurveBuy, computeCurveSell and their parts.
--               Curve/Product has the swap on naturals, Curve/Out the output after fees, Curve/Buy the
--               buy's branches, and Curve/Fair, Curve/Sell and Curve/Price the theorems
--   Quote       packages/pons/src/curve/quote.ts: quoteBuy and quoteSell over Curve and SnipeTax
--   SnipeTax    packages/pons/src/curve/snipe-tax.ts: the tax, its window and its schedule
--   Fees        packages/pons/src/fees/split.ts: computeFeeSplit
--   Graduation  packages/pons/src/graduation/progress.ts and venue.ts, packages/types/src/pons.ts
--   TradeService  packages/pons/src/trade/service.ts: prepareTrade, which asks Graduation for the venue and
--               Quote for the quote. TradeService/Built goes from the venue on, Prepared is the whole
--   Bundle      packages/pons/src/trade/bundle.ts: planBundle, which prices its buys by Curve, and what
--               is built from a plan. The encoding of calldata is a parameter
--   Exemptions  packages/pons/src/launch/exemptions.ts: the whitelist of a launch. The client library's
--               tests on addresses are parameters
--   Launch      packages/pons/src/launch/builder.ts: validateLaunchInput and buildLaunchTransaction, with
--               Exemptions. Contract reads and the encoding of calldata are parameters; Launch/Limits is
--               about the input's limits
--   LogRange    packages/web3/src/log-range.ts: splitBlockRange and AdaptiveLogWindow
--   RpcErrors   packages/web3/src/errors.ts: the kinds of failures, their patterns, findRpcCallError;
--               RpcErrors/Chain is about chains of causes
--   RpcPool     packages/web3/src/rpc-pool.ts. RpcPool/Wire has what endpoints answer, Endpoints the
--               state and health, Request and Batch (with BatchReply) the methods; Order, Health,
--               Reachable, Failover, Outcomes, Truthful and Refinement the theorems
--   LogSource   apps/indexer/src/sources/rpc.ts: getLogs over LogRange and RpcErrors, and the answer of
--               hypersync.ts in LogSource/HyperSync. Its batches are what Scanner reads
--   Reorg       apps/indexer/src/reorg.ts: checkForReorg, safeHead, verifyLineage
--   BlockCache  apps/indexer/src/block-cache.ts: BlockTimeCache
--   Checkpoint  packages/database/src/repositories/checkpoint.ts over prisma/schema.prisma
--   Pricing     apps/indexer/src/pricing.ts: prices, market caps, and what a competition excludes
--   Trades      packages/database/src/repositories/trade.ts and trade-batch.ts: the table of trades.
--               Trades/Replay is about its writes, Trades/Totals about its batched reads
--   Trending    packages/database/src/trending.ts: scoreTrending and its parts
--   CurveStream  what the curve stream reads and writes: rows of tokens, events, the outside
--   StatsRefresh  apps/indexer/src/processors/curve.ts: the stats of tokens, refreshed from Trades
--   CurveLogs   apps/indexer/src/processors/curve.ts: processCurveLogs over Trades and StatsRefresh
--   ScanState   apps/indexer/src/sources/types.ts and the types of scanner.ts
--   Scanner     apps/indexer/src/scanner.ts: Scanner.tick. It calls Reorg and Checkpoint
--   ScanLoops   apps/indexer/src/scanner.ts: backfill and tail around the tick
--   IndexerHealth  apps/indexer/src/health.ts: buildHealthSnapshot over Checkpoint and RpcPool
--   Staleness   apps/web/src/lib/staleness.ts: how current the indexed data is
--   Tests       the theorems and the code at concrete inputs
--
-- A `bigint` is a signed integer; block numbers, spans, depths and table columns that are never
-- negative are naturals. A JavaScript string is the list of its code units. A function that throws
-- returns a `Result`, with a constructor for each kind of error; the messages are left out.
--
-- The database is a record of two lists of rows with the unique keys of the schema; a method takes the
-- tables and returns the new ones. A tick takes and returns a world, the tables and the stream's rows.
-- What the log source, the clock, the processor and the database answer in a tick is a parameter,
-- `TickEnv`, over which the theorems quantify; the texts of errors are one parameter there, since
-- nothing reads them. An outage of the database is met in the processor and in the two writes after
-- it, where the code tells it apart; the other writes fail only where a row is missing. Calls that the
-- tick does not guard (`addresses`, `maxBlock`, `deleteAbove`, and the first read of the checkpoint) do
-- not throw in the model: where they do, the tick ends there.
-- Writes of other processes between two calls of one tick are not modelled.
--
-- What an RPC endpoint answers, and what the clock says, is a parameter of the pool, `World`, by the id
-- of the request and the number of the reading. The average latency is a floating-point number, so its
-- operations are a parameter too. Backoff and abort signals only take time, and are left out. An error
-- object is a place in a store, so that causes may form a cycle. A regular expression is data, matched
-- by Prelude/Regex. The two workers of `getLogs` share nothing but the next index, so their order is
-- seen only in which failure comes first, which is a parameter.
--
-- `findRpcCallError` runs on fuel, a round for each error object and one more. The chunks of a batch,
-- of an address filter and of a warming of the block cache run on as much fuel as there are calls,
-- addresses or blocks, since a chunk holds one at least. (A batch size of 0, with which the loop of
-- `warm` would not end, is no option of the model.)
--
-- `backfill` and `tail` run until they are told to stop, so their fuel is a number of rounds; a theorem
-- says how many are enough.
--
-- The digits of a number are made on fuel, one more than the number, which has fewer digits.
--
-- `splitBlockRange` runs its loop on fuel, a round for each block of the range and two more, which is
-- enough since a window holds a block at least. Every other loop is structural recursion on a list or
-- on a number of rounds.
--
-- In the curve processor each call of the database answers, and a table changes only by the calls of
-- the processor. Rows of one token with equal block and log index, which a chain does not have, are
-- ordered by their place in the table.
--
-- Not modelled: the contract calls and the interface tables, the queries of the other repositories,
-- configuration, timers and logs, and the web application.
pub mod Prelude
pub mod Money
pub mod Curve
pub mod SnipeTax
pub mod Staleness
pub mod IndexerHealth
pub mod Launch
pub mod Fees
pub mod Graduation
pub mod LogRange
pub mod LogSource
pub mod Quote
pub mod Reorg
pub mod Checkpoint
pub mod Tests
pub mod Scanner
pub mod BlockCache
pub mod Bundle
pub mod ScanState
pub mod Exemptions
pub mod RpcErrors
pub mod RpcPool
pub mod Pricing
pub mod Trades
pub mod CurveLogs
pub mod CurveStream
pub mod StatsRefresh
pub mod TradeService
pub mod Amounts
pub mod ScanLoops
pub mod Trending
