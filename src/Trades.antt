-- ===== src/Trades.antt =====
-- The table of trades: packages/database/src/repositories/trade.ts and trade-batch.ts, with the unique
-- key of prisma/schema.prisma. The table is the list of its rows, oldest first; a call of the database
-- is the statement that it stands for.
pub mod Replay
pub mod Totals
use stunks.Prelude.{
  ℕ, zero, suc, ◌+◌, Bool, true, false, not, ◌&&◌, Option, none, some, List, [], ◌∷◌, ◌++◌, map,
  ltb, leb, ◌==◌, if◌then◌else◌, filter_by, any_by, length, sort_by,
}
use stunks.Prelude.Int.{ℤ, pos, ◌+ℤ◌}
use stunks.Prelude.Text.{Text, lower, text_eq, has}
use stunks.Quote.{TradeSide, buy_side, sell_side}
use stunks.Pricing.{Exclusion}

-- `TradeInput` and the row made of it; the venue is always the curve.
pub record Trade : Type 0 where
  pub chain_id : ℕ
  pub transaction_hash : Text
  pub log_index : ℕ
  pub block_number : ℕ
  pub block_hash : Text
  pub token_id : Text
  pub curve_address : Option Text
  pub trader_address : Text
  pub recipient_address : Text
  pub side : TradeSide
  pub token_amount : ℤ
  pub quote_amount : ℤ
  pub fee_amount : ℤ
  pub creator_tax_amount : ℤ
  pub snipe_tax_amount : ℤ
  pub refund_amount : ℤ
  pub price : ℤ
  pub market_cap : ℤ
  pub timestamp : ℕ
  pub exclusion : Option Exclusion

abbrev pub Table : Type 0
Table = List Trade

abbrev pub to_create_data : Trade → Trade
to_create_data input = record input {
  trader_address = lower input.trader_address;
  recipient_address = lower input.recipient_address;
}

-- `(chainId, transactionHash, logIndex)`.
unfoldable pub same_log : Trade → Trade → Bool
same_log a b =
    a.chain_id == b.chain_id
    && (a.log_index == b.log_index && text_eq a.transaction_hash b.transaction_hash)

unfoldable pub find_log : Trade → Table → Bool
unfolding same_log
find_log input table = any_by (same_log input) table

-- `record`: whether a row was created.
unfoldable pub record_trade : Trade → Table → Bool × Table
unfolding find_log
record_trade input table =
    if find_log input table then (false, table) else (true, table ++ to_create_data input ∷ [])

abbrev pub one_more_if : Bool → ℕ → ℕ
one_more_if true n = suc n
one_more_if false n = n

-- `createMany` with `skipDuplicates`: one row after another, each unless its key is there already.
unfoldable pub record_many : List Trade → Table → ℕ × Table
unfolding record_trade
record_many [] table = (0, table)
record_many (input ∷ inputs) table =
    let (created, next) = record_trade input table in
    let (inserted, final) = record_many inputs next in (one_more_if created inserted, final)

abbrev pub stays_below : ℕ → ℕ → Trade → Bool
stays_below chain_id block_number t =
    not (t.chain_id == chain_id && ltb block_number t.block_number)

unfoldable pub delete_above_block : ℕ → ℕ → Table → Table
delete_above_block chain_id block_number table = filter_by (stays_below chain_id block_number) table

pub record TokenTradeAggregate : Type 0 where
  pub volume : ℤ
  pub trade_count : ℕ
  pub buy_count : ℕ
  pub sell_count : ℕ

abbrev pub is_of : Text → Trade → Bool
is_of token_id t = text_eq t.token_id token_id

abbrev pub is_since : Option ℕ → Trade → Bool
is_since none t = true
is_since (some since) t = leb since t.timestamp

abbrev pub is_buy : Trade → Bool
is_buy t = elim t.side [ buy_side ↦ true | sell_side ↦ false ]

-- `_sum`, and the zero that stands for the sum of no rows.
unfoldable pub sum_quote : List Trade → ℤ
sum_quote [] = pos 0
sum_quote (t ∷ ts) = t.quote_amount +ℤ sum_quote ts

-- The aggregate of one token: `aggregateForToken`.
unfoldable pub aggregate_for_token : Table → Text → Option ℕ → TokenTradeAggregate
unfolding sum_quote text_eq
aggregate_for_token table token_id since =
    let rows = filter_by (λ t. is_of token_id t && is_since since t) table in
    record {
      volume = sum_quote rows;
      trade_count = length rows;
      buy_count = length (filter_by is_buy rows);
      sell_count = length (filter_by (λ t. not (is_buy t)) rows);
    }

-- A `Map` of the source, with texts as keys.
abbrev pub Dict : Type 0 → Type 0
Dict V = List (Text × V)

module _ {V : Type 0} where
  unfoldable pub lookup : Text → Dict V → Option V
  unfolding text_eq
  lookup key [] = none
  lookup key ((k, v) ∷ entries) = if text_eq k key then some v else lookup key entries

-- The groups of `groupBy` on the token, each with its rows.
unfoldable pub add_to_group : Trade → Dict (List Trade) → Dict (List Trade)
unfolding text_eq
add_to_group t [] = (t.token_id, t ∷ []) ∷ []
add_to_group t ((k, ts) ∷ groups) =
    if text_eq k t.token_id then (k, t ∷ ts) ∷ groups else (k, ts) ∷ add_to_group t groups

unfoldable pub group_by : List Trade → Dict (List Trade)
unfolding add_to_group
group_by [] = []
group_by (t ∷ ts) = add_to_group t (group_by ts)

abbrev pub count_or_zero : Option (List Trade) → ℕ
count_or_zero none = 0
count_or_zero (some rows) = length rows

abbrev pub zeros_aggregate : TokenTradeAggregate
zeros_aggregate = record { volume = pos 0; trade_count = 0; buy_count = 0; sell_count = 0 }

-- The loop over the totals; the groups of each side are those of the second query.
unfoldable pub set_totals :
    Dict (List Trade) → Dict (List Trade) → Dict (List Trade) → Dict TokenTradeAggregate
unfolding sum_quote lookup
set_totals buys sells [] = []
set_totals buys sells ((k, rows) ∷ totals) =
    (
      k,
      record {
        volume = sum_quote rows;
        trade_count = length rows;
        buy_count = count_or_zero (lookup k buys);
        sell_count = count_or_zero (lookup k sells);
      },
    )
    ∷ set_totals buys sells totals

abbrev pub set_unless : {V : Type 0} → Text → V → Option V → Dict V → Dict V
set_unless key v (some w) entries = entries
set_unless key v none entries = entries ++ (key, v) ∷ []

-- The explicit zeros of tokens with no trades.
unfoldable pub with_zeros : List Text → Dict TokenTradeAggregate → Dict TokenTradeAggregate
unfolding lookup
with_zeros [] result = result
with_zeros (id ∷ ids) result =
    with_zeros ids (set_unless id zeros_aggregate (lookup id result) result)

-- `tokenId: { in: tokenIds }`, and the time.
abbrev pub is_asked : List Text → Option ℕ → Trade → Bool
is_asked ids since t = has t.token_id ids && is_since since t

unfoldable pub aggregate_for_tokens : Table → List Text → Option ℕ → Dict TokenTradeAggregate
unfolding set_totals group_by with_zeros has
aggregate_for_tokens table [] since = []
aggregate_for_tokens table (id ∷ ids) since =
    let rows = filter_by (is_asked (id ∷ ids) since) table in
    with_zeros (id ∷ ids) (
      set_totals (group_by (filter_by is_buy rows))
        (group_by (filter_by (λ t. not (is_buy t)) rows)) (group_by rows))

-- `ORDER BY "blockNumber" DESC, "logIndex" DESC`.
abbrev pub is_later : Trade → Trade → Bool
is_later a b =
    if a.block_number == b.block_number
    then ltb b.log_index a.log_index
    else ltb b.block_number a.block_number

abbrev pub top_row : List Trade → Option Trade
top_row [] = none
top_row (t ∷ ts) = some t

unfoldable pub latest_for_token : Table → Text → Option Trade
unfolding text_eq
latest_for_token table token_id = top_row (sort_by is_later (filter_by (is_of token_id) table))

-- `DISTINCT ON`: the first row of each token's rows in the order. A group has a row, so that no entry
-- is `none`.
unfoldable pub latest_of_groups : Dict (List Trade) → Dict (Option Trade)
latest_of_groups [] = []
latest_of_groups ((k, rows) ∷ groups) =
    (k, top_row (sort_by is_later rows)) ∷ latest_of_groups groups

unfoldable pub latest_for_tokens : Table → List Text → Dict (Option Trade)
unfolding latest_of_groups group_by has
latest_for_tokens table [] = []
latest_for_tokens table (id ∷ ids) =
    latest_of_groups (group_by (filter_by (λ t. has t.token_id (id ∷ ids)) table))

-- `get(…) ?? zeros`.
abbrev pub or_zeros : Option TokenTradeAggregate → TokenTradeAggregate
or_zeros none = zeros_aggregate
or_zeros (some aggregate) = aggregate

abbrev pub or_none : Option (Option Trade) → Option Trade
or_none none = none
or_none (some t) = t
