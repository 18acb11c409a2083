-- ===== src/LogSource.antt =====
-- The RPC log source: apps/indexer/src/sources/rpc.ts, with the shapes of
-- apps/indexer/src/sources/types.ts. A hex quantity is the number that it stands for. The two workers
-- that read the chunks are seen by what each chunk gives and by which failure came first.
pub mod Chunks
pub mod Delivered
pub mod Served
pub mod GetLogs
pub mod HyperSync
use stunks.Prelude.{
  ℕ, zero, suc, ◌+◌, ◌-◌, max, Bool, true, false, not, ◌&&◌, ◌||◌, Option, none, some, List, [],
  ◌∷◌, ◌++◌, Result, ok, err, ltb, if◌then◌else◌, filter_by, length, take, drop,
}
use stunks.Prelude.Text.{Text, has}
use stunks.RpcErrors.{
  RpcFailureKind, RpcCallError, ErrorObject, log_range_too_wide, timeout, find_rpc_call_error,
}
use stunks.LogRange.{AdaptiveLogWindow, on_success, on_rejected}
use stunks.ScanState.{Fetch, batch, too_wide, fetch_failed}

pub record RawLog : Type 0 where
  pub address : Text
  pub topics : List Text
  pub log_data : Text
  pub block_number : ℕ
  pub block_hash : Text
  pub transaction_hash : Text
  pub log_index : ℕ

pub record LogQuery : Type 0 where
  pub from_block : ℕ
  pub to_block : ℕ
  pub addresses : List Text
  pub topics0 : Option (List Text)

-- `none` stands for `null`.
pub record RawJsonRpcLog : Type 0 where
  pub address : Text
  pub topics : List Text
  pub log_data : Text
  pub block_number : Option ℕ
  pub block_hash : Option Text
  pub transaction_hash : Option Text
  pub log_index : Option ℕ

-- The parameters of one `eth_getLogs`.
pub record LogFilter : Type 0 where
  pub from_block : ℕ
  pub to_block : ℕ
  pub addresses : List Text
  pub topics0 : Option (List Text)

abbrev pub max_log_addresses_per_query : ℕ
max_log_addresses_per_query = 1000

-- The loop of `addressChunks`; a chunk takes one of the fuel.
unfoldable pub chunks_from : {A : Type 0} → ℕ → ℕ → List A → List (List A)
chunks_from zero size xs = []
chunks_from (suc fuel) size [] = []
chunks_from (suc fuel) size (x ∷ xs) =
    take size (x ∷ xs) ∷ chunks_from fuel size (drop size (x ∷ xs))

unfoldable pub address_chunks : List Text → ℕ → List (List Text)
unfolding chunks_from
address_chunks [] topic_selector_count = [] ∷ []
address_chunks (a ∷ rest) topic_selector_count =
    chunks_from (length (a ∷ rest)) (max 1 (max_log_addresses_per_query - topic_selector_count))
      (a ∷ rest)

abbrev pub selector_count : Option (List Text) → ℕ
selector_count none = 0
selector_count (some topics) = length topics

abbrev pub is_some : {A : Type 0} → Option A → Bool
is_some none = false
is_some (some x) = true

abbrev pub is_empty : {A : Type 0} → List A → Bool
is_empty [] = true
is_empty (x ∷ xs) = false

abbrev pub is_complete : RawJsonRpcLog → Bool
is_complete log =
    is_some log.block_number
    && is_some log.block_hash
    && is_some log.transaction_hash
    && is_some log.log_index

abbrev pub includes_first : List Text → List Text → Bool
includes_first topics [] = false
includes_first topics (t ∷ ts) = has t topics

unfoldable pub matches_topics : Option (List Text) → List Text → Bool
matches_topics none topics = true
matches_topics (some wanted) topics = includes_first wanted topics

abbrev pub widen : RawJsonRpcLog → Option ℕ → Option Text → Option Text → Option ℕ → List RawLog
widen log (some number) (some hash) (some transaction) (some index) =
    record {
      address = log.address;
      topics = log.topics;
      log_data = log.log_data;
      block_number = number;
      block_hash = hash;
      transaction_hash = transaction;
      log_index = index;
    }
    ∷ []
widen log _ _ _ _ = []

-- The `map`, on logs whose fields are all there.
unfoldable pub widen_all : List RawJsonRpcLog → List RawLog
widen_all [] = []
widen_all (log ∷ logs) =
    widen log log.block_number log.block_hash log.transaction_hash log.log_index ++ widen_all logs

-- The batch that is made of the logs of the chunks.
unfoldable pub delivered : Option (List Text) → List RawJsonRpcLog → List RawLog
unfolding widen_all matches_topics
delivered topics0 logs =
    widen_all (filter_by (λ log. matches_topics topics0 log.topics) (filter_by is_complete logs))

-- `flat`, on the chunks' logs.
unfoldable pub concat : {A : Type 0} → List (List A) → List A
concat [] = []
concat (xs ∷ xss) = xs ++ concat xss

abbrev pub add_chunk :
    Result ℕ (List RawJsonRpcLog)
    → List ℕ × List (List RawJsonRpcLog)
    → List ℕ × List (List RawJsonRpcLog)
add_chunk (ok own) (failures, logs) = (failures, own ∷ logs)
add_chunk (err failure) (failures, logs) = (failure ∷ failures, logs)

-- The failures of the chunks, each the place of an error, and the logs of the others in their order.
unfoldable pub read_chunks :
    (LogFilter → Result ℕ (List RawJsonRpcLog))
    → LogQuery
    → ℕ
    → List (List Text)
    → List ℕ × List (List RawJsonRpcLog)
read_chunks request query to_block [] = ([], [])
read_chunks request query to_block (addresses ∷ chunks) =
    add_chunk
      (request (record {
        from_block = query.from_block;
        to_block = to_block;
        addresses = addresses;
        topics0 = query.topics0;
      }))
      (read_chunks request query to_block chunks)

-- The range, cut to the window.
unfoldable pub clamped_to : LogQuery → ℕ → ℕ
clamped_to query allowed =
    if ltb allowed (query.to_block + 1 - query.from_block)
    then query.from_block + allowed - 1
    else query.to_block

abbrev pub narrows : RpcFailureKind → Bool
narrows log_range_too_wide = true
narrows timeout = true
narrows _ = false

-- The `catch` of an error, by what `findRpcCallError` finds in it: any other error is thrown again.
unfoldable pub on_failure :
    ℕ → Option (Option RpcCallError) → AdaptiveLogWindow → Fetch RawLog × AdaptiveLogWindow
unfolding on_rejected
on_failure error (some (some failure)) window =
    if narrows failure.kind then (too_wide, on_rejected window) else (fetch_failed error, window)
on_failure error _ window = (fetch_failed error, window)

-- What the outside is to a source: the endpoint, by `requestLogs`; the error objects, of which there are
-- `error_count`; and the failure that came first.
pub record LogEnv : Type 0 where
  pub request : LogFilter → Result ℕ (List RawJsonRpcLog)
  pub store : ℕ → ErrorObject
  pub error_count : ℕ
  pub first : ℕ → List ℕ → ℕ

module _ (env : LogEnv) where
  abbrev pub settled_chunks :
      LogQuery
      → ℕ
      → List ℕ × List (List RawJsonRpcLog)
      → AdaptiveLogWindow
      → Fetch RawLog × AdaptiveLogWindow
  settled_chunks query to_block ([], logs) window =
      (batch (delivered query.topics0 (concat logs)) to_block, on_success window)
  settled_chunks query to_block (failure ∷ failures, logs) window =
      let error = env.first failure failures in
      on_failure error (find_rpc_call_error env.store env.error_count error) window

  unfoldable pub get_logs : LogQuery → AdaptiveLogWindow → Fetch RawLog × AdaptiveLogWindow
  unfolding read_chunks address_chunks clamped_to concat delivered on_failure on_success
      find_rpc_call_error
  get_logs query window =
      let to_block = clamped_to query window.span in
      settled_chunks query to_block
        (read_chunks env.request query to_block
          (address_chunks query.addresses (selector_count query.topics0)))
        window
