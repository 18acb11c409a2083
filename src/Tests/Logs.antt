-- ===== src/Tests/Logs.antt =====
-- The log source on a chain of three logs.
use stunks.Prelude.{
  false, true, ℕ, zero, suc, ◌+◌, ◌≤◌, ◌≡◌, ◌⊎◌, Option, none, some, List, [], ◌∷◌, Result, ok, err,
  arith, All, filter_by, length, some-injective, ap, sym, ◌∙◌,
}
use stunks.Prelude.Text.{Text}
use stunks.RpcErrors.{RpcCallError, rpc_call, timeout, find_rpc_call_error}
use stunks.LogRange.{AdaptiveLogWindow, on_success, on_rejected}
use stunks.ScanState.{batch, too_wide, fetch_failed}
use stunks.LogSource.{
  RawLog, LogQuery, RawJsonRpcLog, LogFilter, LogEnv, concat, address_chunks, delivered, clamped_to,
  get_logs, narrows, max_log_addresses_per_query,
}
use stunks.LogSource.Chunks.{address_chunks_lem}
use stunks.LogSource.Served.{selects}
use stunks.LogSource.GetLogs.{errors_of, answers, IsThrown, get_logs-Ends}

address_chunks_lem_example :
    (concat (address_chunks ((97 ∷ []) ∷ (98 ∷ []) ∷ []) 7) ≡ (97 ∷ []) ∷ (98 ∷ []) ∷ [])
    × All
        (λ chunk. length chunk + 7 ≤ max_log_addresses_per_query)
        (address_chunks ((97 ∷ []) ∷ (98 ∷ []) ∷ []) 7)
address_chunks_lem_example = address_chunks_lem ((97 ∷ []) ∷ (98 ∷ []) ∷ []) 7 (omega arith)

abbrev log_at : Text → Option ℕ → RawJsonRpcLog
log_at address number = record {
  address = address;
  topics = (1 ∷ []) ∷ [];
  log_data = [];
  block_number = number;
  block_hash = some (3 ∷ []);
  transaction_hash = some (4 ∷ []);
  log_index = some 0;
}

-- The third has no number yet, and the fourth is of another address.
abbrev chain : List RawJsonRpcLog
chain =
    log_at (97 ∷ []) (some 100)
    ∷ log_at (97 ∷ []) (some 105)
    ∷ log_at (97 ∷ []) none
    ∷ log_at (98 ∷ []) (some 101)
    ∷ []

abbrev serves : LogFilter → Result ℕ (List RawJsonRpcLog)
serves filter = ok (filter_by (selects filter.from_block filter.to_block filter.addresses) chain)

abbrev env : LogEnv
env = record {
  request = serves;
  store = λ n. rpc_call (record { kind = timeout; message = [] });
  error_count = 1;
  first = λ failure failures. failure;
}

abbrev query : LogQuery
query = record {
  from_block = 100;
  to_block = 200;
  addresses = (97 ∷ []) ∷ [];
  topics0 = some ((1 ∷ []) ∷ []);
}

abbrev window : AdaptiveLogWindow
window = record {
  span = 10;
  last_good = 0;
  ceiling = none;
  successes_at_settled = 0;
  min_span = 10;
  max_span = 10_000;
}

-- The two logs of the address up to block 109, where the window ends.
delivered_logs : List RawLog
delivered_logs =
    delivered (some ((1 ∷ []) ∷ []))
      (log_at (97 ∷ []) (some 100) ∷ log_at (97 ∷ []) (some 105) ∷ [])

get_logs-Ends_example :
    ((logs : List RawLog) × (errors_of (answers env query window) ≡ [])
      × (get_logs env query window
          ≡ (batch logs (clamped_to query window.span), on_success window)))
    ⊎ ((error : ℕ) × IsThrown env query window error
        × (((get_logs env query window ≡ (too_wide, on_rejected window))
              × (f : RpcCallError) × (find_rpc_call_error env.store env.error_count error
                  ≡ some (some f))
              × (narrows f.kind ≡ true))
            ⊎ ((get_logs env query window ≡ (fetch_failed error, window))
                × ((f : RpcCallError)
                    → find_rpc_call_error env.store env.error_count error ≡ some (some f)
                    → narrows f.kind ≡ false))))
get_logs-Ends_example = get_logs-Ends env query window
