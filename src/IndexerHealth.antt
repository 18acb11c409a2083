-- ===== src/IndexerHealth.antt =====
-- The health of the indexer: buildHealthSnapshot of apps/indexer/src/health.ts, over the tables of
-- Checkpoint and the pool of RpcPool. Block numbers that the code prints are kept as numbers, and the
-- clock's reading and the seconds, which are floating-point, are left out.
pub mod Ready
use stunks.Prelude.{
  ℕ, ◌-◌, Bool, true, false, not, ◌&&◌, ◌||◌, Option, none, some, List, [], ◌∷◌, map, ltb, ◌==◌,
  if◌then◌else◌, any_by, filter_by,
}
use stunks.Prelude.Int.{ℤ, pos, ◌-ℤ◌}
use stunks.Prelude.Text.{Text, text_eq}
use stunks.Prelude.Regex.{codes}
use stunks.Checkpoint.{CheckpointState, Tables, unresolved_failed_blocks}
use stunks.RpcErrors.{RpcFailureKind}
use stunks.RpcPool.Endpoints.{Averages, Endpoint, RpcPool, RpcPoolOptions, is_healthy}

pub record StreamReport : Type 0 where
  pub stream : Text
  pub indexed_block : ℕ
  pub lag_blocks : Option ℤ
  pub last_success_at : Option ℕ
  pub last_error : Option Text
  pub is_paused : Bool
  pub log_window_size : ℕ
  pub unscanned_below : Option ℕ

pub record RpcReport (Average : Type 0) : Type 0 where
  pub url : Text
  pub is_healthy : Bool
  pub avg_latency_ms : Option Average
  pub total_failures : ℕ
  pub last_error_kind : Option RpcFailureKind

pub data HealthStatus : Type 0 where
  healthy degraded : HealthStatus

pub record HealthSnapshot (Average : Type 0) : Type 0 where
  pub status : HealthStatus
  pub chain_id : ℕ
  pub chain_head : Option ℕ
  pub streams : List StreamReport
  pub unresolved_failed_blocks : ℕ
  pub has_unscanned_history : Bool
  pub rpc : List (RpcReport Average)

-- The blocks behind the head, which may be fewer than none.
abbrev pub blocks_behind : Option ℕ → ℕ → Option ℤ
blocks_behind none indexed_block = none
blocks_behind (some head) indexed_block = some (pos head -ℤ pos indexed_block)

unfoldable pub unscanned_below : ℕ → ℕ → Option ℕ
unscanned_below start_block indexed_block =
    if ltb start_block indexed_block then some (indexed_block - start_block) else none

unfoldable pub stream_report : Option ℕ → ℕ → CheckpointState → StreamReport
unfolding unscanned_below
stream_report head start_block state = record {
  stream = state.stream;
  indexed_block = state.last_processed_block;
  lag_blocks = blocks_behind head state.last_processed_block;
  last_success_at = state.last_success_at;
  last_error = state.last_error;
  is_paused = state.is_paused;
  log_window_size = state.log_window_size;
  unscanned_below = unscanned_below start_block state.last_processed_block;
}

abbrev pub is_given : {A : Type 0} → Option A → Bool
is_given none = false
is_given (some a) = true

abbrev pub has_gap : StreamReport → Bool
has_gap report = text_eq report.stream (codes "factory") && is_given report.unscanned_below

abbrev pub has_trouble : StreamReport → Bool
has_trouble report = report.is_paused || is_given report.last_error

unfoldable pub is_degraded : Option ℕ → ℕ → List StreamReport → Bool
is_degraded head unresolved reports =
    not (is_given head) || ltb 0 unresolved || any_by has_gap reports || any_by has_trouble reports

module _ {Average : Type 0} (averages : Averages Average) (options : RpcPoolOptions) where
  -- `stats`, as far as the snapshot uses it.
  unfoldable pub rpc_report : ℕ → Endpoint Average → RpcReport Average
  rpc_report now endpoint = record {
    url = endpoint.url;
    is_healthy = is_healthy averages options now endpoint;
    avg_latency_ms = endpoint.avg_latency_ms;
    total_failures = endpoint.total_failures;
    last_error_kind = endpoint.last_error_kind;
  }

  -- The head is `none` where the call for it threw.
  unfoldable pub build_health_snapshot :
      Tables → RpcPool Average → ℕ → Option ℕ → ℕ → ℕ → HealthSnapshot Average
  unfolding stream_report is_degraded rpc_report unresolved_failed_blocks
  build_health_snapshot db pool now head start_block chain_id =
      let states = filter_by (λ state. state.chain_id == chain_id) db.states in
      let reports = map (stream_report head start_block) states in
      let unresolved = unresolved_failed_blocks db chain_id in
      record {
        status = if is_degraded head unresolved reports then degraded else healthy;
        chain_id = chain_id;
        chain_head = head;
        streams = reports;
        unresolved_failed_blocks = unresolved;
        has_unscanned_history = any_by has_gap reports;
        rpc = map (rpc_report now) pool.endpoints;
      }
