-- ===== src/RpcPool/Endpoints.antt =====
-- The pool's state and the health of its endpoints: packages/web3/src/rpc-pool.ts. Times are
-- milliseconds; the average latency is a floating-point number, so its type and its operations are a
-- parameter.
use stunks.Prelude.{
  ℕ, zero, suc, ◌+◌, Bool, true, false, not, Option, none, some, List, [], ◌∷◌, ◌++◌, map, leb,
  ◌==◌, if◌then◌else◌, filter_by, sort_by,
}
use stunks.Prelude.Int.{ℤ}
use stunks.Prelude.Text.{Text}
use stunks.RpcErrors.{RpcFailureKind, log_range_too_wide, batch_too_large}

-- The average of latencies: that of one, an average with one more, and the order of averages.
pub record Averages (Average : Type 0) : Type 0 where
  pub start : ℤ → Average
  pub blend : Average → ℤ → Average
  pub below : Average → Average → Bool

pub record Endpoint (Average : Type 0) : Type 0 where
  pub url : Text
  pub min_interval_ms : ℕ
  pub consecutive_failures : ℕ
  pub total_requests : ℕ
  pub total_failures : ℕ
  pub last_latency_ms : Option ℤ
  pub avg_latency_ms : Option Average
  pub cooldown_until : Option ℕ
  pub last_error_kind : Option RpcFailureKind
  pub next_allowed_at : ℕ
  pub max_batch_size : Option ℕ

pub record RpcPool (Average : Type 0) : Type 0 where
  pub endpoints : List (Endpoint Average)
  pub request_id : ℕ
  pub moment : ℕ  -- which reading of the clock is the next

-- The options that the pool's state depends on.
pub record RpcPoolOptions : Type 0 where
  pub is_fastest : Bool
  pub attempts_per_endpoint : ℕ
  pub failure_threshold : ℕ
  pub cooldown_ms : ℕ

pub record EndpointConfig : Type 0 where
  pub url : Text
  pub min_interval_ms : ℕ  -- 0 where the caller leaves it out

module _ {Average : Type 0} (averages : Averages Average) (options : RpcPoolOptions) where
  unfoldable pub new_endpoint : EndpointConfig → Endpoint Average
  new_endpoint config = record {
    url = config.url;
    min_interval_ms = config.min_interval_ms;
    consecutive_failures = 0;
    total_requests = 0;
    total_failures = 0;
    last_latency_ms = none;
    avg_latency_ms = none;
    cooldown_until = none;
    last_error_kind = none;
    next_allowed_at = 0;
    max_batch_size = none;
  }

  -- The constructor; `none` where it throws.
  unfoldable pub new_pool : List EndpointConfig → Option (RpcPool Average)
  unfolding new_endpoint
  new_pool [] = none
  new_pool (config ∷ configs) =
      some (record { endpoints = map new_endpoint (config ∷ configs); request_id = 0; moment = 0 })

  abbrev pub blended : Option Average → ℤ → Average
  blended none latency_ms = averages.start latency_ms
  blended (some average) latency_ms = averages.blend average latency_ms

  unfoldable pub record_success : ℤ → Endpoint Average → Endpoint Average
  record_success latency_ms endpoint = record endpoint {
    consecutive_failures = 0;
    cooldown_until = none;
    last_error_kind = none;
    last_latency_ms = some latency_ms;
    avg_latency_ms = some (blended endpoint.avg_latency_ms latency_ms);
  }

  -- A range or a batch that is too large is the caller's to change, and no sign of ill health.
  abbrev pub is_caller_limit : RpcFailureKind → Bool
  is_caller_limit log_range_too_wide = true
  is_caller_limit batch_too_large = true
  is_caller_limit _ = false

  unfoldable pub record_failure : ℕ → RpcFailureKind → Endpoint Average → Endpoint Average
  record_failure now kind endpoint =
      let counted = record endpoint {
        total_failures = endpoint.total_failures + 1;
        last_error_kind = some kind;
      } in
      if is_caller_limit kind then counted else record counted {
        consecutive_failures = endpoint.consecutive_failures + 1;
        cooldown_until =
            if leb options.failure_threshold (endpoint.consecutive_failures + 1)
            then some (now + options.cooldown_ms)
            else endpoint.cooldown_until;
      }

  -- `respectPacing`, at the time after the wait.
  unfoldable pub respect_pacing : ℕ → Endpoint Average → Endpoint Average
  respect_pacing now endpoint =
      if endpoint.min_interval_ms == 0
      then endpoint
      else record endpoint { next_allowed_at = now + endpoint.min_interval_ms }

  abbrev pub not_after : Option ℕ → ℕ → Bool
  not_after none now = true
  not_after (some until) now = leb until now

  unfoldable pub is_healthy : ℕ → Endpoint Average → Bool
  is_healthy now endpoint = not_after endpoint.cooldown_until now

  -- Whether the sort by latency puts the first before the second.
  abbrev pub before : Option Average → Option Average → Bool
  before (some a) (some b) = averages.below a b
  before (some a) none = true
  before none b = false

  -- The endpoints with their places, which stand for the objects.
  abbrev pub indexed : ℕ → List (Endpoint Average) → List (ℕ × Endpoint Average)
  indexed n [] = []
  indexed n (e ∷ es) = (n, e) ∷ indexed (suc n) es

  unfoldable pub preferred : List (ℕ × Endpoint Average) → List (ℕ × Endpoint Average)
  preferred healthy =
      if options.is_fastest
      then sort_by (λ a b. before a.1.avg_latency_ms b.1.avg_latency_ms) healthy
      else healthy

  unfoldable pub select_order : ℕ → List (Endpoint Average) → List (ℕ × Endpoint Average)
  unfolding preferred is_healthy
  select_order now endpoints =
      let all = indexed 0 endpoints in
      preferred (filter_by (λ p. is_healthy now p.1) all)
      ++ filter_by (λ p. not (is_healthy now p.1)) all

  -- A change of the endpoint at a place.
  abbrev pub change_at :
      ℕ → (Endpoint Average → Endpoint Average) → List (Endpoint Average) → List (Endpoint Average)
  change_at n change [] = []
  change_at zero change (e ∷ es) = change e ∷ es
  change_at (suc n) change (e ∷ es) = e ∷ change_at n change es

  abbrev pub update_endpoint :
      ℕ → (Endpoint Average → Endpoint Average) → RpcPool Average → RpcPool Average
  update_endpoint n change pool = record pool { endpoints = change_at n change pool.endpoints }
