-- ===== src/RpcPool/Request.antt =====
-- `request` of the pool: packages/web3/src/rpc-pool.ts. What the endpoints answer and what the clock
-- says is a parameter.
use stunks.Prelude.{
  ℕ, zero, suc, ◌+◌, true, false, List, [], ◌∷◌, ◌++◌, Option, none, some, Result, ok, err,
}
use stunks.Prelude.Int.{pos, ◌-ℤ◌}
use stunks.Prelude.Text.{Text}
use stunks.RpcErrors.{RpcCallError, is_retryable}
use stunks.RpcPool.Wire.{
  RpcBatchCall, Payload, ResultField, Reply, object, no_result, post_rpc, entry_result,
}
use stunks.RpcPool.Endpoints.{
  Averages, Endpoint, RpcPool, RpcPoolOptions, respect_pacing, record_success, record_failure,
  select_order, update_endpoint,
}

-- The n-th reading of the clock, and the answer to what an endpoint is sent: a call with its id, or the
-- calls of a batch with the id of the first.
pub record World (Params Value : Type 0) : Type 0 where
  pub now : ℕ → ℕ
  pub reply : Text → ℕ → RpcBatchCall Params → Reply Value
  pub batch_reply : Text → ℕ → List (RpcBatchCall Params) → Reply Value

-- What a method of the pool ends with: a value, or one of its errors.
pub data Outcome {ℓ} (A : Type ℓ) : Type ℓ where
  answered : A → Outcome A
  refused : RpcCallError → Outcome A
  all_failed : List RpcCallError → Outcome A
  batch_not_supported : Outcome A

-- What the attempts on an endpoint end with: an outcome, or the failures so far.
pub data Attempted {ℓ} (A : Type ℓ) : Type ℓ where
  settled : Outcome A → Attempted A
  exhausted : List RpcCallError → Attempted A

-- `callEndpoint` on what `postRpc` gives. An array has no `error` and no `result`.
unfoldable pub single_answer :
    {Value : Type 0}
    → Text
    → Result RpcCallError (Payload Value × ℕ)
    → Result RpcCallError (ResultField Value)
unfolding entry_result
single_answer method (err failure) = err failure
single_answer method (ok (object e, status)) = entry_result method status e.error e.result
single_answer method (ok (payload, status)) = ok no_result

module _ {Average Params Value : Type 0} (averages : Averages Average) (options : RpcPoolOptions)
    (world : World Params Value) where
  -- A request of `ids` ids is under way, paced and counted.
  unfoldable pub begin_call : ℕ → ℕ → RpcPool Average → RpcPool Average
  unfolding respect_pacing
  begin_call n ids pool =
      let paced =
        update_endpoint averages options n (respect_pacing averages options (world.now pool.moment))
          pool in
      let counted =
        update_endpoint averages options n (λ e. record e { total_requests = e.total_requests + 1 })
          paced in
      record counted { request_id = pool.request_id + ids; moment = pool.moment + 1 }

  unfoldable pub end_call :
      {A : Type 0}
      → ℕ
      → Result RpcCallError A
      → RpcPool Average
      → Result RpcCallError A × RpcPool Average
  unfolding record_success
  end_call n (err failure) pool = (err failure, record pool { moment = pool.moment + 1 })
  end_call n (ok answer) pool =
      let latency = pos (world.now (pool.moment + 1)) -ℤ pos (world.now pool.moment) in
      (
        ok answer,
        record (update_endpoint averages options n (record_success averages options latency) pool) {
          moment = pool.moment + 2;
        },
      )

  unfoldable pub call_endpoint :
      ℕ
      → Text
      → RpcBatchCall Params
      → RpcPool Average
      → Result RpcCallError (ResultField Value) × RpcPool Average
  unfolding begin_call end_call single_answer post_rpc
  call_endpoint n url call pool =
      let began = begin_call n 1 pool in
      end_call n (single_answer call.method (post_rpc (world.reply url began.request_id call)))
        began

  unfoldable pub fail : ℕ → RpcCallError → RpcPool Average → RpcPool Average
  unfolding record_failure
  fail n failure pool =
      record (update_endpoint averages options n
        (record_failure averages options (world.now pool.moment) failure.kind) pool) {
          moment = pool.moment + 1;
        }

  -- An attempt's `return` or `catch`, with the attempts after it. `learn` says what a failure changes
  -- in the endpoint, where it is one that ends the attempts.
  unfoldable pub settle :
      {A : Type 0}
      → ℕ
      → (RpcCallError → Option (Endpoint Average → Endpoint Average))
      → (List RpcCallError → RpcPool Average → Attempted A × RpcPool Average)
      → List RpcCallError
      → Result RpcCallError A × RpcPool Average
      → Attempted A × RpcPool Average
  unfolding fail is_retryable
  settle n learn next failures (ok found, pool) = (settled (answered found), pool)
  settle n learn next failures (err failure, pool) = elim (is_retryable failure.kind) [
    | false ↦ (settled (refused failure), fail n failure pool)
    | true ↦ elim (learn failure) [
      | some change ↦ (
        exhausted (failures ++ failure ∷ []),
        update_endpoint averages options n change (fail n failure pool),
      )
      | none ↦ next (failures ++ failure ∷ []) (fail n failure pool)
    ]
  ]

  -- The attempts on one endpoint.
  unfoldable pub try_endpoint :
      {A : Type 0}
      → ℕ
      → (RpcCallError → Option (Endpoint Average → Endpoint Average))
      → (RpcPool Average → Result RpcCallError A × RpcPool Average)
      → ℕ
      → List RpcCallError
      → RpcPool Average
      → Attempted A × RpcPool Average
  unfolding settle
  try_endpoint n learn call zero failures pool = (exhausted failures, pool)
  try_endpoint n learn call (suc attempts) failures pool =
      settle n learn (try_endpoint n learn call attempts) failures (call pool)

  abbrev pub or_next :
      {A : Type 0}
      → (List RpcCallError → RpcPool Average → Outcome A × RpcPool Average)
      → Attempted A × RpcPool Average
      → Outcome A × RpcPool Average
  or_next next (settled outcome, pool) = (outcome, pool)
  or_next next (exhausted failures, pool) = next failures pool

  unfoldable pub try_endpoints :
      {A : Type 0}
      → (RpcCallError → Option (Endpoint Average → Endpoint Average))
      → (ℕ → Text → RpcPool Average → Result RpcCallError A × RpcPool Average)
      → List (ℕ × Endpoint Average)
      → List RpcCallError
      → RpcPool Average
      → Outcome A × RpcPool Average
  unfolding try_endpoint
  try_endpoints learn call [] failures pool = (all_failed failures, pool)
  try_endpoints learn call ((n, endpoint) ∷ order) failures pool =
      or_next (try_endpoints learn call order)
        (try_endpoint n learn (call n endpoint.url) options.attempts_per_endpoint failures pool)

  unfoldable pub request :
      RpcBatchCall Params → RpcPool Average → Outcome (ResultField Value) × RpcPool Average
  unfolding try_endpoints call_endpoint select_order
  request call pool =
      try_endpoints (λ f. none) (λ n url. call_endpoint n url call)
        (select_order averages options (world.now pool.moment) pool.endpoints) []
        (record pool { moment = pool.moment + 1 })
