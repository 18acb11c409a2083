-- ===== src/RpcPool/Batch.antt =====
-- `requestBatch` of the pool and what it calls: packages/web3/src/rpc-pool.ts.
use stunks.Prelude.{
  ℕ, zero, suc, ◌+◌, ◌-◌, min, max, Bool, true, false, List, [], ◌∷◌, ◌++◌, Option, none, some,
  Result, ltb, leb, if◌then◌else◌, filter_by, length, take, drop,
}
use stunks.RpcErrors.{RpcCallError, RpcFailureKind, batch_too_large, parse_allowed_batch_size}
use stunks.RpcPool.Wire.{RpcBatchCall, ResultField, post_rpc}
use stunks.Prelude.Text.{Text}
use stunks.RpcPool.BatchReply.{batch_answer}
use stunks.RpcPool.Endpoints.{Averages, Endpoint, RpcPool, RpcPoolOptions, select_order}
use stunks.RpcPool.Request.{
  World, Outcome, answered, batch_not_supported, begin_call, end_call, try_endpoints,
}

unfoldable pub or_size : Option ℕ → ℕ → ℕ
or_size none n = n
or_size (some allowed) n = allowed

abbrev pub is_batch_too_large : RpcFailureKind → Bool
is_batch_too_large batch_too_large = true
is_batch_too_large _ = false

-- What a failure teaches of an endpoint's limit.
unfoldable pub learn_batch_size :
    {Average : Type 0} → ℕ → RpcCallError → Option (Endpoint Average → Endpoint Average)
unfolding or_size
learn_batch_size count failed =
    if is_batch_too_large failed.kind
    then some (λ e. record e {
      max_batch_size =
          some (min (or_size (parse_allowed_batch_size failed.message) (count - 1)) (count - 1));
    })
    else none

abbrev pub admits : ℕ → Option ℕ → Bool
admits count none = true
admits count (some limit) = leb count limit

abbrev pub larger : Option ℕ → ℕ → Option ℕ
larger none n = some n
larger (some best) n = if ltb best n then some n else some best

module _ {Average : Type 0} where
  -- The loop of `provenBatchCeiling`, which an endpoint without a limit ends.
  unfoldable pub proven_batch_ceiling : Option ℕ → List (Endpoint Average) → Option ℕ
  proven_batch_ceiling best [] = best
  proven_batch_ceiling best (e ∷ es) = elim e.max_batch_size [
    | none ↦ none
    | some limit ↦ proven_batch_ceiling (larger best limit) es
  ]

  unfoldable pub best_known_batch_limit : Option ℕ → List (Endpoint Average) → Option ℕ
  best_known_batch_limit best [] = best
  best_known_batch_limit best (e ∷ es) = elim e.max_batch_size [
    | none ↦ best_known_batch_limit best es
    | some limit ↦ best_known_batch_limit (larger best limit) es
  ]

module _ {Average Params Value : Type 0} (averages : Averages Average) (options : RpcPoolOptions)
    (world : World Params Value) where
  unfoldable pub call_endpoint_batch :
      List (RpcBatchCall Params)
      → ℕ
      → Text
      → RpcPool Average
      → Result RpcCallError (List (ResultField Value)) × RpcPool Average
  unfolding begin_call end_call batch_answer post_rpc
  call_endpoint_batch calls n url pool =
      let began = begin_call averages options world n (length calls) pool in
      let base_id = pool.request_id + 1 in
      end_call averages options world n
        (batch_answer base_id calls (post_rpc (world.batch_reply url base_id calls))) began

  -- `requestWholeBatch`, from the endpoints that can take the batch on.
  unfoldable pub try_capable :
      List (RpcBatchCall Params)
      → List (ℕ × Endpoint Average)
      → RpcPool Average
      → Outcome (List (ResultField Value)) × RpcPool Average
  unfolding try_endpoints call_endpoint_batch learn_batch_size
  try_capable calls [] pool = (batch_not_supported, pool)
  try_capable calls (e ∷ capable) pool =
      try_endpoints averages options world (learn_batch_size (length calls))
        (call_endpoint_batch calls) (e ∷ capable) [] pool

  unfoldable pub request_whole_batch :
      List (RpcBatchCall Params)
      → RpcPool Average
      → Outcome (List (ResultField Value)) × RpcPool Average
  unfolding try_capable select_order
  request_whole_batch calls pool =
      try_capable calls
        (filter_by (λ p. admits (length calls) p.1.max_batch_size)
          (select_order averages options (world.now pool.moment) pool.endpoints))
        (record pool { moment = pool.moment + 1 })

  -- The rest of the chunks after one, with the results so far.
  abbrev pub next_chunk :
      (List (ResultField Value)
        → RpcPool Average
        → Outcome (List (ResultField Value)) × RpcPool Average)
      → List (ResultField Value)
      → Outcome (List (ResultField Value)) × RpcPool Average
      → Outcome (List (ResultField Value)) × RpcPool Average
  next_chunk next results (answered found, pool) = next (results ++ found) pool
  next_chunk next results (outcome, pool) = (outcome, pool)

  -- `requestBatchInChunks` from an offset on; a chunk takes one of the fuel.
  unfoldable pub request_chunks :
      ℕ
      → ℕ
      → List (RpcBatchCall Params)
      → List (ResultField Value)
      → RpcPool Average
      → Outcome (List (ResultField Value)) × RpcPool Average
  unfolding request_whole_batch
  request_chunks zero size calls results pool = (answered results, pool)
  request_chunks (suc fuel) size [] results pool = (answered results, pool)
  request_chunks (suc fuel) size (call ∷ calls) results pool =
      next_chunk (request_chunks fuel size (drop size (call ∷ calls))) results
        (request_whole_batch (take size (call ∷ calls)) pool)

  unfoldable pub request_batch_in_chunks :
      List (RpcBatchCall Params)
      → ℕ
      → RpcPool Average
      → Outcome (List (ResultField Value)) × RpcPool Average
  unfolding request_chunks
  request_batch_in_chunks calls chunk_size pool =
      request_chunks (length calls) (max 1 chunk_size) calls [] pool

  -- The `catch` of `requestBatch`.
  unfoldable pub chunks_or :
      List (RpcBatchCall Params)
      → Option ℕ
      → Outcome (List (ResultField Value)) × RpcPool Average
      → Outcome (List (ResultField Value)) × RpcPool Average
  unfolding request_batch_in_chunks
  chunks_or calls none (outcome, pool) = (outcome, pool)
  chunks_or calls (some limit) (outcome, pool) =
      let chunked = request_batch_in_chunks calls limit pool in
      if ltb limit (length calls) then chunked else (outcome, pool)

  unfoldable pub whole_or_chunks :
      List (RpcBatchCall Params)
      → Outcome (List (ResultField Value)) × RpcPool Average
      → Outcome (List (ResultField Value)) × RpcPool Average
  unfolding chunks_or best_known_batch_limit
  whole_or_chunks calls (answered found, pool) = (answered found, pool)
  whole_or_chunks calls (outcome, pool) =
      chunks_or calls (best_known_batch_limit none pool.endpoints) (outcome, pool)

  unfoldable pub request_batch :
      List (RpcBatchCall Params)
      → RpcPool Average
      → Outcome (List (ResultField Value)) × RpcPool Average
  unfolding whole_or_chunks request_batch_in_chunks proven_batch_ceiling
  request_batch [] pool = (answered [], pool)
  request_batch (call ∷ calls) pool = elim (proven_batch_ceiling none pool.endpoints) [
    | none ↦ whole_or_chunks (call ∷ calls) (request_whole_batch (call ∷ calls) pool)
    | some limit ↦
        if ltb limit (length (call ∷ calls))
        then request_batch_in_chunks (call ∷ calls) limit pool
        else whole_or_chunks (call ∷ calls) (request_whole_batch (call ∷ calls) pool)
  ]
