-- ===== src/RpcPool/Reachable.antt =====
-- The states that a pool reaches by its calls.
use stunks.Prelude.{
  ℕ, zero, suc, ◌≤◌, ◌≡◌, List, [], ◌∷◌, ◌++◌, Option, none, some, All, arith, inl, inr,
  Option-cases, some-injective, Bool-cases, length, map, take, drop, max, ltb,
}
use stunks.RpcErrors.{RpcCallError}
use stunks.RpcPool.Wire.{RpcBatchCall, ResultField}
use stunks.RpcPool.Endpoints.{
  Averages, Endpoint, EndpointConfig, RpcPool, RpcPoolOptions, new_endpoint, new_pool,
}
use stunks.RpcPool.Request.{
  World, Outcome, answered, refused, all_failed, batch_not_supported, call_endpoint, request,
}
use stunks.RpcPool.Batch.{
  learn_batch_size, is_batch_too_large, call_endpoint_batch, try_capable, request_whole_batch,
  request_chunks, next_chunk, request_batch_in_chunks, chunks_or, whole_or_chunks,
  proven_batch_ceiling, request_batch,
}
use stunks.RpcPool.Health.{IsSound, AreSound, AfterCall, end_call-AfterCall, try_endpoints-AreSound}

module _ {Average Params Value : Type 0} (averages : Averages Average) (options : RpcPoolOptions)
    (world : World Params Value) where
  -- A pool that was opened and has served calls.
  pub data Reachable (configs : List EndpointConfig) : RpcPool Average → Type 0 where
    opened :
        {pool : RpcPool Average}
        → new_pool averages options configs ≡ some pool
        → Reachable configs pool
    requested :
        {pool : RpcPool Average} (call : RpcBatchCall Params)
        → Reachable configs pool
        → Reachable configs (request averages options world call pool).1
    batch_requested :
        {pool : RpcPool Average} (calls : List (RpcBatchCall Params))
        → Reachable configs pool
        → Reachable configs (request_batch averages options world calls pool).1

  module _ (positive : 1 ≤ options.failure_threshold) where
    new_pool-AreSound :
        (configs : List EndpointConfig) (pool : RpcPool Average)
        → new_pool averages options configs ≡ some pool
        → AreSound averages options world pool
    unfolding new_pool IsSound new_endpoint
    new_pool-AreSound [] pool h = cc
    new_pool-AreSound (c ∷ configs) pool h = rw (← some-injective h) (all_new (c ∷ configs))
      where
        all_new :
            (cs : List EndpointConfig)
            → All (IsSound averages options world) (map (new_endpoint averages options) cs)
        all_new [] = tt
        all_new (c ∷ cs) = (ground arith, all_new cs)

    call_endpoint-AfterCall :
        (call : RpcBatchCall Params) (n : ℕ) (url : _) (pool : RpcPool Average)
        → AreSound averages options world pool
        → AfterCall averages options world positive n
            (call_endpoint averages options world n url call pool)
    unfolding call_endpoint
    call_endpoint-AfterCall call n url pool sound =
        end_call-AfterCall averages options world positive n 1 _ pool sound

    call_endpoint_batch-AfterCall :
        (calls : List (RpcBatchCall Params)) (n : ℕ) (url : _) (pool : RpcPool Average)
        → AreSound averages options world pool
        → AfterCall averages options world positive n
            (call_endpoint_batch averages options world calls n url pool)
    unfolding call_endpoint_batch
    call_endpoint_batch-AfterCall calls n url pool sound =
        end_call-AfterCall averages options world positive n (length calls) _ pool sound

    request-AreSound :
        (call : RpcBatchCall Params) (pool : RpcPool Average)
        → AreSound averages options world pool
        → AreSound averages options world (request averages options world call pool).1
    unfolding request
    request-AreSound call pool sound =
        try_endpoints-AreSound averages options world positive (λ f. none) (λ f change h. cc) _
          (call_endpoint-AfterCall call) _ [] _ sound

    learn_batch_size-IsSound :
        (count : ℕ) (f : RpcCallError) (change : Endpoint Average → Endpoint Average)
        → learn_batch_size count f ≡ some change
        → (e : Endpoint Average) → IsSound averages options world e
        → IsSound averages options world (change e)
    unfolding learn_batch_size IsSound
    learn_batch_size-IsSound count f change h e sound =
        elim (Bool-cases (is_batch_too_large f.kind)) [
          | inl big ↦ let same = some-injective (rw big at h) in rw (← same) sound
          | inr other ↦ cc (rw other at h)
        ]

    try_capable-AreSound :
        (calls : List (RpcBatchCall Params)) (capable : List (ℕ × Endpoint Average))
        (pool : RpcPool Average)
        → AreSound averages options world pool
        → AreSound averages options world (try_capable averages options world calls capable pool).1
    unfolding try_capable
    try_capable-AreSound calls [] pool sound = sound
    try_capable-AreSound calls (e ∷ capable) pool sound =
        try_endpoints-AreSound averages options world positive _
          (learn_batch_size-IsSound (length calls)) _ (call_endpoint_batch-AfterCall calls)
          (e ∷ capable) [] pool sound

    request_whole_batch-AreSound :
        (calls : List (RpcBatchCall Params)) (pool : RpcPool Average)
        → AreSound averages options world pool
        → AreSound averages options world (request_whole_batch averages options world calls pool).1
    unfolding request_whole_batch
    request_whole_batch-AreSound calls pool sound = try_capable-AreSound calls _ _ sound

    next_chunk-AreSound :
        (next : List (ResultField Value)
          → RpcPool Average
          → Outcome (List (ResultField Value)) × RpcPool Average)
        → (results : List (ResultField Value))
        → ((rs : List (ResultField Value)) (pool : RpcPool Average)
            → AreSound averages options world pool
            → AreSound averages options world (next rs pool).1)
        → (requested : Outcome (List (ResultField Value)) × RpcPool Average)
        → AreSound averages options world requested.1
        → AreSound averages options world
            (next_chunk averages options world next results requested).1
    next_chunk-AreSound next results keeps (answered found, pool) sound =
        keeps (results ++ found) pool sound
    next_chunk-AreSound next results keeps (refused f, pool) sound = sound
    next_chunk-AreSound next results keeps (all_failed fs, pool) sound = sound
    next_chunk-AreSound next results keeps (batch_not_supported, pool) sound = sound

    request_chunks-AreSound :
        (fuel size : ℕ) (calls : List (RpcBatchCall Params)) (results : List (ResultField Value))
        (pool : RpcPool Average)
        → AreSound averages options world pool
        → AreSound averages options world
            (request_chunks averages options world fuel size calls results pool).1
    unfolding request_chunks
    request_chunks-AreSound zero size calls results pool sound = sound
    request_chunks-AreSound (suc fuel) size [] results pool sound = sound
    request_chunks-AreSound (suc fuel) size (call ∷ calls) results pool sound =
        next_chunk-AreSound
          (request_chunks averages options world fuel size (drop size (call ∷ calls))) results
          (request_chunks-AreSound fuel size (drop size (call ∷ calls))) _
          (request_whole_batch-AreSound (take size (call ∷ calls)) pool sound)

    request_batch_in_chunks-AreSound :
        (calls : List (RpcBatchCall Params)) (limit : ℕ) (pool : RpcPool Average)
        → AreSound averages options world pool
        → AreSound averages options world
            (request_batch_in_chunks averages options world calls limit pool).1
    unfolding request_batch_in_chunks
    request_batch_in_chunks-AreSound calls limit pool sound =
        request_chunks-AreSound (length calls) (max 1 limit) calls [] pool sound

    chunks_or-AreSound :
        (calls : List (RpcBatchCall Params)) (limit : Option ℕ)
        (outcome : Outcome (List (ResultField Value))) (pool : RpcPool Average)
        → AreSound averages options world pool
        → AreSound averages options world
            (chunks_or averages options world calls limit (outcome, pool)).1
    unfolding chunks_or
    chunks_or-AreSound calls none outcome pool sound = sound
    chunks_or-AreSound calls (some limit) outcome pool sound =
        elim (Bool-cases (ltb limit (length calls))) [
          | inl e ↦ rw e (request_batch_in_chunks-AreSound calls limit pool sound)
          | inr e ↦ rw e sound
        ]

    whole_or_chunks-AreSound :
        (calls : List (RpcBatchCall Params))
        (requested : Outcome (List (ResultField Value)) × RpcPool Average)
        → AreSound averages options world requested.1
        → AreSound averages options world (whole_or_chunks averages options world calls requested).1
    unfolding whole_or_chunks
    whole_or_chunks-AreSound calls (answered found, pool) sound = sound
    whole_or_chunks-AreSound calls (refused f, pool) sound = chunks_or-AreSound calls _ _ pool sound
    whole_or_chunks-AreSound calls (all_failed fs, pool) sound =
        chunks_or-AreSound calls _ _ pool sound
    whole_or_chunks-AreSound calls (batch_not_supported, pool) sound =
        chunks_or-AreSound calls _ _ pool sound

    request_batch-AreSound :
        (calls : List (RpcBatchCall Params)) (pool : RpcPool Average)
        → AreSound averages options world pool
        → AreSound averages options world (request_batch averages options world calls pool).1
    unfolding request_batch
    request_batch-AreSound [] pool sound = sound
    request_batch-AreSound (call ∷ calls) pool sound =
        let whole =
          whole_or_chunks-AreSound (call ∷ calls) _
            (request_whole_batch-AreSound (call ∷ calls) pool sound) in
        elim (Option-cases (proven_batch_ceiling none pool.endpoints)) [
          | inl e ↦ rw (e, request_batch) whole
          | inr (limit, e) ↦ elim (Bool-cases (ltb limit (length (call ∷ calls)))) [
            | inl below ↦
                rw (e, below, request_batch)
                  (request_batch_in_chunks-AreSound (call ∷ calls) limit pool sound)
            | inr above ↦ rw (e, above, request_batch) whole
          ]
        ]

    -- Where the failure threshold is at least 1, in every state that a pool reaches by requests and
    -- batches, whatever the endpoints answer: each endpoint's failures are at most its requests, those
    -- in a row are at most its failures, and it has a cooldown exactly when those in a row reach the
    -- threshold.
    pub Reachable-AreSound :
        (configs : List EndpointConfig) (pool : RpcPool Average)
        → Reachable configs pool
        → AreSound averages options world pool
    Reachable-AreSound configs pool (opened h) = new_pool-AreSound configs pool h
    Reachable-AreSound configs _ (requested {pool} call reached) =
        request-AreSound call pool (Reachable-AreSound configs pool reached)
    Reachable-AreSound configs _ (batch_requested {pool} calls reached) =
        request_batch-AreSound calls pool (Reachable-AreSound configs pool reached)
