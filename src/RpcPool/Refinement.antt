-- ===== src/RpcPool/Refinement.antt =====
-- `requestBatch` against its contract: the results of the calls, in their order.
use stunks.Prelude.{
  ℕ, zero, suc, ◌+◌, ◌≤◌, ◌≡◌, refl, sym, ◌∙◌, ap, List, [], ◌∷◌, ◌++◌, map, Option, none, some,
  arith, ltb, inl, inr, Option-cases, Bool-cases, length, take, drop,
}
use mathlib.Core.Path.{subst}
use mathlib.Core.List.{append_assoc, append-nil}
use stunks.Prelude.Text.{Text}
use stunks.RpcPool.Wire.{RpcBatchCall, ResultField}
use stunks.RpcPool.Endpoints.{Averages, Endpoint, RpcPool, RpcPoolOptions}
use stunks.RpcPool.Request.{World, Outcome, answered, refused, all_failed, batch_not_supported}
use stunks.RpcPool.Batch.{
  call_endpoint_batch, learn_batch_size, try_capable, request_whole_batch, next_chunk,
  request_chunks, request_batch_in_chunks, chunks_or, whole_or_chunks, proven_batch_ceiling,
  request_batch,
}
use stunks.RpcPool.Outcomes.{Gives, Answers, end_call-Gives, try_endpoints-Answers}
use stunks.RpcPool.Truthful.{IsTruthful, Result-Gives, batch_answer-true}

module _ {A B : Type 0} (f : A → B) where
  map-take-drop : (n : ℕ) (xs : List A) → map f (take n xs) ++ map f (drop n xs) ≡ map f xs
  map-take-drop zero xs = refl
  map-take-drop (suc n) [] = refl
  map-take-drop (suc n) (x ∷ xs) = ap (λ r. f x ∷ r) (map-take-drop n xs)

length-drop_le : {A : Type 0} (n : ℕ) (xs : List A) → length (drop n xs) ≤ length xs
length-drop_le zero xs = omega arith
length-drop_le (suc n) [] = omega arith
length-drop_le (suc n) (x ∷ xs) = omega (arith, length-drop_le n xs)

module _ {Average Params Value : Type 0} (averages : Averages Average) (options : RpcPoolOptions)
    (world : World Params Value) (serve : RpcBatchCall Params → ResultField Value)
    (truthful : (url : Text) (id : ℕ) (calls : List (RpcBatchCall Params))
      → IsTruthful serve id calls (world.batch_reply url id calls)) where
  call_endpoint_batch-Gives :
      (calls : List (RpcBatchCall Params)) (n : ℕ) (url : Text) (pool : RpcPool Average)
      → Gives
          (λ vs. vs ≡ map serve calls)
          (call_endpoint_batch averages options world calls n url pool).0
  unfolding call_endpoint_batch
  call_endpoint_batch-Gives calls n url pool =
      end_call-Gives averages options world (λ vs. vs ≡ map serve calls) n _ _
        (Result-Gives serve (λ vs. vs ≡ map serve calls) _
          (λ vs h.
            batch_answer-true serve (pool.request_id + 1) calls _ vs
              (truthful url (pool.request_id + 1) calls) h))

  try_capable-Answers :
      (calls : List (RpcBatchCall Params)) (capable : List (ℕ × Endpoint Average))
      (pool : RpcPool Average)
      → Answers
          (λ vs. vs ≡ map serve calls)
          (try_capable averages options world calls capable pool).0
  unfolding try_capable
  try_capable-Answers calls [] pool = tt
  try_capable-Answers calls (e ∷ capable) pool =
      try_endpoints-Answers averages options world (λ vs. vs ≡ map serve calls)
        (learn_batch_size (length calls)) (call_endpoint_batch averages options world calls)
        (call_endpoint_batch-Gives calls) (e ∷ capable) [] pool

  request_whole_batch-Answers :
      (calls : List (RpcBatchCall Params)) (pool : RpcPool Average)
      → Answers
          (λ vs. vs ≡ map serve calls)
          (request_whole_batch averages options world calls pool).0
  unfolding request_whole_batch
  request_whole_batch-Answers calls pool = try_capable-Answers calls _ _

  next_chunk-Answers :
      (size : ℕ) (calls : List (RpcBatchCall Params)) (results : List (ResultField Value))
      (next : List (ResultField Value)
        → RpcPool Average
        → Outcome (List (ResultField Value)) × RpcPool Average)
      → ((rs : List (ResultField Value)) (pool : RpcPool Average)
          → Answers (λ vs. vs ≡ rs ++ map serve (drop size calls)) (next rs pool).0)
      → (requested : Outcome (List (ResultField Value)) × RpcPool Average)
      → Answers (λ vs. vs ≡ map serve (take size calls)) requested.0
      → Answers
          (λ vs. vs ≡ results ++ map serve calls)
          (next_chunk averages options world next results requested).0
  next_chunk-Answers size calls results next keeps (refused f, pool) given = tt
  next_chunk-Answers size calls results next keeps (all_failed fs, pool) given = tt
  next_chunk-Answers size calls results next keeps (batch_not_supported, pool) given = tt
  next_chunk-Answers size calls results next keeps (answered found, pool) given =
      subst (λ r. Answers (λ vs. vs ≡ r) (next (results ++ found) pool).0)
        (rw given (
          append_assoc results (map serve (take size calls)) (map serve (drop size calls))
          ∙ ap (λ r. results ++ r) (map-take-drop serve size calls)))
        (keeps (results ++ found) pool)

  request_chunks-Answers :
      (fuel size : ℕ) (calls : List (RpcBatchCall Params)) (results : List (ResultField Value))
      (pool : RpcPool Average)
      → length calls ≤ fuel
      → Answers
          (λ vs. vs ≡ results ++ map serve calls)
          (request_chunks averages options world fuel (suc size) calls results pool).0
  unfolding request_chunks
  request_chunks-Answers zero size [] results pool enough = sym (append-nil results)
  request_chunks-Answers zero size (call ∷ calls) results pool enough = absurd (omega arith)
  request_chunks-Answers (suc fuel) size [] results pool enough = sym (append-nil results)
  request_chunks-Answers (suc fuel) size (call ∷ calls) results pool enough =
      next_chunk-Answers (suc size) (call ∷ calls) results
        (request_chunks averages options world fuel (suc size) (drop size calls))
        (λ rs pool.
          request_chunks-Answers fuel size (drop size calls) rs pool
            (omega (arith, length-drop_le size calls)))
        _ (request_whole_batch-Answers (call ∷ take size calls) pool)

  request_batch_in_chunks-Answers :
      (calls : List (RpcBatchCall Params)) (limit : ℕ) (pool : RpcPool Average)
      → Answers
          (λ vs. vs ≡ map serve calls)
          (request_batch_in_chunks averages options world calls limit pool).0
  unfolding request_batch_in_chunks
  request_batch_in_chunks-Answers calls zero pool =
      request_chunks-Answers (length calls) 0 calls [] pool (omega arith)
  request_batch_in_chunks-Answers calls (suc limit) pool =
      subst
        (λ s.
          Answers (λ vs. vs ≡ map serve calls)
            (request_chunks averages options world (length calls) s calls [] pool).0)
        (omega arith) (request_chunks-Answers (length calls) limit calls [] pool (omega arith))

  chunks_or-Answers :
      (calls : List (RpcBatchCall Params)) (limit : Option ℕ)
      (outcome : Outcome (List (ResultField Value))) (pool : RpcPool Average)
      → Answers (λ vs. vs ≡ map serve calls) outcome
      → Answers
          (λ vs. vs ≡ map serve calls)
          (chunks_or averages options world calls limit (outcome, pool)).0
  unfolding chunks_or
  chunks_or-Answers calls none outcome pool given = given
  chunks_or-Answers calls (some limit) outcome pool given =
      elim (Bool-cases (ltb limit (length calls))) [
        | inl e ↦ rw e (request_batch_in_chunks-Answers calls limit pool)
        | inr e ↦ rw e given
      ]

  whole_or_chunks-Answers :
      (calls : List (RpcBatchCall Params))
      (requested : Outcome (List (ResultField Value)) × RpcPool Average)
      → Answers (λ vs. vs ≡ map serve calls) requested.0
      → Answers
          (λ vs. vs ≡ map serve calls)
          (whole_or_chunks averages options world calls requested).0
  unfolding whole_or_chunks
  whole_or_chunks-Answers calls (answered found, pool) given = given
  whole_or_chunks-Answers calls (refused f, pool) given =
      chunks_or-Answers calls _ (refused f) pool tt
  whole_or_chunks-Answers calls (all_failed fs, pool) given =
      chunks_or-Answers calls _ (all_failed fs) pool tt
  whole_or_chunks-Answers calls (batch_not_supported, pool) given =
      chunks_or-Answers calls _ batch_not_supported pool tt

  -- Where every batch answer is truthful, that is, each of its entries without an error has the result
  -- that `serve` gives for the call with its id, whatever the order of the entries, and whichever
  -- are missing, repeated or errors: what `requestBatch` returns is the result of `serve` for every
  -- call, in the order of the calls. It is so for every state of the pool, over failovers, attempts,
  -- learnt limits and chunks, whose number the fuel covers.
  pub request_batch-serve :
      (calls : List (RpcBatchCall Params)) (pool : RpcPool Average)
      → Answers
          (λ results. results ≡ map serve calls)
          (request_batch averages options world calls pool).0
  unfolding request_batch
  request_batch-serve [] pool = refl
  request_batch-serve (call ∷ calls) pool =
      let whole =
        whole_or_chunks-Answers (call ∷ calls) _
          (request_whole_batch-Answers (call ∷ calls) pool) in
      elim (Option-cases (proven_batch_ceiling none pool.endpoints)) [
        | inl e ↦ rw (e, request_batch) whole
        | inr (limit, e) ↦ elim (Bool-cases (ltb limit (length (call ∷ calls)))) [
          | inl below ↦
              rw (e, below, request_batch)
                (request_batch_in_chunks-Answers (call ∷ calls) limit pool)
          | inr above ↦ rw (e, above, request_batch) whole
        ]
      ]
