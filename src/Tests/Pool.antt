-- ===== src/Tests/Pool.antt =====
-- The pool of endpoints at a concrete world: one endpoint that never answers, and one that answers
-- batches of two in the reverse order.
use mathlib.Core.List.{Perm}
use stunks.Prelude.{
  ℕ, zero, suc, ◌*◌, ◌≡◌, refl, ap, true, false, not, Option, none, some, List, [], ◌∷◌, ◌++◌, map,
  arith, ltb, All, IsOrdered, some-injective,
}
use stunks.Prelude.Int.{ℤ, pos, negsuc}
use stunks.Prelude.Text.{Text}
use stunks.Prelude.Regex.{codes}
use stunks.RpcErrors.{
  RpcCallError, timeout, log_range_too_wide, ErrorObject, all_endpoints_failed, caused_by,
  without_cause, find_rpc_call_error,
}
use stunks.RpcErrors.Chain.{IsClosed, IsSilent, Reaches}
use stunks.RpcErrors.Ranked.{IsFoundAt, find_rpc_call_error_best}
use stunks.RpcPool.Wire.{
  RpcBatchCall, ResultField, Reply, no_answer, response, array, object, entry, no_error, value,
}
use stunks.RpcPool.Endpoints.{
  Averages, Endpoint, EndpointConfig, RpcPool, RpcPoolOptions, before, indexed, is_healthy,
  new_pool, select_order,
}
use stunks.RpcPool.Request.{World, answered, request}
use stunks.RpcPool.Batch.{request_batch}
use stunks.RpcPool.Order.{select_order_lem}
use stunks.RpcPool.Health.{AreSound}
use stunks.RpcPool.Reachable.{opened, requested, Reachable-AreSound}
use stunks.RpcPool.Outcomes.{Answers}
use stunks.RpcPool.Failover.{EndsAfter, IsReply, request-Outcome}
use stunks.RpcPool.Truthful.{IsTruthful}
use stunks.RpcPool.Refinement.{request_batch-serve}

abbrev size_of : ℤ → ℕ
size_of (pos n) = n
size_of (negsuc n) = 0

abbrev pub latencies : Averages ℕ
latencies = record { start = size_of; blend = λ average latency. average; below = ltb }

abbrev pub options : RpcPoolOptions
options = record {
  is_fastest = true;
  attempts_per_endpoint = 2;
  failure_threshold = 3;
  cooldown_ms = 1000;
}

abbrev configs : List EndpointConfig
configs =
    record { url = []; min_interval_ms = 0 } ∷ record { url = codes "b"; min_interval_ms = 50 } ∷ []

-- The result of a call is its parameter.
abbrev serve : RpcBatchCall ℕ → ResultField ℕ
serve call = value call.params

abbrev pair : ℕ → RpcBatchCall ℕ → RpcBatchCall ℕ → Reply ℕ
pair id c d = response 200 (
    array (
      entry (record { id = some (suc id); error = no_error; result = serve d })
      ∷ entry (record { id = some id; error = no_error; result = serve c })
      ∷ []))

abbrev batch_of : Text → ℕ → List (RpcBatchCall ℕ) → Reply ℕ
batch_of (u ∷ url) id (c ∷ d ∷ []) = pair id c d
batch_of url id calls = no_answer true []

abbrev single_of : Text → ℕ → RpcBatchCall ℕ → Reply ℕ
single_of [] id call = no_answer true []
single_of (u ∷ url) id call =
    response 200 (object (record { id = some id; error = no_error; result = serve call }))

abbrev world : World ℕ ℕ
world = record { now = λ n. n * 10; reply = single_of; batch_reply = batch_of }

other_id : (id : ℕ) → some (suc id) ≡ some id → ⊥
other_id id h = let same = some-injective h in omega arith

other_id' : (id : ℕ) → some id ≡ some (suc id) → ⊥
other_id' id h = let same = some-injective h in omega arith

batch_of-IsTruthful :
    (url : Text) (id : ℕ) (calls : List (RpcBatchCall ℕ))
    → IsTruthful serve id calls (world.batch_reply url id calls)
batch_of-IsTruthful (u ∷ url) id (c ∷ d ∷ []) = (
  ((λ h _. absurd (other_id id h)), ((λ h _. refl), tt)),
  (((λ h _. refl), ((λ h _. absurd (other_id' id h)), tt)), tt),
)
batch_of-IsTruthful [] id calls = tt
batch_of-IsTruthful (u ∷ url) id [] = tt
batch_of-IsTruthful (u ∷ url) id (c ∷ []) = tt
batch_of-IsTruthful (u ∷ url) id (c ∷ d ∷ e ∷ calls) = tt

abbrev calls : List (RpcBatchCall ℕ)
calls =
    record { method = codes "eth_call"; params = 7 }
    ∷ record { method = codes "eth_call"; params = 9 }
    ∷ []

abbrev call : RpcBatchCall ℕ
call = record { method = codes "eth_call"; params = 7 }

abbrev opened_pool : Option (RpcPool ℕ) → RpcPool ℕ
opened_pool none = record { endpoints = []; request_id = 0; moment = 0 }
opened_pool (some pool) = pool

abbrev pub pool : RpcPool ℕ
pool = opened_pool (new_pool latencies options configs)

-- The first endpoint fails twice, and the second answers.
served : (request_batch latencies options world calls pool).0 ≡ answered (value 7 ∷ value 9 ∷ [])
unfolding request_batch new_pool
served = refl

request_batch-serve_example :
    Answers
      (λ results. results ≡ map serve calls)
      (request_batch latencies options world calls pool).0
request_batch-serve_example =
    request_batch-serve latencies options world serve batch_of-IsTruthful calls pool

request-Outcome_example :
    EndsAfter
      (IsReply latencies options world call)
      2
      []
      (select_order latencies options (world.now pool.moment) pool.endpoints)
      (request latencies options world call pool).0
request-Outcome_example = request-Outcome latencies options world call pool

pool-opened : new_pool latencies options configs ≡ some pool
unfolding new_pool
pool-opened = refl

Reachable-AreSound_example :
    AreSound latencies options world (request latencies options world call pool).1
Reachable-AreSound_example =
    Reachable-AreSound latencies options world (omega arith) configs
      (request latencies options world call pool).1 (requested call (opened pool-opened))

ltb-asymm : (a b : ℕ) → ltb a b ≡ true → ltb b a ≡ false
ltb-asymm a b h = ground arith

select_order_lem_example :
    (healthy : List (ℕ × Endpoint ℕ)) × (cooling : List (ℕ × Endpoint ℕ)) × (select_order latencies
        options 5 pool.endpoints
      ≡ healthy ++ cooling)
    × Perm (healthy ++ cooling) (indexed latencies options 0 pool.endpoints)
    × All (λ p. is_healthy latencies options 5 p.1 ≡ true) healthy
    × All (λ p. not (is_healthy latencies options 5 p.1) ≡ true) cooling
    × (options.is_fastest ≡ true
        → IsOrdered (λ a b. before latencies options a.1.avg_latency_ms b.1.avg_latency_ms) healthy)
select_order_lem_example = select_order_lem latencies options 5 ltb-asymm pool.endpoints

-- An error whose cause is the failures of every endpoint.
abbrev store : ℕ → ErrorObject
store zero = caused_by 1
store (suc zero) = all_endpoints_failed (
    record { kind = timeout; message = [] }
    ∷ record { kind = log_range_too_wide; message = [] }
    ∷ [])
store (suc (suc n)) = without_cause

cause_of : ErrorObject → ℕ
cause_of (caused_by m) = m
cause_of _ = 0

store-IsClosed : IsClosed store 2
unfolding cause_of
store-IsClosed zero m h = let same : 1 ≡ m = ap cause_of h in omega arith
store-IsClosed (suc zero) m h = cc
store-IsClosed (suc (suc n)) m h = cc

find_rpc_call_error_best_example :
    (found : Option RpcCallError) × (find_rpc_call_error store 2 0 ≡ some found)
    × ((r : RpcCallError) → found ≡ some r → (e : ℕ) × Reaches store 0 e × IsFoundAt store r e)
    × (found ≡ none → (e : ℕ) → Reaches store 0 e → IsSilent (store e))
find_rpc_call_error_best_example = find_rpc_call_error_best store 2 store-IsClosed 0 (omega arith)
