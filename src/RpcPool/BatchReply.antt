-- ===== src/RpcPool/BatchReply.antt =====
-- `callEndpointBatch` on the answer to a batch: packages/web3/src/rpc-pool.ts.
use stunks.Prelude.{
  ℕ, suc, Bool, true, false, List, [], ◌∷◌, Option, none, some, Result, ok, err, ◌==◌,
  if◌then◌else◌, ◌>>=◌,
}
use stunks.Prelude.Text.{Text}
use stunks.RpcErrors.{RpcCallError, network, non_json_response}
use stunks.RpcPool.Wire.{
  RpcBatchCall, BatchEntry, Item, null_item, entry, Payload, ResultField, array, failure,
  entry_result,
}

abbrev pub is_id : ℕ → Option ℕ → Bool
is_id id none = false
is_id id (some other) = id == other

module _ {Value : Type 0} where
  -- `byId.get`, on the array that the map is built from: the last entry with the id.
  unfoldable pub by_id : ℕ → List (Item Value) → Option (BatchEntry Value)
  by_id id [] = none
  by_id id (null_item ∷ items) = by_id id items
  by_id id (entry e ∷ items) = elim (by_id id items) [
    | some later ↦ some later
    | none ↦ if is_id id e.id then some e else none
  ]

  -- Reading `id` of a `null` item throws.
  abbrev pub has_null : List (Item Value) → Bool
  has_null [] = false
  has_null (null_item ∷ items) = true
  has_null (entry e ∷ items) = has_null items

  unfoldable pub entry_answer :
      Text → ℕ → Option (BatchEntry Value) → Result RpcCallError (ResultField Value)
  unfolding entry_result
  entry_answer method status none = failure non_json_response []
  entry_answer method status (some e) = entry_result method status e.error e.result

module _ {Params Value : Type 0} where
  -- The loop over the calls.
  unfoldable pub batch_results :
      ℕ
      → ℕ
      → List (Item Value)
      → List (RpcBatchCall Params)
      → Result RpcCallError (List (ResultField Value))
  unfolding by_id entry_answer
  batch_results status id items [] = ok []
  batch_results status id items (call ∷ calls) = do
    found ← entry_answer call.method status (by_id id items)
    rest ← batch_results status (suc id) items calls
    ok (found ∷ rest)

  -- `callEndpointBatch` on what `postRpc` gives.
  unfoldable pub batch_answer :
      ℕ
      → List (RpcBatchCall Params)
      → Result RpcCallError (Payload Value × ℕ)
      → Result RpcCallError (List (ResultField Value))
  unfolding batch_results
  batch_answer base_id calls (err failed) = err failed
  batch_answer base_id calls (ok (array items, status)) =
      if has_null items then failure network [] else batch_results status base_id items calls
  batch_answer base_id calls (ok (payload, status)) = failure non_json_response []
