-- ===== src/RpcPool/Truthful.antt =====
-- `requestBatch` on endpoints whose answers are true: one by one, or batches in any order, with gaps.
use mathlib.Core.Path.{subst}
use stunks.Prelude.{
  ℕ, suc, ◌≡◌, refl, sym, ◌∙◌, ap, Bool, true, false, not, ◌&&◌, List, [], ◌∷◌, map, Option, none,
  some, Result, ok, err, All, arith, inl, inr, Option-cases, Bool-cases, some-injective,
  >>=-returned, ok-injective, if◌then◌else◌,
}
use stunks.Prelude.Text.{Text}
use stunks.RpcErrors.{RpcCallError}
use stunks.RpcPool.Wire.{
  is_ok, carries_error, is_object, RpcBatchCall, ResultField, BatchEntry, Item, null_item, entry,
  Payload, not_json, scalar, object, array, Reply, no_answer, body_lost, response, ErrorField,
  no_error, falsy_error, error_of, post_rpc, checked_payload, entry_result,
}
use stunks.RpcPool.BatchReply.{is_id, by_id, has_null, entry_answer, batch_results, batch_answer}
use stunks.RpcPool.Outcomes.{Gives}

module _ {Params Value : Type 0} (serve : RpcBatchCall Params → ResultField Value) where
  -- An entry without an error has the result of the call with its id.
  abbrev pub IsTrueEntry : BatchEntry Value → ℕ → List (RpcBatchCall Params) → Type 0
  IsTrueEntry e id [] = Unit
  IsTrueEntry e id (call ∷ calls) =
      (e.id ≡ some id
        → ((message : Option Text) → e.error ≡ error_of message → ⊥)
        → e.result ≡ serve call)
      × IsTrueEntry e (suc id) calls

  abbrev pub IsTrueItem : ℕ → List (RpcBatchCall Params) → Item Value → Type 0
  IsTrueItem id calls null_item = Unit
  IsTrueItem id calls (entry e) = IsTrueEntry e id calls

  abbrev pub IsTruthful : ℕ → List (RpcBatchCall Params) → Reply Value → Type 0
  IsTruthful id calls (response status (array items)) = All (IsTrueItem id calls) items
  IsTruthful id calls _ = Unit

  IsTrueItem-tail :
      (id : ℕ) (call : RpcBatchCall Params) (calls : List (RpcBatchCall Params))
      (items : List (Item Value))
      → All (IsTrueItem id (call ∷ calls)) items
      → All (IsTrueItem (suc id) calls) items
  IsTrueItem-tail id call calls [] all = tt
  IsTrueItem-tail id call calls (null_item ∷ items) (t, all) =
      (tt, IsTrueItem-tail id call calls items all)
  IsTrueItem-tail id call calls (entry e ∷ items) ((t, ts), all) =
      (ts, IsTrueItem-tail id call calls items all)

  checked_ok :
      (b : Bool) (thrown : RpcCallError) (answer v : ResultField Value)
      → ◌≡◌ {A = Result RpcCallError (ResultField Value)}
          (if b then err thrown else ok answer)
          (ok v)
      → answer ≡ v
  checked_ok true thrown answer v h = cc
  checked_ok false thrown answer v h = ok-injective h

  is_id→≡ : (id : ℕ) (other : Option ℕ) → is_id id other ≡ true → other ≡ some id
  is_id→≡ id none h = cc
  is_id→≡ id (some other) h = ap some (ground arith)

  entry_result-ok :
      (method : Text) (status : ℕ) (error : ErrorField) (answer v : ResultField Value)
      → entry_result method status error answer ≡ ok v
      → ((message : Option Text) → error ≡ error_of message → ⊥) × (answer ≡ v)
  unfolding entry_result
  entry_result-ok method status (error_of m) answer v h = cc
  entry_result-ok method status no_error answer v h = (λ m e. cc, checked_ok _ _ answer v h)
  entry_result-ok method status falsy_error answer v h = (λ m e. cc, checked_ok _ _ answer v h)

  found_entry :
      (id : ℕ) (call : RpcBatchCall Params) (calls : List (RpcBatchCall Params))
      (items : List (Item Value)) (e : BatchEntry Value)
      → All (IsTrueItem id (call ∷ calls)) items
      → by_id id items ≡ some e
      → (e.id ≡ some id) × IsTrueEntry e id (call ∷ calls)
  unfolding by_id
  found_entry id call calls [] e all h = cc
  found_entry id call calls (null_item ∷ items) e (t, all) h =
      found_entry id call calls items e all h
  found_entry id call calls (entry d ∷ items) e (t, all) h = elim (Option-cases (by_id id items)) [
    | inr (later, f) ↦ found_entry id call calls items e all (f ∙ (rw f at h))
    | inl f ↦ elim (Bool-cases (is_id id d.id)) [
      | inr g ↦ cc (rw (f, g) at h)
      | inl g ↦
          subst (λ k. (k.id ≡ some id) × IsTrueEntry k id (call ∷ calls))
            (some-injective (rw (f, g) at h)) (is_id→≡ id d.id g, t)
    ]
  ]

  entry_answer-true :
      (status id : ℕ) (call : RpcBatchCall Params) (calls : List (RpcBatchCall Params))
      (items : List (Item Value)) (v : ResultField Value)
      → All (IsTrueItem id (call ∷ calls)) items
      → entry_answer call.method status (by_id id items) ≡ ok v
      → v ≡ serve call
  unfolding entry_answer
  entry_answer-true status id call calls items v all h = elim (Option-cases (by_id id items)) [
    | inl f ↦ cc (rw f at h)
    | inr (e, f) ↦
        let (own, (true_result, _)) = found_entry id call calls items e all f in
        let (no_errors, same) = entry_result-ok call.method status e.error e.result v (rw f at h) in
        sym same ∙ true_result own no_errors
  ]

  batch_results-true :
      (status id : ℕ) (items : List (Item Value)) (calls : List (RpcBatchCall Params))
      (vs : List (ResultField Value))
      → All (IsTrueItem id calls) items
      → batch_results status id items calls ≡ ok vs
      → vs ≡ map serve calls
  unfolding batch_results
  batch_results-true status id items [] vs all h = sym (ok-injective h)
  batch_results-true status id items (call ∷ calls) vs all h =
      let (v, found, h₁) = >>=-returned (entry_answer call.method status (by_id id items)) _ h in
      let (rest, followed, h₂) = >>=-returned (batch_results status (suc id) items calls) _ h₁ in
      rw
        (
          ← ok-injective h₂,
          entry_answer-true status id call calls items v all found,
          batch_results-true status (suc id) items calls rest
              (IsTrueItem-tail id call calls items all) followed,
        )
        refl

  pub Result-Gives :
      {A : Type 0} (From : A → Type 0) (answer : Result RpcCallError A)
      → ((v : A) → answer ≡ ok v → From v)
      → Gives From answer
  Result-Gives From (ok v) gives = gives v refl
  Result-Gives From (err f) gives = tt

  items-true :
      (id status : ℕ) (calls : List (RpcBatchCall Params)) (items : List (Item Value))
      (vs : List (ResultField Value))
      → All (IsTrueItem id calls) items
      → batch_answer id calls (ok (array items, status)) ≡ ok vs
      → vs ≡ map serve calls
  unfolding batch_answer
  items-true id status calls items vs all h = elim (Bool-cases (has_null items)) [
    | inl e ↦ cc (rw e at h)
    | inr e ↦ batch_results-true status id items calls vs all (rw e at h)
  ]

  array-true :
      (id status : ℕ) (calls : List (RpcBatchCall Params)) (items : List (Item Value))
      (vs : List (ResultField Value))
      → All (IsTrueItem id calls) items
      → batch_answer id calls (checked_payload status (array items)) ≡ ok vs
      → vs ≡ map serve calls
  unfolding checked_payload batch_answer
  array-true id status calls items vs all h =
      elim (Bool-cases (not (is_ok status) && not (carries_error (array items)))) [
        | inl e ↦ cc (rw e at h)
        | inr e ↦ items-true id status calls items vs all (rw e at h)
      ]

  not_array :
      (id status : ℕ) (calls : List (RpcBatchCall Params)) (payload : Payload Value)
      (vs : List (ResultField Value)) (f : RpcCallError)
      → batch_answer id calls (ok (payload, status)) ≡ err f
      → batch_answer id calls (checked_payload status payload) ≡ ok vs
      → ⊥
  unfolding batch_answer checked_payload
  not_array id status calls payload vs f thrown h =
      elim (Bool-cases (not (is_ok status) && not (carries_error payload))) [
        | inl e ↦ cc (rw e at h)
        | inr e ↦ elim (Bool-cases (not (is_object payload))) [
          | inl o ↦ cc (rw (e, o) at h)
          | inr o ↦ cc (rw (e, o, thrown) at h)
        ]
      ]

  pub batch_answer-true :
      (id : ℕ) (calls : List (RpcBatchCall Params)) (reply : Reply Value)
      (vs : List (ResultField Value))
      → IsTruthful id calls reply
      → batch_answer id calls (post_rpc reply) ≡ ok vs
      → vs ≡ map serve calls
  unfolding batch_answer post_rpc
  batch_answer-true id calls (response status (array items)) vs all h =
      array-true id status calls items vs all h
  batch_answer-true id calls (no_answer timed_out message) vs all h = cc
  batch_answer-true id calls (body_lost message) vs all h = cc
  batch_answer-true id calls (response status not_json) vs all h = cc
  batch_answer-true id calls (response status scalar) vs all h =
      absurd (not_array id status calls scalar vs _ refl h)
  batch_answer-true id calls (response status (object e)) vs all h =
      absurd (not_array id status calls (object e) vs _ refl h)
