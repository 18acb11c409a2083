-- ===== src/RpcPool/Failover.antt =====
-- How `request` goes from endpoint to endpoint.
use stunks.Prelude.{
  ℕ, zero, suc, ◌<◌, ◌≡◌, refl, sym, ap, ◌∙◌, ◌⊎◌, inl, inr, true, false, List, [], ◌∷◌, ◌++◌, none,
  Result, ok, err, All, arith, Bool-cases, length,
}
use stunks.Prelude.Text.{Text}
use stunks.RpcErrors.{RpcCallError, is_retryable}
use stunks.RpcPool.Wire.{RpcBatchCall, ResultField, post_rpc}
use stunks.RpcPool.Endpoints.{Averages, Endpoint, RpcPool, RpcPoolOptions, select_order}
use stunks.RpcPool.Request.{
  World, Outcome, answered, refused, all_failed, Attempted, settled, exhausted, single_answer,
  begin_call, end_call, call_endpoint, settle, or_next, try_endpoint, try_endpoints, request,
}

append_nil : {A : Type 0} (xs : List A) → xs ≡ xs ++ []
append_nil [] = refl
append_nil (x ∷ xs) = ap (x ∷◌) (append_nil xs)

append_assoc : {A : Type 0} (xs ys zs : List A) → (xs ++ ys) ++ zs ≡ xs ++ (ys ++ zs)
append_assoc [] ys zs = refl
append_assoc (x ∷ xs) ys zs = ap (x ∷◌) (append_assoc xs ys zs)

-- `From url answer`: the endpoint at `url` gave `answer` to the call.
module _ {A : Type 0} (From : Text → Result RpcCallError A → Type 0) where
  -- Failures of one endpoint that are all worth a retry.
  abbrev pub AreRetried : Text → List RpcCallError → Type 0
  AreRetried url = All (λ f. (is_retryable f.kind ≡ true) × From url (err f))

  -- The outcome is the endpoint's answer, or a failure of it that is not worth a retry.
  abbrev pub IsBy : Text → Outcome A → Type 0
  IsBy url (answered found) = From url (ok found)
  IsBy url (refused f) = (is_retryable f.kind ≡ false) × From url (err f)
  IsBy url _ = ⊥

  module _ {Average : Type 0} (attempts : ℕ) where
    -- The endpoints are tried in order, after the failures so far: one settles the outcome within its
    -- attempts, after failures of its own that are worth a retry; or all its attempts fail so, and the
    -- next endpoint is tried. Where no endpoint is left, all the failures are thrown, in their order.
    abbrev pub EndsAfter : List RpcCallError → List (ℕ × Endpoint Average) → Outcome A → Type 0
    EndsAfter so_far [] outcome = outcome ≡ all_failed so_far
    EndsAfter so_far ((n, e) ∷ order) outcome =
        ((own : List RpcCallError) × (length own < attempts)
          × AreRetried e.url own
          × IsBy e.url outcome)
        ⊎ ((own : List RpcCallError) × (length own ≡ attempts)
            × AreRetried e.url own
            × EndsAfter (so_far ++ own) order outcome)

  -- How the attempts on an endpoint end, after the failures so far.
  abbrev EndsAttempts : Text → ℕ → List RpcCallError → Attempted A → Type 0
  EndsAttempts url attempts so_far (settled outcome) =
      (own : List RpcCallError) × (length own < attempts) × AreRetried url own × IsBy url outcome
  EndsAttempts url attempts so_far (exhausted fs) =
      (own : List RpcCallError) × (length own ≡ attempts)
      × AreRetried url own
      × (fs ≡ so_far ++ own)

  one_more :
      (url : Text) (attempts : ℕ) (so_far : List RpcCallError) (f : RpcCallError)
      (attempted : Attempted A)
      → is_retryable f.kind ≡ true
      → From url (err f)
      → EndsAttempts url attempts (so_far ++ f ∷ []) attempted
      → EndsAttempts url (suc attempts) so_far attempted
  one_more url attempts so_far f (settled outcome) retried from (own, few, all, by) =
      (f ∷ own, omega arith, ((retried, from), all), by)
  one_more url attempts so_far f (exhausted fs) retried from (own, count, all, same) =
      (f ∷ own, ap suc count, ((retried, from), all), same ∙ append_assoc so_far (f ∷ []) own)

  module _ {Average Params Value : Type 0} (averages : Averages Average) (options : RpcPoolOptions)
      (world : World Params Value) where
    settle-EndsAttempts :
        (n : ℕ) (url : Text) (attempts : ℕ)
        (next : List RpcCallError → RpcPool Average → Attempted A × RpcPool Average)
        → ((fs : List RpcCallError) (pool : RpcPool Average)
            → EndsAttempts url attempts fs (next fs pool).0)
        → (fs : List RpcCallError) (called : Result RpcCallError A × RpcPool Average)
        → From url called.0
        → EndsAttempts url
            (suc attempts)
            fs
            (settle averages options world n (λ f. none) next fs called).0
    unfolding settle
    settle-EndsAttempts n url attempts next ends fs (ok found, pool) from =
        ([], omega arith, tt, from)
    settle-EndsAttempts n url attempts next ends fs (err f, pool) from =
        elim (Bool-cases (is_retryable f.kind)) [
          | inr e ↦ rw (e, settle) ([], omega arith, tt, (e, from))
          | inl e ↦ rw (e, settle) (one_more url attempts fs f _ e from (ends (fs ++ f ∷ []) _))
        ]

    module _ (call : ℕ → Text → RpcPool Average → Result RpcCallError A × RpcPool Average)
        (from : (n : ℕ) (url : Text) (pool : RpcPool Average) → From url (call n url pool).0) where
      try_endpoint-EndsAttempts :
          (n : ℕ) (url : Text) (attempts : ℕ) (fs : List RpcCallError) (pool : RpcPool Average)
          → EndsAttempts url attempts fs
              (try_endpoint averages options world n (λ f. none) (call n url) attempts fs pool).0
      unfolding try_endpoint
      try_endpoint-EndsAttempts n url zero fs pool = ([], refl, tt, append_nil fs)
      try_endpoint-EndsAttempts n url (suc attempts) fs pool =
          settle-EndsAttempts n url attempts
            (try_endpoint averages options world n (λ f. none) (call n url) attempts)
            (try_endpoint-EndsAttempts n url attempts) fs (call n url pool) (from n url pool)

      or_next-EndsAfter :
          (n : ℕ) (e : Endpoint Average) (order : List (ℕ × Endpoint Average))
          (next : List RpcCallError → RpcPool Average → Outcome A × RpcPool Average)
          → ((fs : List RpcCallError) (pool : RpcPool Average)
              → EndsAfter options.attempts_per_endpoint fs order (next fs pool).0)
          → (so_far : List RpcCallError) (attempted : Attempted A × RpcPool Average)
          → EndsAttempts e.url options.attempts_per_endpoint so_far attempted.0
          → EndsAfter options.attempts_per_endpoint so_far
              ((n, e) ∷ order)
              (or_next averages options world next attempted).0
      or_next-EndsAfter n e order next ends so_far (settled outcome, pool) h = inl h
      or_next-EndsAfter n e order next ends so_far (exhausted fs, pool) (own, count, all, same) =
          inr (own, count, all, rw (← same) (ends fs pool))

      try_endpoints-EndsAfter :
          (order : List (ℕ × Endpoint Average)) (fs : List RpcCallError) (pool : RpcPool Average)
          → EndsAfter options.attempts_per_endpoint fs order
              (try_endpoints averages options world (λ f. none) call order fs pool).0
      unfolding try_endpoints
      try_endpoints-EndsAfter [] fs pool = refl
      try_endpoints-EndsAfter ((n, e) ∷ order) fs pool =
          or_next-EndsAfter n e order (try_endpoints averages options world (λ f. none) call order)
            (try_endpoints-EndsAfter order) fs _
            (try_endpoint-EndsAttempts n e.url options.attempts_per_endpoint fs pool)

module _ {Average Params Value : Type 0} (averages : Averages Average) (options : RpcPoolOptions)
    (world : World Params Value) where
  -- What the endpoint at a URL answered to the call, under some id.
  abbrev pub IsReply : RpcBatchCall Params → Text → Result RpcCallError (ResultField Value) → Type 0
  IsReply call url answer =
      (id : ℕ) × (single_answer call.method (post_rpc (world.reply url id call)) ≡ answer)

  end_call-same :
      {B : Type 0} (n : ℕ) (answer : Result RpcCallError B) (pool : RpcPool Average)
      → (end_call averages options world n answer pool).0 ≡ answer
  unfolding end_call
  end_call-same n (ok found) pool = refl
  end_call-same n (err failure) pool = refl

  call_endpoint-IsReply :
      (call : RpcBatchCall Params) (n : ℕ) (url : Text) (pool : RpcPool Average)
      → IsReply call url (call_endpoint averages options world n url call pool).0
  unfolding call_endpoint
  call_endpoint-IsReply call n url pool =
      ((begin_call averages options world n 1 pool).request_id, sym (end_call-same n _ _))

  -- `request` tries the endpoints in the pool's order. It ends with the first answer, or with the first
  -- failure that is not worth a retry, of an endpoint that is still within its attempts, and goes on to
  -- the next endpoint only after as many failures as there are attempts. Where every attempt on every
  -- endpoint has failed, it throws all of these failures in their order. Each answer and each failure is
  -- what the endpoint tried gave to the call.
  pub request-Outcome :
      (call : RpcBatchCall Params) (pool : RpcPool Average)
      → EndsAfter
          (IsReply call)
          options.attempts_per_endpoint
          []
          (select_order averages options (world.now pool.moment) pool.endpoints)
          (request averages options world call pool).0
  unfolding request
  request-Outcome call pool =
      try_endpoints-EndsAfter (IsReply call) averages options world
        (λ n url. call_endpoint averages options world n url call) (call_endpoint-IsReply call)
        (select_order averages options (world.now pool.moment) pool.endpoints) [] _
