-- ===== src/RpcPool/Health.antt =====
-- What the pool keeps of the health of its endpoints.
use stunks.Prelude.{
  ℕ, zero, suc, ◌+◌, ◌≤◌, ◌≡◌, refl, ap, Bool, true, false, List, [], ◌∷◌, ◌++◌, Option, none, some,
  Result, ok, err, All, arith, leb, inl, inr, Option-cases, Bool-cases,
}
use stunks.Prelude.Int.{ℤ}
use stunks.Prelude.Text.{Text}
use stunks.RpcErrors.{RpcCallError, RpcFailureKind, is_retryable}
use stunks.RpcPool.Endpoints.{
  Averages, Endpoint, RpcPool, RpcPoolOptions, respect_pacing, record_success, record_failure,
  change_at,
}
use stunks.RpcPool.Request.{
  World, Outcome, Attempted, settle, settled, exhausted, or_next, begin_call, end_call, fail,
  try_endpoint, try_endpoints,
}

module _ {Average Params Value : Type 0} (averages : Averages Average) (options : RpcPoolOptions)
    (world : World Params Value) where
  abbrev is_set : Option ℕ → Bool
  is_set none = false
  is_set (some until) = true

  -- An endpoint's failures are among its requests, those in a row are among its failures, and it has a
  -- cooldown exactly from the threshold on.
  unfoldable pub IsSound : Endpoint Average → Type 0
  IsSound e =
      (e.total_failures ≤ e.total_requests)
      × (e.consecutive_failures ≤ e.total_failures)
      × (is_set e.cooldown_until ≡ leb options.failure_threshold e.consecutive_failures)

  abbrev pub AreSound : RpcPool Average → Type 0
  AreSound pool = All IsSound pool.endpoints

  -- An endpoint that a call on has begun.
  abbrev begun : ℕ → Endpoint Average → Endpoint Average
  begun now e =
      let paced = respect_pacing averages options now e in
      record paced { total_requests = paced.total_requests + 1 }

  change_at-fusion :
      (n : ℕ) (f g : Endpoint Average → Endpoint Average) (es : List (Endpoint Average))
      → change_at averages options n g (change_at averages options n f es)
        ≡ change_at averages options n (λ e. g (f e)) es
  change_at-fusion n f g [] = refl
  change_at-fusion zero f g (e ∷ es) = refl
  change_at-fusion (suc n) f g (e ∷ es) = ap (λ r. e ∷ r) (change_at-fusion n f g es)

  All-change_at :
      (n : ℕ) (f : Endpoint Average → Endpoint Average) (es : List (Endpoint Average))
      → ((e : Endpoint Average) → IsSound e → IsSound (f e))
      → All IsSound es
      → All IsSound (change_at averages options n f es)
  All-change_at n f [] keeps all = tt
  All-change_at zero f (e ∷ es) keeps (s, all) = (keeps e s, all)
  All-change_at (suc n) f (e ∷ es) keeps (s, all) = (s, All-change_at n f es keeps all)

  record_failure-begun :
      (now later : ℕ) (kind : RpcFailureKind) (e : Endpoint Average)
      → IsSound e
      → IsSound (record_failure averages options later kind (begun now e))
  unfolding record_failure IsSound respect_pacing
  record_failure-begun now later kind e sound = ground arith

  module _ (positive : 1 ≤ options.failure_threshold) where
    record_success-begun :
        (now : ℕ) (latency : ℤ) (e : Endpoint Average)
        → IsSound e
        → IsSound (record_success averages options latency (begun now e))
    unfolding record_success IsSound respect_pacing
    record_success-begun now latency e sound = ground arith

    -- After a call on endpoint `n`: all is sound, at once or when the failure is recorded.
    unfoldable pub AfterCall : {A : Type 0} → ℕ → Result RpcCallError A × RpcPool Average → Type 0
    AfterCall n (ok found, pool) = AreSound pool
    AfterCall n (err failure, pool) =
        (now : ℕ) (kind : RpcFailureKind)
        → All IsSound
            (change_at averages options n (record_failure averages options now kind) pool.endpoints)

    pub end_call-AfterCall :
        {A : Type 0} (n ids : ℕ) (answer : Result RpcCallError A) (pool : RpcPool Average)
        → AreSound pool
        → AfterCall n (
            end_call averages options world n answer (begin_call averages options world n ids pool))
    unfolding AfterCall end_call begin_call
    end_call-AfterCall n ids (ok found) pool sound =
        rw (change_at-fusion n, change_at-fusion n)
          (All-change_at n _ pool.endpoints (record_success-begun (world.now pool.moment) _) sound)
    end_call-AfterCall n ids (err failure) pool sound = λ now kind.
        rw (change_at-fusion n, change_at-fusion n)
          (All-change_at n _ pool.endpoints (record_failure-begun (world.now pool.moment) now kind)
            sound)

    module _ {A : Type 0} (learn : RpcCallError → Option (Endpoint Average → Endpoint Average))
        (learns : (f : RpcCallError) (change : Endpoint Average → Endpoint Average)
          → learn f ≡ some change
          → (e : Endpoint Average) → IsSound e
          → IsSound (change e)) where
      settle-AreSound :
          (n : ℕ) (next : List RpcCallError → RpcPool Average → Attempted A × RpcPool Average)
          → ((failures : List RpcCallError) (pool : RpcPool Average)
              → AreSound pool
              → AreSound (next failures pool).1)
          → (failures : List RpcCallError) (called : Result RpcCallError A × RpcPool Average)
          → AfterCall n called
          → AreSound (settle averages options world n learn next failures called).1
      unfolding settle fail AfterCall
      settle-AreSound n next keeps failures (ok found, pool) sound = sound
      settle-AreSound n next keeps failures (err failure, pool) sound =
          let recorded = sound (world.now pool.moment) failure.kind in
          elim (Bool-cases (is_retryable failure.kind)) [
            | inr e ↦ rw (e, settle) recorded
            | inl e ↦ elim (Option-cases (learn failure)) [
              | inl f ↦ rw (e, f, settle) (keeps (failures ++ failure ∷ []) _ recorded)
              | inr (change, f) ↦
                  rw (e, f, settle) (All-change_at n change _ (learns failure change f) recorded)
            ]
          ]

      module _ (call : ℕ → Text → RpcPool Average → Result RpcCallError A × RpcPool Average)
          (after : (n : ℕ) (url : Text) (pool : RpcPool Average)
            → AreSound pool
            → AfterCall n (call n url pool)) where
        try_endpoint-AreSound :
            (n : ℕ) (url : Text) (attempts : ℕ) (failures : List RpcCallError)
            (pool : RpcPool Average)
            → AreSound pool
            → AreSound
                (try_endpoint averages options world n learn (call n url) attempts failures pool).1
        unfolding try_endpoint
        try_endpoint-AreSound n url zero failures pool sound = sound
        try_endpoint-AreSound n url (suc attempts) failures pool sound =
            settle-AreSound n (try_endpoint averages options world n learn (call n url) attempts)
              (try_endpoint-AreSound n url attempts) failures (call n url pool)
              (after n url pool sound)

        or_next-AreSound :
            (next : List RpcCallError → RpcPool Average → Outcome A × RpcPool Average)
            → ((failures : List RpcCallError) (pool : RpcPool Average)
                → AreSound pool
                → AreSound (next failures pool).1)
            → (attempted : Attempted A × RpcPool Average) → AreSound attempted.1
            → AreSound (or_next averages options world next attempted).1
        or_next-AreSound next keeps (settled outcome, pool) sound = sound
        or_next-AreSound next keeps (exhausted failures, pool) sound = keeps failures pool sound

        pub try_endpoints-AreSound :
            (order : List (ℕ × Endpoint Average)) (failures : List RpcCallError)
            (pool : RpcPool Average)
            → AreSound pool
            → AreSound (try_endpoints averages options world learn call order failures pool).1
        unfolding try_endpoints
        try_endpoints-AreSound [] failures pool sound = sound
        try_endpoints-AreSound ((n, e) ∷ order) failures pool sound =
            or_next-AreSound (try_endpoints averages options world learn call order)
              (try_endpoints-AreSound order) _
              (try_endpoint-AreSound n e.url options.attempts_per_endpoint failures pool sound)
