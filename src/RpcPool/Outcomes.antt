-- ===== src/RpcPool/Outcomes.antt =====
-- What the pool's calls end with.
use stunks.Prelude.{
  ℕ, zero, suc, List, [], ◌∷◌, ◌++◌, Option, Result, ok, err, inl, inr, Option-cases, Bool-cases,
}
use stunks.Prelude.Text.{Text}
use stunks.RpcErrors.{RpcCallError, is_retryable}
use stunks.RpcPool.Endpoints.{Averages, Endpoint, RpcPool, RpcPoolOptions}
use stunks.RpcPool.Request.{
  World, Outcome, answered, Attempted, settled, exhausted, end_call, settle, or_next, try_endpoint,
  try_endpoints,
}

module _ {A : Type 0} (From : A → Type 0) where
  -- A value that is there comes from somewhere.
  abbrev pub Gives : Result RpcCallError A → Type 0
  Gives (ok found) = From found
  Gives (err failure) = Unit

  abbrev pub Answers : Outcome A → Type 0
  Answers (answered found) = From found
  Answers _ = Unit

  abbrev pub Attempts : Attempted A → Type 0
  Attempts (settled outcome) = Answers outcome
  Attempts (exhausted failures) = Unit

module _ {Average Params Value : Type 0} (averages : Averages Average) (options : RpcPoolOptions)
    (world : World Params Value) where
  pub end_call-Gives :
      {A : Type 0} (From : A → Type 0) (n : ℕ) (answer : Result RpcCallError A)
      (pool : RpcPool Average)
      → Gives From answer
      → Gives From (end_call averages options world n answer pool).0
  unfolding end_call
  end_call-Gives From n (ok found) pool given = given
  end_call-Gives From n (err failure) pool given = tt

  module _ {A : Type 0} (From : A → Type 0)
      (learn : RpcCallError → Option (Endpoint Average → Endpoint Average)) where
    settle-Attempts :
        (n : ℕ) (next : List RpcCallError → RpcPool Average → Attempted A × RpcPool Average)
        → ((fs : List RpcCallError) (pool : RpcPool Average) → Attempts From (next fs pool).0)
        → (fs : List RpcCallError) (called : Result RpcCallError A × RpcPool Average)
        → Gives From called.0
        → Attempts From (settle averages options world n learn next fs called).0
    unfolding settle
    settle-Attempts n next keeps fs (ok found, pool) given = given
    settle-Attempts n next keeps fs (err f, pool) given = elim (Bool-cases (is_retryable f.kind)) [
      | inr e ↦ rw (e, settle) tt
      | inl e ↦ elim (Option-cases (learn f)) [
        | inl g ↦ rw (e, g, settle) (keeps (fs ++ f ∷ []) _)
        | inr (change, g) ↦ rw (e, g, settle) tt
      ]
    ]

    module _ (call : ℕ → Text → RpcPool Average → Result RpcCallError A × RpcPool Average)
        (gives : (n : ℕ) (url : Text) (pool : RpcPool Average)
          → Gives From (call n url pool).0) where
      try_endpoint-Attempts :
          (n : ℕ) (url : Text) (attempts : ℕ) (fs : List RpcCallError) (pool : RpcPool Average)
          → Attempts From
              (try_endpoint averages options world n learn (call n url) attempts fs pool).0
      unfolding try_endpoint
      try_endpoint-Attempts n url zero fs pool = tt
      try_endpoint-Attempts n url (suc attempts) fs pool =
          settle-Attempts n (try_endpoint averages options world n learn (call n url) attempts)
            (try_endpoint-Attempts n url attempts) fs (call n url pool) (gives n url pool)

      or_next-Answers :
          (next : List RpcCallError → RpcPool Average → Outcome A × RpcPool Average)
          → ((fs : List RpcCallError) (pool : RpcPool Average) → Answers From (next fs pool).0)
          → (attempted : Attempted A × RpcPool Average) → Attempts From attempted.0
          → Answers From (or_next averages options world next attempted).0
      or_next-Answers next keeps (settled outcome, pool) given = given
      or_next-Answers next keeps (exhausted fs, pool) given = keeps fs pool

      pub try_endpoints-Answers :
          (order : List (ℕ × Endpoint Average)) (fs : List RpcCallError) (pool : RpcPool Average)
          → Answers From (try_endpoints averages options world learn call order fs pool).0
      unfolding try_endpoints
      try_endpoints-Answers [] fs pool = tt
      try_endpoints-Answers ((n, e) ∷ order) fs pool =
          or_next-Answers (try_endpoints averages options world learn call order)
            (try_endpoints-Answers order) _
            (try_endpoint-Attempts n e.url options.attempts_per_endpoint fs pool)
