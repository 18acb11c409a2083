-- ===== src/LogSource/GetLogs.antt =====
-- `getLogs` as a whole.
use stunks.Prelude.{
  ℕ, ◌≡◌, refl, sym, ap, ◌∙◌, ◌⊎◌, inl, inr, Bool, true, false, Option, none, some, List, [], ◌∷◌,
  Bool-cases, map, Result, ok, err, some-injective,
}
use stunks.RpcErrors.{RpcCallError, find_rpc_call_error}
use stunks.LogRange.{AdaptiveLogWindow, on_success, on_rejected}
use stunks.ScanState.{Fetch, batch, too_wide, fetch_failed}
use stunks.Prelude.Text.{Text}
use stunks.LogSource.{
  RawLog, LogQuery, RawJsonRpcLog, LogEnv, add_chunk, concat, address_chunks, selector_count,
  delivered, read_chunks, clamped_to, narrows, on_failure, settled_chunks, get_logs,
}

reached_of : Fetch RawLog → ℕ
reached_of (batch logs reached) = reached
reached_of _ = 0

logs_of : Fetch RawLog → List RawLog
logs_of (batch logs reached) = logs
logs_of _ = []

is_batch : Fetch RawLog → Bool
is_batch (batch logs reached) = true
is_batch _ = false

-- The errors among some answers.
pub errors_of : {A : Type 0} → List (Result ℕ A) → List ℕ
errors_of [] = []
errors_of (ok a ∷ answers) = errors_of answers
errors_of (err error ∷ answers) = error ∷ errors_of answers

errors_of-add_chunk :
    (answer : Result ℕ (List RawJsonRpcLog)) (answers : List (Result ℕ (List RawJsonRpcLog)))
    (read : List ℕ × List (List RawJsonRpcLog))
    → errors_of answers ≡ read.0
    → errors_of (answer ∷ answers) ≡ (add_chunk answer read).0
unfolding errors_of
errors_of-add_chunk (ok logs) answers (failures, chunks) e = e
errors_of-add_chunk (err error) answers (failures, chunks) e = ap (error ∷◌) e

module _ (env : LogEnv) (query : LogQuery) (window : AdaptiveLogWindow) where
  on_failure-window :
      (error : ℕ) (found : Option (Option RpcCallError))
      → ((on_failure error found window ≡ (too_wide, on_rejected window))
          × (f : RpcCallError) × (found ≡ some (some f))
          × (narrows f.kind ≡ true))
        ⊎ ((on_failure error found window ≡ (fetch_failed error, window))
            × ((f : RpcCallError) → found ≡ some (some f) → narrows f.kind ≡ false))
  unfolding on_failure
  on_failure-window error none = inr (refl, λ f h. cc)
  on_failure-window error (some none) = inr (refl, λ f h. cc (some-injective h))
  on_failure-window error (some (some f)) = elim (Bool-cases (narrows f.kind)) [
    | inl e ↦ inl (rw e refl, f, refl, e)
    | inr e ↦ inr (
      rw e refl,
      λ g h.
          ap (λ (r : RpcCallError). narrows r.kind) (sym (some-injective (some-injective h))) ∙ e,
    )
  ]

  errors_of-answers :
      (chunks : List (List Text))
      → let to_block = clamped_to query window.span in
        errors_of (
          map
            (λ addresses. env.request (record {
              from_block = query.from_block;
              to_block = to_block;
              addresses = addresses;
              topics0 = query.topics0;
            }))
            chunks)
        ≡ (read_chunks env.request query to_block chunks).0
  unfolding read_chunks errors_of
  errors_of-answers [] = refl
  errors_of-answers (c ∷ chunks) =
      errors_of-add_chunk _ _ (read_chunks env.request query (clamped_to query window.span) chunks)
        (errors_of-answers chunks)

  -- What the endpoint answers for each chunk of the addresses, in order.
  abbrev pub answers : List (Result ℕ (List RawJsonRpcLog))
  answers =
      map
        (λ addresses. env.request (record {
          from_block = query.from_block;
          to_block = clamped_to query window.span;
          addresses = addresses;
          topics0 = query.topics0;
        }))
        (address_chunks query.addresses (selector_count query.topics0))

  -- The error that came first among those that the endpoint threw, of which there is one.
  abbrev pub IsThrown : ℕ → Type 0
  IsThrown error =
      (failure : ℕ) × (failures : List ℕ) × (errors_of answers ≡ failure ∷ failures)
      × (error ≡ env.first failure failures)

  -- How a batch, a rejection of the range and another failure end.
  abbrev Ends : Fetch RawLog × AdaptiveLogWindow → Type 0
  Ends ended =
      ((logs : List RawLog) × (errors_of answers ≡ [])
        × (ended ≡ (batch logs (clamped_to query window.span), on_success window)))
      ⊎ ((error : ℕ) × IsThrown error
          × (((ended ≡ (too_wide, on_rejected window))
                × (f : RpcCallError) × (find_rpc_call_error env.store env.error_count error
                    ≡ some (some f))
                × (narrows f.kind ≡ true))
              ⊎ ((ended ≡ (fetch_failed error, window))
                  × ((f : RpcCallError)
                      → find_rpc_call_error env.store env.error_count error ≡ some (some f)
                      → narrows f.kind ≡ false))))

  settled-Ends :
      (read : List ℕ × List (List RawJsonRpcLog))
      → errors_of answers ≡ read.0
      → Ends (settled_chunks env query (clamped_to query window.span) read window)
  settled-Ends ([], chunks) e = inl (delivered query.topics0 (concat chunks), e, refl)
  settled-Ends (failure ∷ failures, chunks) e =
      let error = env.first failure failures in
      inr (error, (failure, failures, e, refl), on_failure-window error _)

  -- `getLogs` ends in one of three ways. It returns a batch, where the endpoint threw for no chunk of the
  -- addresses, and the window has counted a success. Or the endpoint threw, and of the errors one came
  -- first. Where `findRpcCallError` finds in that error a range that is too wide or a timeout, `getLogs`
  -- asks for a narrower range, and the window has narrowed; where it does not, `getLogs` throws that
  -- error, and the window is as it was.
  pub get_logs-Ends : Ends (get_logs env query window)
  unfolding get_logs
  get_logs-Ends =
      settled-Ends
        (read_chunks env.request query (clamped_to query window.span)
          (address_chunks query.addresses (selector_count query.topics0)))
        (errors_of-answers (address_chunks query.addresses (selector_count query.topics0)))
