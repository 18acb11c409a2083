-- ===== src/Scanner.antt =====
-- The scan loop: apps/indexer/src/scanner.ts. A tick reads and writes a world, the checkpoint tables
-- and the rows of the stream, and takes the answers of the outside from `TickEnv`.
pub mod Effects
pub mod Move
pub mod Rollback
pub mod Progress
use stunks.Prelude.{
  ℕ, zero, suc, ◌+◌, ◌-◌, Bool, true, false, ◌&&◌, Option, none, some, List, [], ◌∷◌, Result, ok,
  err, ltb, leb, ◌==◌, if◌then◌else◌, length,
}
use stunks.Prelude.Text.{Text}
use stunks.Reorg.{ReorgVerdict, reorg, unchanged, unverifiable, check_for_reorg, safe_head}
use stunks.ScanState.{
  Fetch, Ending, Thrown, World, ScannerOptions, TickEnv, ScanTickResult, no_progress, Run,
  after_call, after_move, batch, too_wide, fetch_failed, finished, database_unavailable, failed,
  repository, processor, database,
}
use stunks.Checkpoint.{
  CheckpointState, Tables, CheckpointFault, get_or_create, advance, rollback_to, rollback_if_ahead,
  record_error, record_failed_block, resolve_failed_blocks_through,
}

module _ {Rows Log : Type 0} (options : ScannerOptions Rows) (env : TickEnv Log Rows) where
  -- The loop over `cascadeStreams`.
  unfoldable pub cascade : ℕ → List Text → World Rows → Run Rows Bool
  cascade to_block [] w = (ok true, w)
  cascade to_block (s ∷ streams) w =
      after_move (rollback_if_ahead w.db env.now options.chain_id s to_block env.message) w
        (cascade to_block streams)

  -- `handleReorg` from the deletion on.
  unfoldable pub roll_back : ℕ → World Rows → Run Rows Bool
  unfolding cascade
  roll_back to_block w =
      let deleted = record w { rows = options.delete_above to_block w.rows } in
      after_call (rollback_to w.db env.now options.chain_id options.stream to_block env.message)
        deleted (cascade to_block options.cascade_streams)

  abbrev pub on_verdict : ReorgVerdict → World Rows → Run Rows Bool
  on_verdict (reorg to_block recorded current) w = roll_back to_block w
  on_verdict _ w = (ok false, w)

  -- `handleReorg` once the recorded block's hash was read again; `none` where that threw.
  abbrev pub on_current_hash : Option Text → ℕ → Option Text → World Rows → Run Rows Bool
  on_current_hash recorded block none w = (ok false, w)
  on_current_hash recorded block (some current) w =
      on_verdict (check_for_reorg recorded block current options.confirmation_depth) w

  unfoldable pub handle_reorg : ℕ → Option Text → World Rows → Run Rows Bool
  unfolding roll_back check_for_reorg
  handle_reorg recorded_block none w = (ok false, w)
  handle_reorg recorded_block (some hash) w =
      if recorded_block == 0
      then (ok false, w)
      else on_current_hash (some hash) recorded_block (env.block_hash recorded_block) w

  unfoldable pub handle_database_failure : ℕ → ℕ → World Rows → Run Rows ScanTickResult
  handle_database_failure from_block last w = (ok (no_progress from_block last false false none), w)

  unfoldable pub handle_source_failure : ℕ → ℕ → World Rows → Run Rows ScanTickResult
  handle_source_failure from_block last w =
      after_call (record_error w.db env.now options.chain_id options.stream env.message) w
        (λ w'. (ok (no_progress from_block last false false none), w'))

  -- The `catch` around the two writes that follow the processor.
  unfoldable pub write_failed : Text → World Rows → Run Rows ScanTickResult
  write_failed message w =
      after_call (record_error w.db env.now options.chain_id options.stream message) w
        (λ w'. (err (database message), w'))

  abbrev pub progressed : ℕ → ℕ → ℕ → ℕ → Option ℕ → ScanTickResult
  progressed from_block reached count boundary confirmed = record {
    scanned = reached + 1 - from_block;
    logs = count;
    from_block = from_block;
    to_block = reached;
    caught_up = leb boundary reached;
    reorged = false;
    confirmed_head = confirmed;
  }

  -- `resolveFailedBlocksThrough`, after `advance`.
  unfoldable pub resolve_step :
      ℕ → ℕ → ScanTickResult → Ending → World Rows → Run Rows ScanTickResult
  unfolding handle_database_failure write_failed
  resolve_step last reached result finished w = (
    ok result,
    record w {
      db = (resolve_failed_blocks_through w.db options.chain_id options.stream reached).1;
    },
  )
  resolve_step last reached result database_unavailable w =
      handle_database_failure result.from_block last w
  resolve_step last reached result (failed message) w = write_failed message w

  -- What follows the answer of `advance`, which the `catch` covers too.
  unfoldable pub after_advance :
      ℕ → ℕ → ScanTickResult → Result CheckpointFault Tables → World Rows → Run Rows ScanTickResult
  unfolding resolve_step write_failed
  after_advance last reached result (ok db) w =
      resolve_step last reached result env.resolve_ending (record w { db = db })
  after_advance last reached result (err fault) w = write_failed env.message w

  -- `advance`, and what its `catch` does when it throws.
  unfoldable pub advance_step :
      ℕ → ℕ → Text → ScanTickResult → Ending → World Rows → Run Rows ScanTickResult
  unfolding handle_database_failure write_failed after_advance
  advance_step last reached hash result finished w =
      after_advance last reached result
        (advance w.db env.now options.chain_id options.stream reached hash none) w
  advance_step last reached hash result database_unavailable w =
      handle_database_failure result.from_block last w
  advance_step last reached hash result (failed message) w = write_failed message w

  -- The processor's `catch`, and what follows it.
  unfoldable pub processed_step :
      ℕ → ℕ → Text → ScanTickResult → Ending → World Rows → Run Rows ScanTickResult
  unfolding advance_step handle_database_failure
  processed_step last reached hash result finished w =
      advance_step last reached hash result env.advance_ending w
  processed_step last reached hash result database_unavailable w =
      handle_database_failure result.from_block last w
  processed_step last reached hash result (failed message) w =
      after_call (record_error w.db env.now options.chain_id options.stream message) w (λ w'. (
        err (processor message),
        record w' {
          db = record_failed_block w'.db options.chain_id options.stream result.from_block message;
        },
      ))

  -- From the hash of the reached block on.
  unfoldable pub hash_step :
      ℕ → ℕ → Option ℕ → List Log → ℕ → Option Text → World Rows → Run Rows ScanTickResult
  unfolding processed_step handle_source_failure
  hash_step last boundary confirmed logs reached none w = handle_source_failure (last + 1) last w
  hash_step last boundary confirmed logs reached (some hash) w =
      let (ending, rows) = env.process logs (last + 1) reached w.rows in
      processed_step last reached hash
        (progressed (last + 1) reached (length logs) boundary confirmed) ending
        (record w { rows = rows })

  -- From the answer of `getLogs` on.
  unfoldable pub fetch_step : ℕ → ℕ → Option ℕ → Fetch Log → World Rows → Run Rows ScanTickResult
  unfolding hash_step handle_source_failure
  fetch_step last boundary confirmed (batch logs reached) w =
      if ltb reached (last + 1)
      then (ok (no_progress (last + 1) last false false confirmed), w)
      else hash_step last boundary confirmed logs reached (env.block_hash reached) w
  fetch_step last boundary confirmed too_wide w =
      (ok (no_progress (last + 1) last false false confirmed), w)
  fetch_step last boundary confirmed (fetch_failed error) w =
      handle_source_failure (last + 1) last w

  abbrev pub is_empty : List Text → Bool
  is_empty [] = true
  is_empty (a ∷ as') = false

  -- From the test of the boundary on.
  unfoldable pub boundary_step : ℕ → Option ℕ → Option ℕ → World Rows → Run Rows ScanTickResult
  unfolding fetch_step
  boundary_step last confirmed none w = (ok (no_progress last last true false confirmed), w)
  boundary_step last confirmed (some boundary) w =
      if leb boundary last
      then (ok (no_progress last last true false confirmed), w)
      else if options.require_addresses && is_empty env.addresses
      then (ok (no_progress (last + 1) last true false confirmed), w)
      else fetch_step last boundary confirmed (env.get_logs (last + 1) boundary) w

  -- The confirmed head, capped by `maxBlock`.
  abbrev pub bounded : Option ℕ → Option (Option ℕ) → Option ℕ
  bounded none limit = none
  bounded (some confirmed) none = some confirmed
  bounded (some confirmed) (some none) = none
  bounded (some confirmed) (some (some c)) = some (if ltb c confirmed then c else confirmed)

  -- From the answer of `head` on.
  unfoldable pub head_step : ℕ → Option ℕ → World Rows → Run Rows ScanTickResult
  unfolding boundary_step handle_source_failure
  head_step last none w = handle_source_failure last last w
  head_step last (some head) w =
      let confirmed = safe_head head options.confirmation_depth in
      boundary_step last confirmed (bounded confirmed env.max_block) w

  abbrev pub after_reorg : ℕ → Run Rows Bool → Run Rows ScanTickResult
  after_reorg last (err thrown, w) = (err thrown, w)
  after_reorg last (ok true, w) = (ok (no_progress last last false true none), w)
  after_reorg last (ok false, w) = head_step last env.head w

  -- From the checkpoint on.
  unfoldable pub checkpoint_step : CheckpointState → World Rows → Run Rows ScanTickResult
  unfolding handle_reorg head_step
  checkpoint_step checkpoint w =
      let last = checkpoint.last_processed_block in
      if checkpoint.is_paused
      then (ok (no_progress last last true false none), w)
      else after_reorg last (handle_reorg last checkpoint.last_processed_block_hash w)

  unfoldable pub tick : World Rows → Run Rows ScanTickResult
  unfolding checkpoint_step
  tick w =
      let (checkpoint, db) =
        get_or_create w.db options.chain_id options.stream options.start_block in
      checkpoint_step checkpoint (record w { db = db })
