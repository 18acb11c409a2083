-- ===== src/Scanner/Effects.antt =====
-- What each part of a tick does to the stream's checkpoint row.
use stunks.Prelude.{ℕ, ◌≤◌, ◌≡◌, refl, Option, none, some, ◌⊎◌, inl, inr}
use stunks.Prelude.Text.{Text}
use stunks.Checkpoint.{
  CheckpointState, advanced, resolve_failed_blocks_through, record_failed_block,
}
use stunks.Checkpoint.Moves.{row_of, advance_moves_forward, record_error-OnlyRow}
use stunks.ScanState.{
  Ending, finished, database_unavailable, failed, World, ScannerOptions, TickEnv, ScanTickResult,
  Run,
}
use stunks.Scanner.{
  handle_database_failure, handle_source_failure, write_failed, resolve_step, advance_step,
  processed_step,
}

-- The parts of a row by which the scanner goes are the same.
pub record IsUnmoved (row row' : CheckpointState) : Type 0 where
  pub same_block : row'.last_processed_block ≡ row.last_processed_block
  pub same_hash_kept : row'.last_processed_block_hash ≡ row.last_processed_block_hash
  pub same_pause : row'.is_paused ≡ row.is_paused

-- The row has advanced to `reached`.
pub record IsAdvanced (reached : ℕ) (hash : Text) (row row' : CheckpointState) : Type 0 where
  pub at_reached : row'.last_processed_block ≡ reached
  pub with_hash : row'.last_processed_block_hash ≡ some hash
  pub pause_kept : row'.is_paused ≡ row.is_paused

module _ {Rows Log : Type 0} (options : ScannerOptions Rows) (env : TickEnv Log Rows) where
  abbrev pub key_row : World Rows → Option CheckpointState
  key_row w = row_of w.db options.chain_id options.stream

  -- The run leaves the stream's row in a state that satisfies `P`.
  abbrev pub Leaves : {A : Type 0} → (CheckpointState → Type 0) → Run Rows A → Type 0
  Leaves P run = (row' : CheckpointState) × (key_row run.1 ≡ some row') × P row'

  pub source_failure_keeps :
      (from last : ℕ) (w : World Rows) (row : CheckpointState)
      → key_row w ≡ some row
      → Leaves (IsUnmoved row) (handle_source_failure options env from last w)
  unfolding handle_source_failure
  source_failure_keeps from last w row e =
      let (db', done, only) =
        record_error-OnlyRow w.db env.now options.chain_id options.stream env.message row e in
      rw done
        (_, only.at_key, record { same_block = refl; same_hash_kept = refl; same_pause = refl })

  write_failed_keeps :
      (m : Text) (w : World Rows) (row : CheckpointState)
      → key_row w ≡ some row
      → Leaves (IsUnmoved row) (write_failed options env m w)
  unfolding write_failed
  write_failed_keeps m w row e =
      let (db', done, only) =
        record_error-OnlyRow w.db env.now options.chain_id options.stream m row e in
      rw done
        (_, only.at_key, record { same_block = refl; same_hash_kept = refl; same_pause = refl })

  resolve_step_keeps :
      (last reached : ℕ) (result : ScanTickResult) (ending : Ending) (w : World Rows)
      (row : CheckpointState)
      → key_row w ≡ some row
      → Leaves (IsUnmoved row) (resolve_step options env last reached result ending w)
  unfolding resolve_step handle_database_failure resolve_failed_blocks_through
  resolve_step_keeps last reached result finished w row e =
      (row, e, record { same_block = refl; same_hash_kept = refl; same_pause = refl })
  resolve_step_keeps last reached result database_unavailable w row e =
      (row, e, record { same_block = refl; same_hash_kept = refl; same_pause = refl })
  resolve_step_keeps last reached result (failed m) w row e = write_failed_keeps m w row e

  advance_step_moves :
      (last reached : ℕ) (hash : Text) (result : ScanTickResult) (ending : Ending) (w : World Rows)
      (row : CheckpointState)
      → key_row w ≡ some row
      → row.last_processed_block ≤ reached
      → Leaves
          (λ row'. IsUnmoved row row' ⊎ IsAdvanced reached hash row row')
          (advance_step options env last reached hash result ending w)
  unfolding advance_step handle_database_failure
  advance_step_moves last reached hash result finished w row e h =
      let (db', done, only, _) =
        (advance_moves_forward w.db env.now options.chain_id options.stream reached hash none row
            e).0
          h in
      let (row', at_key, kept) =
        resolve_step_keeps last reached result env.resolve_ending (record w { db = db' })
          (advanced env.now reached hash none row) only.at_key in
      rw done (
        row',
        at_key,
        inr (record {
          at_reached = kept.same_block;
          with_hash = kept.same_hash_kept;
          pause_kept = kept.same_pause;
        }),
      )
  advance_step_moves last reached hash result database_unavailable w row e h =
      (row, e, inl (record { same_block = refl; same_hash_kept = refl; same_pause = refl }))
  advance_step_moves last reached hash result (failed m) w row e h =
      let (row', at_key, kept) = write_failed_keeps m w row e in (row', at_key, inl kept)

  pub processed_step_moves :
      (last reached : ℕ) (hash : Text) (result : ScanTickResult) (ending : Ending) (w : World Rows)
      (row : CheckpointState)
      → key_row w ≡ some row
      → row.last_processed_block ≤ reached
      → Leaves
          (λ row'. IsUnmoved row row' ⊎ ((ending ≡ finished) × IsAdvanced reached hash row row'))
          (processed_step options env last reached hash result ending w)
  unfolding processed_step handle_database_failure record_failed_block
  processed_step_moves last reached hash result finished w row e h =
      let (row', at_key, kept) =
        advance_step_moves last reached hash result env.advance_ending w row e h in
      (row', at_key, elim kept [ inl u ↦ inl u | inr a ↦ inr (refl, a) ])
  processed_step_moves last reached hash result database_unavailable w row e h =
      (row, e, inl (record { same_block = refl; same_hash_kept = refl; same_pause = refl }))
  processed_step_moves last reached hash result (failed m) w row e h =
      let (db', done, only) =
        record_error-OnlyRow w.db env.now options.chain_id options.stream m row e in
      rw done (
        _,
        only.at_key,
        inl (record { same_block = refl; same_hash_kept = refl; same_pause = refl }),
      )
