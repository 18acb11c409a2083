-- ===== src/Scanner/Move.antt =====
-- What one tick may do to a checkpoint row.
use stunks.Prelude.{ℕ, ◌+◌, ◌-◌, ◌≤◌, ◌<◌, ◌≡◌, refl, false, none, some, List}
use stunks.Prelude.Text.{Text}
use stunks.Reorg.{same_hash}
use stunks.Checkpoint.{CheckpointState}
use stunks.ScanState.{batch, finished, World, ScannerOptions, TickEnv, Run}
use stunks.Scanner.{handle_source_failure}
use stunks.Scanner.Effects.{IsUnmoved, key_row, Leaves, source_failure_keeps, IsAdvanced}

abbrev pub unmoved_refl : (row : CheckpointState) → IsUnmoved row row
unmoved_refl row = record { same_block = refl; same_hash_kept = refl; same_pause = refl }

module _ {Rows Log : Type 0} (options : ScannerOptions Rows) (env : TickEnv Log Rows) where
  -- What one tick may do to a checkpoint row.
  pub data Move (row row' : CheckpointState) : Type 0 where
    stays : IsUnmoved row row' → Move row row'
    advances :
        (head boundary reached : ℕ) (logs : List Log) (hash : Text) (rows : Rows)
        → env.head ≡ some head
        → boundary + options.confirmation_depth ≤ head
        → row.last_processed_block < reached
        → env.get_logs (row.last_processed_block + 1) boundary ≡ batch logs reached
        → env.block_hash reached ≡ some hash
        → (env.process logs (row.last_processed_block + 1) reached rows).0 ≡ finished
        → IsAdvanced reached hash row row'
        → Move row row'
    rolls_back :
        (recorded current : Text)
        → row.last_processed_block_hash ≡ some recorded
        → env.block_hash row.last_processed_block ≡ some current
        → same_hash recorded current ≡ false
        → row'.last_processed_block ≡ row.last_processed_block - options.confirmation_depth
        → row'.last_processed_block_hash ≡ none
        → Move row row'

  abbrev pub Moves : {A : Type 0} → CheckpointState → Run Rows A → Type 0
  Moves row run = Leaves options env (Move row) run

  pub source_failure_stays :
      (from last : ℕ) (w : World Rows) (row : CheckpointState)
      → key_row options env w ≡ some row
      → Moves row (handle_source_failure options env from last w)
  source_failure_stays from last w row e =
      let (row', at_key, u) = source_failure_keeps options env from last w row e in
      (row', at_key, stays u)
