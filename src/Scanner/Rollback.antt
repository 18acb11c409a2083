-- ===== src/Scanner/Rollback.antt =====
-- What `handleReorg` does to the stream's checkpoint.
use native.Mathlib.Nat.{le_refl}
use stunks.Prelude.{
  ℕ, ◌≤◌, ◌≡◌, ◌⊎◌, ◌∙◌, ap, refl, Bool, true, false, Option, none, some, List, [], ◌∷◌, ok,
  Bool-cases, inl, inr, ◌==◌,
}
use stunks.Prelude.Text.{Text}
use stunks.Reorg.{check_for_reorg, reorg, unchanged, unverifiable, ReorgVerdict}
use stunks.Reorg.Lineage.{check_for_reorg_verdict}
use stunks.Checkpoint.{CheckpointState, rolled_back}
use stunks.Checkpoint.Moves.{rollback_to-OnlyRow, rollback_if_ahead_keeps}
use stunks.ScanState.{World, ScannerOptions, TickEnv, Run}
use stunks.Scanner.{cascade, roll_back, handle_reorg, on_verdict, on_current_hash}
use stunks.Scanner.Effects.{key_row}
use stunks.Scanner.Move.{Moves, rolls_back}

module _ {Rows Log : Type 0} (options : ScannerOptions Rows) (env : TickEnv Log Rows) where
  cascade_keeps :
      (to : ℕ) (streams : List Text) (w : World Rows) (row : CheckpointState)
      → key_row options env w ≡ some row
      → row.last_processed_block ≤ to
      → ((cascade options env to streams w).0 ≡ ok true)
        × (key_row options env (cascade options env to streams w).1 ≡ some row)
  unfolding cascade
  cascade_keeps to [] w row e low = (refl, e)
  cascade_keeps to (s ∷ streams) w row e low =
      let (moved, db', done, keeps) =
        rollback_if_ahead_keeps w.db env.now options.chain_id s to env.message in
      rw done (
        cascade_keeps to streams (record w { db = db' }) row
          (keeps options.chain_id options.stream row e low) low)

  -- A rollback answers, and leaves the row at the target with no hash.
  roll_back_lands :
      (to : ℕ) (w : World Rows) (row : CheckpointState)
      → key_row options env w ≡ some row
      → ((roll_back options env to w).0 ≡ ok true)
        × (key_row options env (roll_back options env to w).1
            ≡ some (rolled_back env.now to env.message row))
  unfolding roll_back
  roll_back_lands to w row e =
      let (db', done, only) =
        rollback_to-OnlyRow w.db env.now options.chain_id options.stream to env.message row e in
      rw done (
        cascade_keeps to options.cascade_streams
          (record w { db = db'; rows = options.delete_above to w.rows })
          (rolled_back env.now to env.message row) only.at_key (le_refl to))

  -- A reorg check either changes nothing, or rolls the row back.
  abbrev pub Outcome : CheckpointState → World Rows → Run Rows Bool → Type 0
  Outcome row w run =
      ((run.0 ≡ ok false) × (run.1 ≡ w)) ⊎ ((run.0 ≡ ok true) × Moves options env row run)

  verdict-Outcome :
      (row : CheckpointState) (hash current : Text) (v : ReorgVerdict) (w : World Rows)
      → key_row options env w ≡ some row
      → row.last_processed_block_hash ≡ some hash
      → env.block_hash row.last_processed_block ≡ some current
      → check_for_reorg (some hash) row.last_processed_block current options.confirmation_depth ≡ v
      → Outcome row w (on_verdict options env v w)
  verdict-Outcome row hash current unchanged w e recorded now v = inl (refl, refl)
  verdict-Outcome row hash current unverifiable w e recorded now v = inl (refl, refl)
  verdict-Outcome row hash current (reorg to r c) w e recorded now v =
      let (same, same_current, differs, target) =
        (check_for_reorg_verdict (some hash) row.last_processed_block options.confirmation_depth
            current r c to).0
          v in
      let (done, at_key) = roll_back_lands to w row e in
      inr (
        done,
        (
          rolled_back env.now to env.message row,
          at_key,
          rolls_back r c (recorded ∙ same) (now ∙ ap some same_current) differs target refl,
        ),
      )

  current-Outcome :
      (row : CheckpointState) (hash : Text) (answer : Option Text) (w : World Rows)
      → key_row options env w ≡ some row
      → row.last_processed_block_hash ≡ some hash
      → env.block_hash row.last_processed_block ≡ answer
      → Outcome row w (on_current_hash options env (some hash) row.last_processed_block answer w)
  current-Outcome row hash none w e recorded now = inl (refl, refl)
  current-Outcome row hash (some current) w e recorded now =
      verdict-Outcome row hash current _ w e recorded now refl

  pub handle_reorg-Outcome :
      (row : CheckpointState) (recorded : Option Text) (w : World Rows)
      → key_row options env w ≡ some row
      → row.last_processed_block_hash ≡ recorded
      → Outcome row w (handle_reorg options env row.last_processed_block recorded w)
  unfolding handle_reorg
  handle_reorg-Outcome row none w e r = inl (refl, refl)
  handle_reorg-Outcome row (some hash) w e r = elim (Bool-cases (row.last_processed_block == 0)) [
    | inl genesis ↦ rw genesis (inl (refl, refl))
    | inr later ↦ rw later (current-Outcome row hash _ w e r refl)
  ]
