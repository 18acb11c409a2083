-- ===== src/Scanner/Progress.antt =====
-- What a tick of the scanner does to its stream's checkpoint, from its checks on.
use stunks.Prelude.{
  ℕ, ◌+◌, ◌≤◌, ◌<◌, ◌≡◌, ◌∙◌, ap, refl, Bool, true, false, ◌&&◌, Option, none, some, List, ok, err,
  arith, ltb, leb, Bool-cases, inl, inr, ltb_false→le, length,
}
use stunks.Prelude.Text.{Text}
use stunks.Reorg.{safe_head}
use stunks.Reorg.Lineage.{safe_head_iff}
use stunks.Checkpoint.{CheckpointState, get_or_create}
use stunks.Checkpoint.Moves.{get_or_create-row_of}
use stunks.ScanState.{Fetch, batch, too_wide, fetch_failed, World, ScannerOptions, TickEnv, Run}
use stunks.Scanner.{
  hash_step, fetch_step, boundary_step, bounded, head_step, after_reorg, checkpoint_step, tick,
  progressed, is_empty,
}
use stunks.Scanner.Effects.{key_row, processed_step_moves}
use stunks.Scanner.Move.{Move, Moves, stays, advances, unmoved_refl, source_failure_stays}
use stunks.Scanner.Rollback.{Outcome, handle_reorg-Outcome}

module _ {Rows Log : Type 0} (options : ScannerOptions Rows) (env : TickEnv Log Rows) where
  module _ (row : CheckpointState) (head boundary : ℕ) (confirmed : Option ℕ)
      (at_head : env.head ≡ some head)
      (settled : boundary + options.confirmation_depth ≤ head) where
    hash_step-Moves :
        (logs : List Log) (reached : ℕ) (answer : Option Text) (w : World Rows)
        → key_row options env w ≡ some row
        → row.last_processed_block < reached
        → env.get_logs (row.last_processed_block + 1) boundary ≡ batch logs reached
        → env.block_hash reached ≡ answer
        → Moves options env row (
            hash_step options env row.last_processed_block boundary confirmed logs reached answer w)
    unfolding hash_step
    hash_step-Moves logs reached none w e h fetched hashed =
        source_failure_stays options env (row.last_processed_block + 1) row.last_processed_block w
          row e
    hash_step-Moves logs reached (some hash) w e h fetched hashed =
        let last = row.last_processed_block in
        let answer = env.process logs (last + 1) reached w.rows in
        let (row', at_key, moved) =
          processed_step_moves options env last reached hash
            (progressed options env (last + 1) reached (length logs) boundary confirmed) answer.0
            (record w { rows = answer.1 }) row e (omega arith) in
        (
          row',
          at_key,
          elim moved [
            | inl u ↦ stays u
            | inr (done, a) ↦
                advances head boundary reached logs hash w.rows at_head settled h fetched hashed
                  done a
          ],
        )

    fetch_step-Moves :
        (answer : Fetch Log) (w : World Rows)
        → key_row options env w ≡ some row
        → env.get_logs (row.last_processed_block + 1) boundary ≡ answer
        → Moves options env row
            (fetch_step options env row.last_processed_block boundary confirmed answer w)
    unfolding fetch_step
    fetch_step-Moves (batch logs reached) w e fetched =
        elim (Bool-cases (ltb reached (row.last_processed_block + 1))) [
          | inl short ↦ rw short (row, e, stays (unmoved_refl row))
          | inr covers ↦ rw covers (
              hash_step-Moves logs reached (env.block_hash reached) w e
                (omega (arith, ltb_false→le reached (row.last_processed_block + 1) covers)) fetched
                refl)
        ]
    fetch_step-Moves too_wide w e fetched = (row, e, stays (unmoved_refl row))
    fetch_step-Moves (fetch_failed error) w e fetched =
        source_failure_stays options env (row.last_processed_block + 1) row.last_processed_block w
          row e

  boundary_step-Moves :
      (row : CheckpointState) (head : ℕ) (confirmed bound : Option ℕ) (w : World Rows)
      → env.head ≡ some head
      → ((b : ℕ) → bound ≡ some b → b + options.confirmation_depth ≤ head)
      → key_row options env w ≡ some row
      → Moves options env row (boundary_step options env row.last_processed_block confirmed bound w)
  unfolding boundary_step
  boundary_step-Moves row head confirmed none w at_head settled e =
      (row, e, stays (unmoved_refl row))
  boundary_step-Moves row head confirmed (some b) w at_head settled e =
      elim (Bool-cases (leb b row.last_processed_block)) [
        | inl there ↦ rw there (row, e, stays (unmoved_refl row))
        | inr more ↦
            elim (Bool-cases (options.require_addresses && is_empty options env env.addresses)) [
              | inl bare ↦ rw (more, bare) (row, e, stays (unmoved_refl row))
              | inr some_addresses ↦
                  rw (more, some_addresses)
                    (fetch_step-Moves row head b confirmed at_head (settled b refl)
                      (env.get_logs (row.last_processed_block + 1) b) w e refl)
            ]
      ]

  -- The boundary never lies above the confirmed head.
  bounded-le :
      (confirmed : Option ℕ) (limit : Option (Option ℕ)) (head : ℕ)
      → ((c : ℕ) → confirmed ≡ some c → c + options.confirmation_depth ≤ head)
      → (b : ℕ) → bounded options env confirmed limit ≡ some b
      → b + options.confirmation_depth ≤ head
  bounded-le none limit head h b e = cc
  bounded-le (some c) none head h b e = ground (arith, h c refl)
  bounded-le (some c) (some none) head h b e = cc
  bounded-le (some c) (some (some l)) head h b e = ground (arith, h c refl)

  head_step-Moves :
      (row : CheckpointState) (answer : Option ℕ) (w : World Rows)
      → env.head ≡ answer
      → key_row options env w ≡ some row
      → Moves options env row (head_step options env row.last_processed_block answer w)
  unfolding head_step
  head_step-Moves row none w at_head e =
      source_failure_stays options env row.last_processed_block row.last_processed_block w row e
  head_step-Moves row (some head) w at_head e =
      let depth = options.confirmation_depth in
      let confirmed = safe_head head depth in
      boundary_step-Moves row head confirmed (bounded options env confirmed env.max_block) w at_head
        (bounded-le confirmed env.max_block head
          (λ c ce. omega (arith, ((safe_head_iff head depth c).0 ce).1)))
        e

  after_reorg-Moves :
      (row : CheckpointState) (w : World Rows) (run : Run Rows Bool)
      → key_row options env w ≡ some row
      → Outcome options env row w run
      → Moves options env row (after_reorg options env row.last_processed_block run)
  after_reorg-Moves row w (ok false, w') e (inl (done, same)) =
      head_step-Moves row env.head w' refl (ap (key_row options env) same ∙ e)
  after_reorg-Moves row w (ok true, w') e (inl (done, same)) = cc
  after_reorg-Moves row w (err t, w') e (inl (done, same)) = cc
  after_reorg-Moves row w (ok false, w') e (inr (done, moved)) = cc
  after_reorg-Moves row w (ok true, w') e (inr (done, moved)) = moved
  after_reorg-Moves row w (err t, w') e (inr (done, moved)) = cc

  checkpoint_step-Moves :
      (row : CheckpointState) (w : World Rows)
      → key_row options env w ≡ some row
      → Moves options env row (checkpoint_step options env row w)
  unfolding checkpoint_step
  checkpoint_step-Moves row w e = elim (Bool-cases row.is_paused) [
    | inl paused ↦ simp paused (row, e, stays (unmoved_refl row))
    | inr runs ↦ simp runs (
        after_reorg-Moves row w _ e
          (handle_reorg-Outcome options env row row.last_processed_block_hash w e refl))
  ]

  -- The checkpoint with which a tick starts: the stream's row, or a new one at the start block.
  abbrev pub first_row : World Rows → CheckpointState
  first_row w = (get_or_create w.db options.chain_id options.stream options.start_block).0

  -- Whatever the answers in `TickEnv` are, a tick ends with a row for its stream, whether it returns
  -- or throws. That row is where the tick started; or at a block that a batch for
  -- the range from the next block up to a confirmed boundary reached, with that block's hash, after
  -- the processor finished the batch; or, where the recorded hash differs from the chain's, the
  -- confirmation depth below the start (or at block 0), with no hash.
  pub tick_moves :
      (w : World Rows)
      → (row' : CheckpointState) × (key_row options env (tick options env w).1 ≡ some row')
        × Move options env (first_row w) row'
  unfolding tick
  tick_moves w =
      let made = get_or_create w.db options.chain_id options.stream options.start_block in
      checkpoint_step-Moves made.0 (record w { db = made.1 })
        (get_or_create-row_of w.db options.chain_id options.stream options.start_block)
