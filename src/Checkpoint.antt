-- ===== src/Checkpoint.antt =====
-- Indexer checkpoints: packages/database/src/repositories/checkpoint.ts, over the two tables of
-- prisma/schema.prisma that it writes, as lists of rows. A method takes the tables, and the time
-- where it writes `new Date()`, and returns the new tables.
pub mod Rows
pub mod Moves
pub mod Failures
use stunks.Prelude.{
  ℕ, ◌+◌, Bool, true, false, not, ◌&&◌, Option, none, some, List, [], ◌∷◌, Result, ok, err, ◌>>=◌,
  map, ltb, leb, ◌==◌, if◌then◌else◌, take,
}
use stunks.Prelude.Text.{Text, text_eq}

pub record CheckpointState : Type 0 where
  pub chain_id : ℕ
  pub stream : Text
  pub last_processed_block : ℕ
  pub last_processed_block_hash : Option Text
  pub confirmation_depth : ℕ
  pub log_window_size : ℕ
  pub is_paused : Bool
  pub last_success_at : Option ℕ
  pub last_error : Option Text
  pub last_error_at : Option ℕ

pub record FailedBlock : Type 0 where
  pub chain_id : ℕ
  pub stream : Text
  pub block_number : ℕ
  pub attempts : ℕ
  pub last_error : Text
  pub resolved : Bool

pub record Tables : Type 0 where
  pub states : List CheckpointState
  pub failures : List FailedBlock

-- What a method throws: an update finds no row, or `advance` is asked to move backwards.
pub data CheckpointFault : Type 0 where
  record_not_found moves_backwards : CheckpointFault

-- The unique key of a checkpoint.
abbrev pub has_key : ℕ → Text → CheckpointState → Bool
has_key chain_id stream row = row.chain_id == chain_id && text_eq row.stream stream

-- `indexerState.findUnique`
unfoldable pub find_unique : ℕ → Text → List CheckpointState → Option CheckpointState
find_unique chain_id stream [] = none
find_unique chain_id stream (row ∷ rows) =
    if has_key chain_id stream row then some row else find_unique chain_id stream rows

-- The rows after `indexerState.update`, for a row that is there.
unfoldable pub update_row :
    ℕ → Text → (CheckpointState → CheckpointState) → List CheckpointState → List CheckpointState
update_row chain_id stream change [] = []
update_row chain_id stream change (row ∷ rows) =
    if has_key chain_id stream row
    then change row ∷ rows
    else row ∷ update_row chain_id stream change rows

unfoldable pub update :
    Tables → ℕ → Text → (CheckpointState → CheckpointState) → Result CheckpointFault Tables
update db chain_id stream change = elim (find_unique chain_id stream db.states) [
  | none ↦ err record_not_found
  | some row ↦ ok (record db { states = update_row chain_id stream change db.states })
]

-- The defaults of the schema.
abbrev pub created : ℕ → Text → ℕ → CheckpointState
created chain_id stream start_block = record {
  chain_id = chain_id;
  stream = stream;
  last_processed_block = start_block;
  last_processed_block_hash = none;
  confirmation_depth = 12;
  log_window_size = 100;
  is_paused = false;
  last_success_at = none;
  last_error = none;
  last_error_at = none;
}

unfoldable pub get_or_create : Tables → ℕ → Text → ℕ → CheckpointState × Tables
get_or_create db chain_id stream start_block = elim (find_unique chain_id stream db.states) [
  | some row ↦ (row, db)
  | none ↦ (
    created chain_id stream start_block,
    record db { states = created chain_id stream start_block ∷ db.states },
  )
]

abbrev pub advanced : ℕ → ℕ → Text → Option ℕ → CheckpointState → CheckpointState
advanced now to_block block_hash log_window_size row = record row {
  last_processed_block = to_block;
  last_processed_block_hash = some block_hash;
  last_success_at = some now;
  last_error = none;
  log_window_size = elim log_window_size [ none ↦ row.log_window_size | some size ↦ size ];
}

-- Whether the row that is there, if any, lies above `to_block`.
abbrev pub lies_above : Option CheckpointState → ℕ → Bool
lies_above none to_block = false
lies_above (some row) to_block = ltb to_block row.last_processed_block

unfoldable pub advance : Tables → ℕ → ℕ → Text → ℕ → Text → Option ℕ → Result CheckpointFault Tables
unfolding update
advance db now chain_id stream to_block block_hash log_window_size =
    if lies_above (find_unique chain_id stream db.states) to_block
    then err moves_backwards
    else update db chain_id stream (advanced now to_block block_hash log_window_size)

-- `message` is the text that the code builds from the block and the reason.
abbrev pub rolled_back : ℕ → ℕ → Text → CheckpointState → CheckpointState
rolled_back now to_block message row = record row {
  last_processed_block = to_block;
  last_processed_block_hash = none;
  last_error = some message;
  last_error_at = some now;
}

unfoldable pub rollback_to : Tables → ℕ → ℕ → Text → ℕ → Text → Result CheckpointFault Tables
unfolding update
rollback_to db now chain_id stream to_block message =
    update db chain_id stream (rolled_back now to_block message)

-- With whether the stream was moved, which is whether the code's answer is not null.
unfoldable pub rollback_if_ahead :
    Tables → ℕ → ℕ → Text → ℕ → Text → Result CheckpointFault (Bool × Tables)
unfolding rollback_to
rollback_if_ahead db now chain_id stream to_block message =
    if lies_above (find_unique chain_id stream db.states) to_block
    then (do db' ← rollback_to db now chain_id stream to_block message; ok (true, db'))
    else ok (false, db)

-- Whether the row that is there lies below `to_block`.
abbrev pub lies_below : Option CheckpointState → ℕ → Bool
lies_below none to_block = false
lies_below (some row) to_block = ltb row.last_processed_block to_block

unfoldable pub fast_forward : Tables → ℕ → ℕ → Text → ℕ → Text → Result CheckpointFault Tables
unfolding update
fast_forward db now chain_id stream to_block message =
    if lies_below (find_unique chain_id stream db.states) to_block
    then update db chain_id stream (rolled_back now to_block message)
    else ok db

unfoldable pub record_error : Tables → ℕ → ℕ → Text → Text → Result CheckpointFault Tables
unfolding update
record_error db now chain_id stream error =
    update db chain_id stream
      (λ row. record row { last_error = some (take 1_000 error); last_error_at = some now })

unfoldable pub set_paused : Tables → ℕ → Text → Bool → Result CheckpointFault Tables
unfolding update
set_paused db chain_id stream paused =
    update db chain_id stream (λ row. record row { is_paused = paused })

-- The unique key of a failed block.
abbrev pub is_failure_of : ℕ → Text → ℕ → FailedBlock → Bool
is_failure_of chain_id stream block_number row =
    row.chain_id == chain_id && text_eq row.stream stream && row.block_number == block_number

-- `failedBlock.upsert`
unfoldable pub upsert_failure : ℕ → Text → ℕ → Text → List FailedBlock → List FailedBlock
upsert_failure chain_id stream block_number error [] =
    record {
      chain_id = chain_id;
      stream = stream;
      block_number = block_number;
      attempts = 1;
      last_error = take 1_000 error;
      resolved = false;
    }
    ∷ []
upsert_failure chain_id stream block_number error (row ∷ rows) =
    if is_failure_of chain_id stream block_number row
    then record row { attempts = row.attempts + 1; last_error = take 1_000 error; resolved = false }
      ∷ rows
    else row ∷ upsert_failure chain_id stream block_number error rows

unfoldable pub record_failed_block : Tables → ℕ → Text → ℕ → Text → Tables
unfolding upsert_failure
record_failed_block db chain_id stream block_number error = record db {
  failures = upsert_failure chain_id stream block_number error db.failures;
}

unfoldable pub resolve_if : (FailedBlock → Bool) → FailedBlock → FailedBlock
resolve_if test row = if test row && not row.resolved then record row { resolved = true } else row

unfoldable pub resolve_failed_block : Tables → ℕ → Text → ℕ → Tables
unfolding resolve_if
resolve_failed_block db chain_id stream block_number = record db {
  failures = map (resolve_if (is_failure_of chain_id stream block_number)) db.failures;
}

abbrev pub is_through : ℕ → Text → ℕ → FailedBlock → Bool
is_through chain_id stream through_block row =
    row.chain_id == chain_id && text_eq row.stream stream && leb row.block_number through_block

unfoldable pub count_if : (FailedBlock → Bool) → List FailedBlock → ℕ
count_if test [] = 0
count_if test (row ∷ rows) = (if test row then 1 else 0) + count_if test rows

-- With the number of rows that it resolved.
unfoldable pub resolve_failed_blocks_through : Tables → ℕ → Text → ℕ → ℕ × Tables
unfolding resolve_if count_if
resolve_failed_blocks_through db chain_id stream through_block = (
  count_if (λ row. is_through chain_id stream through_block row && not row.resolved) db.failures,
  record db { failures = map (resolve_if (is_through chain_id stream through_block)) db.failures },
)

-- The second part of the answer of `health`.
unfoldable pub unresolved_failed_blocks : Tables → ℕ → ℕ
unfolding count_if
unresolved_failed_blocks db chain_id =
    count_if (λ row. row.chain_id == chain_id && not row.resolved) db.failures
