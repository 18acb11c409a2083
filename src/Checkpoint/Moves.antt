-- ===== src/Checkpoint/Moves.antt =====
-- How the methods move a checkpoint.
use native.Mathlib.Decide.{dec_lt}
use mathlib.Core.Path.{ap₂, ◌∙◌}
use stunks.Prelude.{
  take, lt→ltb, ℕ, ◌≤◌, ◌<◌, ◌≡◌, ◌↔◌, refl, Bool, true, false, Option, none, some, ok, err, arith,
  min, max, Option-cases, inl, inr, ltb,
}
use stunks.Prelude.Text.{Text, text_eq_refl}
use stunks.Checkpoint.{
  CheckpointState, Tables, moves_backwards, find_unique, update_row, update, get_or_create,
  advanced, advance, rolled_back, rollback_to, rollback_if_ahead, fast_forward, record_error,
}
use stunks.Checkpoint.Rows.{KeepsKey, find_unique-update_row, find_unique-update_row_ne}

abbrev pub row_of : Tables → ℕ → Text → Option CheckpointState
row_of db c s = find_unique c s db.states

-- `db'` has the row `new` at the key, and all else as in `db`.
pub record OnlyRow (db : Tables) (c : ℕ) (s : Text) (new : CheckpointState) (db' : Tables)
    : Type 0 where
  pub at_key : row_of db' c s ≡ some new
  pub elsewhere :
      (c' : ℕ) (s' : Text) → ((c ≡ c') → (s ≡ s') → ⊥) → row_of db' c' s' ≡ row_of db c' s'
  pub failures_kept : db'.failures ≡ db.failures

update-OnlyRow :
    (db : Tables) (c : ℕ) (s : Text) (change : CheckpointState → CheckpointState)
    (row : CheckpointState)
    → KeepsKey change
    → row_of db c s ≡ some row
    → (db' : Tables) × (update db c s change ≡ ok db') × OnlyRow db c s (change row) db'
unfolding update
update-OnlyRow db c s change row k e = (
  record db { states = update_row c s change db.states },
  rw (e, update),
  record {
    at_key = rw (find_unique-update_row c s change k db.states, e);
    elsewhere = λ c' s' ne. find_unique-update_row_ne c s change k c' s' db.states ne;
    failures_kept = refl;
  },
)

-- What `advance` makes of a row: its block, its hash and the time of its success are set and its error
-- is cleared, the window is the one that is given, if any, and nothing else changes.
pub record IsSetTo (now to : ℕ) (hash : Text) (size : Option ℕ) (row new : CheckpointState)
    : Type 0 where
  pub block : new.last_processed_block ≡ to
  pub with_hash : new.last_processed_block_hash ≡ some hash
  pub succeeded : new.last_success_at ≡ some now
  pub cleared : new.last_error ≡ none
  pub window : (n : ℕ) → size ≡ some n → new.log_window_size ≡ n
  pub same_window : size ≡ none → new.log_window_size ≡ row.log_window_size
  pub same_chain : new.chain_id ≡ row.chain_id
  pub same_stream : new.stream ≡ row.stream
  pub same_depth : new.confirmation_depth ≡ row.confirmation_depth
  pub same_pause : new.is_paused ≡ row.is_paused
  pub same_error_time : new.last_error_at ≡ row.last_error_at

advanced-IsSetTo :
    (now to : ℕ) (hash : Text) (size : Option ℕ) (row : CheckpointState)
    → IsSetTo now to hash size row (advanced now to hash size row)
advanced-IsSetTo now to hash size row = record {
  block = refl;
  with_hash = refl;
  succeeded = refl;
  cleared = refl;
  window = λ n e. rw e refl;
  same_window = λ e. rw e refl;
  same_chain = refl;
  same_stream = refl;
  same_depth = refl;
  same_pause = refl;
  same_error_time = refl;
}

-- For a stream with a checkpoint: at or below the target, `advance` answers, sets its block, hash and
-- time, clears its error, takes the window that is given, keeps the rest of the row, and changes no
-- other row; above the target, it throws for moving backwards.
pub advance_moves_forward :
    (db : Tables) (now c : ℕ) (s : Text) (to : ℕ) (hash : Text) (size : Option ℕ)
    (row : CheckpointState)
    → row_of db c s ≡ some row
    → (row.last_processed_block ≤ to
        → (db' : Tables) × (advance db now c s to hash size ≡ ok db')
          × OnlyRow db c s (advanced now to hash size row) db'
          × IsSetTo now to hash size row (advanced now to hash size row))
      × (to < row.last_processed_block → advance db now c s to hash size ≡ err moves_backwards)
unfolding advance
advance_moves_forward db now c s to hash size row e = (
  λ h.
      let (db', done, only) =
        update-OnlyRow db c s (advanced now to hash size) row
          (record { keeps_chain = λ r. refl; keeps_stream = λ r. refl }) e in
      (
        db',
        rw (e, ltb_false row.last_processed_block to h) done,
        only,
        advanced-IsSetTo now to hash size row,
      ),
  λ h. rw (e, lt→ltb to row.last_processed_block h),
)
  where
    ltb_false : (a b : ℕ) → a ≤ b → ltb b a ≡ false
    ltb_false a b h = ground arith

rolled_back-KeepsKey : (now to : ℕ) (m : Text) → KeepsKey (rolled_back now to m)
rolled_back-KeepsKey now to m = record { keeps_chain = λ r. refl; keeps_stream = λ r. refl }

-- `rollbackIfAhead` answers for a stream with a checkpoint. A stream above the target is rolled back to it, with its hash
-- cleared; any other stream, and everything else, is left as it was.
pub rollback_if_ahead_lowers :
    (db : Tables) (now c : ℕ) (s : Text) (to : ℕ) (m : Text) (row : CheckpointState)
    → row_of db c s ≡ some row
    → (moved : Bool) × (db' : Tables) × (new : CheckpointState) × (rollback_if_ahead db now c s to m
        ≡ ok (moved, db'))
      × OnlyRow db c s new db'
      × (new.last_processed_block ≡ min row.last_processed_block to)
      × ((moved ≡ true) ↔ (to < row.last_processed_block))
      × (moved ≡ true → new.last_processed_block_hash ≡ none)
      × (moved ≡ false → new ≡ row)
unfolding rollback_if_ahead
rollback_if_ahead_lowers db now c s to m row e = elim (dec_lt to row.last_processed_block) [
  | yes above ↦
      let (db', done, only) =
        update-OnlyRow db c s (rolled_back now to m) row (rolled_back-KeepsKey now to m) e in
      (
        true,
        db',
        rolled_back now to m row,
        rw (e, lt→ltb to row.last_processed_block above, done),
        only,
        omega arith,
        ((λ _. above), (λ _. refl)),
        (λ _. refl),
        (λ f. cc),
      )
  | no below ↦ (
    false,
    db,
    row,
    rw e (ground arith),
    record { at_key = e; elsewhere = λ c' s' ne. refl; failures_kept = refl },
    omega arith,
    ((λ f. cc), (λ h. absurd (below h))),
    (λ f. cc),
    (λ _. refl),
  )
]

-- For a stream with a checkpoint, `fastForward` answers and leaves the stream at the larger of its
-- block and the target; from the target on it changes nothing.
pub fast_forward_raises :
    (db : Tables) (now c : ℕ) (s : Text) (to : ℕ) (m : Text) (row : CheckpointState)
    → row_of db c s ≡ some row
    → (db' : Tables) × (new : CheckpointState) × (fast_forward db now c s to m ≡ ok db')
      × OnlyRow db c s new db'
      × (new.last_processed_block ≡ max row.last_processed_block to)
      × (to ≤ row.last_processed_block → db' ≡ db)
unfolding fast_forward
fast_forward_raises db now c s to m row e = elim (dec_lt row.last_processed_block to) [
  | yes below ↦
      let (db', done, only) =
        update-OnlyRow db c s (rolled_back now to m) row (rolled_back-KeepsKey now to m) e in
      (
        db',
        rolled_back now to m row,
        rw (e, lt→ltb row.last_processed_block to below, done),
        only,
        omega arith,
        (λ h. absurd (omega arith)),
      )
  | no above ↦ (
    db,
    row,
    rw e (ground arith),
    record { at_key = e; elsewhere = λ c' s' ne. refl; failures_kept = refl },
    omega arith,
    (λ _. refl),
  )
]

-- `recordError` changes the error of the stream's row alone.
pub record_error-OnlyRow :
    (db : Tables) (now c : ℕ) (s m : Text) (row : CheckpointState)
    → row_of db c s ≡ some row
    → (db' : Tables) × (record_error db now c s m ≡ ok db')
      × OnlyRow db c s
          (record row { last_error = some (take 1_000 m); last_error_at = some now })
          db'
unfolding record_error
record_error-OnlyRow db now c s m row e =
    update-OnlyRow db c s
      (λ r. record r { last_error = some (take 1_000 m); last_error_at = some now }) row
      (record { keeps_chain = λ r. refl; keeps_stream = λ r. refl }) e

pub rollback_to-OnlyRow :
    (db : Tables) (now c : ℕ) (s : Text) (to : ℕ) (m : Text) (row : CheckpointState)
    → row_of db c s ≡ some row
    → (db' : Tables) × (rollback_to db now c s to m ≡ ok db')
      × OnlyRow db c s (rolled_back now to m row) db'
unfolding rollback_to
rollback_to-OnlyRow db now c s to m row e =
    update-OnlyRow db c s (rolled_back now to m) row (rolled_back-KeepsKey now to m) e

-- `rollbackIfAhead` answers for every stream, and keeps every row that is not above the target.
pub rollback_if_ahead_keeps :
    (db : Tables) (now c : ℕ) (s : Text) (to : ℕ) (m : Text)
    → (moved : Bool) × (db' : Tables) × (rollback_if_ahead db now c s to m ≡ ok (moved, db'))
      × ((c' : ℕ) (s' : Text) (row : CheckpointState)
          → row_of db c' s' ≡ some row
          → row.last_processed_block ≤ to
          → row_of db' c' s' ≡ some row)
unfolding rollback_if_ahead
rollback_if_ahead_keeps db now c s to m = elim (Option-cases (row_of db c s)) [
  | inl e ↦ (false, db, rw e, λ c' s' row h low. h)
  | inr (r, e) ↦ elim (dec_lt to r.last_processed_block) [
    | yes above ↦
        let (db', done, only) = rollback_to-OnlyRow db now c s to m r e in
        (
          true,
          db',
          rw (e, lt→ltb to r.last_processed_block above, done),
          λ c' s' row h low. only.elsewhere c' s' (other_key c s c' s' r row e h low above) ∙ h,
        )
    | no below ↦ (false, db, rw e (ground arith), λ c' s' row h low. h)
  ]
]
  where
    other_key :
        (c : ℕ) (s : Text) (c' : ℕ) (s' : Text) (r row : CheckpointState)
        → row_of db c s ≡ some r
        → row_of db c' s' ≡ some row
        → row.last_processed_block ≤ to
        → to < r.last_processed_block
        → c ≡ c'
        → s ≡ s'
        → ⊥
    other_key c s c' s' r row e h low above p q = ground (arith, ap₂ (row_of db) p q)

pub get_or_create-row_of :
    (db : Tables) (c : ℕ) (s : Text) (start : ℕ)
    → row_of (get_or_create db c s start).1 c s ≡ some (get_or_create db c s start).0
unfolding get_or_create find_unique
get_or_create-row_of db c s start = elim (Option-cases (row_of db c s)) [
  | inl e ↦ ground (arith, text_eq_refl s)
  | inr (r, e) ↦ ground arith
]
