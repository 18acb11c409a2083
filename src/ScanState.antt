-- ===== src/ScanState.antt =====
-- What a tick of apps/indexer/src/scanner.ts reads, writes and answers with, and the log source of
-- apps/indexer/src/sources/types.ts.
use stunks.Prelude.{ℕ, Bool, Option, List, Result, ok, err}
use stunks.Prelude.Text.{Text}
use stunks.Checkpoint.{Tables, CheckpointFault}

-- What `getLogs` does: a batch with the block that it reached, `RangeTooWideError`, or the throw of
-- another error, which is its place in the store of error objects.
pub data Fetch (Log : Type 0) : Type 0 where
  batch : List Log → ℕ → Fetch Log
  too_wide : Fetch Log
  fetch_failed : ℕ → Fetch Log

-- How a processor or a write to the database ends: an availability error is told from the others.
pub data Ending : Type 0 where
  finished database_unavailable : Ending
  failed : Text → Ending

pub data Thrown : Type 0 where
  repository : CheckpointFault → Thrown
  processor : Text → Thrown
  database : Text → Thrown

pub record World (Rows : Type 0) : Type 0 where
  pub db : Tables
  pub rows : Rows

pub record ScannerOptions (Rows : Type 0) : Type 0 where
  pub stream : Text
  pub chain_id : ℕ
  pub start_block : ℕ
  pub confirmation_depth : ℕ
  pub require_addresses : Bool
  pub delete_above : ℕ → Rows → Rows
  pub cascade_streams : List Text

-- The answers of the source, of the callbacks, of the clock and of the database in one tick.
pub record TickEnv (Log Rows : Type 0) : Type 0 where
  pub now : ℕ
  pub block_hash : ℕ → Option Text  -- `none`: the call threw
  pub head : Option ℕ  -- `none`: the call threw
  pub max_block : Option (Option ℕ)  -- `none`: no such option; `some none`: it answered null
  pub addresses : List Text
  pub get_logs : ℕ → ℕ → Fetch Log
  pub process : List Log → ℕ → ℕ → Rows → Ending × Rows
  pub advance_ending : Ending
  pub resolve_ending : Ending
  pub message : Text  -- the texts that the code builds from errors and blocks

pub record ScanTickResult : Type 0 where
  pub scanned : ℕ
  pub logs : ℕ
  pub from_block : ℕ
  pub to_block : ℕ
  pub caught_up : Bool
  pub reorged : Bool
  pub confirmed_head : Option ℕ

abbrev pub no_progress : ℕ → ℕ → Bool → Bool → Option ℕ → ScanTickResult
no_progress from_block to_block caught_up reorged confirmed_head = record {
  scanned = 0;
  logs = 0;
  from_block = from_block;
  to_block = to_block;
  caught_up = caught_up;
  reorged = reorged;
  confirmed_head = confirmed_head;
}

-- A method of the scanner: it returns or throws, and leaves a world either way.
abbrev pub Run : Type 0 → Type 0 → Type 0
Run Rows A = Result Thrown A × World Rows

module _ {Rows : Type 0} where
  -- A call of the repository that throws ends the method with the tables as they were.
  abbrev pub after_call :
      {A : Type 0}
      → Result CheckpointFault Tables
      → World Rows
      → (World Rows → Run Rows A)
      → Run Rows A
  after_call (ok db) w next = next (record w { db = db })
  after_call (err fault) w next = (err (repository fault), w)

  abbrev pub after_move :
      {A : Type 0}
      → Result CheckpointFault (Bool × Tables)
      → World Rows
      → (World Rows → Run Rows A)
      → Run Rows A
  after_move (ok (moved, db)) w next = next (record w { db = db })
  after_move (err fault) w next = (err (repository fault), w)
