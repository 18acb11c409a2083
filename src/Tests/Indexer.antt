-- ===== src/Tests/Indexer.antt =====
-- The log ranges, the reorg checks, the checkpoints and the scan loop at concrete inputs.
use stunks.Prelude.{
  ◌⊎◌, ℕ, zero, suc, ◌+◌, ◌-◌, ◌*◌, ◌^◌, ◌≤◌, ◌<◌, ◌≡◌, ◌↔◌, refl, Bool, true, false, Option, none,
  some, List, [], ◌∷◌, Result, ok, err, arith, length, min, max,
}
use stunks.Prelude.Text.{Text}
use stunks.LogRange.{BlockRange, AdaptiveLogWindow, split_block_range}
use stunks.LogRange.Split.{Tiles, split_block_range-Tiles}
use stunks.LogRange.Window.{requests, requests_find_limit}
use stunks.Reorg.{Block, verify_lineage, unbroken, broken_at, check_for_reorg, reorg, same_hash}
use stunks.Reorg.Lineage.{IsLinked, Breaks, verify_lineage_decides, check_for_reorg_verdict}
use stunks.Checkpoint.{
  CheckpointState, FailedBlock, Tables, created, advance, advanced, moves_backwards,
  rollback_if_ahead, fast_forward, resolve_failed_blocks_through, record_failed_block,
  unresolved_failed_blocks,
}
use stunks.Checkpoint.Moves.{row_of, OnlyRow, IsSetTo, advance_moves_forward}
use stunks.ScanState.{ScannerOptions, TickEnv, World, Run, batch, finished}
use stunks.ScanLoops.{backfill, tail}
use stunks.ScanLoops.Travelled.{Arrives, loops-Arrives}
use stunks.Scanner.{tick}
use stunks.Scanner.Effects.{key_row}
use stunks.Scanner.Move.{Move}
use stunks.Scanner.Progress.{first_row, tick_moves}

split_block_range-Tiles_example :
    (ws : List BlockRange) × (split_block_range 10 25 7 ≡ ok ws)
    × Tiles 10 25 7 ws
    × (length ws * 7 ≤ 25 - 10 + 7)
split_block_range-Tiles_example = split_block_range-Tiles 10 25 7 (omega arith) (omega arith)

-- A fresh window of the indexer.
abbrev fresh : AdaptiveLogWindow
fresh = record {
  span = 100;
  last_good = 0;
  ceiling = none;
  successes_at_settled = 0;
  min_span = 1;
  max_span = 1_024;
}

requests_find_limit_example :
    let v = requests 20 7 fresh in
    (v.last_good ≡ 7)
    × (v.ceiling ≡ some 8)
    × ((v.span ≡ 7) ⊎ (v.span ≡ 8))
    × (v.span ≡ 8 → (j : ℕ) → j < 200 → (requests (suc j) 7 v).span ≡ 7)
requests_find_limit_example =
    requests_find_limit 20 10 7 fresh
      (record {
        unbounded = refl;
        good = omega arith;
        low = omega arith;
        high = omega arith;
        inside = omega arith;
      })
      (omega arith) (omega arith)

abbrev forked : List Block
forked =
    record { number = 5; hash = 50 ∷ []; parent_hash = 49 ∷ [] }
    ∷ record { number = 6; hash = 51 ∷ []; parent_hash = 50 ∷ [] }
    ∷ record { number = 7; hash = 53 ∷ []; parent_hash = 52 ∷ [] }
    ∷ []

verify_lineage_decides_example :
    ((verify_lineage forked ≡ unbroken) ↔ IsLinked forked)
    × ((verify_lineage forked ≡ broken_at 7) ↔ Breaks forked 7)
verify_lineage_decides_example = verify_lineage_decides forked 7

abbrev old_hash : Text
old_hash = 65 ∷ []

abbrev new_hash : Text
new_hash = 66 ∷ []

check_for_reorg_verdict_example :
    (check_for_reorg (some old_hash) 100 new_hash 12 ≡ reorg 88 old_hash new_hash) ↔ (
      (some old_hash ≡ some old_hash)
      × (new_hash ≡ new_hash)
      × (same_hash old_hash new_hash ≡ false)
      × (◌≡◌ {A = ℕ} 88 (100 - 12)))
check_for_reorg_verdict_example =
    check_for_reorg_verdict (some old_hash) 100 12 new_hash old_hash new_hash 88

abbrev launches : Text
launches = 70 ∷ []

abbrev row_at_50 : CheckpointState
row_at_50 = record (created 1 launches 50) { last_processed_block_hash = some (65 ∷ []) }

abbrev open_failure : FailedBlock
open_failure = record {
  chain_id = 1;
  stream = launches;
  block_number = 51;
  attempts = 2;
  last_error = [];
  resolved = false;
}

abbrev tables : Tables
tables = record {
  states = created 1 (71 ∷ []) 10 ∷ row_at_50 ∷ [];
  failures = open_failure ∷ record open_failure { block_number = 90 } ∷ [];
}

row_found : row_of tables 1 launches ≡ some row_at_50
unfolding stunks.Checkpoint.find_unique stunks.Prelude.Text.text_eq
row_found = refl

advance_moves_forward_example :
    (row_at_50.last_processed_block ≤ 60
      → (db' : Tables) × (advance tables 9 1 launches 60 new_hash none ≡ ok db')
        × OnlyRow tables 1 launches (advanced 9 60 new_hash none row_at_50) db'
        × IsSetTo 9 60 new_hash none row_at_50 (advanced 9 60 new_hash none row_at_50))
    × (60 < row_at_50.last_processed_block
        → advance tables 9 1 launches 60 new_hash none ≡ err moves_backwards)
advance_moves_forward_example =
    advance_moves_forward tables 9 1 launches 60 new_hash none row_at_50 row_found

-- A stream that counts the logs that it processed.
abbrev options : ScannerOptions ℕ
options = record {
  stream = launches;
  chain_id = 1;
  start_block = 0;
  confirmation_depth = 12;
  require_addresses = false;
  delete_above = λ to_block rows. 0;
  cascade_streams = [];
}

abbrev source : TickEnv ℕ ℕ
source = record {
  now = 9;
  block_hash = λ n. some (65 ∷ []);
  head = some 100;
  max_block = none;
  addresses = [];
  get_logs = λ from_block to_block. batch (1 ∷ 2 ∷ []) 70;
  process = λ logs from_block to_block rows. (finished, rows + length logs);
  advance_ending = finished;
  resolve_ending = finished;
  message = [];
}

abbrev world : World ℕ
world = record { db = tables; rows = 0 }

tick_moves_example :
    (row' : CheckpointState) × (key_row options source (tick options source world).1 ≡ some row')
    × Move options source (first_row options source world) row'
tick_moves_example = tick_moves options source world

-- A scanner that is told to stop after one tick.
abbrev stopping : ℕ → Bool
stopping zero = false
stopping (suc round) = true

loops-Arrives_example :
    ((end : Run ℕ ℕ) × (backfill options (λ round. source) stopping 2 0 0 world ≡ some end)
      × Arrives options (λ round. source) 0 row_at_50 end.1)
    × ((w' : World ℕ) × (tail options (λ round. source) stopping 2 0 world ≡ some w')
        × Arrives options (λ round. source) 0 row_at_50 w')
loops-Arrives_example =
    loops-Arrives options (λ round. source) stopping 1 world row_at_50 row_found refl
