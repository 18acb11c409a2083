-- ===== src/ScanLoops.antt =====
-- The loops around a tick: `backfill` and `tail` of apps/indexer/src/scanner.ts. What the outside
-- answers, and whether the scanner was told to stop, are told for each round. The pauses between the
-- rounds and the callbacks on their results only take time, and are left out.
pub mod Travelled
use stunks.Prelude.{
  ℕ, zero, suc, ◌+◌, Bool, true, false, Option, none, some, Result, ok, err, if◌then◌else◌,
}
use stunks.ScanState.{World, ScannerOptions, TickEnv, ScanTickResult, Run}
use stunks.Scanner.{tick}

module _ {Rows Log : Type 0} (options : ScannerOptions Rows) (env : ℕ → TickEnv Log Rows)
    (stopping : ℕ → Bool) where
  -- What follows a tick of `backfill`, which does not catch what a tick throws.
  abbrev pub after_tick :
      ℕ → (ℕ → World Rows → Option (Run Rows ℕ)) → Run Rows ScanTickResult → Option (Run Rows ℕ)
  after_tick total next (err thrown, w) = some (err thrown, w)
  after_tick total next (ok result, w) =
      if result.caught_up
      then some (ok (total + result.scanned), w)
      else next (total + result.scanned) w

  -- `none` where the fuel, a round for each, is not enough.
  unfoldable pub backfill : ℕ → ℕ → ℕ → World Rows → Option (Run Rows ℕ)
  backfill zero round total w = none
  backfill (suc fuel) round total w =
      let rest = after_tick total (backfill fuel (suc round)) (tick options (env round) w) in
      if stopping round then some (ok total, w) else rest

  -- `tail` goes on after a tick that throws.
  unfoldable pub tail : ℕ → ℕ → World Rows → Option (World Rows)
  tail zero round w = none
  tail (suc fuel) round w =
      let rest = tail fuel (suc round) (tick options (env round) w).1 in
      if stopping round then some w else rest
