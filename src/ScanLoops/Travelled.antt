-- ===== src/ScanLoops/Travelled.antt =====
-- Where the loops of the scanner leave its checkpoint.
use native.Mathlib.Nat.{add-zero}
use stunks.Prelude.{
  ℕ, zero, suc, ◌+◌, ◌≡◌, refl, sym, ap, ◌∙◌, inl, inr, Bool, true, Option, some, ok, err, arith,
  Bool-cases,
}
use stunks.Checkpoint.{CheckpointState, find_unique, get_or_create}
use stunks.ScanState.{World, ScannerOptions, TickEnv, ScanTickResult, Run}
use stunks.Scanner.{tick}
use stunks.Scanner.Effects.{key_row}
use stunks.Scanner.Move.{Move}
use stunks.Scanner.Progress.{first_row, tick_moves}
use stunks.ScanLoops.{after_tick, backfill, tail}

module _ {Rows Log : Type 0} (options : ScannerOptions Rows) (env : ℕ → TickEnv Log Rows) where
  -- From the round `n` on, a row goes to another by the moves of one tick after another.
  pub data Travels : ℕ → CheckpointState → CheckpointState → Type 0 where
    rests : {n : ℕ} {row last : CheckpointState} → row ≡ last → Travels n row last
    moves :
        {n : ℕ} {row last : CheckpointState} (mid : CheckpointState)
        → Move options (env n) row mid
        → Travels (suc n) mid last
        → Travels n row last

  -- The world has a row of the stream, at which the travels from `row` end.
  abbrev pub Arrives : ℕ → CheckpointState → World Rows → Type 0
  Arrives n row w =
      (last : CheckpointState) × (key_row options (env n) w ≡ some last) × Travels n row last

  first_row-key_row :
      (n : ℕ) (w : World Rows) (row : CheckpointState)
      → key_row options (env n) w ≡ some row
      → first_row options (env n) w ≡ row
  unfolding get_or_create find_unique
  first_row-key_row n w row e = ground arith

  tick-Move :
      (n : ℕ) (w : World Rows) (row : CheckpointState)
      → key_row options (env n) w ≡ some row
      → (mid : CheckpointState) × (key_row options (env n) (tick options (env n) w).1 ≡ some mid)
        × Move options (env n) row mid
  tick-Move n w row e = rw (first_row-key_row n w row e) at (tick_moves options (env n) w)

  module _ (stopping : ℕ → Bool) where
    tail-Arrives :
        (k n : ℕ) (w : World Rows) (row : CheckpointState)
        → key_row options (env n) w ≡ some row
        → stopping (n + k) ≡ true
        → (w' : World Rows) × (tail options env stopping (suc k) n w ≡ some w') × Arrives n row w'
    unfolding tail
    tail-Arrives zero n w row e stop =
        (w, rw (ap stopping (sym (add-zero n)) ∙ stop) refl, (row, e, rests refl))
    tail-Arrives (suc k) n w row e stop = elim (Bool-cases (stopping n)) [
      | inl now ↦ (w, rw now refl, (row, e, rests refl))
      | inr later ↦
          let (mid, at_mid, move) = tick-Move n w row e in
          let (w', ends, (last, at_last, travels)) =
            tail-Arrives k (suc n) (tick options (env n) w).1 mid at_mid
              (ap stopping (omega arith) ∙ stop) in
          (w', rw later ends, (last, at_last, moves mid move travels))
    ]

    -- What a tick of `backfill` leaves is where it arrives, or where the next round begins.
    after_tick-Arrives :
        (n total : ℕ) (next : ℕ → World Rows → Option (Run Rows ℕ)) (row mid : CheckpointState)
        (run : Run Rows ScanTickResult)
        → key_row options (env n) run.1 ≡ some mid
        → Move options (env n) row mid
        → ((sum : ℕ) → (end : Run Rows ℕ) × (next sum run.1 ≡ some end) × Arrives (suc n) mid end.1)
        → (end : Run Rows ℕ) × (after_tick options env stopping total next run ≡ some end)
          × Arrives n row end.1
    after_tick-Arrives n total next row mid (err thrown, w) at_mid move go =
        ((err thrown, w), refl, (mid, at_mid, moves mid move (rests refl)))
    after_tick-Arrives n total next row mid (ok result, w) at_mid move go =
        elim (Bool-cases result.caught_up) [
          | inl done ↦ (
            (ok (total + result.scanned), w),
            rw done refl,
            (mid, at_mid, moves mid move (rests refl)),
          )
          | inr more ↦
              let (end, ends, (last, at_last, travels)) = go (total + result.scanned) in
              (end, rw more ends, (last, at_last, moves mid move travels))
        ]

    backfill-Arrives :
        (k n total : ℕ) (w : World Rows) (row : CheckpointState)
        → key_row options (env n) w ≡ some row
        → stopping (n + k) ≡ true
        → (end : Run Rows ℕ) × (backfill options env stopping (suc k) n total w ≡ some end)
          × Arrives n row end.1
    unfolding backfill
    backfill-Arrives zero n total w row e stop =
        ((ok total, w), rw (ap stopping (sym (add-zero n)) ∙ stop) refl, (row, e, rests refl))
    backfill-Arrives (suc k) n total w row e stop = elim (Bool-cases (stopping n)) [
      | inl now ↦ ((ok total, w), rw now refl, (row, e, rests refl))
      | inr later ↦
          let (mid, at_mid, move) = tick-Move n w row e in
          rw later (
            after_tick-Arrives n total (backfill options env stopping (suc k) (suc n)) row mid
              (tick options (env n) w) at_mid move
              (λ sum.
                backfill-Arrives k (suc n) sum (tick options (env n) w).1 mid at_mid
                  (ap stopping (omega arith) ∙ stop)))
    ]

    -- A scanner with a checkpoint that is told to stop by round `k` ends both loops within that many
    -- rounds, whatever the outside answers and whether ticks throw. Each leaves a row for the stream, to
    -- which the first one came by the moves of its ticks, one after another.
    pub loops-Arrives :
        (k : ℕ) (w : World Rows) (row : CheckpointState)
        → key_row options (env 0) w ≡ some row
        → stopping k ≡ true
        → ((end : Run Rows ℕ) × (backfill options env stopping (suc k) 0 0 w ≡ some end)
            × Arrives 0 row end.1)
          × ((w' : World Rows) × (tail options env stopping (suc k) 0 w ≡ some w')
              × Arrives 0 row w')
    loops-Arrives k w row e stop = (
      backfill-Arrives k 0 0 w row e (ap stopping (omega arith) ∙ stop),
      tail-Arrives k 0 w row e (ap stopping (omega arith) ∙ stop),
    )
