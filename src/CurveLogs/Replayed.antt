-- ===== src/CurveLogs/Replayed.antt =====
-- Processing a window of logs again.
use stunks.Prelude.{
  ℕ, ◌+◌, ◌-◌, ◌≤◌, ◌≡◌, ap, ◌∙◌, sym, Bool, true, false, Option, none, some, List, [], ◌∷◌, arith,
  length, some-injective,
}
use mathlib.Core.Path.{fun_ext}
use stunks.Prelude.Text.{Text}
use stunks.LogSource.{RawLog}
use stunks.Trades.{
  Trade, Table, Dict, one_more_if, record_trade, record_many, aggregate_for_token, latest_for_token,
}
use stunks.Trades.Replay.{record_many_twice}
use stunks.CurveStream.{TokenStats, Token, Database, ProcessorDeps}
use stunks.StatsRefresh.{stats_from, since}
use stunks.StatsRefresh.Carried.{update_with, asked_only}
use stunks.StatsRefresh.Singly.{fresh, asked-Carries, fresh-updated, updated, refresh_batch_lem}
use stunks.CurveLogs.{
  Gathered, ProcessResult, TokenRef, find_many_by_curves, gather, sync_phases, store_window,
  addresses_of, nothing_yet, then_store, process_curve_logs,
}
use stunks.CurveLogs.Phases.{
  sync_phases_twice, update_with-sync_phases, find_many-update_with, find_by_id-sync_phases,
  find_many-sync_phases, update_with_twice,
}

one_more_if-le : (b : Bool) (m n : ℕ) → m ≤ n → one_more_if b m ≤ n + 1
one_more_if-le true m n h = omega arith
one_more_if-le false m n h = omega arith

record_many-le :
    (inputs : List Trade) (table : Table) → (record_many inputs table).0 ≤ length inputs
unfolding record_many
record_many-le [] table = omega arith
record_many-le (input ∷ inputs) table = omega (
  arith,
  one_more_if-le (record_trade input table).0 (record_many inputs (record_trade input table).1).0
      (length inputs) (record_many-le inputs (record_trade input table).1),
)

-- What is reported of a window that was processed before.
abbrev pub all_known : ProcessResult → ProcessResult
all_known r = record r { trades = 0; duplicates = r.trades + r.duplicates }

module _ (deps : ProcessorDeps) where
  -- The tables after a window, from what was collected of it.
  abbrev recorded : Gathered → Database → Database
  recorded c db = record db { trades = (record_many c.pending db.trades).1 }

  abbrev written : Gathered → Database → Text → Option TokenStats
  written c db = asked_only c.touched (fresh deps (recorded c db))

  abbrev after : Gathered → Database → Database
  after c db = record {
    trades = (record_many c.pending db.trades).1;
    tokens = sync_phases deps c.phase_syncs (update_with (written c db) db.tokens);
  }

  store_window-after : (c : Gathered) (db : Database) → (store_window deps c db).1 ≡ after c db
  unfolding store_window
  store_window-after c db =
      ap (λ (d : Database). record d { tokens = sync_phases deps c.phase_syncs d.tokens })
        (refresh_batch_lem deps c.touched (recorded c db))

  fresh-phases :
      (syncs : List (Text × Text)) (db : Database) (id : Text)
      → fresh deps (record db { tokens = sync_phases deps syncs db.tokens }) id ≡ fresh deps db id
  unfolding fresh
  fresh-phases syncs db id =
      ap
        (λ found.
          stats_from deps found (aggregate_for_token db.trades id none)
            (aggregate_for_token db.trades id (since deps)) (latest_for_token db.trades id))
        (find_by_id-sync_phases deps syncs db.tokens id)

  -- A second refresh writes the stats that the first one wrote.
  written-after : (c : Gathered) (db : Database) → written c (after c db) ≡ written c db
  written-after c db =
      let first = recorded c db in
      let refreshed = updated deps first (written c db) in
      ap (asked_only c.touched) (
        ap (λ p. fresh deps (record (after c db) { trades = p.1 }))
          (record_many_twice c.pending db.trades)
        ∙ fun_ext (fresh-phases c.phase_syncs refreshed)
        ∙ fun_ext (fresh-updated deps first (written c db) (asked-Carries deps first c.touched)))

  tokens_twice :
      (f : Text → Option TokenStats) (syncs : List (Text × Text)) (tokens : List Token)
      → sync_phases deps syncs (update_with f (sync_phases deps syncs (update_with f tokens)))
        ≡ sync_phases deps syncs (update_with f tokens)
  tokens_twice f syncs tokens =
      ap (sync_phases deps syncs) (
        update_with-sync_phases deps f syncs (update_with f tokens)
        ∙ ap (sync_phases deps syncs) (update_with_twice f tokens))
      ∙ sync_phases_twice deps syncs (update_with f tokens)

  after_twice : (c : Gathered) (db : Database) → after c (after c db) ≡ after c db
  after_twice c db =
      ap
        (λ f. record {
          trades = (record_many c.pending (after c db).trades).1;
          tokens = sync_phases deps c.phase_syncs (update_with f (after c db).tokens);
        })
        (written-after c db)
      ∙ ap (λ ts. record { trades = (record_many c.pending (after c db).trades).1; tokens = ts })
          (tokens_twice (written c db) c.phase_syncs db.tokens)
      ∙ ap
          (λ p. record {
            trades = p.1;
            tokens = sync_phases deps c.phase_syncs (update_with (written c db) db.tokens);
          })
          (record_many_twice c.pending db.trades)

  result_twice :
      (c : Gathered) (db : Database)
      → (store_window deps c (after c db)).0 ≡ all_known (store_window deps c db).0
  unfolding store_window
  result_twice c db =
      ap
        (λ (p : ℕ × Table). record {
          trades = p.0;
          duplicates = length c.pending - p.0;
          unmatched = c.unmatched;
          tokens_touched = length c.touched;
        })
        (record_many_twice c.pending db.trades)
      ∙ ap
          (λ n. record {
            trades = 0;
            duplicates = n;
            unmatched = c.unmatched;
            tokens_touched = length c.touched;
          })
          (omega (arith, record_many-le c.pending db.trades))

  store_twice :
      (c : Gathered) (db : Database)
      → store_window deps c (store_window deps c db).1
        ≡ (all_known (store_window deps c db).0, (store_window deps c db).1)
  store_twice c db =
      rw (store_window-after c db)
        (λ i. (result_twice c db i, (store_window-after c (after c db) ∙ after_twice c db) i))

  -- The tokens of the curves are found again.
  find_many-after :
      (c : Gathered) (db : Database) (curves : List Text)
      → find_many_by_curves (after c db).tokens deps.chain_id curves
        ≡ find_many_by_curves db.tokens deps.chain_id curves
  find_many-after c db curves =
      find_many-sync_phases deps c.phase_syncs (update_with (written c db) db.tokens) deps.chain_id
        curves
      ∙ find_many-update_with (written c db) deps.chain_id curves db.tokens

  then_store_twice :
      (made : Option Gathered) (db db' : Database) (r : ProcessResult)
      → then_store deps made db ≡ some (r, db')
      → then_store deps made db' ≡ some (all_known r, db')
  then_store_twice none db db' r h = cc
  then_store_twice (some c) db db' r h = ap some (rw (some-injective h) at (store_twice c db))

  find_many-stored :
      (made : Option Gathered) (db db' : Database) (r : ProcessResult) (curves : List Text)
      → then_store deps made db ≡ some (r, db')
      → find_many_by_curves db'.tokens deps.chain_id curves
        ≡ find_many_by_curves db.tokens deps.chain_id curves
  find_many-stored none db db' r curves h = cc
  find_many-stored (some c) db db' r curves h =
      ap (λ (d : Database). find_many_by_curves d.tokens deps.chain_id curves)
        (sym (ap (λ p. p.1) (some-injective h)) ∙ store_window-after c db)
      ∙ find_many-after c db curves

  -- Where the contracts, the times of blocks and the clock answer the same again: processing a window
  -- of logs that was processed before returns too and leaves both tables exactly as they are, stats and
  -- phases included. It inserts no trade and counts each that it once inserted, or found there, as a
  -- duplicate; the counts of unmatched trades and of touched tokens are the same.
  pub process_curve_logs_twice :
      (logs : List RawLog) (db db' : Database) (r : ProcessResult)
      → process_curve_logs deps logs db ≡ some (r, db')
      → process_curve_logs deps logs db' ≡ some (all_known r, db')
  unfolding process_curve_logs
  process_curve_logs_twice logs db db' r h =
      let curves = addresses_of logs in
      let made = λ (tokens : Dict TokenRef). gather deps tokens logs nothing_yet in
      ap (λ tokens. then_store deps (made tokens) db')
        (find_many-stored (made (find_many_by_curves db.tokens deps.chain_id curves)) db db' r
          curves h)
      ∙ then_store_twice (made (find_many_by_curves db.tokens deps.chain_id curves)) db db' r h
