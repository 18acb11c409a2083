-- ===== src/IndexerHealth/Ready.antt =====
-- When the indexer is healthy.
use stunks.Prelude.{
  or_false, ℕ, ◌≤◌, ◌≡◌, refl, ◌↔◌, inl, inr, Bool, true, false, not, ◌&&◌, ◌||◌, Option, none,
  some, List, [], ◌∷◌, map, All, arith, ltb, ◌==◌, if◌then◌else◌, any_by, filter_by, Bool-cases,
}
use stunks.Prelude.Text.{text_eq}
use stunks.Prelude.Regex.{codes}
use stunks.Checkpoint.{CheckpointState, Tables, unresolved_failed_blocks}
use stunks.RpcPool.Endpoints.{Averages, RpcPool, RpcPoolOptions}
use stunks.IndexerHealth.{
  healthy, degraded, unscanned_below, stream_report, is_given, has_gap, has_trouble, is_degraded,
  build_health_snapshot,
}

-- A checkpoint that runs without an error, and that does not lie above the start where it is the
-- factory stream's.
abbrev pub IsWell : ℕ → CheckpointState → Type 0
IsWell start_block state =
    (state.is_paused ≡ false)
    × (state.last_error ≡ none)
    × (text_eq state.stream (codes "factory") ≡ true → state.last_processed_block ≤ start_block)

given_none : {A : Type 0} (o : Option A) → (is_given o ≡ false) ↔ (o ≡ none)
given_none none = (λ h. refl, λ h. refl)
given_none (some a) = (λ h. cc, λ h. cc)

unscanned_none :
    (start_block indexed : ℕ)
    → (is_given (unscanned_below start_block indexed) ≡ false) ↔ (indexed ≤ start_block)
unfolding unscanned_below
unscanned_none start_block indexed = elim (Bool-cases (ltb start_block indexed)) [
  | inl e ↦ rw e (λ h. cc, λ h. absurd (ground arith))
  | inr e ↦ rw e (λ h. ground arith, λ h. refl)
]

and_false : (a b : Bool) → ((a && b) ≡ false) ↔ (a ≡ true → b ≡ false)
and_false true b = (λ h _. h, λ h. h refl)
and_false false b = (λ h e. cc, λ h. refl)

report-IsWell :
    (head : Option ℕ) (start_block : ℕ) (state : CheckpointState)
    → ((has_gap (stream_report head start_block state) ≡ false)
        × (has_trouble (stream_report head start_block state) ≡ false))
      ↔ IsWell start_block state
unfolding stream_report
report-IsWell head start_block state =
    let gap =
      and_false (text_eq state.stream (codes "factory"))
        (is_given (unscanned_below start_block state.last_processed_block)) in
    let trouble = or_false state.is_paused (is_given state.last_error) in
    let unscanned = unscanned_none start_block state.last_processed_block in
    let error = given_none state.last_error in
    (
      λ (no_gap, calm).
          let (runs, fine) = trouble.0 calm in
          (runs, error.0 fine, λ named. unscanned.0 (gap.0 no_gap named)),
      λ (runs, fine, low).
          (gap.1 (λ named. unscanned.1 (low named)), trouble.1 (runs, error.1 fine)),
    )

reports-IsWell :
    (head : Option ℕ) (start_block : ℕ) (states : List CheckpointState)
    → ((any_by has_gap (map (stream_report head start_block) states) ≡ false)
        × (any_by has_trouble (map (stream_report head start_block) states) ≡ false))
      ↔ All (IsWell start_block) states
reports-IsWell head start_block [] = (λ h. tt, λ h. (refl, refl))
reports-IsWell head start_block (s ∷ states) =
    let report = stream_report head start_block in
    let gaps = or_false (has_gap (report s)) (any_by has_gap (map report states)) in
    let troubles = or_false (has_trouble (report s)) (any_by has_trouble (map report states)) in
    let one = report-IsWell head start_block s in
    let rest = reports-IsWell head start_block states in
    (
      λ (no_gaps, calm).
          let (g, gs) = gaps.0 no_gaps in
          let (t, ts) = troubles.0 calm in (one.0 (g, t), rest.0 (gs, ts)),
      λ (well, all).
          let (g, t) = one.1 well in
          let (gs, ts) = rest.1 all in (gaps.1 (g, gs), troubles.1 (t, ts)),
    )

or4_false :
    (a b c d : Bool)
    → ((a || b || c || d) ≡ false) ↔ ((a ≡ false) × (b ≡ false) × (c ≡ false) × (d ≡ false))
or4_false a b c d =
    let outer = or_false (a || b || c) d in
    let middle = or_false (a || b) c in
    let inner = or_false a b in
    (
      λ h.
          let (abc, no_d) = outer.0 h in
          let (ab, no_c) = middle.0 abc in
          let (no_a, no_b) = inner.0 ab in (no_a, no_b, no_c, no_d),
      λ (no_a, no_b, no_c, no_d). outer.1 (middle.1 (inner.1 (no_a, no_b), no_c), no_d),
    )

healthy_iff :
    (troubled : Bool) → ((if troubled then degraded else healthy) ≡ healthy) ↔ (troubled ≡ false)
healthy_iff true = (λ h. cc, λ h. cc)
healthy_iff false = (λ h. refl, λ h. refl)

head_known : (head : Option ℕ) → (not (is_given head) ≡ false) ↔ ((block : ℕ) × (head ≡ some block))
head_known none = (λ h. cc, λ (block, h). cc)
head_known (some block) = (λ h. (block, refl), λ h. refl)

none_unresolved : (n : ℕ) → (ltb 0 n ≡ false) ↔ (n ≡ 0)
none_unresolved n = ground arith

-- The snapshot says `ok` exactly where the head of the chain is known, the chain has no unresolved
-- failed blocks, and every checkpoint of the chain is neither paused nor in error, the factory stream's
-- being at or below the configured start. A factory stream above the start thus counts as one with a
-- gap below it, even where it has scanned every block from the start on.
pub build_health_snapshot-IsWell :
    {Average : Type 0} (averages : Averages Average) (options : RpcPoolOptions) (db : Tables)
    (pool : RpcPool Average) (now : ℕ) (head : Option ℕ) (start_block chain_id : ℕ)
    → ((build_health_snapshot averages options db pool now head start_block chain_id).status
        ≡ healthy)
      ↔ (((block : ℕ) × (head ≡ some block))
          × (unresolved_failed_blocks db chain_id ≡ 0)
          × All (IsWell start_block) (filter_by (λ state. state.chain_id == chain_id) db.states))
unfolding build_health_snapshot is_degraded
build_health_snapshot-IsWell averages options db pool now head start_block chain_id =
    let states = filter_by (λ (state : CheckpointState). state.chain_id == chain_id) db.states in
    let reports = map (stream_report head start_block) states in
    let unresolved = unresolved_failed_blocks db chain_id in
    let status = healthy_iff (is_degraded head unresolved reports) in
    let known = head_known head in
    let count = none_unresolved unresolved in
    let well = reports-IsWell head start_block states in
    let all =
      or4_false (not (is_given head)) (ltb 0 unresolved) (any_by has_gap reports)
        (any_by has_trouble reports) in
    (
      λ h. let (a, b, c, d) = all.0 (status.0 h) in (known.0 a, count.0 b, well.0 (c, d)),
      λ (a, b, fine). let (c, d) = well.1 fine in status.1 (all.1 (known.1 a, count.1 b, c, d)),
    )
