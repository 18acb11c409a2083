-- ===== src/Checkpoint/Failures.antt =====
-- The table of failed blocks.
use stunks.Prelude.{
  Option, none, some, Bool-cases, inl, inr, take, ℕ, ◌+◌, ◌≡◌, refl, false, not, ◌&&◌, List, [],
  ◌∷◌, map, arith, ◌==◌, if◌then◌else◌,
}
use stunks.Prelude.Text.{Text, text_eq_refl}
use stunks.Checkpoint.{
  FailedBlock, Tables, is_failure_of, is_through, upsert_failure, record_failed_block, resolve_if,
  count_if, resolve_failed_blocks_through, unresolved_failed_blocks,
}

resolve_through-counts :
    (c b : ℕ) (s : Text) (rows : List FailedBlock)
    → let resolved = map (resolve_if (is_through c s b)) rows in
      let open_through = λ (row : FailedBlock). is_through c s b row && not row.resolved in
      let open_chain = λ (row : FailedBlock). row.chain_id == c && not row.resolved in
      (count_if open_through resolved ≡ 0)
      × (count_if open_through rows + count_if open_chain resolved ≡ count_if open_chain rows)
unfolding count_if resolve_if
resolve_through-counts c b s [] = (refl, refl)
resolve_through-counts c b s (r ∷ rows) = ground (arith, resolve_through-counts c b s rows)

-- Resolving the failures of a stream through a block leaves none of them open, reports how many it
-- closed, and closes no other failure of the chain; doing it again closes none.
pub resolve_failed_blocks_through_closes :
    (db : Tables) (c : ℕ) (s : Text) (b : ℕ)
    → let (closed, db') = resolve_failed_blocks_through db c s b in
      (closed + unresolved_failed_blocks db' c ≡ unresolved_failed_blocks db c)
      × ((resolve_failed_blocks_through db' c s b).0 ≡ 0)
      × (db'.states ≡ db.states)
unfolding resolve_failed_blocks_through unresolved_failed_blocks
resolve_failed_blocks_through_closes db c s b =
    let (none_left, kept) = resolve_through-counts c b s db.failures in (kept, none_left, refl)

-- The row of a failed block.
pub find_failure : ℕ → Text → ℕ → List FailedBlock → Option FailedBlock
find_failure c s b [] = none
find_failure c s b (row ∷ rows) =
    if is_failure_of c s b row then some row else find_failure c s b rows

abbrev pub attempts_of : Option FailedBlock → ℕ
attempts_of none = 0
attempts_of (some row) = row.attempts

find_failure-upsert_failure :
    (c : ℕ) (s : Text) (b : ℕ) (error : Text) (rows : List FailedBlock)
    → (row : FailedBlock) × (find_failure c s b (upsert_failure c s b error rows) ≡ some row)
      × (row.resolved ≡ false)
      × (row.attempts ≡ attempts_of (find_failure c s b rows) + 1)
unfolding find_failure upsert_failure
find_failure-upsert_failure c s b error [] = (
  record {
    chain_id = c;
    stream = s;
    block_number = b;
    attempts = 1;
    last_error = take 1_000 error;
    resolved = false;
  },
  ground (arith, text_eq_refl s),
  refl,
  refl,
)
find_failure-upsert_failure c s b error (r ∷ rows) = elim (Bool-cases (is_failure_of c s b r)) [
  | inl same ↦ (
    record r { attempts = r.attempts + 1; last_error = take 1_000 error; resolved = false },
    ground arith,
    refl,
    ground arith,
  )
  | inr other ↦
      let (row, found, still, more) = find_failure-upsert_failure c s b error rows in
      (row, ground (arith, found), still, ground (arith, more))
]

-- Recording a failed block leaves its row open, with one attempt more than it had, or one for a block
-- that had no row.
pub record_failed_block_opens :
    (db : Tables) (c : ℕ) (s : Text) (b : ℕ) (error : Text)
    → (row : FailedBlock) × (find_failure c s b (record_failed_block db c s b error).failures
        ≡ some row)
      × (row.resolved ≡ false)
      × (row.attempts ≡ attempts_of (find_failure c s b db.failures) + 1)
      × ((record_failed_block db c s b error).states ≡ db.states)
unfolding record_failed_block
record_failed_block_opens db c s b error =
    let (row, found, still, more) = find_failure-upsert_failure c s b error db.failures in
    (row, found, still, more, refl)
