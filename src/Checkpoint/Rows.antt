-- ===== src/Checkpoint/Rows.antt =====
-- The row of a key after an update, and the rows of the other keys.
use stunks.Prelude.{ℕ, ◌≡◌, refl, List, [], ◌∷◌, arith}
use mathlib.Core.Option
use stunks.Prelude.Text.{Text, text_eq→≡}
use stunks.Checkpoint.{CheckpointState, find_unique, update_row}

-- A change that keeps a row's key.
pub record KeepsKey (change : CheckpointState → CheckpointState) : Type 0 where
  pub keeps_chain : (row : CheckpointState) → (change row).chain_id ≡ row.chain_id
  pub keeps_stream : (row : CheckpointState) → (change row).stream ≡ row.stream

module _ (c : ℕ) (s : Text) (change : CheckpointState → CheckpointState) (k : KeepsKey change) where
  pub find_unique-update_row :
      (rows : List CheckpointState)
      → find_unique c s (update_row c s change rows) ≡ Option.map change (find_unique c s rows)
  unfolding find_unique update_row
  find_unique-update_row [] = refl
  find_unique-update_row (r ∷ rows) =
      ground (arith, find_unique-update_row rows, k.keeps_chain r, k.keeps_stream r)

  -- Another key than the one updated.
  pub find_unique-update_row_ne :
      (c' : ℕ) (s' : Text) (rows : List CheckpointState)
      → ((c ≡ c') → (s ≡ s') → ⊥)
      → find_unique c' s' (update_row c s change rows) ≡ find_unique c' s' rows
  unfolding find_unique update_row
  find_unique-update_row_ne c' s' [] ne = refl
  find_unique-update_row_ne c' s' (r ∷ rows) ne = ground (
    arith,
    find_unique-update_row_ne c' s' rows ne,
    k.keeps_chain r,
    k.keeps_stream r,
    text_eq→≡ r.stream s,
    text_eq→≡ r.stream s',
  )
