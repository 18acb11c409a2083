-- ===== src/Reorg.antt =====
-- Reorg detection: apps/indexer/src/reorg.ts. Block numbers and depths are naturals, hashes texts.
pub mod Lineage
use stunks.Prelude.{
  ℕ, ◌-◌, Bool, true, false, Option, none, some, List, [], ◌∷◌, ltb, leb, if◌then◌else◌,
}
use stunks.Prelude.Text.{Text, lower, text_eq}

abbrev pub default_confirmation_depth : ℕ
default_confirmation_depth = 12

pub data ReorgVerdict : Type 0 where
  unchanged : ReorgVerdict
  unverifiable : ReorgVerdict
  reorg : ℕ → Text → Text → ReorgVerdict

-- `a.toLowerCase() === b.toLowerCase()`
abbrev pub same_hash : Text → Text → Bool
same_hash a b = text_eq (lower a) (lower b)

unfoldable pub check_for_reorg : Option Text → ℕ → Text → ℕ → ReorgVerdict
check_for_reorg none recorded_block current_hash rollback_depth = unverifiable
check_for_reorg (some recorded_hash) recorded_block current_hash rollback_depth =
    if same_hash recorded_hash current_hash
    then unchanged
    else reorg (if ltb rollback_depth recorded_block then recorded_block - rollback_depth else 0)
        recorded_hash current_hash

unfoldable pub safe_head : ℕ → ℕ → Option ℕ
safe_head chain_head confirmation_depth =
    if leb chain_head confirmation_depth then none else some (chain_head - confirmation_depth)

pub record Block : Type 0 where
  pub number : ℕ
  pub hash : Text
  pub parent_hash : Text

pub data LineageVerdict : Type 0 where
  unbroken : LineageVerdict
  broken_at : ℕ → LineageVerdict

-- The loop from the block after `previous` on.
unfoldable pub lineage_after : Block → List Block → LineageVerdict
lineage_after previous [] = unbroken
lineage_after previous (current ∷ rest) =
    if same_hash current.parent_hash previous.hash
    then lineage_after current rest
    else broken_at current.number

unfoldable pub verify_lineage : List Block → LineageVerdict
unfolding lineage_after
verify_lineage [] = unbroken
verify_lineage (first ∷ rest) = lineage_after first rest
