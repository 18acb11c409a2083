-- ===== src/Reorg/Lineage.antt =====
-- What the reorg checks decide.
use stunks.Prelude.{
  ℕ, ◌+◌, ◌-◌, ◌<◌, ◌≡◌, ◌↔◌, ◌⊎◌, true, false, Option, none, some, List, [], ◌∷◌, arith,
}
use stunks.Prelude.Text.{Text}
use stunks.Reorg.{
  reorg, same_hash, check_for_reorg, safe_head, Block, unbroken, broken_at, lineage_after,
  verify_lineage,
}

-- Every block's parent is the block before it.
abbrev pub IsLinkedAfter : Block → List Block → Type 0
IsLinkedAfter p [] = Unit
IsLinkedAfter p (b ∷ bs) = (same_hash b.parent_hash p.hash ≡ true) × IsLinkedAfter b bs

abbrev pub IsLinked : List Block → Type 0
IsLinked [] = Unit
IsLinked (b ∷ bs) = IsLinkedAfter b bs

-- The blocks are linked up to a block whose parent is not the one before it, and whose number is `n`.
abbrev pub BreaksAfter : Block → List Block → ℕ → Type 0
BreaksAfter p [] n = ⊥
BreaksAfter p (b ∷ bs) n =
    ((same_hash b.parent_hash p.hash ≡ false) × (b.number ≡ n))
    ⊎ ((same_hash b.parent_hash p.hash ≡ true) × BreaksAfter b bs n)

abbrev pub Breaks : List Block → ℕ → Type 0
Breaks [] n = ⊥
Breaks (b ∷ bs) n = BreaksAfter b bs n

lineage_after_lem :
    (p : Block) (bs : List Block) (n : ℕ)
    → ((lineage_after p bs ≡ unbroken) ↔ IsLinkedAfter p bs)
      × ((lineage_after p bs ≡ broken_at n) ↔ BreaksAfter p bs n)
unfolding lineage_after
lineage_after_lem p [] n = ground arith
lineage_after_lem p (b ∷ bs) n = ground (arith, lineage_after_lem b bs n)

-- `verifyLineage` accepts exactly the batches in which every block's parent is the block before it,
-- and otherwise reports exactly the first block at which that fails.
pub verify_lineage_decides :
    (blocks : List Block) (n : ℕ)
    → ((verify_lineage blocks ≡ unbroken) ↔ IsLinked blocks)
      × ((verify_lineage blocks ≡ broken_at n) ↔ Breaks blocks n)
unfolding verify_lineage
verify_lineage_decides [] n = ground arith
verify_lineage_decides (b ∷ bs) n = lineage_after_lem b bs n

-- A verdict of a reorg is given exactly for a recorded hash that differs from the current one by more
-- than case; it rolls back by the whole depth, or to block 0 where there are fewer blocks.
pub check_for_reorg_verdict :
    (recorded : Option Text) (block depth : ℕ) (current h c : Text) (target : ℕ)
    → (check_for_reorg recorded block current depth ≡ reorg target h c)
      ↔ ((recorded ≡ some h) × (current ≡ c) × (same_hash h c ≡ false) × (target ≡ block - depth))
unfolding check_for_reorg
check_for_reorg_verdict none block depth current h c target = ground arith
check_for_reorg_verdict (some r) block depth current h c target = ground arith

-- The safe head is exactly `depth` blocks below the head, and there is none before the head has
-- passed the depth.
pub safe_head_iff :
    (head depth safe : ℕ)
    → (safe_head head depth ≡ some safe) ↔ ((depth < head) × (safe + depth ≡ head))
unfolding safe_head
safe_head_iff head depth safe = ground arith
