-- ===== src/LogRange/Split.antt =====
-- The windows of `splitBlockRange`.
use native.Mathlib.Decide.{dec_le}
use stunks.Prelude.{
  ℕ, zero, suc, ◌+◌, ◌-◌, ◌*◌, ◌≤◌, ◌<◌, ◌≡◌, refl, some, List, [], ◌∷◌, ok, arith, ltb, length,
  min, if◌then◌else◌, lt→leb_false, le→leb,
}
use stunks.LogRange.{BlockRange, windows_from, split_block_range}

-- The windows follow one another from `cursor` to `last` with no gap and no overlap, and none is empty
-- or longer than `span`.
abbrev pub Tiles : ℕ → ℕ → ℕ → List BlockRange → Type 0
Tiles cursor last span [] = cursor ≡ last + 1
Tiles cursor last span (w ∷ ws) =
    (w.from_block ≡ cursor)
    × (cursor ≤ w.to_block)
    × (w.to_block ≤ last)
    × (w.to_block < cursor + span)
    × Tiles (w.to_block + 1) last span ws

abbrev Covers : ℕ → ℕ → ℕ → ℕ → Type 0
Covers fuel cursor last span =
    (ws : List BlockRange) × (windows_from fuel cursor last span ≡ some ws)
    × Tiles (min cursor (last + 1)) last span ws
    × (length ws * span ≤ (last + 1 - cursor) + (span - 1))

windows_from-done :
    (fuel cursor last span : ℕ) → last < cursor → windows_from (suc fuel) cursor last span ≡ some []
unfolding windows_from
windows_from-done fuel cursor last span h = rw (lt→leb_false cursor last h)

abbrev window_end : ℕ → ℕ → ℕ → ℕ
window_end cursor last span = if ltb last (cursor + span - 1) then last else cursor + span - 1

no_window : (k span : ℕ) → k * span ≤ span - 1 → 0 < span → k ≡ 0
no_window zero span h hs = refl
no_window (suc k) span h hs = absurd (omega arith)

windows_from-step :
    (fuel cursor last span : ℕ)
    → 0 < span
    → cursor ≤ last
    → Covers fuel (cursor + span - 1 + 1) last span
    → Covers (suc fuel) cursor last span
unfolding windows_from
windows_from-step fuel cursor last span hs inside (ws, e, tiles, count) =
    let end = window_end cursor last span in
    let next : min (cursor + span - 1 + 1) (last + 1) ≡ end + 1 = ground arith in
    (
      record { from_block = cursor; to_block = end } ∷ ws,
      rw (le→leb cursor last inside, e),
      (omega arith, ground arith, ground arith, ground arith, rw next at tiles),
      scaled_count,
    )
  where
    scaled_count : suc (length ws) * span ≤ last + 1 - cursor + (span - 1)
    scaled_count = elim (dec_le (cursor + span) (last + 1)) [
      | yes whole ↦ omega (arith, count)
      | no short ↦ rw (no_window (length ws) span (omega (arith, count)) hs) (omega arith)
    ]

windows_from-Covers :
    (fuel cursor last span : ℕ)
    → 0 < span
    → last + 2 ≤ cursor + fuel
    → 0 < fuel
    → Covers fuel cursor last span
windows_from-Covers zero cursor last span hs hf hp = absurd (omega arith)
windows_from-Covers (suc fuel) cursor last span hs hf hp = elim (dec_le cursor last) [
  | no over ↦ ([], windows_from-done fuel cursor last span (omega arith), omega arith, omega arith)
  | yes inside ↦
      windows_from-step fuel cursor last span hs inside
        (windows_from-Covers fuel (cursor + span - 1 + 1) last span hs (omega arith) (omega arith))
]

-- With a positive span and a range that is not inverted, `splitBlockRange` answers; its windows cover
-- the range exactly, in order, none longer than the span, and there are as few as that allows.
pub split_block_range-Tiles :
    (from last span : ℕ)
    → 0 < span
    → from ≤ last
    → (ws : List BlockRange) × (split_block_range from last span ≡ ok ws)
      × Tiles from last span ws
      × (length ws * span ≤ last - from + span)
unfolding split_block_range
split_block_range-Tiles from last span hs h =
    let (ws, e, tiles, count) =
      windows_from-Covers (last - from + 2) from last span hs (omega arith) (omega arith) in
    let first : min from (last + 1) ≡ from = omega arith in
    (ws, rw e (ground arith), rw first at tiles, omega arith)
