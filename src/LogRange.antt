-- ===== src/LogRange.antt =====
-- Log-range splitting and the adaptive window: packages/web3/src/log-range.ts. Block numbers and
-- spans are `bigint`s that are never negative, so they are naturals.
pub mod Split
pub mod Window
use stunks.Prelude.{
  ℕ, zero, suc, ◌+◌, ◌-◌, ◌/◌, Bool, true, false, ◌&&◌, ◌||◌, Option, none, some, List, [], ◌∷◌,
  Result, ok, err, ltb, leb, ◌==◌, if◌then◌else◌,
}
use mathlib.Core.Option
use stunks.Prelude.Int.{ℤ, pos, ◌+ℤ◌, ◌-ℤ◌}

pub record BlockRange : Type 0 where
  pub from_block : ℕ
  pub to_block : ℕ

unfoldable pub range_size : BlockRange → ℤ
range_size range = pos range.to_block -ℤ pos range.from_block +ℤ pos 1

-- The two `throw`s, and the model's fuel running out.
pub data RangeFault : Type 0 where
  max_span_not_positive inverted_range out_of_fuel : RangeFault

-- The `while` loop from `cursor` on. `maxSpan` is positive there, so the subtraction is exact.
unfoldable pub windows_from : ℕ → ℕ → ℕ → ℕ → Option (List BlockRange)
windows_from zero cursor to_block max_span = none
windows_from (suc fuel) cursor to_block max_span =
    let last = cursor + max_span - 1 in
    let window : BlockRange = record {
      from_block = cursor;
      to_block = if ltb to_block last then to_block else last;
    } in
    let rest = windows_from fuel (last + 1) to_block max_span in
    if leb cursor to_block then Option.map (window ∷◌) rest else some []

abbrev finished : Option (List BlockRange) → Result RangeFault (List BlockRange)
finished none = err out_of_fuel
finished (some ws) = ok ws

-- A window holds a block at least, so the blocks of the range and one more round are fuel enough.
unfoldable pub split_block_range : ℕ → ℕ → ℕ → Result RangeFault (List BlockRange)
unfolding windows_from
split_block_range from_block to_block max_span =
    if max_span == 0
    then err max_span_not_positive
    else if ltb to_block from_block
    then err inverted_range
    else finished (windows_from (to_block - from_block + 2) from_block to_block max_span)

abbrev pub ceiling_reprobe_interval : ℕ
ceiling_reprobe_interval = 200

pub record AdaptiveLogWindow : Type 0 where
  pub span : ℕ
  pub last_good : ℕ
  pub ceiling : Option ℕ
  pub successes_at_settled : ℕ
  pub min_span : ℕ
  pub max_span : ℕ

-- The constructor; `none` where it throws.
unfoldable pub new_window : ℕ → ℕ → ℕ → Option AdaptiveLogWindow
new_window initial_span min_span max_span =
    if initial_span == 0
    then none
    else some (record {
      span = initial_span;
      last_good = 0;
      ceiling = none;
      successes_at_settled = 0;
      min_span = min_span;
      max_span = max_span;
    })

unfoldable pub settled_at : Option ℕ → ℕ → Bool
settled_at none last_good = false
settled_at (some c) last_good = leb c (last_good + 1)

unfoldable pub settled : AdaptiveLogWindow → Bool
unfolding settled_at
settled w = settled_at w.ceiling w.last_good

unfoldable pub clamp : AdaptiveLogWindow → ℕ → ℕ
clamp w value =
    if ltb value w.min_span then w.min_span else if ltb w.max_span value then w.max_span else value

-- `ceiling === null || span < ceiling ? span : ceiling`
abbrev pub lowered : Option ℕ → ℕ → ℕ
lowered none span = span
lowered (some c) span = if ltb span c then span else c

unfoldable pub on_rejected : AdaptiveLogWindow → AdaptiveLogWindow
unfolding clamp
on_rejected w =
    let c = lowered w.ceiling w.span in
    record w { ceiling = some c; successes_at_settled = 0; span = clamp w ((w.last_good + c) / 2) }

-- `onSuccess` from the test of the ceiling on, with the ceiling that is left after the reset.
unfoldable pub after_reset : AdaptiveLogWindow → Option ℕ → AdaptiveLogWindow
unfolding clamp
after_reset w none = record w { span = clamp w (w.span + w.span / 4 + 1) }
after_reset w (some c) =
    if ltb (w.last_good + 1) c
    then record w { span = clamp w ((w.last_good + c) / 2) }
    else if leb ceiling_reprobe_interval (w.successes_at_settled + 1)
    then record w { successes_at_settled = 0; span = clamp w c }
    else record w { successes_at_settled = w.successes_at_settled + 1; span = clamp w w.last_good }

-- Whether the span that succeeded is at or above the remembered bound.
abbrev pub refutes : ℕ → Option ℕ → Bool
refutes span none = false
refutes span (some c) = leb c span

unfoldable pub on_success : AdaptiveLogWindow → AdaptiveLogWindow
unfolding after_reset
on_success w =
    let good = record w { last_good = if ltb w.last_good w.span then w.span else w.last_good } in
    let reset =
      if refutes w.span w.ceiling
      then record good { ceiling = none; successes_at_settled = 0 }
      else good in
    after_reset reset reset.ceiling
