-- ===== src/SnipeTax.antt =====
-- The anti-snipe tax: packages/pons/src/curve/snipe-tax.ts. Times are seconds, rates basis points.
pub mod Decay
use stunks.Prelude.{
  ℕ, zero, suc, ◌+◌, ◌*◌, ◌/◌, ◌^◌, Bool, true, false, ◌&&◌, List, [], ◌∷◌, if◌then◌else◌,
}
use stunks.Prelude.Int.{ℤ, pos, negsuc, ◌-ℤ◌, ◌*ℤ◌, ◌/ℤ◌, ltb_ℤ, leb_ℤ}

abbrev pub shift_steps : ℤ
shift_steps = pos 14

-- `a >> s` on a `bigint`: it rounds down, and a negative `s` shifts to the left.
abbrev pub shift_right : ℤ → ℤ → ℤ
shift_right (pos a) (pos s) = pos (a / 2 ^ s)
shift_right (negsuc a) (pos s) = negsuc (a / 2 ^ s)
shift_right a (negsuc s) = a *ℤ pos (2 ^ (s + 1))

pub record TaxArgs : Type 0 where
  pub start_bps : ℤ
  pub window_seconds : ℤ
  pub elapsed_seconds : ℤ
  pub recipient_exempt : Bool

unfoldable pub compute_snipe_tax_bps : TaxArgs → ℤ
compute_snipe_tax_bps args =
    if recipient_exempt
    then pos 0
    else if leb_ℤ window_seconds (pos 0)
    then pos 0
    else if ltb_ℤ elapsed_seconds (pos 0)
    then start_bps
    else if leb_ℤ window_seconds elapsed_seconds
    then pos 0
    else let shift = elapsed_seconds *ℤ shift_steps /ℤ window_seconds in
      if leb_ℤ (pos 256) shift then pos 0 else shift_right start_bps shift
  where
    open args use {start_bps, window_seconds, elapsed_seconds, recipient_exempt}

unfoldable pub is_within_snipe_window : ℤ → ℤ → ℤ → Bool
is_within_snipe_window launched_at window_seconds now_seconds =
    let elapsed = now_seconds -ℤ launched_at in
    leb_ℤ (pos 0) elapsed && ltb_ℤ elapsed window_seconds

unfoldable pub requires_simulation : ℤ → ℤ → ℤ → Bool → Bool
unfolding is_within_snipe_window
requires_simulation launched_at window_seconds now_seconds recipient_exempt =
    if recipient_exempt
    then false
    else is_within_snipe_window launched_at window_seconds now_seconds

pub record ScheduleEntry : Type 0 where
  pub elapsed_seconds : ℤ
  pub tax_bps : ℤ

-- The loop `for (second = 0n; second <= windowSeconds; second++)` with `rounds` rounds to go.
unfoldable pub schedule_from : ℤ → ℤ → ℕ → ℕ → List ScheduleEntry
schedule_from start_bps window_seconds second zero = []
schedule_from start_bps window_seconds second (suc rounds) =
    record {
      elapsed_seconds = pos second;
      tax_bps = compute_snipe_tax_bps (record {
        start_bps = start_bps;
        window_seconds = window_seconds;
        elapsed_seconds = pos second;
        recipient_exempt = false;
      });
    }
    ∷ schedule_from start_bps window_seconds (second + 1) rounds

-- The loop makes `windowSeconds + 1` rounds, and none for a negative window.
unfoldable pub snipe_tax_schedule : ℤ → ℤ → List ScheduleEntry
unfolding schedule_from
snipe_tax_schedule start_bps (pos w) = schedule_from start_bps (pos w) 0 (w + 1)
snipe_tax_schedule start_bps (negsuc w) = []
