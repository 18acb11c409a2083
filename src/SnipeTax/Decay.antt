-- ===== src/SnipeTax/Decay.antt =====
-- The decay inside the window, second by second.
use native.Mathlib.Nat.{
  mul-le-mul_left, zero-div, div-one, one-le-pow, pow-le-pow_right, le-div_iff_mul-le,
  div-lt_iff_lt-mul, div-mul-le_self, div-le_self, le_trans,
}
use stunks.Prelude.{
  ℕ, zero, suc, ◌+◌, ◌*◌, ◌/◌, ◌^◌, ◌≤◌, ◌<◌, ◌≡◌, refl, Bool, false, List, [], ◌∷◌, arith, leb,
  lt→leb_false, if◌then◌else◌,
}
use stunks.Prelude.Int.{pos, ◌-ℤ◌}
use stunks.SnipeTax.{
  requires_simulation, TaxArgs, compute_snipe_tax_bps, ScheduleEntry, schedule_from,
  snipe_tax_schedule,
}

-- The arguments of a buyer who is not exempt, at `e` seconds.
abbrev pub taxed_at : ℕ → ℕ → ℕ → TaxArgs
taxed_at s w e = record {
  start_bps = pos s;
  window_seconds = pos w;
  elapsed_seconds = pos e;
  recipient_exempt = false;
}

abbrev pub tax_at : ℕ → ℕ → ℕ → ℕ
tax_at s w e = if leb w e then 0 else s / 2 ^ (e * 14 / w)

shift-lt : (e w : ℕ) → e < w → e * 14 / w < 14
shift-lt e w h = (div-lt_iff_lt-mul {k = w} (omega arith)).1 (omega arith)

pub compute_snipe_tax_bps-tax_at :
    (s w e : ℕ) → 0 < w → compute_snipe_tax_bps (taxed_at s w e) ≡ pos (tax_at s w e)
unfolding compute_snipe_tax_bps
compute_snipe_tax_bps-tax_at s w e h = ground (arith, shift-lt e w)

div-pow-antitone : (s k k' : ℕ) → k ≤ k' → s / 2 ^ k' ≤ s / 2 ^ k
div-pow-antitone s k k' h =
    let x = s / 2 ^ k' in
    (le-div_iff_mul-le (one-le-pow k 2 (omega arith))).1 (
      le_trans (mul-le-mul_left x (pow-le-pow_right {n = 2} (omega arith) h))
        (div-mul-le_self s (2 ^ k')))

shift_mono : (e e' w : ℕ) → 0 < w → e ≤ e' → e * 14 / w ≤ e' * 14 / w
shift_mono e e' w hw h =
    (le-div_iff_mul-le hw).1 (le_trans (div-mul-le_self (e * 14) w) (omega arith))

tax_at_antitone : (s w e e' : ℕ) → 0 < w → e ≤ e' → tax_at s w e' ≤ tax_at s w e
tax_at_antitone s w e e' hw h =
    ground (arith, div-pow-antitone s (e * 14 / w) (e' * 14 / w) (shift_mono e e' w hw h))

tax_at-le : (s w e : ℕ) → tax_at s w e ≤ s
tax_at-le s w e = ground (arith, div-le_self s (2 ^ (e * 14 / w)))

-- For a buyer who is not exempt, in a window of at least a second, the tax is never above its start,
-- never rises with time, is the whole start at second 0, and is 0 from the end of the window on.
pub compute_snipe_tax_bps_decays :
    (s w e e' : ℕ)
    → 0 < w
    → e ≤ e'
    → (tax tax' : ℕ) × (compute_snipe_tax_bps (taxed_at s w e) ≡ pos tax)
      × (compute_snipe_tax_bps (taxed_at s w e') ≡ pos tax')
      × (tax' ≤ tax)
      × (tax ≤ s)
      × (e ≡ 0 → tax ≡ s)
      × (w ≤ e' → tax' ≡ 0)
compute_snipe_tax_bps_decays s w e e' hw h = (
  tax_at s w e,
  tax_at s w e',
  compute_snipe_tax_bps-tax_at s w e hw,
  compute_snipe_tax_bps-tax_at s w e' hw,
  tax_at_antitone s w e e' hw h,
  tax_at-le s w e,
  λ z. rw (z, lt→leb_false w 0 hw, zero-div w) (div-one s),
  λ over. ground arith,
)

-- A start of at least 8192 basis points never decays to 0 inside the window: the shift is at most 13
-- at each of its seconds.
pub compute_snipe_tax_bps_cut_off :
    (s w e : ℕ)
    → 8_192 ≤ s
    → e < w
    → (tax : ℕ) × (compute_snipe_tax_bps (taxed_at s w e) ≡ pos tax) × (0 < tax)
compute_snipe_tax_bps_cut_off s w e big inside =
    let k = e * 14 / w in
    let small : 2 ^ k ≤ 2 ^ 13 =
      pow-le-pow_right {n = 2} (omega arith) {j = 13} (omega (arith, shift-lt e w inside)) in
    let some : 1 ≤ s / 2 ^ k = (le-div_iff_mul-le (one-le-pow k 2 (omega arith))).1 (omega arith) in
    (tax_at s w e, compute_snipe_tax_bps-tax_at s w e (omega arith), ground arith)

-- The entries from `second` on for `rounds` more seconds: each holds the tax of its own second.
abbrev pub IsScheduleFrom : ℕ → ℕ → ℕ → ℕ → List ScheduleEntry → Type 0
IsScheduleFrom s w second zero [] = Unit
IsScheduleFrom s w second zero (x ∷ xs) = ⊥
IsScheduleFrom s w second (suc rounds) [] = ⊥
IsScheduleFrom s w second (suc rounds) (x ∷ xs) =
    (x.elapsed_seconds ≡ pos second)
    × (x.tax_bps ≡ pos (tax_at s w second))
    × IsScheduleFrom s w (second + 1) rounds xs

schedule_from-IsScheduleFrom :
    (s w second rounds : ℕ)
    → 0 < w
    → IsScheduleFrom s w second rounds (schedule_from (pos s) (pos w) second rounds)
unfolding schedule_from
schedule_from-IsScheduleFrom s w second zero h = tt
schedule_from-IsScheduleFrom s w second (suc rounds) h = (
  refl,
  compute_snipe_tax_bps-tax_at s w second h,
  schedule_from-IsScheduleFrom s w (second + 1) rounds h,
)

-- The schedule has an entry for each second from 0 to the end of the window, in order, with the tax
-- of that second.
pub snipe_tax_schedule-IsSchedule :
    (s w : ℕ) → 0 < w → IsScheduleFrom s w 0 (w + 1) (snipe_tax_schedule (pos s) (pos w))
unfolding snipe_tax_schedule
snipe_tax_schedule-IsSchedule s w h = schedule_from-IsScheduleFrom s w 0 (w + 1) h

-- Where a quote may use local math, at a time not before the launch, the buyer's tax is 0.
pub requires_simulation-tax :
    (s w launched now : ℕ) (exempt : Bool)
    → launched ≤ now
    → requires_simulation (pos launched) (pos w) (pos now) exempt ≡ false
    → compute_snipe_tax_bps (record {
      start_bps = pos s;
      window_seconds = pos w;
      elapsed_seconds = pos now -ℤ pos launched;
      recipient_exempt = exempt;
    })
      ≡ pos 0
unfolding requires_simulation compute_snipe_tax_bps
requires_simulation-tax s w launched now exempt h e = ground arith

-- At a time before the launch the two disagree: the tax of a buyer who is not exempt is the whole
-- start, and local math is allowed.
pub requires_simulation_before_launch :
    (s w launched now : ℕ)
    → 0 < w
    → now < launched
    → (requires_simulation (pos launched) (pos w) (pos now) false ≡ false)
      × (compute_snipe_tax_bps (record {
        start_bps = pos s;
        window_seconds = pos w;
        elapsed_seconds = pos now -ℤ pos launched;
        recipient_exempt = false;
      })
          ≡ pos s)
unfolding requires_simulation compute_snipe_tax_bps
requires_simulation_before_launch s w launched now hw h = (ground arith, ground arith)
