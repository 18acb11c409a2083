-- ===== src/Graduation/Progress.antt =====
-- Graduation progress and the phase's encoding.
use native.Mathlib.Nat.{div-lt_iff_lt-mul}
use stunks.Prelude.{ℕ, ◌*◌, ◌/◌, ◌≤◌, ◌<◌, ◌≡◌, ◌↔◌, refl, true, ok, arith, ltb, if◌then◌else◌}
use stunks.Prelude.Int.{ℤ, pos}
use stunks.Money.{ratio_bps}
use stunks.Graduation.{
  GraduationPhase, not_graduated, phase_code, compute_graduation_progress, parse_graduation_phase,
}

ratio_bps-pos : (a b : ℕ) → 0 < b → ratio_bps (pos a) (pos b) ≡ pos (a * 10_000 / b)
unfolding ratio_bps
ratio_bps-pos a b h = ground arith

-- The progress lies between 0 and 10000; it is 10000 exactly when the phase is past `NotGraduated`
-- or the real quote reserve has reached the threshold; and the launch is ready exactly when it has
-- not graduated and nothing is left to sell.
pub compute_graduation_progress_full :
    (quote threshold sellable : ℕ) (phase : GraduationPhase)
    → 0 < threshold
    → let p = compute_graduation_progress (pos quote) (pos threshold) (pos sellable) phase in
      (bps : ℕ) × (p.progress_bps ≡ pos bps)
      × (bps ≤ 10_000)
      × ((bps < 10_000) ↔ ((phase ≡ not_graduated) × (quote < threshold)))
      × ((p.ready_to_graduate ≡ true) ↔ ((phase ≡ not_graduated) × (sellable ≡ 0)))
unfolding compute_graduation_progress
compute_graduation_progress_full quote threshold sellable not_graduated h =
    let r = quote * 10_000 / threshold in
    let reached = div-lt_iff_lt-mul {x = quote * 10_000} {y = 10_000} h in
    (
      if ltb 10_000 r then 10_000 else r,
      rw (ratio_bps-pos quote threshold h) (ground arith),
      ground arith,
      (
        λ below. (refl, below_threshold (reached.0 (ground arith))),
        λ p. lt_capped (reached.1 (scaled p.1)),
      ),
      ground arith,
    )
  where
    below_threshold : quote * 10_000 < 10_000 * threshold → quote < threshold
    below_threshold k = omega arith

    scaled : quote < threshold → quote * 10_000 < 10_000 * threshold
    scaled k = omega arith

    lt_capped :
        quote * 10_000 / threshold < 10_000
        → (if ltb 10_000 (quote * 10_000 / threshold) then 10_000 else quote * 10_000 / threshold)
          < 10_000
    lt_capped k = ground arith
compute_graduation_progress_full quote threshold sellable _ h =
    (10_000, ground arith, ground arith, ground arith, ground arith)

-- Parsing reads back the value of every phase, and accepts no other value.
pub parse_graduation_phase-phase_code :
    (raw : ℤ) (phase : GraduationPhase)
    → (parse_graduation_phase raw ≡ ok phase) ↔ (raw ≡ phase_code phase)
unfolding parse_graduation_phase
parse_graduation_phase-phase_code raw phase = ground arith
