-- ===== src/Trending/Bounds.antt =====
-- Scores are within their scale.
use native.Mathlib.Nat.{mul-le-mul_right, div-mul-le_self, le_of_mul-le-mul_right}
use stunks.Prelude.{
  ℕ, zero, suc, ◌+◌, ◌-◌, ◌*◌, ◌/◌, ◌≤◌, ◌<◌, ◌≡◌, refl, sym, ap, ◌∙◌, inl, inr, Bool, true, false,
  not, List, [], ◌∷◌, ◌++◌, map, All, ok, arith, ltb, if◌then◌else◌, Bool-cases, lt→ltb, ltb→lt,
}
use stunks.Prelude.Int.{ℤ, pos, negsuc, sub_ℕ, sub_ℕ-pos, ◌-ℤ◌, ◌/ℤ◌, ltb_ℤ, leb_ℤ, is_zero}
use stunks.Money.{bigint_max}
use stunks.Trending.{
  Parts, WeightError, total_weight, error_if, sign_error, validate_weights, negative_weight,
  TrendingInput, TrendingComponent, TrendingScore, growth_bps, buy_pressure_bps, normalise,
  component, raw_of, max_parts, components_of, weighted, score_of, score_trending,
}

abbrev pub IsNatural : ℤ → Type 0
IsNatural z = (n : ℕ) × (z ≡ pos n)

-- From 0 to 10000.
abbrev pub IsBps : ℤ → Type 0
IsBps z = (n : ℕ) × (z ≡ pos n) × (n ≤ 10_000)

if-IsNatural : (b : Bool) {x y : ℤ} → IsNatural x → IsNatural y → IsNatural (if b then x else y)
if-IsNatural true p q = p
if-IsNatural false p q = q

growth_bps-IsNatural : (recent prior : ℤ) → IsNatural (growth_bps recent prior)
unfolding growth_bps
growth_bps-IsNatural (negsuc r) prior = (0, refl)
growth_bps-IsNatural (pos r) (negsuc p) =
    if-IsNatural (leb_ℤ (pos r) (pos 0)) (0, refl) (10_000, refl)
growth_bps-IsNatural (pos r) (pos zero) =
    if-IsNatural (leb_ℤ (pos r) (pos 0)) (0, refl) (10_000, refl)
growth_bps-IsNatural (pos r) (pos (suc p)) = elim (Bool-cases (ltb (suc p) r)) [
  | inl h ↦
      let n = (r - suc p) * 10_000 / suc p in
      if-IsNatural (leb_ℤ (pos r) (pos 0)) (0, refl)
        (rw
          (
            h,
            sub_ℕ-pos r (suc p) (omega (arith, ltb→lt (suc p) r h)),
            lt→ltb 0 (suc p) (omega arith),
          )
          (if-IsNatural (ltb 10_000 n) (10_000, refl) (n, refl)))
  | inr h ↦
      if-IsNatural (leb_ℤ (pos r) (pos 0)) (0, refl)
        (rw (h, lt→ltb 0 (suc p) (omega arith)) (0, refl))
]

ratio_bound : (v m : ℕ) → v < m → v * 10_000 / m ≤ 10_000
ratio_bound v m h =
    le_of_mul-le-mul_right {k = m} (omega (arith, div-mul-le_self (v * 10_000) m)) (omega arith)

normalise-IsBps : (v : ℕ) (most : ℤ) → IsBps (normalise (pos v) most)
unfolding normalise
normalise-IsBps v (negsuc m) = (0, refl, omega arith)
normalise-IsBps v (pos zero) = (0, refl, omega arith)
normalise-IsBps v (pos (suc m)) = elim (Bool-cases (ltb v (suc m))) [
  | inl h ↦ (
    v * 10_000 / suc m,
    rw (h, lt→ltb 0 (suc m) (omega arith)) refl,
    ratio_bound v (suc m) (ltb→lt v (suc m) h),
  )
  | inr h ↦ (10_000, rw (h, lt→ltb 0 (suc m) (omega arith)) refl, omega arith)
]

error_if-none :
    (b : Bool) (e : WeightError) (rest : List WeightError)
    → error_if b e ++ rest ≡ []
    → (b ≡ false) × (rest ≡ [])
error_if-none false e rest h = (refl, h)
error_if-none true e rest h = ground arith

not_negative : (w : ℤ) → ltb_ℤ w (pos 0) ≡ false → IsNatural w
not_negative (pos n) h = (n, refl)
not_negative (negsuc n) h = ground arith

weight_pos :
    (w : ℤ) (rest : List WeightError) → sign_error w ++ rest ≡ [] → IsNatural w × (rest ≡ [])
weight_pos w rest h =
    let (b, r) = error_if-none (ltb_ℤ w (pos 0)) negative_weight rest h in (not_negative w b, r)

-- No weight is negative, and they add up to 100.
abbrev pub AreWeights : Parts ℤ → Type 0
AreWeights w =
    (a b c d e : ℕ) × (w.volume_acceleration ≡ pos a)
    × (w.unique_traders ≡ pos b)
    × (w.trade_activity ≡ pos c)
    × (w.buy_pressure ≡ pos d)
    × (w.market_cap_growth ≡ pos e)
    × (a + b + c + d + e ≡ 100)

sum_lem : (n : ℕ) → not (is_zero (sub_ℕ n 100)) ≡ false → n ≡ 100
sum_lem n h = ground arith

total_weight-pos :
    (w : Parts ℤ) {a b c d e : ℕ}
    → w.volume_acceleration ≡ pos a
    → w.unique_traders ≡ pos b
    → w.trade_activity ≡ pos c
    → w.buy_pressure ≡ pos d
    → w.market_cap_growth ≡ pos e
    → total_weight w ≡ pos (a + b + c + d + e)
total_weight-pos w p q r s t = rw (p, q, r, s, t) refl

validate_weights-AreWeights : (w : Parts ℤ) → validate_weights w ≡ [] → AreWeights w
unfolding validate_weights
validate_weights-AreWeights w h =
    let (total, h1) = error_if-none _ _ _ h in
    let ((a, p), h2) = weight_pos w.volume_acceleration _ h1 in
    let ((b, q), h3) = weight_pos w.unique_traders _ h2 in
    let ((c, r), h4) = weight_pos w.trade_activity _ h3 in
    let ((d, s), h5) = weight_pos w.buy_pressure _ h4 in
    let ((e, t), _) = weight_pos w.market_cap_growth [] (ap (λ xs. xs ++ []) h5) in
    (
      a,
      b,
      c,
      d,
      e,
      p,
      q,
      r,
      s,
      t,
      sum_lem (a + b + c + d + e)
          (ap (λ z. not (is_zero (z -ℤ pos 100))) (sym (total_weight-pos w p q r s t)) ∙ total),
    )

bounded_sum :
    (a b c d e n m k l o : ℕ)
    → a + b + c + d + e ≡ 100
    → n ≤ 10_000
    → m ≤ 10_000
    → k ≤ 10_000
    → l ≤ 10_000
    → o ≤ 10_000
    → (n * a + m * b + k * c + l * d + o * e) / 100 ≤ 10_000
bounded_sum a b c d e n m k l o total p q r s t = omega (
  arith,
  mul-le-mul_right a p,
  mul-le-mul_right b q,
  mul-le-mul_right c r,
  mul-le-mul_right d s,
  mul-le-mul_right e t,
)

abbrev ArePartsBps : Parts TrendingComponent → Type 0
ArePartsBps c =
    IsBps (c.volume_acceleration.normalised_bps)
    × IsBps (c.unique_traders.normalised_bps)
    × IsBps (c.trade_activity.normalised_bps)
    × IsBps (c.buy_pressure.normalised_bps)
    × IsBps (c.market_cap_growth.normalised_bps)

weighted-IsBps :
    (c : Parts TrendingComponent) (w : Parts ℤ)
    → ArePartsBps c
    → AreWeights w
    → IsBps (weighted c w /ℤ pos 100)
unfolding weighted
weighted-IsBps c w ((n, p, p'), (m, q, q'), (k, r, r'), (l, s, s'), (o, t, t'))
      (a, b, c', d, e, u, v, x, y, z, total) =
    (
      (n * a + m * b + k * c' + l * d + o * e) / 100,
      rw (p, q, r, s, t, u, v, x, y, z) refl,
      bounded_sum a b c' d e n m k l o total p' q' r' s' t',
    )

at_least_none : (x : ℤ) → IsNatural (bigint_max (pos 0) x)
unfolding bigint_max
at_least_none (pos n) = if-IsNatural (ltb_ℤ (pos n) (pos 0)) (0, refl) (n, refl)
at_least_none (negsuc n) = (0, refl)

buy_pressure_bps-IsNatural : (b s : ℕ) → IsNatural (buy_pressure_bps (pos b) (pos s))
unfolding buy_pressure_bps
buy_pressure_bps-IsNatural b s =
    if-IsNatural (leb_ℤ (pos (b + s)) (pos 0)) (0, refl)
      (if-IsNatural (leb_ℤ (pos (b + s)) (pos 0)) (0, refl) (b * 10_000 / (b + s), refl))

normalised : (x most : ℤ) → IsNatural x → IsBps (normalise x most)
normalised x most (n, p) = rw (p) (normalise-IsBps n most)

-- What was bought and sold is no negative amount.
abbrev pub HasVolumes : TrendingInput → Type 0
HasVolumes input = IsNatural input.buy_volume × IsNatural input.sell_volume

score_of-IsBps :
    (most w : Parts ℤ) (input : TrendingInput)
    → AreWeights w
    → HasVolumes input
    → IsBps ((score_of most w input).score_bps)
unfolding score_of raw_of components_of component
score_of-IsBps most w input weights ((b, p), (s, q)) =
    weighted-IsBps (components_of (raw_of input) most w) w
      (
        normalised _ most.volume_acceleration
            (growth_bps-IsNatural input.recent_volume input.prior_volume),
        normalised _ most.unique_traders (at_least_none input.unique_traders),
        normalised _ most.trade_activity (at_least_none input.trade_count),
        normalised (buy_pressure_bps input.buy_volume input.sell_volume) most.buy_pressure
            (rw (p, q) (buy_pressure_bps-IsNatural b s)),
        normalised _ most.market_cap_growth
            (growth_bps-IsNatural input.market_cap input.prior_market_cap),
      )
      weights

scores_lem :
    (most w : Parts ℤ) (inputs : List TrendingInput)
    → AreWeights w
    → All HasVolumes inputs
    → (map (λ (s : TrendingScore). s.token_id) (map (score_of most w) inputs)
        ≡ map (λ (i : TrendingInput). i.token_id) inputs)
      × All (λ (s : TrendingScore). IsBps s.score_bps) (map (score_of most w) inputs)
unfolding score_of
scores_lem most w [] weights h = (refl, tt)
scores_lem most w (i ∷ inputs) weights (v, vs) =
    let (ids, bounds) = scores_lem most w inputs weights vs in
    (ap (λ rest. i.token_id ∷ rest) ids, (score_of-IsBps most w i weights v, bounds))

-- With weights that `validateWeights` accepts, and for volumes that are not negative, a cohort is
-- scored: a score for each token, in the order of the cohort, and each from 0 to 10000 basis points.
pub score_trending-IsBps :
    (inputs : List TrendingInput) (w : Parts ℤ)
    → validate_weights w ≡ []
    → All HasVolumes inputs
    → (scores : List TrendingScore) × (score_trending inputs w ≡ ok scores)
      × (map (λ (s : TrendingScore). s.token_id) scores
          ≡ map (λ (i : TrendingInput). i.token_id) inputs)
      × All (λ (s : TrendingScore). IsBps s.score_bps) scores
unfolding score_trending
score_trending-IsBps inputs w valid h =
    let most = max_parts (map raw_of inputs) in
    let (ids, bounds) = scores_lem most w inputs (validate_weights-AreWeights w valid) h in
    (map (score_of most w) inputs, rw (score_trending, valid) refl, ids, bounds)
