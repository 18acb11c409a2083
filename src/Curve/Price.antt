-- ===== src/Curve/Price.antt =====
-- The pricing functions beside the trades: exact-output input, the non-throwing quote, the reserved
-- allocation and the price impact.
use native.Mathlib.Nat.{
  mul-le-mul_right, le-div_iff_mul-le, div-mul-le_self, lt-mul-div-succ, le_of_mul-le-mul_right,
  lt_of_mul-lt-mul_right, suc-le-suc_iff,
}
use stunks.Prelude.{
  ℕ, ◌+◌, ◌-◌, ◌*◌, ◌/◌, ◌≤◌, ◌<◌, ◌≡◌, false, ok, err, arith, lt→ltb, lt→leb_false, Bool-cases,
  inl, inr,
}
use stunks.Prelude.Int.{ℤ, pos, negsuc, leb_ℤ, is_zero, ◌+ℤ◌, ◌-ℤ◌, ◌*ℤ◌, sub_ℕ-pos}
use stunks.Money.{Fallible, basis_points}
use stunks.Curve.Product.{
  swap_out, swap_out_scaled, swap_in, swap_out-mul-le, swap_in_enough, swap_in-le_suc, swap_in_pos,
}
use stunks.Curve.Out.{get_amount_out-pos, get_amount_in-pos}
use stunks.Curve.{
  get_amount_out, quote_amount_out, get_amount_in, compute_reserved_tokens,
  compute_price_impact_bps,
}

-- Without a fee, the input that `getAmountIn` asks for `y` of output buys at least `y`, and no input
-- that buys `y` is more than one unit smaller.
pub get_amount_in_tight :
    (y q t : ℕ)
    → 0 < y
    → 0 < q
    → y < t
    → (x bought : ℕ) × (get_amount_in (pos y) (pos q) (pos t) (pos 0) ≡ ok (pos x))
      × (get_amount_out (pos x) (pos q) (pos t) (pos 0) ≡ ok (pos bought))
      × (y ≤ bought)
      × ((x' bought' : ℕ)
          → 0 < x'
          → get_amount_out (pos x') (pos q) (pos t) (pos 0) ≡ ok (pos bought')
          → y ≤ bought'
          → x ≤ x' + 1)
get_amount_in_tight y q t hy hq ht = (
  swap_in y q t,
  swap_out (swap_in y q t) q t,
  get_amount_in-pos y q t hy hq ht,
  get_amount_out-pos (swap_in y q t) q t (swap_in_pos y q t) hq (omega arith),
  swap_in_enough y q t hq ht,
  λ x' bought' some e enough.
      swap_in-le_suc y x' q t ht (ground (arith, get_amount_out-pos x' q t some hq (omega arith))),
)

fee_left : (f : ℤ) → leb_ℤ basis_points f ≡ false → (n : ℕ) × (basis_points -ℤ f ≡ pos (n + 1))
fee_left (pos f) h = (9_999 - f, ground arith)
fee_left (negsuc f) h = (10_000 + f, ground arith)

denominator_nonzero :
    (a q : ℤ) (n : ℕ)
    → leb_ℤ a (pos 0) ≡ false
    → leb_ℤ q (pos 0) ≡ false
    → is_zero (q *ℤ basis_points +ℤ a *ℤ pos (n + 1)) ≡ false
denominator_nonzero (pos a) (pos q) n ha hq = ground arith
denominator_nonzero (pos a) (negsuc q) n ha hq = cc
denominator_nonzero (negsuc a) q n ha hq = cc

abbrev pub or_zero : Fallible ℤ → ℤ
or_zero (ok v) = v
or_zero (err e) = pos 0

-- Below a fee of 100%, the non-throwing quote is `getAmountOut` with 0 for its errors.
pub quote_amount_out-or_zero :
    (amount_in reserve_in reserve_out fee_bps : ℤ)
    → leb_ℤ basis_points fee_bps ≡ false
    → quote_amount_out amount_in reserve_in reserve_out fee_bps
      ≡ or_zero (get_amount_out amount_in reserve_in reserve_out fee_bps)
unfolding quote_amount_out get_amount_out
quote_amount_out-or_zero a q t f h = elim (Bool-cases (leb_ℤ a (pos 0))) [
  | inl e ↦ rw e
  | inr e ↦ elim (Bool-cases (leb_ℤ q (pos 0))) [
    | inl e' ↦ rw (e, e')
    | inr e' ↦ elim (Bool-cases (leb_ℤ t (pos 0))) [
      | inl e'' ↦ rw (e, e', e'')
      | inr e'' ↦
          let (n, left) = fee_left f h in rw (e, e', e'', h, left, denominator_nonzero a q n e e')
    ]
  ]
]

abbrev reserved_of : ℕ → ℕ → ℕ → ℕ
reserved_of s p g = s * p / (p + g)

-- The allocation is at most the supply, and a fresh curve that takes in exactly the graduation
-- threshold on top of its phantom quote is left with the allocation, or with one unit more.
pub compute_reserved_tokens_reached :
    (supply phantom threshold : ℕ)
    → 0 < supply
    → 0 < phantom
    → 0 < threshold
    → (reserved out : ℕ) × (compute_reserved_tokens (pos supply) (pos phantom) (pos threshold)
        ≡ ok (pos reserved))
      × (get_amount_out (pos threshold) (pos phantom) (pos supply) (pos 0) ≡ ok (pos out))
      × (reserved + out ≤ supply)
      × (supply ≤ reserved + out + 1)
unfolding compute_reserved_tokens swap_out
compute_reserved_tokens_reached s p g hs hp hg =
    let r = s * p / (p + g) in
    let o = g * s / (p + g) in
    let below_r : r * (p + g) ≤ s * p = div-mul-le_self (s * p) (p + g) in
    let below_o : o * (p + g) ≤ g * s = div-mul-le_self (g * s) (p + g) in
    let above_r : s * p < (p + g) * (r + 1) = lt-mul-div-succ (s * p) (omega arith) in
    let above_o : g * s < (p + g) * (o + 1) = lt-mul-div-succ (g * s) (omega arith) in
    (
      r,
      o,
      rw (lt→leb_false (p + g) 0 (omega arith)),
      get_amount_out-pos g p s hg hp hs,
      le_of_mul-le-mul_right {k = p + g} (omega arith) (omega arith),
      suc-le-suc_iff.0 (lt_of_mul-lt-mul_right (p + g) (omega arith)),
    )

quote_amount_out-pos :
    (x q t : ℕ)
    → 0 < x
    → 0 < q
    → 0 < t
    → quote_amount_out (pos x) (pos q) (pos t) (pos 0) ≡ pos (swap_out x q t)
unfolding quote_amount_out
quote_amount_out-pos x q t hx hq ht = ground (arith, swap_out_scaled x q t)

-- The reported price impact is at least the size of the trade relative to the quote reserve.
pub compute_price_impact_bps_at_least :
    (x q t : ℕ)
    → 0 < x
    → 0 < q
    → 0 < t
    → 0 < swap_out x q t
    → (impact : ℕ) × (compute_price_impact_bps (pos x) (pos q) (pos t) ≡ pos impact)
      × (x * 10_000 / q ≤ impact)
unfolding compute_price_impact_bps
compute_price_impact_bps_at_least x q t hx hq ht ho =
    let o = swap_out x q t in
    let k = x * 10_000 / q in
    let below : k * q ≤ x * 10_000 = div-mul-le_self (x * 10_000) q in
    let scaled : k * q * o ≤ x * 10_000 * o = mul-le-mul_right o below in
    let gap : o * x ≤ x * t - q * o = omega (arith, swap_out-mul-le x q t) in
    let worse : q * o < x * t = grind (arith, swap_out-mul-le x q t) in
    let divisor : 0 < q * o = grind arith in
    (
      (x * t - q * o) * 10_000 / (q * o),
      rw (
        lt→ltb 0 x hx,
        lt→ltb 0 q hq,
        lt→ltb 0 t ht,
        quote_amount_out-pos x q t hx hq ht,
        lt→leb_false o 0 ho,
        lt→ltb (q * o) (x * t) worse,
        sub_ℕ-pos (x * t) (q * o) (omega arith),
      ),
      (le-div_iff_mul-le divisor).1 (omega arith),
    )
