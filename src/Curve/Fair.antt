-- ===== src/Curve/Fair.antt =====
-- The results of `computeCurveBuy`, against the price that the constant product gives.
use native.Mathlib.Nat.{le_refl, le_trans, mul-le-mul_left}
use mathlib.Core.Path.{subst₂}
use stunks.Prelude.{
  min-cases, ℕ, ◌+◌, ◌-◌, ◌*◌, ◌≤◌, ◌<◌, ◌≡◌, ◌↔◌, inl, inr, ok, Bool, true, false, arith, ltb→lt,
  ltb_false→le, min, Bool-cases,
}
use stunks.Curve.Product.{
  swap_out, swap_in, swap_out_mono, swap_in_enough, swap_in-le, swap_in_pos, product-le,
}
use stunks.Curve.Buy.{
  BuyTerms, input_of, legs, net_of, IsTradeable, settled, legs-lt, gross_up, net_of-gross_up,
  clamped_spent, full_out, full_out-lt, available, clamps, given, charged,
  compute_curve_buy-settled,
}
use stunks.Curve.Out.{apply_bps-pos}
use stunks.Curve.{CurveBuyMathResult, compute_curve_buy, fill, get_amount_out, sellable_of}
use stunks.Prelude.Int.{pos}

le-net_of-min :
    (b : BuyTerms) (k a c : ℕ) → k ≤ net_of b a → k ≤ net_of b c → k ≤ net_of b (min a c)
le-net_of-min b k a c h h' = elim (min-cases a c) [ inl e ↦ rw e h | inr e ↦ rw e h' ]

-- The clamped charge still pays for the whole allocation.
net_of-clamped_spent :
    (b : BuyTerms)
    → IsTradeable b
    → available b < full_out b
    → available b < b.token_reserve
    → swap_in (available b) b.quote_reserve b.token_reserve ≤ net_of b (clamped_spent b)
net_of-clamped_spent b h over below =
    let net = swap_in (available b) b.quote_reserve b.token_reserve in
    le-net_of-min b net (gross_up b net) b.quote_in (net_of-gross_up b net h.taxed) (
      swap_in-le (available b) (net_of b b.quote_in) b.quote_reserve b.token_reserve h.priced below
        over)

-- A fill of `out` tokens for `spent` is fair on the terms `b`: no more is charged than was offered,
-- the fees leave something to price with, the curve keeps its reserve, what is left pays for the
-- tokens, and the product of the reserves does not fall.
pub record IsFair (b : BuyTerms) (out spent : ℕ) : Type 0 where
  pub offered : spent ≤ b.quote_in
  pub priced : legs b spent < spent
  pub kept : b.reserved + out ≤ b.token_reserve
  pub bought : out ≤ swap_out (net_of b spent) b.quote_reserve b.token_reserve
  pub product :
      b.quote_reserve * b.token_reserve
      ≤ (b.quote_reserve + net_of b spent) * (b.token_reserve - out)

IsFair-of :
    (b : BuyTerms) (out spent : ℕ)
    → IsTradeable b
    → spent ≤ b.quote_in
    → 0 < spent
    → b.reserved + out ≤ b.token_reserve
    → out ≤ swap_out (net_of b spent) b.quote_reserve b.token_reserve
    → IsFair b out spent
IsFair-of b out spent h offered some kept bought = record {
  offered = offered;
  priced = legs-lt b spent h.taxed some;
  kept = kept;
  bought = bought;
  product =
      let n = net_of b spent in
      let full = swap_out n b.quote_reserve b.token_reserve in
      le_trans (product-le n b.quote_reserve b.token_reserve h.priced (omega (arith, h)))
        (mul-le-mul_left (b.quote_reserve + n) (omega arith));
}

net_of-le : (b : BuyTerms) (spent : ℕ) → net_of b spent ≤ spent
net_of-le b spent = omega arith

clamped-IsFair :
    (b : BuyTerms)
    → IsTradeable b
    → available b < full_out b
    → IsFair b (available b) (clamped_spent b)
clamped-IsFair b h over =
    let below : available b < b.token_reserve = omega (arith, full_out-lt b h) in
    let pays = net_of-clamped_spent b h over below in
    let net = swap_in (available b) b.quote_reserve b.token_reserve in
    let left = net_of b (clamped_spent b) in
    IsFair-of b (available b) (clamped_spent b) h (omega arith)
      (omega (
        arith,
        swap_in_pos (available b) b.quote_reserve b.token_reserve,
        net_of-le b (clamped_spent b),
      ))
      (omega (arith, h))
      (le_trans (swap_in_enough (available b) b.quote_reserve b.token_reserve h.priced below)
        (swap_out_mono net left b.quote_reserve b.token_reserve h.priced (omega arith) pays))

given-IsFair : (b : BuyTerms) → IsTradeable b → IsFair b (given b) (charged b)
given-IsFair b h = elim (Bool-cases (clamps b)) [
  | inl over ↦ rw over (clamped-IsFair b h (ltb→lt _ _ over))
  | inr whole ↦ rw whole (
      IsFair-of b (full_out b) b.quote_in h (le_refl _) h.paid
        (omega (arith, h, ltb_false→le (available b) (full_out b) whole)) (le_refl _))
]

-- With a positive input, deductions below 100%, a positive quote reserve and a token reserve above
-- the reserved allocation, `computeCurveBuy` answers. It charges no more than was offered and more than
-- its fees; what is left of the charge pays for the tokens; the allocation stays on the curve; and the
-- product of the reserves does not fall.
pub compute_curve_buy-IsFair :
    (b : BuyTerms)
    → IsTradeable b
    → (out spent : ℕ) × (partial : Bool) × (compute_curve_buy (input_of b)
        ≡ ok (settled b out spent partial))
      × IsFair b out spent
compute_curve_buy-IsFair b h =
    (given b, charged b, clamps b, compute_curve_buy-settled b h, given-IsFair b h)

-- `computeCurveBuy` gives the smaller of what the whole input would buy and what the curve may still
-- sell; it reports a partial fill exactly when the second is the smaller, and otherwise charges the
-- whole input.
pub compute_curve_buy_gives_min :
    (b : BuyTerms) {r : CurveBuyMathResult}
    → IsTradeable b
    → compute_curve_buy (input_of b) ≡ ok r
    → (r.tokens_out ≡ pos (min (b.token_reserve - b.reserved) (full_out b)))
      × ((r.partial_fill ≡ true) ↔ (b.token_reserve - b.reserved < full_out b))
      × (r.partial_fill ≡ false → r.spent ≡ pos b.quote_in)
compute_curve_buy_gives_min b h e = ground (arith, compute_curve_buy-settled b h)

-- A buy of naturals is answered only on tradeable terms: every other one is refused.
pub compute_curve_buy-IsTradeable :
    (b : BuyTerms) {r : CurveBuyMathResult} → compute_curve_buy (input_of b) ≡ ok r → IsTradeable b
unfolding compute_curve_buy fill get_amount_out sellable_of
compute_curve_buy-IsTradeable b e = ground (
  arith,
  apply_bps-pos b.quote_in b.fee_bps,
  apply_bps-pos b.quote_in b.creator_tax_bps,
  apply_bps-pos b.quote_in b.snipe_tax_bps,
)

pub answered-IsFair :
    (b : BuyTerms) (out spent : ℕ) (partial : Bool)
    → compute_curve_buy (input_of b) ≡ ok (settled b out spent partial)
    → IsFair b out spent
answered-IsFair b out spent partial e =
    let h = compute_curve_buy-IsTradeable b e in
    let known = compute_curve_buy-settled b h in
    let same_out : given b ≡ out = ground (arith, known) in
    let same_spent : charged b ≡ spent = ground (arith, known) in
    subst₂ (IsFair b) same_out same_spent (given-IsFair b h)
