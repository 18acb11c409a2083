-- ===== src/Curve/Buy.antt =====
-- `computeCurveBuy` on a launch's terms: when it answers, and what it charges for what it gives.
use native.Mathlib.Nat.{mul-le-mul_left, lt-mul-div-succ}
use stunks.Prelude.{
  ℕ, ◌+◌, ◌-◌, ◌*◌, ◌/◌, ◌≤◌, ◌<◌, ◌≡◌, ok, Bool, true, false, arith, ltb, min, lt→leb_false,
  lt→ltb, ltb→lt, Bool-cases, inl, inr, if◌then◌else◌,
}
use stunks.Prelude.Int.{pos, sub_ℕ-pos, ◌*ℤ◌, ◌-ℤ◌}
use stunks.Money.{ceil_div, bigint_min, basis_points}
use stunks.Curve.Product.{mul_split, swap_out, swap_in, swap_out-lt}
use stunks.Curve.Out.{get_amount_out-pos, get_amount_in-pos, share, apply_bps-pos}
use stunks.Curve.{
  CurveBuyMathInput, CurveBuyMathResult, compute_curve_buy, clamped_fill, sellable_of, fill,
}

-- The input of a buy whose amounts are not negative, as every amount read from the chain is.
pub record BuyTerms : Type 0 where
  pub quote_in : ℕ
  pub quote_reserve : ℕ
  pub token_reserve : ℕ
  pub fee_bps : ℕ
  pub creator_tax_bps : ℕ
  pub snipe_tax_bps : ℕ
  pub reserved : ℕ

abbrev pub input_of : BuyTerms → CurveBuyMathInput
input_of b = record {
  quote_in = pos b.quote_in;
  pricing_quote_reserve = pos b.quote_reserve;
  token_reserve = pos b.token_reserve;
  fee_bps = pos b.fee_bps;
  creator_tax_bps = pos b.creator_tax_bps;
  snipe_tax_bps = pos b.snipe_tax_bps;
  reserved_tokens = pos b.reserved;
}

abbrev pub total_bps : BuyTerms → ℕ
total_bps b = b.fee_bps + b.creator_tax_bps + b.snipe_tax_bps

-- What the three legs take out of `spent`, each rounded down by itself.
abbrev pub legs : BuyTerms → ℕ → ℕ
legs b spent = share spent b.fee_bps + share spent b.creator_tax_bps + share spent b.snipe_tax_bps

-- What is left of `spent` to price the trade with.
abbrev pub net_of : BuyTerms → ℕ → ℕ
net_of b spent =
    spent - share spent b.fee_bps - share spent b.creator_tax_bps - share spent b.snipe_tax_bps

pub record IsTradeable (b : BuyTerms) : Type 0 where
  pub paid : 0 < b.quote_in
  pub taxed : total_bps b < 10_000
  pub priced : 0 < b.quote_reserve
  pub stocked : b.reserved < b.token_reserve

-- The result that gives `out` tokens for `spent`.
abbrev pub settled : BuyTerms → ℕ → ℕ → Bool → CurveBuyMathResult
settled b out spent partial = record {
  tokens_out = pos out;
  spent = pos spent;
  refund = pos (b.quote_in - spent);
  fee_amount = pos (share spent b.fee_bps);
  creator_tax_amount = pos (share spent b.creator_tax_bps);
  snipe_tax_amount = pos (share spent b.snipe_tax_bps);
  partial_fill = partial;
}

legs-mul-le : (b : BuyTerms) (spent : ℕ) → legs b spent * 10_000 ≤ spent * total_bps b
legs-mul-le b spent = omega arith

pub legs-lt : (b : BuyTerms) (spent : ℕ) → total_bps b < 10_000 → 0 < spent → legs b spent < spent
legs-lt b spent taxed h =
    let bounded : spent * total_bps b ≤ spent * 9_999 = mul-le-mul_left spent (omega arith) in
    omega (arith, legs-mul-le b spent)

-- `ceilDiv(net * 10000, 10000 - total)`
pub gross_up : BuyTerms → ℕ → ℕ
gross_up b net = (net * 10_000 + (10_000 - total_bps b) - 1) / (10_000 - total_bps b)

pub net_of-gross_up :
    (b : BuyTerms) (net : ℕ) → total_bps b < 10_000 → net ≤ net_of b (gross_up b net)
unfolding gross_up
net_of-gross_up b net taxed =
    let d = 10_000 - total_bps b in
    let spent = (net * 10_000 + d - 1) / d in
    let enough : net * 10_000 ≤ d * spent =
      omega (arith, lt-mul-div-succ (net * 10_000 + d - 1) {b = d} (omega arith)) in
    let split : spent * 10_000 ≡ spent * total_bps b + d * spent =
      omega (arith, mul_split spent (total_bps b) 10_000 (omega arith)) in
    omega (arith, legs-mul-le b spent)

-- The amount charged for a clamped fill.
abbrev pub clamped_spent : BuyTerms → ℕ
clamped_spent b =
    min (gross_up b (swap_in (b.token_reserve - b.reserved) b.quote_reserve b.token_reserve))
      b.quote_in

ceil_div-pos :
    (b : BuyTerms) (net : ℕ)
    → total_bps b < 10_000
    → 0 < net
    → ceil_div (pos net *ℤ basis_points) (basis_points -ℤ pos (total_bps b))
      ≡ ok (pos (gross_up b net))
unfolding ceil_div gross_up
ceil_div-pos b net taxed h = ground arith

abbrev pub available : BuyTerms → ℕ
available b = b.token_reserve - b.reserved

bigint_min-pos : (a b : ℕ) → bigint_min (pos a) (pos b) ≡ pos (min a b)
unfolding bigint_min
bigint_min-pos a b = ground arith

clamped_fill-pos :
    (b : BuyTerms)
    → IsTradeable b
    → 0 < swap_in (available b) b.quote_reserve b.token_reserve
    → available b < b.token_reserve
    → clamped_fill (input_of b) (pos (total_bps b)) (pos (available b))
      ≡ ok (settled b (available b) (clamped_spent b) true)
unfolding clamped_fill
clamped_fill-pos b h some_in below =
    let y = available b in
    let net = swap_in y b.quote_reserve b.token_reserve in
    rw (
      get_amount_in-pos y b.quote_reserve b.token_reserve (omega arith) h.priced below,
      ceil_div-pos b net h.taxed some_in,
      bigint_min-pos,
      apply_bps-pos,
      apply_bps-pos,
      apply_bps-pos,
      sub_ℕ-pos b.quote_in (clamped_spent b) (omega arith),
    )

-- What the whole input would buy.
abbrev pub full_out : BuyTerms → ℕ
full_out b = swap_out (net_of b b.quote_in) b.quote_reserve b.token_reserve

net_of-pos :
    (b : BuyTerms) (spent : ℕ)
    → legs b spent < spent
    → pos spent
        -ℤ pos (share spent b.fee_bps)
        -ℤ pos (share spent b.creator_tax_bps)
        -ℤ pos (share spent b.snipe_tax_bps)
      ≡ pos (net_of b spent)
net_of-pos b spent h = ground arith

sellable_of-pos :
    (b : BuyTerms) → b.reserved < b.token_reserve → sellable_of (input_of b) ≡ pos (available b)
unfolding sellable_of
sellable_of-pos b h = ground arith

-- `fill` up to the comparison of the output with the allocation.
fill-pos :
    (b : BuyTerms)
    → IsTradeable b
    → fill (input_of b) (pos (total_bps b)) ≡ (
        if ltb (available b) (full_out b)
        then clamped_fill (input_of b) (pos (total_bps b)) (pos (available b))
        else ok (settled b (full_out b) b.quote_in false))
unfolding fill
fill-pos b h =
    let some_left = legs-lt b b.quote_in h.taxed h.paid in
    rw (
      apply_bps-pos,
      apply_bps-pos,
      apply_bps-pos,
      net_of-pos b b.quote_in some_left,
      get_amount_out-pos (net_of b b.quote_in) b.quote_reserve b.token_reserve (omega arith)
          h.priced (omega arith),
      sellable_of-pos b h.stocked,
      sub_ℕ-pos b.quote_in b.quote_in (omega arith),
      lt→leb_false (available b) 0 (omega arith),
    )

-- Whether the fill is clamped to the allocation, what it gives and what it charges.
abbrev pub clamps : BuyTerms → Bool
clamps b = ltb (available b) (full_out b)

abbrev pub given : BuyTerms → ℕ
given b = if clamps b then available b else full_out b

abbrev pub charged : BuyTerms → ℕ
charged b = if clamps b then clamped_spent b else b.quote_in

pub full_out-lt : (b : BuyTerms) → IsTradeable b → full_out b < b.token_reserve
full_out-lt b h =
    swap_out-lt (net_of b b.quote_in) b.quote_reserve b.token_reserve h.priced (omega (arith, h))

pub compute_curve_buy-settled :
    (b : BuyTerms)
    → IsTradeable b
    → compute_curve_buy (input_of b) ≡ ok (settled b (given b) (charged b) (clamps b))
unfolding compute_curve_buy swap_in
compute_curve_buy-settled b h =
    rw (lt→ltb 0 b.quote_in h.paid, lt→ltb (total_bps b) 10_000 h.taxed, fill-pos b h)
      (elim (Bool-cases (clamps b)) [
        | inl over ↦ rw (
          over,
          clamped_fill-pos b h (omega arith) (omega (arith, ltb→lt _ _ over, full_out-lt b h)),
        )
        | inr whole ↦ rw whole
      ])
