-- ===== src/Curve/Sell.antt =====
-- `computeCurveSell`: what a sell returns, by itself and after a buy.
use native.Mathlib.Nat.{le_trans, mul-le-mul_left, mul-le-mul_right}
use stunks.Prelude.{ℕ, ◌+◌, ◌-◌, ◌*◌, ◌≤◌, ◌<◌, ◌≡◌, Bool, ok, arith, lt→ltb}
use stunks.Prelude.Int.{pos}
use stunks.Curve.Product.{swap_out, swap_out-lt, swap_out-mul-le, product-le, swap_back-le_of}
use stunks.Curve.Out.{get_amount_out-pos, share, apply_bps-pos}
use stunks.Curve.Buy.{BuyTerms, input_of, net_of, settled}
use stunks.Curve.Fair.{compute_curve_buy-IsTradeable, answered-IsFair}
use stunks.Curve.{CurveSellMathInput, CurveSellMathResult, compute_curve_buy, compute_curve_sell}

pub record SellTerms : Type 0 where
  pub tokens_in : ℕ
  pub quote_reserve : ℕ
  pub token_reserve : ℕ
  pub fee_bps : ℕ
  pub creator_tax_bps : ℕ

abbrev pub sell_input_of : SellTerms → CurveSellMathInput
sell_input_of s = record {
  tokens_in = pos s.tokens_in;
  pricing_quote_reserve = pos s.quote_reserve;
  token_reserve = pos s.token_reserve;
  fee_bps = pos s.fee_bps;
  creator_tax_bps = pos s.creator_tax_bps;
}

pub record IsSellable (s : SellTerms) : Type 0 where
  pub paid : 0 < s.tokens_in
  pub taxed : s.fee_bps + s.creator_tax_bps ≤ 10_000
  pub priced : 0 < s.quote_reserve
  pub stocked : 0 < s.token_reserve

abbrev pub gross_of : SellTerms → ℕ
gross_of s = swap_out s.tokens_in s.token_reserve s.quote_reserve

-- The result that pays out `gross` less the two legs taken from it.
abbrev pub sold : SellTerms → ℕ → ℕ → CurveSellMathResult
sold s gross out = record {
  quote_out = pos out;
  gross_quote_out = pos gross;
  fee_amount = pos (share gross s.fee_bps);
  creator_tax_amount = pos (share gross s.creator_tax_bps);
}

sell_legs-le : (g f c : ℕ) → f + c ≤ 10_000 → share g f + share g c ≤ g
sell_legs-le g f c h = let bounded : g * (f + c) ≤ g * 10_000 = mul-le-mul_left g h in omega arith

compute_curve_sell-sold :
    (s : SellTerms)
    → IsSellable s
    → let g = gross_of s in
      compute_curve_sell (sell_input_of s)
      ≡ ok (sold s g (g - share g s.fee_bps - share g s.creator_tax_bps))
unfolding compute_curve_sell
compute_curve_sell-sold s h =
    let g = gross_of s in
    rw
      (
        lt→ltb 0 s.tokens_in h.paid,
        get_amount_out-pos s.tokens_in s.token_reserve s.quote_reserve h.paid h.stocked h.priced,
        apply_bps-pos,
        apply_bps-pos,
      )
      (ground (arith, sell_legs-le g s.fee_bps s.creator_tax_bps h.taxed))

-- With positive amounts and deductions of at most 100%, `computeCurveSell` answers; what it pays and
-- what it deducts add up to the gross output, which is below the quote reserve, and the product of
-- the reserves does not fall.
pub compute_curve_sell_conserves :
    (s : SellTerms)
    → IsSellable s
    → (gross out : ℕ) × (compute_curve_sell (sell_input_of s) ≡ ok (sold s gross out))
      × (out + share gross s.fee_bps + share gross s.creator_tax_bps ≡ gross)
      × (gross < s.quote_reserve)
      × (s.token_reserve * s.quote_reserve
          ≤ (s.token_reserve + s.tokens_in) * (s.quote_reserve - gross))
compute_curve_sell_conserves s h =
    let g = gross_of s in
    (
      g,
      g - share g s.fee_bps - share g s.creator_tax_bps,
      compute_curve_sell-sold s h,
      omega (arith, sell_legs-le g s.fee_bps s.creator_tax_bps h.taxed),
      swap_out-lt s.tokens_in s.token_reserve s.quote_reserve h.stocked h.priced,
      product-le s.tokens_in s.token_reserve s.quote_reserve h.stocked h.priced,
    )

-- The terms on which the tokens of a fill are sold back to the curve that the fill left behind.
abbrev pub back_terms : BuyTerms → ℕ → ℕ → SellTerms
back_terms b out spent = record {
  tokens_in = out;
  quote_reserve = b.quote_reserve + net_of b spent;
  token_reserve = b.token_reserve - out;
  fee_bps = b.fee_bps;
  creator_tax_bps = b.creator_tax_bps;
}

-- Selling all the tokens of an answered buy, right after it, pays no more than what that buy priced
-- with, which is what it charged less its fees.
pub sell_back_no_profit :
    (b : BuyTerms) (out spent : ℕ) (partial : Bool)
    → compute_curve_buy (input_of b) ≡ ok (settled b out spent partial)
    → 0 < out
    → (gross paid : ℕ) × (compute_curve_sell (sell_input_of (back_terms b out spent))
        ≡ ok (sold (back_terms b out spent) gross paid))
      × (paid ≤ gross)
      × (gross ≤ net_of b spent)
      × (net_of b spent ≤ spent)
sell_back_no_profit b out spent partial e some =
    let h = compute_curve_buy-IsTradeable b e in
    let fair = answered-IsFair b out spent partial e in
    let n = net_of b spent in
    let s = back_terms b out spent in
    let product : out * (b.quote_reserve + n) ≤ n * b.token_reserve =
      le_trans (mul-le-mul_right (b.quote_reserve + n) fair.bought)
        (swap_out-mul-le n b.quote_reserve b.token_reserve) in
    let below = swap_out-lt n b.quote_reserve b.token_reserve h.priced (omega (arith, h)) in
    let left : 0 < b.token_reserve - out = omega (arith, fair.bought) in
    let back : gross_of s ≤ n =
      swap_back-le_of out b.quote_reserve n b.token_reserve (omega arith) product in
    let g = gross_of s in
    (
      g,
      g - share g s.fee_bps - share g s.creator_tax_bps,
      compute_curve_sell-sold s
          (sellable some (omega (arith, h.taxed)) (omega (arith, h.priced)) left),
      omega arith,
      back,
      omega arith,
    )
  where
    sellable :
        0 < out
        → b.fee_bps + b.creator_tax_bps ≤ 10_000
        → 0 < b.quote_reserve + net_of b spent
        → 0 < b.token_reserve - out
        → IsSellable (back_terms b out spent)
    sellable w x y z = record { paid = w; taxed = x; priced = y; stocked = z }
