-- ===== src/Bundle/Allocation.antt =====
-- The expected output of a plan of `planBundle`, against the curve's allocation.
use mathlib.Core.Path.{ap₂}
use stunks.Prelude.{
  ℕ, suc, ◌+◌, ◌-◌, ◌≤◌, ◌<◌, ◌≡◌, refl, sym, ap, ◌∙◌, Bool, List, [], ◌∷◌, ok, >>=-returned,
  ok-injective, arith,
}
use stunks.Prelude.Int.{ℤ, pos, negsuc, ◌+ℤ◌, ◌-ℤ◌, sub_ℕ-pos}
use stunks.Curve.{CurveBuyMathResult, compute_curve_buy}
use stunks.Curve.Buy.{BuyTerms, input_of, settled, net_of, legs}
use stunks.Curve.Fair.{compute_curve_buy-IsFair, compute_curve_buy-IsTradeable}
use stunks.Graduation.{Address}
use stunks.Bundle.{
  BundleRecipient, PlanBundleArgs, BundlePlan, step_input, net_in, priced, price_in_order,
  plan_bundle,
}
use stunks.Bundle.InTurn.{priced-returned}
use stunks.Bundle.Planned.{plan_bundle-Parts}

-- A curve whose amounts are not negative, as every amount read from the chain is.
pub record BundleTerms : Type 0 where
  pub quote_reserve : ℕ
  pub token_reserve : ℕ
  pub reserved : ℕ
  pub fee_bps : ℕ
  pub creator_tax_bps : ℕ

-- The arguments of the planner on these terms.
abbrev pub args_on : BundleTerms → List BundleRecipient → ℤ → List Address → PlanBundleArgs
args_on b recipients slippage_bps exempt = record {
  recipients = recipients;
  pricing_quote_reserve = pos b.quote_reserve;
  token_reserve = pos b.token_reserve;
  reserved_tokens = pos b.reserved;
  fee_bps = pos b.fee_bps;
  creator_tax_bps = pos b.creator_tax_bps;
  slippage_bps = slippage_bps;
  exempt_addresses = exempt;
}

abbrev terms_of : BundleTerms → ℕ → ℕ → ℕ → BuyTerms
terms_of b q t amount = record {
  quote_in = amount;
  quote_reserve = q;
  token_reserve = t;
  fee_bps = b.fee_bps;
  creator_tax_bps = b.creator_tax_bps;
  snipe_tax_bps = 0;
  reserved = b.reserved;
}

-- What a buy in the plan does to the reserves.
abbrev Moves : BundleTerms → ℕ → CurveBuyMathResult → Type 0
Moves b t step =
    (out net : ℕ) × (step.tokens_out ≡ pos out) × (net_in step ≡ pos net) × (b.reserved + out ≤ t)

settled-net_in :
    (b : BuyTerms) (out spent : ℕ) (partial : Bool)
    → legs b spent < spent
    → net_in (settled b out spent partial) ≡ pos (net_of b spent)
settled-net_in b out spent partial h = ground arith

step-Moves :
    (b : BundleTerms) (q t amount : ℕ) {step : CurveBuyMathResult}
    → compute_curve_buy (input_of (terms_of b q t amount)) ≡ ok step
    → Moves b t step
step-Moves b q t amount h =
    let (out, spent, partial, runs, fair) =
      compute_curve_buy-IsFair (terms_of b q t amount)
        (compute_curve_buy-IsTradeable (terms_of b q t amount) h) in
    rw (ok-injective (sym h ∙ runs)) (
      out,
      net_of (terms_of b q t amount) spent,
      refl,
      settled-net_in (terms_of b q t amount) out spent partial fair.priced,
      fair.kept,
    )

any_step-Moves :
    (b : BundleTerms) (rs : List BundleRecipient) (s : ℤ) (x : List Address) (q t : ℕ) (a : Address)
    (amount : ℤ) {step : CurveBuyMathResult}
    → compute_curve_buy
        (step_input (args_on b rs s x) (pos q) (pos t) (record { address = a; amount_in = amount }))
      ≡ ok step
    → Moves b t step
unfolding compute_curve_buy
any_step-Moves b rs s x q t a (pos amount) h = step-Moves b q t amount h
any_step-Moves b rs s x q t a (negsuc amount) h = cc

moved_reserves :
    (args : PlanBundleArgs) (i q t : ℕ) (rs : List BundleRecipient) (step : CurveBuyMathResult)
    (rest : BundlePlan) (out net : ℕ)
    → step.tokens_out ≡ pos out
    → net_in step ≡ pos net
    → out ≤ t
    → price_in_order args i (pos q +ℤ net_in step) (pos t -ℤ step.tokens_out) rs ≡ ok rest
    → price_in_order args i (pos (q + net)) (pos (t - out)) rs ≡ ok rest
moved_reserves args i q t rs step rest out net gives nets room h =
    sym (
      ap₂ (λ a b. price_in_order args i a b rs) (ap (pos q +ℤ◌) nets)
        (ap (pos t -ℤ◌) gives ∙ sub_ℕ-pos t out room))
    ∙ h

-- What the plan from here on expects fits what the curve may still sell.
abbrev Fits : BundleTerms → ℕ → BundlePlan → Type 0
Fits b t plan = (given : ℕ) × (plan.total_expected_out ≡ pos given) × (b.reserved + given ≤ t)

price_in_order-Fits :
    (b : BundleTerms) (all : List BundleRecipient) (s : ℤ) (x : List Address) (i q t : ℕ)
    (rs : List BundleRecipient) (plan : BundlePlan)
    → b.reserved ≤ t
    → price_in_order (args_on b all s x) i (pos q) (pos t) rs ≡ ok plan
    → Fits b t plan
unfolding price_in_order
price_in_order-Fits b all s x i q t [] plan room h =
    rw (sym (ok-injective h)) (0, refl, omega arith)
price_in_order-Fits b all s x i q t (r ∷ rs) plan room h =
    let args = args_on b all s x in
    let (step, priced_step, h') =
      >>=-returned (priced (compute_curve_buy (step_input args (pos q) (pos t) r))) _ h in
    let (out, net, gives, nets, fits) =
      any_step-Moves b all s x q t r.address r.amount_in (priced-returned _ priced_step) in
    let (rest, priced_rest, h'') =
      >>=-returned
        (price_in_order args (suc i) (pos q +ℤ net_in step) (pos t -ℤ step.tokens_out) rs) _ h' in
    let (given, expects, within) =
      price_in_order-Fits b all s x (suc i) (q + net) (t - out) rs rest (omega arith) (
        moved_reserves args (suc i) q t rs step rest out net gives nets (omega arith)
          priced_rest) in
    rw (sym (ok-injective h'')) (out + given, ap₂ ◌+ℤ◌ gives expects, omega arith)

-- On a curve whose amounts are not negative and whose allocation is at most its reserve, the tokens
-- that a plan expects in all, at the prices of its own order, and the allocation fit the reserve.
pub plan_bundle_within_allocation :
    (b : BundleTerms) (rs : List BundleRecipient) (slippage : ℤ) (exempt : List Address)
    {plan : BundlePlan}
    → b.reserved ≤ b.token_reserve
    → plan_bundle (args_on b rs slippage exempt) ≡ ok plan
    → (given : ℕ) × (plan.total_expected_out ≡ pos given) × (b.reserved + given ≤ b.token_reserve)
plan_bundle_within_allocation b rs slippage exempt room h =
    let parts = plan_bundle-Parts (args_on b rs slippage exempt) h in
    let (given, expects, within) =
      price_in_order-Fits b rs slippage exempt 0 b.quote_reserve b.token_reserve rs parts.in_order
        room parts.ordered in
    (given, parts.same_out ∙ expects, within)
