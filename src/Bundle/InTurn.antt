-- ===== src/Bundle/InTurn.antt =====
-- The buys of a bundle one after another, in packages/pons/src/trade/bundle.ts.
use stunks.Prelude.{
  ℕ, suc, ◌≡◌, refl, not, filter_by, Bool-cases, inl, inr, List, [], ◌∷◌, ok, err, ap, sym,
  ok-injective, >>=-returned,
}
use stunks.Prelude.Int.{ℤ, pos, ◌+ℤ◌, ◌-ℤ◌}
use stunks.Prelude.Text.{text_eq, lower}
use stunks.Money.{Fallible, snipe_tax_not_modellable, apply_slippage_floor}
use stunks.Curve.{CurveBuyMathInput, CurveBuyMathResult, compute_curve_buy}
use stunks.Bundle.{
  BundleRecipient, PlanBundleArgs, PlannedBuy, BundlePlan, step_input, net_in, priced, fits,
  price_in_order, after_others, with_floors,
}

-- A buy of a recipient at some reserves.
abbrev pub buy_at : PlanBundleArgs → ℤ → ℤ → BundleRecipient → CurveBuyMathInput
buy_at args q t r = record {
  quote_in = r.amount_in;
  pricing_quote_reserve = q;
  token_reserve = t;
  fee_bps = args.fee_bps;
  creator_tax_bps = args.creator_tax_bps;
  snipe_tax_bps = pos 0;
  reserved_tokens = args.reserved_tokens;
}

-- The buys of the recipients one after another take the reserves `q` and `t` to `q'` and `t'`: each adds
-- what it spends less its charges, and takes the tokens that it is given.
abbrev pub Moves : PlanBundleArgs → ℤ → ℤ → List BundleRecipient → ℤ → ℤ → Type 0
Moves args q t [] q' t' = (q' ≡ q) × (t' ≡ t)
Moves args q t (r ∷ rs) q' t' =
    (step : CurveBuyMathResult) × (compute_curve_buy (buy_at args q t r) ≡ ok step)
    × Moves args
        (q +ℤ (step.spent -ℤ step.fee_amount -ℤ step.creator_tax_amount -ℤ step.snipe_tax_amount))
        (t -ℤ step.tokens_out) rs q' t'

-- The recipients whose address is not that of `r`, but for case.
abbrev pub others_than : BundleRecipient → List BundleRecipient → List BundleRecipient
others_than r = filter_by (λ o. not (text_eq (lower o.address) (lower r.address)))

-- The buys in turn, from the reserves `q` and `t` on: each recipient is expected what the curve gives it
-- at the reserves that the buys before it leave.
abbrev pub Fills : PlanBundleArgs → ℤ → ℤ → List BundleRecipient → List PlannedBuy → Type 0
Fills args q t [] [] = Unit
Fills args q t [] (b ∷ bs) = ⊥
Fills args q t (r ∷ rs) [] = ⊥
Fills args q t (r ∷ rs) (b ∷ bs) =
    (step : CurveBuyMathResult) × (compute_curve_buy (buy_at args q t r) ≡ ok step)
    × (b.expected_out ≡ step.tokens_out)
    × Fills args
        (q +ℤ (step.spent -ℤ step.fee_amount -ℤ step.creator_tax_amount -ℤ step.snipe_tax_amount))
        (t -ℤ step.tokens_out) rs bs

pub priced-returned : {A : Type 0} {a : A} (m : Fallible A) → priced m ≡ ok a → m ≡ ok a
priced-returned (ok a) h = cc
priced-returned (err (snipe_tax_not_modellable f c s)) h = cc
priced-returned (err e) h = cc

pub fits-returned : {A : Type 0} {a : A} (m : Fallible A) → fits m ≡ ok a → m ≡ ok a
fits-returned (ok a) h = cc
fits-returned (err e) h = cc

pub after_others-Moves :
    (args : PlanBundleArgs) (r : BundleRecipient) (q t : ℤ) (rs : List BundleRecipient)
    (moved : ℤ × ℤ)
    → after_others args r q t rs ≡ ok moved
    → Moves args q t (others_than r rs) moved.0 moved.1
unfolding after_others
after_others-Moves args r q t [] moved h =
    let same = ok-injective h in (sym (ap (λ p. p.0) same), sym (ap (λ p. p.1) same))
after_others-Moves args r q t (o ∷ rs) moved h =
    elim (Bool-cases (text_eq (lower o.address) (lower r.address))) [
      | inl e ↦ rw e (after_others-Moves args r q t rs moved (rw (e, after_others) at h))
      | inr e ↦
          let (step, bought, h') =
            >>=-returned (compute_curve_buy (step_input args q t o)) _
              (rw (e, after_others) at h) in
          rw e (
            step,
            bought,
            after_others-Moves args r (q +ℤ net_in step) (t -ℤ step.tokens_out) rs moved h',
          )
    ]

pub price_in_order-Fills :
    (args : PlanBundleArgs) (i : ℕ) (q t : ℤ) (rs : List BundleRecipient) (plan : BundlePlan)
    → price_in_order args i q t rs ≡ ok plan
    → Fills args q t rs plan.buys
unfolding price_in_order
price_in_order-Fills args i q t [] plan h = rw (sym (ok-injective h)) tt
price_in_order-Fills args i q t (r ∷ rs) plan h =
    let (step, priced_step, h') =
      >>=-returned (priced (compute_curve_buy (step_input args q t r))) _ h in
    let (rest, priced_rest, h'') =
      >>=-returned (price_in_order args (suc i) (q +ℤ net_in step) (t -ℤ step.tokens_out) rs) _
        h' in
    rw (sym (ok-injective h'')) (
      step,
      priced-returned _ priced_step,
      refl,
      price_in_order-Fills args (suc i) (q +ℤ net_in step) (t -ℤ step.tokens_out) rs rest
          priced_rest,
    )

pub with_floors-Fills :
    (args : PlanBundleArgs) (q t : ℤ) (rs : List BundleRecipient) (bs out : List PlannedBuy)
    (floors : List ℤ)
    → with_floors args.slippage_bps bs floors ≡ ok out
    → Fills args q t rs bs
    → Fills args q t rs out
unfolding with_floors
with_floors-Fills args q t rs [] out floors h f = rw (sym (ok-injective h)) f
with_floors-Fills args q t [] (b ∷ bs) out floors h f = absurd f
with_floors-Fills args q t (r ∷ rs) (b ∷ bs) out [] h (step, bought, expected, f) =
    let (m, floored, h') = >>=-returned (apply_slippage_floor (pos 0) args.slippage_bps) _ h in
    let (rest, done, h'') = >>=-returned (with_floors args.slippage_bps bs []) _ h' in
    rw (sym (ok-injective h'')) (
      step,
      bought,
      expected,
      with_floors-Fills args (q +ℤ net_in step) (t -ℤ step.tokens_out) rs bs rest [] done f,
    )
with_floors-Fills args q t (r ∷ rs) (b ∷ bs) out (x ∷ floors) h (step, bought, expected, f) =
    let (m, floored, h') = >>=-returned (apply_slippage_floor x args.slippage_bps) _ h in
    let (rest, done, h'') = >>=-returned (with_floors args.slippage_bps bs floors) _ h' in
    rw (sym (ok-injective h'')) (
      step,
      bought,
      expected,
      with_floors-Fills args (q +ℤ net_in step) (t -ℤ step.tokens_out) rs bs rest floors done f,
    )
