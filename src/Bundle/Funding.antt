-- ===== src/Bundle/Funding.antt =====
-- `bundleFundingRequirement`, against the values of the transactions that are built.
use mathlib.Core.Path.{ap₂}
use stunks.Prelude.{
  ℕ, suc, ◌≡◌, refl, sym, ap, ◌∙◌, Bool, true, false, some, List, [], ◌∷◌, map, length, All, ok,
  arith, if◌then◌else◌,
}
use stunks.Prelude.Int.{ℤ, pos, ◌+ℤ◌, ◌*ℤ◌}
use stunks.Graduation.{Address}
use stunks.Bundle.{BundleRecipient, PlanBundleArgs, PlannedBuy, BundlePlan, plan_bundle}
use stunks.Bundle.Execution.{
  ConfirmedLaunch, BundleTransaction, ExecutableBundle, is_native, transaction_of,
  build_bundle_transactions, bundle_funding_requirement,
}
use stunks.Bundle.Planned.{AreBuysFor, sum_in, plan_bundle-IsPlanFor}

abbrev sum_paid : List PlannedBuy → ℤ
sum_paid [] = pos 0
sum_paid (b ∷ bs) = b.amount_in +ℤ sum_paid bs

sum_paid-AreBuysFor :
    (args : PlanBundleArgs) (i : ℕ) (rs : List BundleRecipient) (bs : List PlannedBuy)
    → AreBuysFor args i rs bs
    → sum_paid bs ≡ sum_in rs
sum_paid-AreBuysFor args i [] [] buys = refl
sum_paid-AreBuysFor args i [] (b ∷ bs) buys = absurd buys
sum_paid-AreBuysFor args i (r ∷ rs) [] buys = absurd buys
sum_paid-AreBuysFor args i (r ∷ rs) (b ∷ bs) (buy, buys) =
    rw (buy.pays, sum_paid-AreBuysFor args (suc i) rs bs buys)

native_need :
    (native : Bool) (gas gas' total paid values : ℤ)
    → gas ≡ gas'
    → total ≡ paid
    → values ≡ (if native then paid else pos 0)
    → (if native then gas' +ℤ total else gas') ≡ (if native then gas +ℤ values else gas)
native_need true gas gas' total paid values same all sent = ap₂ ◌+ℤ◌ (sym same) (all ∙ sym sent)
native_need false gas gas' total paid values same all sent = sym same

module _ {Data : Type 0} (encode_buy : ℤ → ℤ → Address → Data) where
  -- The value that a list of transactions sends.
  abbrev pub sum_values : List (BundleTransaction Data) → ℤ
  sum_values [] = pos 0
  sum_values (t ∷ ts) = t.value +ℤ sum_values ts

  transactions_lem :
      (curve : Address) (native : Bool) (bs : List PlannedBuy)
      → let ts = map (transaction_of encode_buy curve native) bs in
        (length ts ≡ length bs)
        × All (λ t. t.to ≡ curve) ts
        × (sum_values ts ≡ (if native then sum_paid bs else pos 0))
  transactions_lem curve true [] = (refl, tt, refl)
  transactions_lem curve false [] = (refl, tt, refl)
  transactions_lem curve true (b ∷ bs) =
      let (count, to, values) = transactions_lem curve true bs in
      (ap suc count, (refl, to), ap (b.amount_in +ℤ◌) values)
  transactions_lem curve false (b ∷ bs) =
      let (count, to, values) = transactions_lem curve false bs in
      (ap suc count, (refl, to), rw values)

  built-some :
      (plan : BundlePlan) (launch : ConfirmedLaunch) {bundle : ExecutableBundle Data}
      → build_bundle_transactions encode_buy plan launch ≡ some bundle
      → (launch.curve_has_code ≡ true)
        × (record {
          curve = launch.curve;
          native = is_native launch.pair_token;
          transactions =
              map (transaction_of encode_buy launch.curve (is_native launch.pair_token)) plan.buys;
        }
            ≡ bundle)
  unfolding build_bundle_transactions
  built-some plan launch built = ground arith

  -- Transactions are built only for a curve that has code, and all go to it. The bundle is native
  -- exactly where the launch's pair token is. It sends the sum of the recipients' amounts for a native
  -- pair token, and nothing for another; and the funding asks for that sum in the quote asset, and for
  -- the gas of each transaction, plus what they send where the pair token is native.
  pub bundle_funding_requirement_covers :
      (args : PlanBundleArgs) (launch : ConfirmedLaunch) (gas_per_buy fee : ℤ) {plan : BundlePlan}
      {bundle : ExecutableBundle Data}
      → plan_bundle args ≡ ok plan
      → build_bundle_transactions encode_buy plan launch ≡ some bundle
      → let need = bundle_funding_requirement plan bundle.native gas_per_buy fee in
        let gas = pos (length bundle.transactions) *ℤ gas_per_buy *ℤ fee in
        (launch.curve_has_code ≡ true)
        × (bundle.native ≡ is_native launch.pair_token)
        × All (λ t. t.to ≡ launch.curve) bundle.transactions
        × (sum_values bundle.transactions
            ≡ (if is_native launch.pair_token then sum_in args.recipients else pos 0))
        × (need.quote_asset ≡ sum_in args.recipients)
        × (need.native_for_gas
            ≡ (if is_native launch.pair_token then gas +ℤ sum_values bundle.transactions else gas))
  unfolding build_bundle_transactions bundle_funding_requirement
  bundle_funding_requirement_covers args launch gas_per_buy fee {plan} h built =
      let (code, same) = built-some plan launch built in
      let native = is_native launch.pair_token in
      let (count, to, values) = transactions_lem launch.curve native plan.buys in
      let planned = plan_bundle-IsPlanFor args h in
      let paid = sum_paid-AreBuysFor args 0 args.recipients plan.buys planned.buys_for in
      let sent = rw paid at values in
      let gas = λ (n : ℕ). pos n *ℤ gas_per_buy *ℤ fee in
      rw (sym same) (
        code,
        refl,
        to,
        sent,
        planned.all_in,
        native_need native _ _ plan.total_in (sum_in args.recipients) _ (ap gas count)
            planned.all_in sent,
      )
