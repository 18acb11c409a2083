-- ===== src/Bundle/Planned.antt =====
-- What a plan of `planBundle` holds: the checks it has passed, its buys, its floors and its totals.
use stunks.Prelude.{
  ℕ, suc, ◌≤◌, ◌<◌, ◌≡◌, refl, true, false, Option, none, some, List, [], ◌∷◌, map, length, Result,
  ok, err, ◌∙◌, ap, sym, ok-injective, >>=-returned, arith, All,
}
use stunks.Prelude.Int.{ℤ, pos, ◌+ℤ◌, ◌-ℤ◌, leb_ℤ}
use stunks.Prelude.Text.{Text, lower, has}
use stunks.Money.{Fallible, apply_slippage_floor}
use stunks.Curve.{CurveBuyMathResult, compute_curve_buy}
use stunks.Bundle.InTurn.{
  buy_at, Moves, others_than, Fills, fits-returned, after_others-Moves, price_in_order-Fills,
  with_floors-Fills,
}
use stunks.Bundle.{
  BundleRecipient, PlanBundleArgs, PlannedBuy, BundlePlan, BundleRefusal, PlanFailure,
  check_recipients, check_exempt, check_count, step_input, net_in, priced, fits, price_in_order,
  after_others, landing_last, worst_case_floors, with_floors, refusing, throwing, unless,
  priced_plan, plan_bundle,
}

-- The buy for the recipient `r` at the place `i`, with the floor that its price gives when it lands
-- after every other buy of the bundle.
pub record IsBuyFor (args : PlanBundleArgs) (i : ℕ) (r : BundleRecipient) (buy : PlannedBuy)
    : Type 0 where
  pub to_recipient : buy.recipient ≡ r.address
  pub pays : buy.amount_in ≡ r.amount_in
  pub at_place : buy.order ≡ i
  pub worst : CurveBuyMathResult
  pub quote_then : ℤ
  pub tokens_then : ℤ
  pub others_bought :
      Moves args args.pricing_quote_reserve args.token_reserve
        (others_than r args.recipients)
        quote_then
        tokens_then
  pub last : compute_curve_buy (buy_at args quote_then tokens_then r) ≡ ok worst
  pub floor : apply_slippage_floor worst.tokens_out args.slippage_bps ≡ ok buy.min_out

-- A buy for each recipient, in order, from the place `i` on.
abbrev pub AreBuysFor : PlanBundleArgs → ℕ → List BundleRecipient → List PlannedBuy → Type 0
AreBuysFor args i [] [] = Unit
AreBuysFor args i [] (b ∷ bs) = ⊥
AreBuysFor args i (r ∷ rs) [] = ⊥
AreBuysFor args i (r ∷ rs) (b ∷ bs) = IsBuyFor args i r b × AreBuysFor args (suc i) rs bs

-- The same without the floors.
abbrev pub AreOrdered : ℕ → List BundleRecipient → List PlannedBuy → Type 0
AreOrdered i [] [] = Unit
AreOrdered i [] (b ∷ bs) = ⊥
AreOrdered i (r ∷ rs) [] = ⊥
AreOrdered i (r ∷ rs) (b ∷ bs) =
    (b.recipient ≡ r.address)
    × (b.amount_in ≡ r.amount_in)
    × (b.order ≡ i)
    × AreOrdered (suc i) rs bs

abbrev pub sum_in : List BundleRecipient → ℤ
sum_in [] = pos 0
sum_in (r ∷ rs) = r.amount_in +ℤ sum_in rs

abbrev pub sum_out : List PlannedBuy → ℤ
sum_out [] = pos 0
sum_out (b ∷ bs) = b.expected_out +ℤ sum_out bs

-- No two of the addresses are the same but for case, and none is among `seen`.
abbrev pub AreDistinct : List Text → List BundleRecipient → Type 0
AreDistinct seen [] = Unit
AreDistinct seen (r ∷ rs) =
    (has (lower r.address) seen ≡ false) × AreDistinct (lower r.address ∷ seen) rs

abbrev pub IsPaying : BundleRecipient → Type 0
IsPaying r = leb_ℤ r.amount_in (pos 0) ≡ false

abbrev pub IsAmong : List Text → BundleRecipient → Type 0
IsAmong keys r = has (lower r.address) keys ≡ true

refusing-returned : {A : Type 0} {a : A} (m : Result BundleRefusal A) → refusing m ≡ ok a → m ≡ ok a
refusing-returned (ok a) h = cc
refusing-returned (err e) h = cc

throwing-returned : {A : Type 0} {a : A} (m : Fallible A) → throwing m ≡ ok a → m ≡ ok a
throwing-returned (ok a) h = cc
throwing-returned (err e) h = cc

price_in_order-AreOrdered :
    (args : PlanBundleArgs) (i : ℕ) (q t : ℤ) (rs : List BundleRecipient) (plan : BundlePlan)
    → price_in_order args i q t rs ≡ ok plan
    → AreOrdered i rs plan.buys
      × (plan.total_in ≡ sum_in rs)
      × (plan.total_expected_out ≡ sum_out plan.buys)
unfolding price_in_order
price_in_order-AreOrdered args i q t [] plan h = rw (sym (ok-injective h)) (tt, refl, refl)
price_in_order-AreOrdered args i q t (r ∷ rs) plan h =
    let (step, priced_step, h') =
      >>=-returned (priced (compute_curve_buy (step_input args q t r))) _ h in
    let (rest, priced_rest, h'') =
      >>=-returned (price_in_order args (suc i) (q +ℤ net_in step) (t -ℤ step.tokens_out) rs) _
        h' in
    let (ordered, paid, given) =
      price_in_order-AreOrdered args (suc i) (q +ℤ net_in step) (t -ℤ step.tokens_out) rs rest
        priced_rest in
    rw (sym (ok-injective h''))
      ((refl, refl, refl, ordered), ap (r.amount_in +ℤ◌) paid, ap (step.tokens_out +ℤ◌) given)

with_floors-AreBuysFor :
    (args : PlanBundleArgs) (i : ℕ) (rs : List BundleRecipient) (bs out : List PlannedBuy)
    (floors : List ℤ)
    → AreOrdered i rs bs
    → worst_case_floors args rs ≡ ok floors
    → with_floors args.slippage_bps bs floors ≡ ok out
    → AreBuysFor args i rs out × (sum_out out ≡ sum_out bs)
unfolding worst_case_floors with_floors landing_last
with_floors-AreBuysFor args i [] [] out floors o w h = rw (sym (ok-injective h)) (tt, refl)
with_floors-AreBuysFor args i [] (b ∷ bs) out floors o w h = absurd o
with_floors-AreBuysFor args i (r ∷ rs) [] out floors o w h = absurd o
with_floors-AreBuysFor args i (r ∷ rs) (b ∷ bs) out floors (to, pays, place, o) w h =
    let (worst, fitted, w') = >>=-returned (fits (landing_last args r)) _ w in
    let (moved, others, last) =
      >>=-returned
        (after_others args r args.pricing_quote_reserve args.token_reserve args.recipients) _
        (fits-returned (landing_last args r) fitted) in
    let (more, rest_floors, w'') = >>=-returned (worst_case_floors args rs) _ w' in
    let (m, floored, h') =
      >>=-returned (apply_slippage_floor worst.tokens_out args.slippage_bps) _
        (rw (sym (ok-injective w'')) at h) in
    let (rest, done, h'') = >>=-returned (with_floors args.slippage_bps bs more) _ h' in
    let (buys, same) = with_floors-AreBuysFor args (suc i) rs bs rest more o rest_floors done in
    rw (sym (ok-injective h'')) (
      (
        record {
          to_recipient = to;
          pays = pays;
          at_place = place;
          worst = worst;
          quote_then = moved.0;
          tokens_then = moved.1;
          others_bought = after_others-Moves args r _ _ args.recipients moved others;
          last = last;
          floor = floored;
        },
        buys,
      ),
      ap (b.expected_out +ℤ◌) same,
    )

check_recipients-passed :
    (seen : List Text) (rs : List BundleRecipient)
    → check_recipients seen rs ≡ none
    → AreDistinct seen rs × All IsPaying rs
unfolding check_recipients
check_recipients-passed seen [] h = (tt, tt)
check_recipients-passed seen (r ∷ rs) h =
    ground (arith, check_recipients-passed (lower r.address ∷ seen) rs)

check_exempt-passed :
    (exempt : List Text) (rs : List BundleRecipient)
    → check_exempt exempt rs ≡ none
    → All (IsAmong exempt) rs
unfolding check_exempt
check_exempt-passed exempt [] h = tt
check_exempt-passed exempt (r ∷ rs) h = ground (arith, check_exempt-passed exempt rs)

check_count-passed :
    (rs : List BundleRecipient) → check_count rs ≡ none → (0 < length rs) × (length rs ≤ 31)
check_count-passed [] h = cc
check_count-passed (r ∷ rs) h = ground arith

unless-returned :
    {plan : BundlePlan} (refusal : Option BundleRefusal) (next : Result PlanFailure BundlePlan)
    → unless refusal next ≡ ok plan
    → (refusal ≡ none) × (next ≡ ok plan)
unless-returned none next h = (refl, h)
unless-returned (some refusal) next h = cc

-- The parts that a plan came from.
pub record Parts (args : PlanBundleArgs) (plan : BundlePlan) : Type 0 where
  pub counts : check_count args.recipients ≡ none
  pub fresh : check_recipients [] args.recipients ≡ none
  pub among : check_exempt (map lower args.exempt_addresses) args.recipients ≡ none
  pub in_order : BundlePlan
  pub floors : List ℤ
  pub ordered :
      price_in_order args 0 args.pricing_quote_reserve args.token_reserve args.recipients
      ≡ ok in_order
  pub worst : worst_case_floors args args.recipients ≡ ok floors
  pub floored : with_floors args.slippage_bps in_order.buys floors ≡ ok plan.buys
  pub same_in : plan.total_in ≡ in_order.total_in
  pub same_out : plan.total_expected_out ≡ in_order.total_expected_out

pub plan_bundle-Parts :
    (args : PlanBundleArgs) {plan : BundlePlan} → plan_bundle args ≡ ok plan → Parts args plan
unfolding plan_bundle priced_plan
plan_bundle-Parts args h =
    let rs = args.recipients in
    let (counts, h₁) = unless-returned (check_count rs) _ h in
    let (fresh, h₂) = unless-returned (check_recipients [] rs) _ h₁ in
    let (among, h₃) = unless-returned (check_exempt (map lower args.exempt_addresses) rs) _ h₂ in
    let (in_order, ordered, h₄) = >>=-returned (refusing (price_in_order args 0 _ _ rs)) _ h₃ in
    let (floors, worst, h₅) = >>=-returned (refusing (worst_case_floors args rs)) _ h₄ in
    let (buys, floored, h₆) =
      >>=-returned (throwing (with_floors args.slippage_bps in_order.buys floors)) _ h₅ in
    rw (sym (ok-injective h₆)) (record {
      counts = counts;
      fresh = fresh;
      among = among;
      in_order = in_order;
      floors = floors;
      ordered = refusing-returned _ ordered;
      worst = refusing-returned _ worst;
      floored = throwing-returned _ floored;
      same_in = refl;
      same_out = refl;
    })

-- What a plan holds.
pub record IsPlanFor (args : PlanBundleArgs) (plan : BundlePlan) : Type 0 where
  pub counted : (0 < length args.recipients) × (length args.recipients ≤ 31)
  pub distinct : AreDistinct [] args.recipients
  pub paying : All IsPaying args.recipients
  pub exempt : All (IsAmong (map lower args.exempt_addresses)) args.recipients
  pub buys_for : AreBuysFor args 0 args.recipients plan.buys
  pub in_turn : Fills args args.pricing_quote_reserve args.token_reserve args.recipients plan.buys
  pub all_in : plan.total_in ≡ sum_in args.recipients
  pub all_out : plan.total_expected_out ≡ sum_out plan.buys

-- A plan is given only for 1 to 31 recipients, no two with the same address but for case, each with a
-- positive amount and each exempt. It has a buy for each recipient, in their order, which expects what
-- the curve gives at the reserves that the buys before it leave, and whose floor is the slippage floor of what the recipient is given by the curve at the reserves that the buys of all the
-- others leave, in their order; and its totals are the sums of the amounts and of the expected outputs.
pub plan_bundle-IsPlanFor :
    (args : PlanBundleArgs) {plan : BundlePlan} → plan_bundle args ≡ ok plan → IsPlanFor args plan
plan_bundle-IsPlanFor args {plan} h =
    let rs = args.recipients in
    let parts = plan_bundle-Parts args h in
    let (ordered, paid, given) =
      price_in_order-AreOrdered args 0 args.pricing_quote_reserve args.token_reserve rs
        parts.in_order parts.ordered in
    let (buys_for, same) =
      with_floors-AreBuysFor args 0 rs parts.in_order.buys _ parts.floors ordered parts.worst
        parts.floored in
    let (distinct, paying) = check_recipients-passed [] rs parts.fresh in
    record {
      counted = check_count-passed rs parts.counts;
      distinct = distinct;
      paying = paying;
      exempt = check_exempt-passed _ rs parts.among;
      buys_for = buys_for;
      in_turn =
          with_floors-Fills args _ _ rs parts.in_order.buys plan.buys parts.floors parts.floored
            (price_in_order-Fills args 0 _ _ rs parts.in_order parts.ordered);
      all_in = parts.same_in ∙ paid;
      all_out = parts.same_out ∙ given ∙ sym same;
    }
