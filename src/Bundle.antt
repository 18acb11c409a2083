-- ===== src/Bundle.antt =====
-- The whitelist bundle planner: packages/pons/src/trade/bundle.ts. The messages of refusals and
-- warnings are left out.
pub mod Execution
pub mod InTurn
pub mod Planned
pub mod Allocation
pub mod Funding
use stunks.Prelude.{
  ℕ, zero, suc, ◌+◌, Bool, true, false, not, Option, none, some, List, [], ◌∷◌, ◌++◌, map, length,
  Result, ok, err, ◌>>=◌, ltb, if◌then◌else◌,
}
use stunks.Prelude.Int.{ℤ, pos, ◌+ℤ◌, ◌-ℤ◌, ◌*ℤ◌, leb_ℤ}
use stunks.Prelude.Text.{Text, lower, text_eq, has}
use stunks.Money.{Fault, Fallible, snipe_tax_not_modellable, apply_slippage_floor}
use stunks.Curve.{CurveBuyMathInput, CurveBuyMathResult, compute_curve_buy}
use stunks.Graduation.{Address}

pub record BundleRecipient : Type 0 where
  pub address : Address
  pub amount_in : ℤ

pub record PlanBundleArgs : Type 0 where
  pub recipients : List BundleRecipient
  pub pricing_quote_reserve : ℤ
  pub token_reserve : ℤ
  pub reserved_tokens : ℤ
  pub fee_bps : ℤ
  pub creator_tax_bps : ℤ
  pub slippage_bps : ℤ
  pub exempt_addresses : List Address

pub record PlannedBuy : Type 0 where
  pub recipient : Address
  pub amount_in : ℤ
  pub expected_out : ℤ
  pub min_out : ℤ
  pub order : ℕ

-- A buy that is filled in part, by its place, and a bundle that is long, by its length.
pub data BundleWarning : Type 0 where
  filled_in_part many_transactions : ℕ → BundleWarning

pub record BundlePlan : Type 0 where
  pub buys : List PlannedBuy
  pub total_in : ℤ
  pub total_expected_out : ℤ
  pub warnings : List BundleWarning

pub data BundleRefusal : Type 0 where
  no_recipients too_many_recipients duplicate_recipient not_exempt zero_amount : BundleRefusal
  exceeds_curve_allocation not_modellable : BundleRefusal

-- The planner answers with a refusal, or throws what `applySlippageFloor` throws.
pub data PlanFailure : Type 0 where
  refused : BundleRefusal → PlanFailure
  thrown : Fault → PlanFailure

abbrev pub max_bundle_recipients : ℕ
max_bundle_recipients = 31

-- The loop over the recipients that fills `seen`.
unfoldable pub check_recipients : List Text → List BundleRecipient → Option BundleRefusal
unfolding has
check_recipients seen [] = none
check_recipients seen (r ∷ rs) =
    if has (lower r.address) seen
    then some duplicate_recipient
    else if leb_ℤ r.amount_in (pos 0)
    then some zero_amount
    else check_recipients (lower r.address ∷ seen) rs

-- The loop over the recipients with the set `exempt`.
unfoldable pub check_exempt : List Text → List BundleRecipient → Option BundleRefusal
unfolding has
check_exempt exempt [] = none
check_exempt exempt (r ∷ rs) =
    if not (has (lower r.address) exempt) then some not_exempt else check_exempt exempt rs

-- The input that the planner prices every buy with.
abbrev pub step_input : PlanBundleArgs → ℤ → ℤ → BundleRecipient → CurveBuyMathInput
step_input args quote_reserve token_reserve r = record {
  quote_in = r.amount_in;
  pricing_quote_reserve = quote_reserve;
  token_reserve = token_reserve;
  fee_bps = args.fee_bps;
  creator_tax_bps = args.creator_tax_bps;
  snipe_tax_bps = pos 0;
  reserved_tokens = args.reserved_tokens;
}

abbrev pub net_in : CurveBuyMathResult → ℤ
net_in step = step.spent -ℤ step.fee_amount -ℤ step.creator_tax_amount -ℤ step.snipe_tax_amount

-- The two `catch`es around a priced buy.
abbrev pub priced : {A : Type 0} → Fallible A → Result BundleRefusal A
priced (ok a) = ok a
priced (err (snipe_tax_not_modellable f c s)) = err not_modellable
priced (err _) = err exceeds_curve_allocation

abbrev pub fits : {A : Type 0} → Fallible A → Result BundleRefusal A
fits (ok a) = ok a
fits (err _) = err exceeds_curve_allocation

abbrev pub partly : CurveBuyMathResult → ℕ → List BundleWarning
partly step index = if step.partial_fill then filled_in_part index ∷ [] else []

-- The loop that prices the buys in order, from the recipient `index` on.
unfoldable pub price_in_order :
    PlanBundleArgs → ℕ → ℤ → ℤ → List BundleRecipient → Result BundleRefusal BundlePlan
price_in_order args index quote_reserve token_reserve [] =
    ok (record { buys = []; total_in = pos 0; total_expected_out = pos 0; warnings = [] })
price_in_order args index quote_reserve token_reserve (r ∷ rs) = do
  step ← priced (compute_curve_buy (step_input args quote_reserve token_reserve r))
  rest ←
      price_in_order args (suc index) (quote_reserve +ℤ net_in step)
        (token_reserve -ℤ step.tokens_out) rs
  ok (record {
    buys =
        record {
          recipient = r.address;
          amount_in = r.amount_in;
          expected_out = step.tokens_out;
          min_out = pos 0;
          order = index;
        }
        ∷ rest.buys;
    total_in = r.amount_in +ℤ rest.total_in;
    total_expected_out = step.tokens_out +ℤ rest.total_expected_out;
    warnings = partly step index ++ rest.warnings;
  })

-- The reserves after every recipient but `target` has bought.
unfoldable pub after_others :
    PlanBundleArgs → BundleRecipient → ℤ → ℤ → List BundleRecipient → Fallible (ℤ × ℤ)
after_others args target quote_reserve token_reserve [] = ok (quote_reserve, token_reserve)
after_others args target quote_reserve token_reserve (other ∷ others) =
    elim (text_eq (lower other.address) (lower target.address)) [
      | true ↦ after_others args target quote_reserve token_reserve others
      | false ↦ do
        step ← compute_curve_buy (step_input args quote_reserve token_reserve other)
        after_others args target (quote_reserve +ℤ net_in step) (token_reserve -ℤ step.tokens_out)
            others
    ]

-- What `target` is given when it lands last.
unfoldable pub landing_last : PlanBundleArgs → BundleRecipient → Fallible CurveBuyMathResult
unfolding after_others
landing_last args target = do
  moved ← after_others args target args.pricing_quote_reserve args.token_reserve args.recipients
  compute_curve_buy (step_input args moved.0 moved.1 target)

-- `worstCaseFloors`, for the targets still to come.
unfoldable pub worst_case_floors :
    PlanBundleArgs → List BundleRecipient → Result BundleRefusal (List ℤ)
unfolding landing_last
worst_case_floors args [] = ok []
worst_case_floors args (target ∷ targets) = do
  step ← fits (landing_last args target)
  rest ← worst_case_floors args targets
  ok (step.tokens_out ∷ rest)

-- The buys with their floors.
unfoldable pub with_floors : ℤ → List PlannedBuy → List ℤ → Fallible (List PlannedBuy)
with_floors slippage_bps [] floors = ok []
with_floors slippage_bps (buy ∷ buys) [] = do
  min_out ← apply_slippage_floor (pos 0) slippage_bps
  rest ← with_floors slippage_bps buys []
  ok (record buy { min_out = min_out } ∷ rest)
with_floors slippage_bps (buy ∷ buys) (floor ∷ floors) = do
  min_out ← apply_slippage_floor floor slippage_bps
  rest ← with_floors slippage_bps buys floors
  ok (record buy { min_out = min_out } ∷ rest)

abbrev pub refusing : {A : Type 0} → Result BundleRefusal A → Result PlanFailure A
refusing (ok a) = ok a
refusing (err refusal) = err (refused refusal)

abbrev pub throwing : {A : Type 0} → Fallible A → Result PlanFailure A
throwing (ok a) = ok a
throwing (err fault) = err (thrown fault)

abbrev pub long_warning : ℕ → List BundleWarning
long_warning count = if ltb 8 count then many_transactions count ∷ [] else []

-- What follows the checks of the recipients.
unfoldable pub priced_plan : PlanBundleArgs → Result PlanFailure BundlePlan
unfolding price_in_order worst_case_floors with_floors
priced_plan args = do
  plan ←
      refusing (price_in_order args 0 args.pricing_quote_reserve args.token_reserve args.recipients)
  floors ← refusing (worst_case_floors args args.recipients)
  buys ← throwing (with_floors args.slippage_bps plan.buys floors)
  ok (record plan {
    buys = buys;
    warnings = plan.warnings ++ long_warning (length args.recipients);
  })

abbrev pub unless :
    Option BundleRefusal → Result PlanFailure BundlePlan → Result PlanFailure BundlePlan
unless none plan = plan
unless (some refusal) plan = err (refused refusal)

-- The tests on the number of recipients.
abbrev pub check_count : List BundleRecipient → Option BundleRefusal
check_count [] = some no_recipients
check_count (r ∷ rs) =
    if ltb max_bundle_recipients (length (r ∷ rs)) then some too_many_recipients else none

unfoldable pub plan_bundle : PlanBundleArgs → Result PlanFailure BundlePlan
unfolding check_recipients check_exempt priced_plan
plan_bundle args = unless (check_count args.recipients) (
    unless (check_recipients [] args.recipients)
      (unless (check_exempt (map lower args.exempt_addresses) args.recipients) (priced_plan args)))
