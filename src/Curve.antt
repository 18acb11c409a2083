-- ===== src/Curve.antt =====
-- Bonding-curve pricing: packages/pons/src/curve/math.ts. Every amount is a `bigint`.
pub mod Product
pub mod Out
pub mod Buy
pub mod Fair
pub mod Sell
pub mod Price
use stunks.Prelude.{Bool, true, false, ok, err, ◌>>=◌, if◌then◌else◌, ◌||◌}
use stunks.Prelude.Int.{ℤ, pos, ◌+ℤ◌, ◌-ℤ◌, ◌*ℤ◌, ◌/ℤ◌, ltb_ℤ, leb_ℤ, is_zero}
use stunks.Money.{
  Fault, Fallible, amount_in_not_positive, amount_out_not_positive, reserves_too_small,
  output_exceeds_reserve, fee_consumes_trade, quote_in_not_positive, tokens_in_not_positive,
  no_sellable_allocation, degenerate_economics, division_by_zero, snipe_tax_not_modellable,
  basis_points, apply_bps, bigint_min, ceil_div, mul_div,
}

-- A `bigint` division by zero throws; only a fee above 100% can bring it about.
unfoldable pub get_amount_out : ℤ → ℤ → ℤ → ℤ → Fallible ℤ
get_amount_out amount_in reserve_in reserve_out fee_bps =
    if leb_ℤ amount_in (pos 0)
    then err amount_in_not_positive
    else if leb_ℤ reserve_in (pos 0) || leb_ℤ reserve_out (pos 0)
    then err reserves_too_small
    else let amount_in_with_fee = amount_in *ℤ (basis_points -ℤ fee_bps) in
      let numerator = amount_in_with_fee *ℤ reserve_out in
      let denominator = reserve_in *ℤ basis_points +ℤ amount_in_with_fee in
      if is_zero denominator then err division_by_zero else ok (numerator /ℤ denominator)

unfoldable pub quote_amount_out : ℤ → ℤ → ℤ → ℤ → ℤ
quote_amount_out amount_in reserve_in reserve_out fee_bps =
    if leb_ℤ amount_in (pos 0)
      || leb_ℤ reserve_in (pos 0)
      || leb_ℤ reserve_out (pos 0)
      || leb_ℤ basis_points fee_bps
    then pos 0
    else let amount_in_with_fee = amount_in *ℤ (basis_points -ℤ fee_bps) in
      amount_in_with_fee *ℤ reserve_out /ℤ (reserve_in *ℤ basis_points +ℤ amount_in_with_fee)

unfoldable pub get_amount_in : ℤ → ℤ → ℤ → ℤ → Fallible ℤ
get_amount_in amount_out reserve_in reserve_out fee_bps =
    if leb_ℤ amount_out (pos 0)
    then err amount_out_not_positive
    else if leb_ℤ reserve_in (pos 0) || leb_ℤ reserve_out amount_out
    then err output_exceeds_reserve
    else if leb_ℤ basis_points fee_bps
    then err fee_consumes_trade
    else let numerator = amount_out *ℤ reserve_in *ℤ basis_points in
      let denominator = (reserve_out -ℤ amount_out) *ℤ (basis_points -ℤ fee_bps) in
      ok (numerator /ℤ denominator +ℤ pos 1)

pub record CurveBuyMathInput : Type 0 where
  pub quote_in : ℤ
  pub pricing_quote_reserve : ℤ
  pub token_reserve : ℤ
  pub fee_bps : ℤ
  pub creator_tax_bps : ℤ
  pub snipe_tax_bps : ℤ  -- 0 where the caller leaves it out
  pub reserved_tokens : ℤ  -- 0 where the caller leaves it out

pub record CurveBuyMathResult : Type 0 where
  pub tokens_out : ℤ
  pub spent : ℤ
  pub refund : ℤ
  pub fee_amount : ℤ
  pub creator_tax_amount : ℤ
  pub snipe_tax_amount : ℤ
  pub partial_fill : Bool

-- The block under `if (tokensOut > sellable)`, with the `return` that follows it.
unfoldable pub clamped_fill : CurveBuyMathInput → ℤ → ℤ → Fallible CurveBuyMathResult
clamped_fill input total_tax_bps sellable = do
  net ← get_amount_in sellable input.pricing_quote_reserve input.token_reserve (pos 0)
  gross ← ceil_div (net *ℤ basis_points) (basis_points -ℤ total_tax_bps)
  let spent = bigint_min gross input.quote_in
  fee_amount ← apply_bps spent input.fee_bps
  creator_tax_amount ← apply_bps spent input.creator_tax_bps
  snipe_tax_amount ← apply_bps spent input.snipe_tax_bps
  ok (record {
    tokens_out = sellable;
    spent = spent;
    refund = input.quote_in -ℤ spent;
    fee_amount = fee_amount;
    creator_tax_amount = creator_tax_amount;
    snipe_tax_amount = snipe_tax_amount;
    partial_fill = true;
  })

unfoldable pub sellable_of : CurveBuyMathInput → ℤ
sellable_of input =
    if ltb_ℤ input.reserved_tokens input.token_reserve
    then input.token_reserve -ℤ input.reserved_tokens
    else pos 0

-- What follows the two guards of `computeCurveBuy`.
unfoldable pub fill : CurveBuyMathInput → ℤ → Fallible CurveBuyMathResult
fill input total_tax_bps = do
  let spent = input.quote_in
  fee_amount ← apply_bps spent input.fee_bps
  creator_tax_amount ← apply_bps spent input.creator_tax_bps
  snipe_tax_amount ← apply_bps spent input.snipe_tax_bps
  tokens_out ←
      get_amount_out (spent -ℤ fee_amount -ℤ creator_tax_amount -ℤ snipe_tax_amount)
        input.pricing_quote_reserve input.token_reserve (pos 0)
  let sellable = sellable_of input
  if is_zero sellable
      then err no_sellable_allocation
      else if ltb_ℤ sellable tokens_out
      then clamped_fill input total_tax_bps sellable
      else ok (record {
        tokens_out = tokens_out;
        spent = spent;
        refund = input.quote_in -ℤ spent;
        fee_amount = fee_amount;
        creator_tax_amount = creator_tax_amount;
        snipe_tax_amount = snipe_tax_amount;
        partial_fill = false;
      })

unfoldable pub compute_curve_buy : CurveBuyMathInput → Fallible CurveBuyMathResult
compute_curve_buy input =
    if leb_ℤ input.quote_in (pos 0)
    then err quote_in_not_positive
    else let total_tax_bps = input.fee_bps +ℤ input.creator_tax_bps +ℤ input.snipe_tax_bps in
      if leb_ℤ basis_points total_tax_bps
      then err (snipe_tax_not_modellable input.fee_bps input.creator_tax_bps input.snipe_tax_bps)
      else fill input total_tax_bps

pub record CurveSellMathInput : Type 0 where
  pub tokens_in : ℤ
  pub pricing_quote_reserve : ℤ
  pub token_reserve : ℤ
  pub fee_bps : ℤ
  pub creator_tax_bps : ℤ

pub record CurveSellMathResult : Type 0 where
  pub quote_out : ℤ
  pub gross_quote_out : ℤ
  pub fee_amount : ℤ
  pub creator_tax_amount : ℤ

unfoldable pub compute_curve_sell : CurveSellMathInput → Fallible CurveSellMathResult
compute_curve_sell input = if leb_ℤ input.tokens_in (pos 0) then err tokens_in_not_positive else (do
  gross ← get_amount_out input.tokens_in input.token_reserve input.pricing_quote_reserve (pos 0)
  fee_amount ← apply_bps gross input.fee_bps
  creator_tax_amount ← apply_bps gross input.creator_tax_bps
  ok (record {
    quote_out = gross -ℤ fee_amount -ℤ creator_tax_amount;
    gross_quote_out = gross;
    fee_amount = fee_amount;
    creator_tax_amount = creator_tax_amount;
  }))

unfoldable pub compute_reserved_tokens : ℤ → ℤ → ℤ → Fallible ℤ
unfolding mul_div
compute_reserved_tokens supply phantom_quote graduation_threshold =
    if is_zero (phantom_quote +ℤ graduation_threshold)
    then err degenerate_economics
    else mul_div supply phantom_quote (phantom_quote +ℤ graduation_threshold)

unfoldable pub compute_price_impact_bps : ℤ → ℤ → ℤ → ℤ
compute_price_impact_bps amount_in reserve_in reserve_out =
    if leb_ℤ amount_in (pos 0) || leb_ℤ reserve_in (pos 0) || leb_ℤ reserve_out (pos 0)
    then pos 0
    else let amount_out = quote_amount_out amount_in reserve_in reserve_out (pos 0) in
      let spot_numerator = reserve_in *ℤ amount_out in
      let effective_numerator = amount_in *ℤ reserve_out in
      if is_zero amount_out
      then pos 0
      else if leb_ℤ effective_numerator spot_numerator
      then pos 0
      else (effective_numerator -ℤ spot_numerator) *ℤ basis_points /ℤ spot_numerator
