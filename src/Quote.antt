-- ===== src/Quote.antt =====
-- Quotes on the curve: packages/pons/src/curve/quote.ts. The reads of the contract and its simulation
-- are parameters, which are `none` where the call throws. A quote is an error or a quote, and what else
-- the code throws is the outer result.
pub mod Bought
use stunks.Prelude.{
  Bool, true, false, not, ◌||◌, Option, none, some, Result, ok, err, if◌then◌else◌, ◌>>=◌,
}
use stunks.Prelude.Int.{ℤ, pos, ◌-ℤ◌, ltb_ℤ, leb_ℤ}
use stunks.Prelude.Text.{lower, text_eq}
use stunks.Money.{Fault, Fallible, snipe_tax_not_modellable, apply_bps, apply_slippage_floor}
use stunks.Curve.{
  CurveBuyMathInput, CurveBuyMathResult, CurveSellMathResult, compute_curve_buy, compute_curve_sell,
  compute_price_impact_bps,
}
use stunks.SnipeTax.{requires_simulation}
use stunks.Graduation.{Address}
use stunks.Bundle.Execution.{is_native}
use stunks.Exemptions.{zero_address}

pub record CurveState : Type 0 where
  pub curve : Address
  pub token : Address
  pub pair_token : Address
  pub pricing_quote_reserve : ℤ
  pub real_quote_reserve : ℤ
  pub token_reserve : ℤ
  pub phantom_quote : ℤ
  pub reserved_tokens : ℤ
  pub sellable_tokens : ℤ
  pub graduation_threshold : ℤ
  pub fee_bps : ℤ
  pub creator_tax_bps : ℤ
  pub is_graduated : Bool
  pub is_ready_to_graduate : Bool
  pub launched_at : ℤ
  pub snipe_tax_start_bps : ℤ
  pub snipe_tax_seconds : ℤ

pub data QuoteSource : Type 0 where
  local_math simulation : QuoteSource

pub data TradeSide : Type 0 where
  buy_side sell_side : TradeSide

pub data QuoteError : Type 0 where
  no_venue curve_graduated not_a_pons_launch zero_amount : QuoteError
  insufficient_liquidity simulation_reverted rpc_unavailable unsupported_venue : QuoteError

pub record Quote : Type 0 where
  pub side : TradeSide
  pub source : QuoteSource
  pub amount_in : ℤ
  pub amount_out : ℤ
  pub min_amount_out : ℤ
  pub fee_amount : ℤ
  pub creator_tax_amount : ℤ
  pub snipe_tax_amount : ℤ
  pub snipe_tax_bps : ℤ
  pub recipient_exempt : Bool
  pub price_impact_bps : ℤ
  pub partial_fill : Bool

pub record QuoteBuyArgs : Type 0 where
  pub state : CurveState
  pub quote_in : ℤ
  pub slippage_bps : ℤ
  pub recipient : Address
  pub now_seconds : ℤ
  pub payer : Option Address

-- The contract: the exemption and the tax of the recipient, and what `buy` would give for an amount, a
-- value sent with it, a recipient and an account.
pub record CurveContract : Type 0 where
  pub tax_of : Address → Option (Bool × ℤ)
  pub simulate : ℤ → ℤ → Address → Address → Option ℤ

abbrev pub Quoted : Type 0
Quoted = Fallible (Result QuoteError Quote)

abbrev pub refusing : QuoteError → Quoted
refusing e = ok (err e)

abbrev pub buy_input : QuoteBuyArgs → ℤ → CurveBuyMathInput
buy_input args snipe_tax_bps = record {
  quote_in = args.quote_in;
  pricing_quote_reserve = args.state.pricing_quote_reserve;
  token_reserve = args.state.token_reserve;
  fee_bps = args.state.fee_bps;
  creator_tax_bps = args.state.creator_tax_bps;
  snipe_tax_bps = snipe_tax_bps;
  reserved_tokens = args.state.reserved_tokens;
}

-- The `try` around the local math, which may decline.
abbrev pub declining : Fallible CurveBuyMathResult → Result QuoteError (Option CurveBuyMathResult)
declining (ok r) = ok (some r)
declining (err (snipe_tax_not_modellable fee creator snipe)) = ok none
declining (err _) = err insufficient_liquidity

unfoldable pub must_simulate : QuoteBuyArgs → Bool → Bool
unfolding requires_simulation
must_simulate args recipient_exempt =
    requires_simulation args.state.launched_at args.state.snipe_tax_seconds args.now_seconds
      recipient_exempt

unfoldable pub local_buy : QuoteBuyArgs → Bool → ℤ → Result QuoteError (Option CurveBuyMathResult)
unfolding must_simulate compute_curve_buy
local_buy args recipient_exempt snipe_tax_bps =
    if must_simulate args recipient_exempt
    then ok none
    else declining (compute_curve_buy (buy_input args snipe_tax_bps))

abbrev pub given_payer : QuoteBuyArgs → Option Address → Address
given_payer args none = args.recipient
given_payer args (some payer) = payer

unfoldable pub simulate_buy : CurveContract → QuoteBuyArgs → Option ℤ
unfolding is_native text_eq
simulate_buy contract args =
    let payer = given_payer args args.payer in
    contract.simulate args.quote_in
      (if is_native args.state.pair_token then args.quote_in else pos 0) args.recipient
      (if text_eq payer zero_address then args.recipient else payer)

abbrev pub simulated : Option ℤ → Result QuoteError (ℤ × QuoteSource)
simulated none = err simulation_reverted
simulated (some amount) = ok (amount, simulation)

-- Local math is trusted where it gave a result that is not clamped.
abbrev pub amount_of : Option CurveBuyMathResult → Option ℤ → Result QuoteError (ℤ × QuoteSource)
amount_of none answer = simulated answer
amount_of (some r) answer =
    if r.partial_fill then simulated answer else ok (r.tokens_out, local_math)

abbrev pub charged_or :
    Option CurveBuyMathResult → (CurveBuyMathResult → ℤ) → Fallible ℤ → Fallible ℤ
charged_or none part charge = charge
charged_or (some r) part charge = ok (part r)

abbrev pub net_or_zero : Option CurveBuyMathResult → ℤ
net_or_zero none = pos 0
net_or_zero (some r) = r.spent -ℤ r.fee_amount -ℤ r.creator_tax_amount -ℤ r.snipe_tax_amount

abbrev pub is_partial : Option CurveBuyMathResult → Bool
is_partial none = false
is_partial (some r) = r.partial_fill

-- From the amount on.
unfoldable pub priced_quote :
    QuoteBuyArgs
    → Bool
    → ℤ
    → Option CurveBuyMathResult
    → Result QuoteError (ℤ × QuoteSource)
    → Quoted
unfolding apply_bps apply_slippage_floor compute_price_impact_bps
priced_quote args recipient_exempt snipe_tax_bps local (err e) = refusing e
priced_quote args recipient_exempt snipe_tax_bps local (ok (amount_out, source)) = do
  fee_amount ← charged_or local (λ r. r.fee_amount) (apply_bps args.quote_in args.state.fee_bps)
  creator_tax_amount ←
      charged_or local (λ r. r.creator_tax_amount)
        (apply_bps args.quote_in args.state.creator_tax_bps)
  snipe_tax_amount ←
      charged_or local (λ r. r.snipe_tax_amount) (apply_bps args.quote_in snipe_tax_bps)
  min_amount_out ← apply_slippage_floor amount_out args.slippage_bps
  ok (
      ok (record {
        side = buy_side;
        source = source;
        amount_in = args.quote_in;
        amount_out = amount_out;
        min_amount_out = min_amount_out;
        fee_amount = fee_amount;
        creator_tax_amount = creator_tax_amount;
        snipe_tax_amount = snipe_tax_amount;
        snipe_tax_bps = snipe_tax_bps;
        recipient_exempt = recipient_exempt;
        price_impact_bps =
            if ltb_ℤ (pos 0) (net_or_zero local)
            then compute_price_impact_bps (net_or_zero local) args.state.pricing_quote_reserve
                args.state.token_reserve
            else pos 0;
        partial_fill = is_partial local;
      }))

unfoldable pub with_local :
    CurveContract → QuoteBuyArgs → Bool → ℤ → Result QuoteError (Option CurveBuyMathResult) → Quoted
unfolding priced_quote simulate_buy
with_local contract args recipient_exempt snipe_tax_bps (err e) = refusing e
with_local contract args recipient_exempt snipe_tax_bps (ok local) =
    priced_quote args recipient_exempt snipe_tax_bps local
      (amount_of local (simulate_buy contract args))

unfoldable pub with_tax : CurveContract → QuoteBuyArgs → Option (Bool × ℤ) → Quoted
unfolding with_local local_buy
with_tax contract args none = refusing rpc_unavailable
with_tax contract args (some (recipient_exempt, snipe_tax_bps)) =
    with_local contract args recipient_exempt snipe_tax_bps
      (local_buy args recipient_exempt snipe_tax_bps)

unfoldable pub quote_buy : CurveContract → QuoteBuyArgs → Quoted
unfolding with_tax
quote_buy contract args =
    if leb_ℤ args.quote_in (pos 0)
    then refusing zero_amount
    else if args.state.is_graduated || args.state.is_ready_to_graduate
    then refusing curve_graduated
    else with_tax contract args (contract.tax_of args.recipient)

-- From the local math of a sale on.
unfoldable pub sell_quote : CurveState → ℤ → ℤ → Fallible CurveSellMathResult → Quoted
unfolding apply_slippage_floor compute_price_impact_bps
sell_quote state tokens_in slippage_bps (err fault) = refusing insufficient_liquidity
sell_quote state tokens_in slippage_bps (ok r) = do
  min_amount_out ← apply_slippage_floor r.quote_out slippage_bps
  ok (
      ok (record {
        side = sell_side;
        source = local_math;
        amount_in = tokens_in;
        amount_out = r.quote_out;
        min_amount_out = min_amount_out;
        fee_amount = r.fee_amount;
        creator_tax_amount = r.creator_tax_amount;
        snipe_tax_amount = pos 0;
        snipe_tax_bps = pos 0;
        recipient_exempt = false;
        price_impact_bps =
            compute_price_impact_bps tokens_in state.token_reserve state.pricing_quote_reserve;
        partial_fill = false;
      }))

unfoldable pub quote_sell : CurveState → ℤ → ℤ → Quoted
unfolding sell_quote compute_curve_sell
quote_sell state tokens_in slippage_bps =
    if leb_ℤ tokens_in (pos 0)
    then refusing zero_amount
    else if state.is_graduated || state.is_ready_to_graduate
    then refusing curve_graduated
    else sell_quote state tokens_in slippage_bps (
        compute_curve_sell (record {
          tokens_in = tokens_in;
          pricing_quote_reserve = state.pricing_quote_reserve;
          token_reserve = state.token_reserve;
          fee_bps = state.fee_bps;
          creator_tax_bps = state.creator_tax_bps;
        }))
