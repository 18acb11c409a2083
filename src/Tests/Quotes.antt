-- ===== src/Tests/Quotes.antt =====
-- A quote for a buy after the anti-snipe window.
use stunks.Prelude.{◌≡◌, refl, false, none, some, [], ◌∷◌, ok}
use stunks.Prelude.Int.{pos, leb_ℤ}
use stunks.Money.{apply_slippage_floor}
use stunks.Bundle.Execution.{zeros}
use stunks.Quote.{
  CurveState, QuoteBuyArgs, CurveContract, Quote, Quoted, buy_side, simulation, quote_buy,
}
use stunks.Quote.Bought.{IsFrom, quote_buy-IsQuote}

abbrev pub state : CurveState
state = record {
  curve = 97 ∷ [];
  token = 98 ∷ [];
  pair_token = 48 ∷ 120 ∷ zeros 40;
  pricing_quote_reserve = pos 1680;
  real_quote_reserve = pos 0;
  token_reserve = pos 1_000_000;
  phantom_quote = pos 1680;
  reserved_tokens = pos 285_714;
  sellable_tokens = pos 714_286;
  graduation_threshold = pos 4200;
  fee_bps = pos 100;
  creator_tax_bps = pos 200;
  is_graduated = false;
  is_ready_to_graduate = false;
  launched_at = pos 1000;
  snipe_tax_start_bps = pos 9900;
  snipe_tax_seconds = pos 3;
}

abbrev pub args : QuoteBuyArgs
args = record {
  state = state;
  quote_in = pos 1000;
  slippage_bps = pos 100;
  recipient = 99 ∷ [];
  now_seconds = pos 2000;
  payer = none;
}

abbrev pub contract : CurveContract
contract = record {
  tax_of = λ recipient. some (false, pos 0);
  simulate = λ quote_in value recipient account. none;
}

abbrev pub quote_of : Quoted → Quote
quote_of (ok (ok quote)) = quote
quote_of _ = record {
  side = buy_side;
  source = simulation;
  amount_in = pos 0;
  amount_out = pos 0;
  min_amount_out = pos 0;
  fee_amount = pos 0;
  creator_tax_amount = pos 0;
  snipe_tax_amount = pos 0;
  snipe_tax_bps = pos 0;
  recipient_exempt = false;
  price_impact_bps = pos 0;
  partial_fill = false;
}

abbrev pub quoted : Quote
quoted = quote_of (quote_buy contract args)

bought : quote_buy contract args ≡ ok (ok quoted)
unfolding quote_buy stunks.Curve.fill stunks.Curve.get_amount_out stunks.Curve.sellable_of
bought = refl

quote_buy-IsQuote_example :
    (leb_ℤ args.quote_in (pos 0) ≡ false)
    × (state.is_graduated ≡ false)
    × (state.is_ready_to_graduate ≡ false)
    × (contract.tax_of args.recipient ≡ some (quoted.recipient_exempt, quoted.snipe_tax_bps))
    × IsFrom contract args quoted.recipient_exempt quoted.snipe_tax_bps quoted.source
        quoted.amount_out
    × (quoted.amount_in ≡ args.quote_in)
    × (apply_slippage_floor quoted.amount_out args.slippage_bps ≡ ok quoted.min_amount_out)
quote_buy-IsQuote_example = quote_buy-IsQuote contract args quoted bought
