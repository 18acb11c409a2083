-- ===== src/Tests/Service.antt =====
-- A buy that is prepared on a native launch.
use stunks.Prelude.{◌≡◌, refl, true, false, none, some, [], ◌∷◌, ok}
use stunks.Prelude.Int.{ℤ, pos, ltb_ℤ, leb_ℤ}
use stunks.Money.{apply_slippage_floor}
use stunks.Graduation.{not_graduated, LaunchedToken}
use stunks.Quote.{CurveState, buy_side}
use stunks.Tests.Quotes.{state, contract, quoted}
use stunks.TradeService.{
  Encoding, PreparedTrade, PrepareTradeArgs, Chain, Prepared, min_slippage_bps, max_slippage_bps,
  prepare_trade,
}
use stunks.TradeService.Built.{Pays, IsQuoted}
use stunks.TradeService.Prepared.{prepare_trade-IsPrepared}

abbrev encoding : Encoding ℤ
encoding = record {
  buy = λ amount least recipient. least;
  sell = λ amount least recipient. amount;
  approve = λ spender amount. amount;
}

abbrev launch : LaunchedToken
launch = record {
  token = 98 ∷ [];
  curve = 97 ∷ [];
  deployer = 99 ∷ [];
  creator_fee_recipient = 99 ∷ [];
  pair_token = state.pair_token;
  graduation_threshold = pos 4200;
  pool_fee = pos 0;
  tick_spacing = pos 1;
  creator_tax_bps = pos 200;
  buyback_enabled = false;
  phase = not_graduated;
  swept_quote = pos 0;
  swept_tokens = pos 0;
  swept_at = pos 0;
  exists = true;
}

abbrev chain : Chain
chain = record {
  read_launched_token = λ token. some launch;
  read_curve_state = λ curve. some state;
  pons_addresses = none;
  contract = λ curve. contract;
  block_time = some (pos 2000);
  local_time = pos 0;
}

abbrev args : PrepareTradeArgs
args = record {
  token = 98 ∷ [];
  side = buy_side;
  amount_in = pos 1000;
  slippage_bps = pos 100;
  account = 99 ∷ [];
  recipient = none;
}

abbrev trade_of : Prepared ℤ → PreparedTrade ℤ
trade_of (ok (ok trade)) = trade
trade_of _ = record {
  side = buy_side;
  to = [];
  call = pos 0;
  value = pos 0;
  quote = quoted;
  approval = none;
  warnings = [];
}

abbrev trade : PreparedTrade ℤ
trade = trade_of (prepare_trade encoding chain args)

prepared : prepare_trade encoding chain args ≡ ok (ok trade)
unfolding prepare_trade stunks.Curve.fill stunks.Curve.get_amount_out stunks.Curve.sellable_of
prepared = refl

prepare_trade-IsPrepared_example :
    (leb_ℤ args.amount_in (pos 0) ≡ false)
    × (ltb_ℤ args.slippage_bps min_slippage_bps ≡ false)
    × (ltb_ℤ max_slippage_bps args.slippage_bps ≡ false)
    × (launch : LaunchedToken) × (state : CurveState) × (chain.read_launched_token args.token
        ≡ some launch)
    × (launch.exists ≡ true)
    × (chain.read_curve_state launch.curve ≡ some state)
    × (launch.phase ≡ not_graduated)
    × (trade.side ≡ args.side)
    × (trade.to ≡ launch.curve)
    × IsQuoted encoding chain args state args.side trade.quote
    × (apply_slippage_floor trade.quote.amount_out args.slippage_bps
        ≡ ok trade.quote.min_amount_out)
    × Pays encoding chain args launch state args.side trade
prepare_trade-IsPrepared_example = prepare_trade-IsPrepared encoding chain args trade prepared
