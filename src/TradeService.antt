-- ===== src/TradeService.antt =====
-- The preparation of a trade: packages/pons/src/trade/service.ts. The reads of the chain, its clock and
-- the encoding of calldata are parameters; a read is `none` where it throws. Messages are left out.
pub mod Built
pub mod Prepared
use stunks.Prelude.{
  Bool, true, false, not, ◌||◌, Option, none, some, List, [], ◌∷◌, ◌++◌, Result, ok, err,
  if◌then◌else◌,
}
use stunks.Prelude.Int.{ℤ, pos, ltb_ℤ, leb_ℤ}
use stunks.Money.{Fault, Fallible, apply_slippage_floor}
use stunks.Graduation.{
  Address, GraduationPhase, not_graduated, swept, pool_created, rescued, LaunchedToken,
  NoVenueReason, swept_awaiting_pool, rescued_terminal, not_a_pons_launch, pool_not_registered,
  TradingVenue, ResolveVenueArgs, curve_venue, uniswap_v4, no_venue, resolve_trading_venue,
  order_pool_currencies,
}
use stunks.Bundle.Execution.{is_native}
use stunks.Quote.{
  CurveState, TradeSide, buy_side, sell_side, Quote, Quoted, QuoteBuyArgs, CurveContract, quote_buy,
  quote_sell,
}

pub data TradeRefusal : Type 0 where
  foreign_token no_trading_venue unsupported_venue quote_failed : TradeRefusal
  zero_amount slippage_out_of_bounds rpc_unavailable : TradeRefusal

pub data TradeWarning : Type 0 where
  high_impact high_slippage inside_snipe_window partly_filled : TradeWarning

-- The calls that are encoded: `buy`, `sell` and `approve`, with their arguments.
pub record Encoding (Data : Type 0) : Type 0 where
  pub buy : ℤ → ℤ → Address → Data
  pub sell : ℤ → ℤ → Address → Data
  pub approve : Address → ℤ → Data

pub record Approval (Data : Type 0) : Type 0 where
  pub token : Address
  pub spender : Address
  pub amount : ℤ
  pub call : Data

pub record PreparedTrade (Data : Type 0) : Type 0 where
  pub side : TradeSide
  pub to : Address
  pub call : Data
  pub value : ℤ
  pub quote : Quote
  pub approval : Option (Approval Data)
  pub warnings : List TradeWarning

pub record PrepareTradeArgs : Type 0 where
  pub token : Address
  pub side : TradeSide
  pub amount_in : ℤ
  pub slippage_bps : ℤ
  pub account : Address
  pub recipient : Option Address

-- The chain: the factory's record of a token, the state of a curve, the addresses of the pool manager
-- and of the hook, the contract of a curve, the time of the last block and that of the local clock.
pub record Chain : Type 0 where
  pub read_launched_token : Address → Option LaunchedToken
  pub read_curve_state : Address → Option CurveState
  pub pons_addresses : Option (Address × Address)
  pub contract : Address → CurveContract
  pub block_time : Option ℤ
  pub local_time : ℤ

abbrev pub min_slippage_bps : ℤ
min_slippage_bps = pos 10

abbrev pub max_slippage_bps : ℤ
max_slippage_bps = pos 5_000

abbrev pub high_slippage_bps : ℤ
high_slippage_bps = pos 1_000

abbrev pub high_impact_bps : ℤ
high_impact_bps = pos 500

-- What is thrown is the outer result, and a refusal the inner one.
abbrev pub Prepared : Type 0 → Type 0
Prepared Data = Fallible (Result TradeRefusal (PreparedTrade Data))

abbrev pub warning_if : Bool → TradeWarning → List TradeWarning
warning_if true w = w ∷ []
warning_if false w = []

unfoldable pub warnings_of : Quote → ℤ → List TradeWarning
warnings_of quote slippage_bps =
    warning_if (ltb_ℤ high_impact_bps quote.price_impact_bps) high_impact
    ++ (warning_if (ltb_ℤ high_slippage_bps slippage_bps) high_slippage
        ++ (warning_if (ltb_ℤ (pos 0) quote.snipe_tax_bps) inside_snipe_window
            ++ warning_if quote.partial_fill partly_filled))

abbrev pub given_recipient : Address → Option Address → Address
given_recipient account none = account
given_recipient account (some recipient) = recipient

abbrev pub recipient_of : PrepareTradeArgs → Address
recipient_of args = given_recipient args.account args.recipient

abbrev pub venue_refusal : NoVenueReason → TradeRefusal
venue_refusal not_a_pons_launch = foreign_token
venue_refusal _ = no_trading_venue

module _ {Data : Type 0} (encoding : Encoding Data) (chain : Chain) (args : PrepareTradeArgs) where
  abbrev pub refusal : TradeRefusal → Prepared Data
  refusal code = ok (err code)

  abbrev pub approval_for : Address → Address → Approval Data
  approval_for token spender = record {
    token = token;
    spender = spender;
    amount = args.amount_in;
    call = encoding.approve spender args.amount_in;
  }

  -- The trade, from its least output on.
  unfoldable pub built_trade :
      LaunchedToken → CurveState → Quote → TradeSide → ℤ → PreparedTrade Data
  unfolding is_native warnings_of
  built_trade launch state quote buy_side min_out = record {
    side = buy_side;
    to = launch.curve;
    call = encoding.buy args.amount_in min_out (recipient_of args);
    value = if is_native state.pair_token then args.amount_in else pos 0;
    quote = quote;
    approval =
        if is_native state.pair_token
        then none
        else some (approval_for state.pair_token launch.curve);
    warnings = warnings_of quote args.slippage_bps;
  }
  built_trade launch state quote sell_side min_out = record {
    side = sell_side;
    to = launch.curve;
    call = encoding.sell args.amount_in min_out (recipient_of args);
    value = pos 0;
    quote = quote;
    approval = some (approval_for args.token launch.curve);
    warnings = warnings_of quote args.slippage_bps;
  }

  abbrev pub with_floor : LaunchedToken → CurveState → Quote → Fallible ℤ → Prepared Data
  with_floor launch state quote (err fault) = err fault
  with_floor launch state quote (ok min_out) =
      ok (ok (built_trade launch state quote args.side min_out))

  -- From the quote on.
  unfoldable pub on_quote : LaunchedToken → CurveState → Quoted → Prepared Data
  unfolding built_trade apply_slippage_floor
  on_quote launch state (err fault) = err fault
  on_quote launch state (ok (err e)) = refusal quote_failed
  on_quote launch state (ok (ok quote)) =
      with_floor launch state quote (apply_slippage_floor quote.amount_out args.slippage_bps)

  -- `nowSeconds`: the time of the block, or of the local clock where it cannot be read.
  abbrev pub now_of : Option ℤ → ℤ
  now_of none = chain.local_time
  now_of (some time) = time

  abbrev pub buy_args : CurveState → QuoteBuyArgs
  buy_args state = record {
    state = state;
    quote_in = args.amount_in;
    slippage_bps = args.slippage_bps;
    recipient = recipient_of args;
    now_seconds = now_of chain.block_time;
    payer = some args.account;
  }

  unfoldable pub quote_for : CurveState → TradeSide → Quoted
  unfolding quote_buy quote_sell
  quote_for state buy_side = quote_buy (chain.contract state.curve) (buy_args state)
  quote_for state sell_side = quote_sell state args.amount_in args.slippage_bps

  -- From the venue on.
  unfoldable pub on_venue : LaunchedToken → CurveState → TradingVenue → Prepared Data
  unfolding on_quote quote_for
  on_venue launch state (no_venue reason) = refusal (venue_refusal reason)
  on_venue launch state (uniswap_v4 pool) = refusal unsupported_venue
  on_venue launch state (curve_venue curve pair_token) =
      on_quote launch state (quote_for state args.side)

  -- The pool's currencies are the token and its pair token, in order.
  abbrev pub pool_args : LaunchedToken → Address → Address → ResolveVenueArgs
  pool_args launch pool_manager meme_hook = record {
    launch = launch;
    pool_manager = pool_manager;
    meme_hook = meme_hook;
    pool_currencies = some (order_pool_currencies args.token launch.pair_token);
  }

  unfoldable pub on_addresses :
      LaunchedToken → CurveState → Option (Address × Address) → Prepared Data
  unfolding on_venue resolve_trading_venue order_pool_currencies
  on_addresses launch state none = refusal rpc_unavailable
  on_addresses launch state (some (pool_manager, meme_hook)) =
      on_venue launch state (resolve_trading_venue (pool_args launch pool_manager meme_hook))

  -- The venue of a launch that has no pool.
  abbrev pub curve_args : LaunchedToken → ResolveVenueArgs
  curve_args launch = record {
    launch = launch;
    pool_manager = launch.curve;
    meme_hook = launch.curve;
    pool_currencies = none;
  }

  unfoldable pub on_curve : LaunchedToken → CurveState → Prepared Data
  unfolding on_venue resolve_trading_venue
  on_curve launch state = on_venue launch state (resolve_trading_venue (curve_args launch))

  abbrev pub on_phase : LaunchedToken → CurveState → GraduationPhase → Prepared Data
  on_phase launch state pool_created = on_addresses launch state chain.pons_addresses
  on_phase launch state not_graduated = on_curve launch state
  on_phase launch state swept = on_curve launch state
  on_phase launch state rescued = on_curve launch state

  abbrev pub on_state : LaunchedToken → Option CurveState → Prepared Data
  on_state launch none = refusal rpc_unavailable
  on_state launch (some state) = on_phase launch state launch.phase

  unfoldable pub on_launch : Option LaunchedToken → Prepared Data
  unfolding on_addresses on_curve
  on_launch none = refusal rpc_unavailable
  on_launch (some launch) =
      if not launch.exists
      then refusal foreign_token
      else on_state launch (chain.read_curve_state launch.curve)

  -- `slippageBps` is a JavaScript number: one that is no integer is refused as one out of range.
  unfoldable pub prepare_trade : Prepared Data
  unfolding on_launch
  prepare_trade =
      if leb_ℤ args.amount_in (pos 0)
      then refusal zero_amount
      else if ltb_ℤ args.slippage_bps min_slippage_bps || ltb_ℤ max_slippage_bps args.slippage_bps
      then refusal slippage_out_of_bounds
      else on_launch (chain.read_launched_token args.token)

-- `needsApproval`, over the allowance that was read.
unfoldable pub needs_approval : ℤ → ℤ → Bool
needs_approval allowance amount = ltb_ℤ allowance amount
