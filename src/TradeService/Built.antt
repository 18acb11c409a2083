-- ===== src/TradeService/Built.antt =====
-- What a trade that is built says, from its venue on.
use stunks.Prelude.{
  ◌≡◌, refl, sym, ap, ◌∙◌, inl, inr, Bool, true, false, ◌||◌, Option, none, some, ok, err,
  Bool-cases, >>=-returned, ok-injective,
}
use stunks.Prelude.Int.{ℤ, pos, leb_ℤ}
use stunks.Money.{Fallible, apply_slippage_floor}
use stunks.Curve.{CurveSellMathResult}
use stunks.Graduation.{Address, LaunchedToken, TradingVenue, curve_venue, uniswap_v4, no_venue}
use stunks.Bundle.Execution.{is_native}
use stunks.Quote.{
  CurveState, TradeSide, buy_side, sell_side, Quote, Quoted, sell_quote, quote_buy, quote_sell,
}
use stunks.Quote.Bought.{quote_buy-IsQuote}
use stunks.TradeService.{
  Approval, given_recipient, now_of, Encoding, PreparedTrade, PrepareTradeArgs, Chain, built_trade,
  with_floor, on_quote, buy_args, quote_for, on_venue,
}

sell_quote-floor :
    (state : CurveState) (tokens_in slippage_bps : ℤ) (sold : Fallible CurveSellMathResult)
    (quote : Quote)
    → sell_quote state tokens_in slippage_bps sold ≡ ok (ok quote)
    → apply_slippage_floor quote.amount_out slippage_bps ≡ ok quote.min_amount_out
unfolding sell_quote
sell_quote-floor state tokens_in slippage_bps (err fault) quote h = cc (ok-injective h)
sell_quote-floor state tokens_in slippage_bps (ok r) quote h =
    let (least, floor, made) = >>=-returned (apply_slippage_floor r.quote_out slippage_bps) _ h in
    let same = ok-injective (ok-injective made) in rw (← same) floor

quote_sell-floor :
    (state : CurveState) (tokens_in slippage_bps : ℤ) (quote : Quote)
    → quote_sell state tokens_in slippage_bps ≡ ok (ok quote)
    → apply_slippage_floor quote.amount_out slippage_bps ≡ ok quote.min_amount_out
unfolding quote_sell
quote_sell-floor state tokens_in slippage_bps quote h =
    elim (Bool-cases (leb_ℤ tokens_in (pos 0))) [
      | inl e ↦ cc (ok-injective (rw e at h))
      | inr positive ↦ elim (Bool-cases (state.is_graduated || state.is_ready_to_graduate)) [
        | inl e ↦ cc (ok-injective (rw (positive, e) at h))
        | inr trading ↦
            sell_quote-floor state tokens_in slippage_bps _ quote (rw (positive, trading) at h)
      ]
    ]

module _ {Data : Type 0} (encoding : Encoding Data) (chain : Chain) (args : PrepareTradeArgs) where
  quote_for-floor :
      (state : CurveState) (side : TradeSide) (quote : Quote)
      → quote_for encoding chain args state side ≡ ok (ok quote)
      → apply_slippage_floor quote.amount_out args.slippage_bps ≡ ok quote.min_amount_out
  unfolding quote_for
  quote_for-floor state buy_side quote h =
      let (_, _, _, _, _, _, floor) =
        quote_buy-IsQuote (chain.contract state.curve) (buy_args encoding chain args state) quote
          h in
      floor
  quote_for-floor state sell_side quote h =
      quote_sell-floor state args.amount_in args.slippage_bps quote h

  -- The recipient that is given, or the account.
  abbrev pub IsRecipient : Option Address → Address → Type 0
  IsRecipient none r = r ≡ args.account
  IsRecipient (some given) r = r ≡ given

  -- The time of the block, or of the local clock where it cannot be read.
  abbrev pub IsNow : Option ℤ → ℤ → Type 0
  IsNow none now = now ≡ chain.local_time
  IsNow (some time) now = now ≡ time

  -- The quote is what `quoteBuy` or `quoteSell` answers for the amount, the slippage and the recipient.
  abbrev pub IsQuoted : CurveState → TradeSide → Quote → Type 0
  IsQuoted state buy_side quote =
      (r : Address) × (now : ℤ) × IsRecipient args.recipient r
      × IsNow chain.block_time now
      × (quote_buy (chain.contract state.curve) (record {
        state = state;
        quote_in = args.amount_in;
        slippage_bps = args.slippage_bps;
        recipient = r;
        now_seconds = now;
        payer = some args.account;
      })
          ≡ ok (ok quote))
  IsQuoted state sell_side quote = quote_sell state args.amount_in args.slippage_bps ≡ ok (ok quote)

  -- The approval of exactly the amount of a token to a spender.
  abbrev pub IsApproval : Address → Address → Option (Approval Data) → Type 0
  IsApproval token spender approval =
      approval
      ≡ some (record {
        token = token;
        spender = spender;
        amount = args.amount_in;
        call = encoding.approve spender args.amount_in;
      })

  given_recipient-IsRecipient :
      (given : Option Address) → IsRecipient given (given_recipient args.account given)
  given_recipient-IsRecipient none = refl
  given_recipient-IsRecipient (some r) = refl

  now_of-IsNow : (time : Option ℤ) → IsNow time (now_of encoding chain args time)
  now_of-IsNow none = refl
  now_of-IsNow (some time) = refl

  pub quote_for-IsQuoted :
      (state : CurveState) (side : TradeSide) (quote : Quote)
      → quote_for encoding chain args state side ≡ ok (ok quote)
      → IsQuoted state side quote
  unfolding quote_for
  quote_for-IsQuoted state buy_side quote h =
      (_, _, given_recipient-IsRecipient args.recipient, now_of-IsNow chain.block_time, h)
  quote_for-IsQuoted state sell_side quote h = h

  -- What is sent with a trade, and what is to be approved before it.
  abbrev pub Pays : LaunchedToken → CurveState → TradeSide → PreparedTrade Data → Type 0
  Pays launch state buy_side trade =
      (r : Address) × IsRecipient args.recipient r
      × (trade.call ≡ encoding.buy args.amount_in trade.quote.min_amount_out r)
      × ((is_native state.pair_token ≡ true)
          → (trade.value ≡ args.amount_in) × (trade.approval ≡ none))
      × ((is_native state.pair_token ≡ false)
          → (trade.value ≡ pos 0) × IsApproval state.pair_token launch.curve trade.approval)
  Pays launch state sell_side trade =
      (r : Address) × IsRecipient args.recipient r
      × (trade.call ≡ encoding.sell args.amount_in trade.quote.min_amount_out r)
      × (trade.value ≡ pos 0)
      × IsApproval args.token launch.curve trade.approval

  module _ (launch : LaunchedToken) (state : CurveState) where
    built_trade-Pays :
        (side : TradeSide) (quote : Quote)
        → Pays launch state side
            (built_trade encoding chain args launch state quote side quote.min_amount_out)
    unfolding built_trade
    built_trade-Pays buy_side quote = (
      _,
      given_recipient-IsRecipient args.recipient,
      refl,
      λ e. rw e (refl, refl),
      λ e. rw e (refl, refl),
    )
    built_trade-Pays sell_side quote =
        (_, given_recipient-IsRecipient args.recipient, refl, refl, refl)

    built_trade_has :
        (side : TradeSide) (quote : Quote) (least : ℤ)
        → let trade = built_trade encoding chain args launch state quote side least in
          (trade.side ≡ side) × (trade.to ≡ launch.curve) × (trade.quote ≡ quote)
    unfolding built_trade
    built_trade_has buy_side quote least = (refl, refl, refl)
    built_trade_has sell_side quote least = (refl, refl, refl)

    abbrev pub IsBuilt : PreparedTrade Data → Type 0
    IsBuilt trade =
        (trade.side ≡ args.side)
        × (trade.to ≡ launch.curve)
        × (quote_for encoding chain args state args.side ≡ ok (ok trade.quote))
        × (apply_slippage_floor trade.quote.amount_out args.slippage_bps
            ≡ ok trade.quote.min_amount_out)
        × Pays launch state args.side trade

    built_trade-IsBuilt :
        (quote : Quote) (least : ℤ)
        → quote_for encoding chain args state args.side ≡ ok (ok quote)
        → apply_slippage_floor quote.amount_out args.slippage_bps ≡ ok least
        → IsBuilt (built_trade encoding chain args launch state quote args.side least)
    built_trade-IsBuilt quote least asked floor =
        let bound = quote_for-floor state args.side quote asked in
        let same = ok-injective (sym floor ∙ bound) in
        let (side, to, priced) = built_trade_has args.side quote least in
        (
          side,
          to,
          asked ∙ ap (λ q. ok (ok q)) (sym priced),
          rw priced bound,
          rw same (built_trade-Pays args.side quote),
        )

    floor-IsBuilt :
        (quote : Quote) (answer : Fallible ℤ) (trade : PreparedTrade Data)
        → quote_for encoding chain args state args.side ≡ ok (ok quote)
        → apply_slippage_floor quote.amount_out args.slippage_bps ≡ answer
        → with_floor encoding chain args launch state quote answer ≡ ok (ok trade)
        → IsBuilt trade
    floor-IsBuilt quote (err fault) trade asked floor h = cc
    floor-IsBuilt quote (ok least) trade asked floor h =
        rw (← (ok-injective (ok-injective h))) (built_trade-IsBuilt quote least asked floor)

    quote-IsBuilt :
        (answer : Quoted) (trade : PreparedTrade Data)
        → quote_for encoding chain args state args.side ≡ answer
        → on_quote encoding chain args launch state answer ≡ ok (ok trade)
        → IsBuilt trade
    unfolding on_quote
    quote-IsBuilt (err fault) trade asked h = cc
    quote-IsBuilt (ok (err e)) trade asked h = cc (ok-injective h)
    quote-IsBuilt (ok (ok quote)) trade asked h = floor-IsBuilt quote _ trade asked refl h

    abbrev pub is_curve : TradingVenue → Bool
    is_curve (curve_venue curve pair_token) = true
    is_curve _ = false

    pub venue-IsBuilt :
        (venue : TradingVenue) (trade : PreparedTrade Data)
        → on_venue encoding chain args launch state venue ≡ ok (ok trade)
        → (is_curve venue ≡ true) × IsBuilt trade
    unfolding on_venue
    venue-IsBuilt (no_venue reason) trade h = cc (ok-injective h)
    venue-IsBuilt (uniswap_v4 pool) trade h = cc (ok-injective h)
    venue-IsBuilt (curve_venue curve pair_token) trade h = (refl, quote-IsBuilt _ trade refl h)
