-- ===== src/TradeService/Prepared.antt =====
-- What a trade that is prepared says.
use stunks.Prelude.{
  ◌≡◌, refl, sym, ap, ◌∙◌, inl, inr, Bool, true, false, not, ◌||◌, Option, none, some, ok,
  if◌then◌else◌, Bool-cases, ok-injective, or_false,
}
use stunks.Prelude.Int.{pos, ltb_ℤ, leb_ℤ}
use stunks.Money.{apply_slippage_floor}
use stunks.Graduation.{
  Address, GraduationPhase, not_graduated, swept, pool_created, rescued, LaunchedToken, no_venue,
  ResolveVenueArgs, pool_venue, phase_venue, resolve_trading_venue, not_a_pons_launch,
}
use stunks.Quote.{CurveState}
use stunks.TradeService.{
  Encoding, PreparedTrade, PrepareTradeArgs, Chain, min_slippage_bps, max_slippage_bps,
  foreign_token, refusal, on_venue, pool_args, on_addresses, curve_args, on_curve, on_phase,
  on_state, on_launch, prepare_trade,
}
use stunks.TradeService.Built.{Pays, IsQuoted, quote_for-IsQuoted, IsBuilt, is_curve, venue-IsBuilt}

-- The venue of a launch that exists is that of its phase.
resolve_at :
    (args : ResolveVenueArgs) (phase : GraduationPhase)
    → args.launch.exists ≡ true
    → args.launch.phase ≡ phase
    → resolve_trading_venue args ≡ phase_venue args phase
unfolding resolve_trading_venue
resolve_at args phase exists at_phase =
    ap (λ b. if not b then no_venue not_a_pons_launch else phase_venue args args.launch.phase)
      exists
    ∙ ap (phase_venue args) at_phase

module _ {Data : Type 0} (encoding : Encoding Data) (chain : Chain) (args : PrepareTradeArgs) where
  module _ (launch : LaunchedToken) (state : CurveState) where
    -- A launch whose phase has no venue on the curve has no trade.
    off_curve :
        (args' : ResolveVenueArgs) (phase : GraduationPhase) (trade : PreparedTrade Data)
        → args'.launch.exists ≡ true
        → args'.launch.phase ≡ phase
        → is_curve encoding chain args launch state (phase_venue args' phase) ≡ false
        → on_venue encoding chain args launch state (resolve_trading_venue args') ≡ ok (ok trade)
        → ⊥
    off_curve args' phase trade exists at_phase off h =
        let on_curve =
          (venue-IsBuilt encoding chain args launch state (resolve_trading_venue args') trade
            h).0 in
        let same =
          ap (is_curve encoding chain args launch state) (resolve_at args' phase exists at_phase) in
        cc (sym off ∙ sym same ∙ on_curve)

    addresses-IsBuilt :
        (addresses : Option (Address × Address)) (trade : PreparedTrade Data)
        → launch.exists ≡ true
        → launch.phase ≡ pool_created
        → on_addresses encoding chain args launch state addresses ≡ ok (ok trade)
        → ⊥
    unfolding on_addresses phase_venue pool_venue
    addresses-IsBuilt none trade exists at_phase h = cc (ok-injective h)
    addresses-IsBuilt (some (pool_manager, meme_hook)) trade exists at_phase h =
        off_curve (pool_args encoding chain args launch pool_manager meme_hook) pool_created trade
          exists at_phase refl h

    phase-IsBuilt :
        (phase : GraduationPhase) (trade : PreparedTrade Data)
        → launch.exists ≡ true
        → launch.phase ≡ phase
        → on_phase encoding chain args launch state phase ≡ ok (ok trade)
        → (phase ≡ not_graduated) × IsBuilt encoding chain args launch state trade
    unfolding on_curve phase_venue
    phase-IsBuilt pool_created trade exists at_phase h =
        absurd (addresses-IsBuilt chain.pons_addresses trade exists at_phase h)
    phase-IsBuilt not_graduated trade exists at_phase h = (
      refl,
      (venue-IsBuilt encoding chain args launch state
          (resolve_trading_venue (curve_args encoding chain args launch)) trade h).1,
    )
    phase-IsBuilt swept trade exists at_phase h =
        absurd
          (off_curve (curve_args encoding chain args launch) swept trade exists at_phase refl h)
    phase-IsBuilt rescued trade exists at_phase h =
        absurd
          (off_curve (curve_args encoding chain args launch) rescued trade exists at_phase refl h)

  state-IsBuilt :
      (launch : LaunchedToken) (answer : Option CurveState) (trade : PreparedTrade Data)
      → launch.exists ≡ true
      → on_state encoding chain args launch answer ≡ ok (ok trade)
      → (state : CurveState) × (answer ≡ some state)
        × (launch.phase ≡ not_graduated)
        × IsBuilt encoding chain args launch state trade
  state-IsBuilt launch none trade exists h = cc (ok-injective h)
  state-IsBuilt launch (some state) trade exists h =
      let (at_phase, built) = phase-IsBuilt launch state launch.phase trade exists refl h in
      (state, refl, at_phase, built)

  unread :
      {A : Type 0} {trade : PreparedTrade Data}
      → on_launch encoding chain args none ≡ ok (ok trade)
      → A
  unfolding on_launch
  unread h = cc (ok-injective h)

  by_existence :
      (launch : LaunchedToken) (exists : Bool)
      → launch.exists ≡ exists
      → on_launch encoding chain args (some launch) ≡ (
          if not exists
          then refusal encoding chain args foreign_token
          else on_state encoding chain args launch (chain.read_curve_state launch.curve))
  unfolding on_launch
  by_existence launch exists e =
      ap
        (λ b.
          if not b
          then refusal encoding chain args foreign_token
          else on_state encoding chain args launch (chain.read_curve_state launch.curve))
        e

  launch-IsBuilt :
      (answer : Option LaunchedToken) (trade : PreparedTrade Data)
      → on_launch encoding chain args answer ≡ ok (ok trade)
      → (launch : LaunchedToken) × (state : CurveState) × (answer ≡ some launch)
        × (launch.exists ≡ true)
        × (chain.read_curve_state launch.curve ≡ some state)
        × (launch.phase ≡ not_graduated)
        × IsBuilt encoding chain args launch state trade
  launch-IsBuilt none trade h = unread h
  launch-IsBuilt (some launch) trade h = elim (Bool-cases launch.exists) [
    | inl e ↦
        let (state, read, at_phase, built) =
          state-IsBuilt launch (chain.read_curve_state launch.curve) trade e
            (sym (by_existence launch true e) ∙ h) in
        (launch, state, refl, e, read, at_phase, built)
    | inr e ↦ cc (ok-injective (sym (by_existence launch false e) ∙ h))
  ]

  -- A trade that is prepared is for a positive amount and a slippage from 0.1% to 50%, for a token that
  -- the factory knows as a launch that has not graduated, with the curve's state read. It goes to that
  -- curve; its quote is that of `quoteBuy` or `quoteSell` for the amount, the slippage and the recipient,
  -- the one that is given or else the account; and the call
  -- is for the whole amount and that recipient, and bounded from below by the quote's floor, the quoted amount less the
  -- slippage. A buy on a native launch sends exactly the amount and asks for no approval; any other
  -- trade sends nothing and asks for the approval of exactly the amount to the curve, of the pair token
  -- for a buy and of the launched token for a sale.
  pub prepare_trade-IsPrepared :
      (trade : PreparedTrade Data)
      → prepare_trade encoding chain args ≡ ok (ok trade)
      → (leb_ℤ args.amount_in (pos 0) ≡ false)
        × (ltb_ℤ args.slippage_bps min_slippage_bps ≡ false)
        × (ltb_ℤ max_slippage_bps args.slippage_bps ≡ false)
        × (launch : LaunchedToken) × (state : CurveState) × (chain.read_launched_token args.token
            ≡ some launch)
        × (launch.exists ≡ true)
        × (chain.read_curve_state launch.curve ≡ some state)
        × (launch.phase ≡ not_graduated)
        × (trade.side ≡ args.side)
        × (trade.to ≡ launch.curve)
        × IsQuoted encoding chain args state args.side trade.quote
        × (apply_slippage_floor trade.quote.amount_out args.slippage_bps
            ≡ ok trade.quote.min_amount_out)
        × Pays encoding chain args launch state args.side trade
  unfolding prepare_trade
  prepare_trade-IsPrepared trade h = elim (Bool-cases (leb_ℤ args.amount_in (pos 0))) [
    | inl e ↦ cc (ok-injective (rw e at h))
    | inr positive ↦
        elim (Bool-cases
          (ltb_ℤ args.slippage_bps min_slippage_bps || ltb_ℤ max_slippage_bps args.slippage_bps)) [
            | inl e ↦ cc (ok-injective (rw (positive, e) at h))
            | inr within ↦
                let (least, most) =
                  (or_false (ltb_ℤ args.slippage_bps min_slippage_bps)
                      (ltb_ℤ max_slippage_bps args.slippage_bps)).0
                    within in
                let (
                  launch,
                  state,
                  read,
                  exists,
                  at_curve,
                  at_phase,
                  (side, to, asked, floor, pays),
                ) =
                  launch-IsBuilt (chain.read_launched_token args.token) trade
                    (rw (positive, within) at h) in
                (
                  positive,
                  least,
                  most,
                  launch,
                  state,
                  read,
                  exists,
                  at_curve,
                  at_phase,
                  side,
                  to,
                  quote_for-IsQuoted encoding chain args state args.side trade.quote asked,
                  floor,
                  pays,
                )
          ]
  ]
