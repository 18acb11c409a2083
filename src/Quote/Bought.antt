-- ===== src/Quote/Bought.antt =====
-- What a quote for a buy says.
use stunks.Prelude.{
  ◌≡◌, refl, sym, ap, ◌∙◌, ◌⊎◌, inl, inr, Bool, true, false, if◌then◌else◌, ◌||◌, Option, none,
  some, Result, ok, err, Bool-cases, >>=-returned, ok-injective, or_false,
}
use stunks.Prelude.Int.{ℤ, pos, leb_ℤ}
use stunks.Money.{apply_bps, Fallible, snipe_tax_not_modellable, apply_slippage_floor}
use stunks.Curve.{CurveBuyMathResult, compute_curve_buy}
use stunks.Prelude.Text.{text_eq}
use stunks.Graduation.{Address}
use stunks.Bundle.Execution.{is_native}
use stunks.Exemptions.{zero_address}
use stunks.SnipeTax.{requires_simulation}
use stunks.Quote.{
  given_payer, charged_or, QuoteBuyArgs, QuoteError, QuoteSource, Quote, CurveContract, local_math,
  simulation, declining, must_simulate, local_buy, simulate_buy, simulated, amount_of, priced_quote,
  with_local, with_tax, quote_buy,
}

module _ (contract : CurveContract) (args : QuoteBuyArgs) where
  -- The account that simulates: the payer, or the recipient where none or the zero address is given.
  abbrev pub IsAccount : Option Address → Address → Type 0
  IsAccount none account = account ≡ args.recipient
  IsAccount (some payer) account =
      (text_eq payer zero_address ≡ true → account ≡ args.recipient)
      × (text_eq payer zero_address ≡ false → account ≡ payer)

  -- What the contract gave for the amount and the recipient, from that account, with the amount sent as
  -- the value for a native pair token and none for another.
  abbrev pub IsSimulated : ℤ → Type 0
  IsSimulated amount =
      (value : ℤ) × (account : Address) × (contract.simulate args.quote_in value args.recipient
          account
        ≡ some amount)
      × (is_native args.state.pair_token ≡ true → value ≡ args.quote_in)
      × (is_native args.state.pair_token ≡ false → value ≡ pos 0)
      × IsAccount args.payer account

  account_lem :
      (payer : Option Address)
      → let given = given_payer args payer in
        IsAccount payer (if text_eq given zero_address then args.recipient else given)
  account_lem none = if_same (text_eq args.recipient zero_address) args.recipient
    where
      if_same : (b : Bool) (a : Address) → (if b then a else a) ≡ a
      if_same true a = refl
      if_same false a = refl
  account_lem (some payer) = (λ e. rw e refl, λ e. rw e refl)

  simulate_buy-IsSimulated :
      (amount : ℤ) → simulate_buy contract args ≡ some amount → IsSimulated amount
  unfolding simulate_buy
  simulate_buy-IsSimulated amount h =
      (_, _, h, λ e. rw e refl, λ e. rw e refl, account_lem args.payer)

  -- Where an amount comes from: the local math, outside the anti-snipe window and for a whole fill; or
  -- the simulation of the contract.
  abbrev pub IsFrom : Bool → ℤ → QuoteSource → ℤ → Type 0
  IsFrom recipient_exempt snipe_tax_bps source amount =
      ((source ≡ local_math)
        × (requires_simulation args.state.launched_at args.state.snipe_tax_seconds args.now_seconds
              recipient_exempt
            ≡ false)
        × (r : CurveBuyMathResult) × (compute_curve_buy (record {
          quote_in = args.quote_in;
          pricing_quote_reserve = args.state.pricing_quote_reserve;
          token_reserve = args.state.token_reserve;
          fee_bps = args.state.fee_bps;
          creator_tax_bps = args.state.creator_tax_bps;
          snipe_tax_bps = snipe_tax_bps;
          reserved_tokens = args.state.reserved_tokens;
        })
            ≡ ok r)
        × (r.partial_fill ≡ false)
        × (amount ≡ r.tokens_out))
      ⊎ ((source ≡ simulation) × IsSimulated amount)

  simulated-IsFrom :
      (recipient_exempt : Bool) (snipe_tax_bps : ℤ) (answer : Option ℤ) (amount : ℤ)
      (source : QuoteSource)
      → simulate_buy contract args ≡ answer
      → simulated answer ≡ ok (amount, source)
      → IsFrom recipient_exempt snipe_tax_bps source amount
  simulated-IsFrom recipient_exempt snipe_tax_bps none amount source e h = cc
  simulated-IsFrom recipient_exempt snipe_tax_bps (some a) amount source e h =
      let same = ok-injective h in
      inr (sym (ap (λ p. p.1) same), simulate_buy-IsSimulated amount (e ∙ ap (λ p. some p.0) same))

  declined :
      (math : Fallible CurveBuyMathResult) (r : CurveBuyMathResult)
      → declining math ≡ ok (some r)
      → math ≡ ok r
  declined (ok s) r h = cc
  declined (err (snipe_tax_not_modellable fee creator snipe)) r h = cc (ok-injective h)
  declined (err fault) r h = cc

  local-IsFrom :
      (recipient_exempt : Bool) (snipe_tax_bps : ℤ) (local : Option CurveBuyMathResult) (amount : ℤ)
      (source : QuoteSource)
      → local_buy args recipient_exempt snipe_tax_bps ≡ ok local
      → amount_of local (simulate_buy contract args) ≡ ok (amount, source)
      → IsFrom recipient_exempt snipe_tax_bps source amount
  unfolding local_buy must_simulate
  local-IsFrom recipient_exempt snipe_tax_bps none amount source made h =
      simulated-IsFrom recipient_exempt snipe_tax_bps _ amount source refl h
  local-IsFrom recipient_exempt snipe_tax_bps (some r) amount source made h =
      elim (Bool-cases r.partial_fill) [
        | inl e ↦ simulated-IsFrom recipient_exempt snipe_tax_bps _ amount source refl (rw e at h)
        | inr e ↦ elim (Bool-cases (must_simulate args recipient_exempt)) [
          | inl m ↦ cc (rw m at made)
          | inr m ↦
              let same = ok-injective (rw e at h) in
              inl (
                sym (ap (λ p. p.1) same),
                m,
                r,
                declined _ r (rw m at made),
                e,
                sym (ap (λ p. p.0) same),
              )
        ]
      ]

  -- What a quote has from what it was made of.
  abbrev Has : Bool → ℤ → ℤ → QuoteSource → Quote → Type 0
  Has recipient_exempt snipe_tax_bps amount source quote =
      (quote.source ≡ source)
      × (quote.amount_out ≡ amount)
      × (quote.recipient_exempt ≡ recipient_exempt)
      × (quote.snipe_tax_bps ≡ snipe_tax_bps)
      × (quote.amount_in ≡ args.quote_in)
      × (apply_slippage_floor quote.amount_out args.slippage_bps ≡ ok quote.min_amount_out)

  priced-Has :
      (recipient_exempt : Bool) (snipe_tax_bps : ℤ) (local : Option CurveBuyMathResult)
      (answer : Result QuoteError (ℤ × QuoteSource)) (quote : Quote)
      → priced_quote args recipient_exempt snipe_tax_bps local answer ≡ ok (ok quote)
      → (amount : ℤ) × (source : QuoteSource) × (answer ≡ ok (amount, source))
        × Has recipient_exempt snipe_tax_bps amount source quote
  unfolding priced_quote
  priced-Has recipient_exempt snipe_tax_bps local (err e) quote h = cc
  priced-Has recipient_exempt snipe_tax_bps local (ok (amount, source)) quote h =
      let (fee, _, h₁) =
        >>=-returned
          (charged_or local (λ r. r.fee_amount) (apply_bps args.quote_in args.state.fee_bps)) _ h in
      let (creator, _, h₂) =
        >>=-returned
          (charged_or local (λ r. r.creator_tax_amount)
            (apply_bps args.quote_in args.state.creator_tax_bps))
          _ h₁ in
      let (snipe, _, h₃) =
        >>=-returned
          (charged_or local (λ r. r.snipe_tax_amount) (apply_bps args.quote_in snipe_tax_bps)) _
          h₂ in
      let (least, floor, h₄) = >>=-returned (apply_slippage_floor amount args.slippage_bps) _ h₃ in
      let same = ok-injective (ok-injective h₄) in
      (amount, source, refl, rw (← same) (refl, refl, refl, refl, refl, floor))

  local-Has :
      (recipient_exempt : Bool) (snipe_tax_bps : ℤ)
      (made : Result QuoteError (Option CurveBuyMathResult)) (quote : Quote)
      → local_buy args recipient_exempt snipe_tax_bps ≡ made
      → with_local contract args recipient_exempt snipe_tax_bps made ≡ ok (ok quote)
      → (amount : ℤ) × (source : QuoteSource) × IsFrom recipient_exempt snipe_tax_bps source amount
        × Has recipient_exempt snipe_tax_bps amount source quote
  unfolding with_local
  local-Has recipient_exempt snipe_tax_bps (err e) quote made h = cc
  local-Has recipient_exempt snipe_tax_bps (ok local) quote made h =
      let (amount, source, answer, has) =
        priced-Has recipient_exempt snipe_tax_bps local _ quote h in
      (
        amount,
        source,
        local-IsFrom recipient_exempt snipe_tax_bps local amount source made answer,
        has,
      )

  IsQuote : Quote → Type 0
  IsQuote quote =
      (contract.tax_of args.recipient ≡ some (quote.recipient_exempt, quote.snipe_tax_bps))
      × IsFrom quote.recipient_exempt quote.snipe_tax_bps quote.source quote.amount_out
      × (quote.amount_in ≡ args.quote_in)
      × (apply_slippage_floor quote.amount_out args.slippage_bps ≡ ok quote.min_amount_out)

  taxed-IsQuote :
      (read : Option (Bool × ℤ)) (quote : Quote)
      → contract.tax_of args.recipient ≡ read
      → with_tax contract args read ≡ ok (ok quote)
      → IsQuote quote
  unfolding with_tax IsQuote
  taxed-IsQuote none quote e h = cc
  taxed-IsQuote (some (recipient_exempt, snipe_tax_bps)) quote e h =
      let (amount, source, from, (by, out, exempt, bps, paid, floor)) =
        local-Has recipient_exempt snipe_tax_bps _ quote refl h in
      (rw (exempt, bps) e, rw (by, out, exempt, bps) from, paid, floor)

  -- A quote for a buy is for a positive amount on a curve that trades. It says which exemption and tax
  -- the contract gave for the recipient. Its amount is that of the local math, only where the
  -- anti-snipe window does not demand a simulation and the fill is whole: there it is the output of the
  -- curve at the state's reserves, fees and taxes and the contract's snipe tax. Or else it is what the
  -- contract gave when it was simulated for the amount and the recipient, from the payer, with the
  -- amount sent as the value for a native pair token only. The floor is the amount less the slippage.
  pub quote_buy-IsQuote :
      (quote : Quote)
      → quote_buy contract args ≡ ok (ok quote)
      → (leb_ℤ args.quote_in (pos 0) ≡ false)
        × (args.state.is_graduated ≡ false)
        × (args.state.is_ready_to_graduate ≡ false)
        × (contract.tax_of args.recipient ≡ some (quote.recipient_exempt, quote.snipe_tax_bps))
        × IsFrom quote.recipient_exempt quote.snipe_tax_bps quote.source quote.amount_out
        × (quote.amount_in ≡ args.quote_in)
        × (apply_slippage_floor quote.amount_out args.slippage_bps ≡ ok quote.min_amount_out)
  unfolding quote_buy IsQuote
  quote_buy-IsQuote quote h = elim (Bool-cases (leb_ℤ args.quote_in (pos 0))) [
    | inl e ↦ cc (rw e at h)
    | inr positive ↦
        elim (Bool-cases (args.state.is_graduated || args.state.is_ready_to_graduate)) [
          | inl e ↦ cc (rw (positive, e) at h)
          | inr trading ↦
              let (open_, ready) =
                (or_false args.state.is_graduated args.state.is_ready_to_graduate).0 trading in
              let (tax, from, paid, floor) =
                taxed-IsQuote _ quote refl (rw (positive, trading) at h) in
              (positive, open_, ready, tax, from, paid, floor)
        ]
  ]
