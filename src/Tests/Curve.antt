-- ===== src/Tests/Curve.antt =====
-- The curve's theorems at a fresh launch, and the amounts that the chain reported for it.
use stunks.Prelude.{
  ℕ, ◌+◌, ◌-◌, ◌*◌, ◌≤◌, ◌<◌, ◌≡◌, ◌↔◌, refl, Bool, true, false, ok, err, arith, min,
}
use stunks.Prelude.Int.{pos}
use stunks.Money.{basis_points, no_sellable_allocation, apply_slippage_floor}
use stunks.Curve.{
  get_amount_out, get_amount_in, compute_curve_buy, compute_curve_sell, fill, clamped_fill,
  sellable_of,
}
use stunks.Curve.Product.{swap_out}
use stunks.Curve.Out.{share}
use stunks.Curve.Buy.{BuyTerms, input_of, IsTradeable, settled, full_out, net_of}
use stunks.Curve.Fair.{IsFair, compute_curve_buy-IsFair, compute_curve_buy_gives_min}
use stunks.Curve.Sell.{
  SellTerms, sell_input_of, IsSellable, sold, back_terms, compute_curve_sell_conserves,
  sell_back_no_profit,
}
use stunks.Curve.Price.{get_amount_in_tight}

abbrev launch : BuyTerms
launch = record {
  quote_in = 1000;
  quote_reserve = 1680;
  token_reserve = 1_000_000;
  fee_bps = 100;
  creator_tax_bps = 200;
  snipe_tax_bps = 0;
  reserved = 285_714;
}

launch-IsTradeable : IsTradeable launch
launch-IsTradeable = omega arith

-- A buy that the allocation clamps.
abbrev large : BuyTerms
large = record launch { quote_in = 1_000_000 }

large-IsTradeable : IsTradeable large
large-IsTradeable = omega arith

compute_curve_buy-IsFair_example :
    (out spent : ℕ) × (partial : Bool) × (compute_curve_buy (input_of large)
      ≡ ok (settled large out spent partial))
    × IsFair large out spent
compute_curve_buy-IsFair_example = compute_curve_buy-IsFair large large-IsTradeable

-- The clamped buy is charged 4331 for its 714286 tokens and refunded the rest.
large_runs : compute_curve_buy (input_of large) ≡ ok (settled large 714_286 4331 true)
unfolding compute_curve_buy fill clamped_fill sellable_of get_amount_out get_amount_in
    stunks.Money.apply_bps stunks.Money.ceil_div stunks.Money.bigint_min
large_runs = refl

launch_runs : compute_curve_buy (input_of launch) ≡ ok (settled launch 366_037 1000 false)
unfolding compute_curve_buy fill clamped_fill sellable_of get_amount_out get_amount_in
    stunks.Money.apply_bps stunks.Money.ceil_div stunks.Money.bigint_min
launch_runs = refl

-- Nothing is left to sell.
drained_refused :
    compute_curve_buy (input_of (record launch { reserved = 1_000_000 }))
    ≡ err no_sellable_allocation
unfolding compute_curve_buy fill clamped_fill sellable_of get_amount_out get_amount_in
    stunks.Money.apply_bps stunks.Money.ceil_div stunks.Money.bigint_min
drained_refused = refl

compute_curve_buy_gives_min_example :
    (pos 714_286 ≡ pos (min (1_000_000 - 285_714) (full_out large)))
    × ((true ≡ true) ↔ (1_000_000 - 285_714 < full_out large))
    × (true ≡ false → pos 4331 ≡ pos 1_000_000)
compute_curve_buy_gives_min_example = compute_curve_buy_gives_min large large-IsTradeable large_runs

abbrev sale : SellTerms
sale = record {
  tokens_in = 50_000;
  quote_reserve = 2650;
  token_reserve = 633_963;
  fee_bps = 100;
  creator_tax_bps = 200;
}

sale-IsSellable : IsSellable sale
sale-IsSellable = omega arith

compute_curve_sell_conserves_example :
    (gross out : ℕ) × (compute_curve_sell (sell_input_of sale) ≡ ok (sold sale gross out))
    × (out + share gross 100 + share gross 200 ≡ gross)
    × (gross < 2650)
    × (633_963 * 2650 ≤ (633_963 + 50_000) * (2650 - gross))
compute_curve_sell_conserves_example = compute_curve_sell_conserves sale sale-IsSellable

sell_back_no_profit_example :
    (gross paid : ℕ) × (compute_curve_sell (sell_input_of (back_terms launch 366_037 1000))
      ≡ ok (sold (back_terms launch 366_037 1000) gross paid))
    × (paid ≤ gross)
    × (gross ≤ net_of launch 1000)
    × (net_of launch 1000 ≤ 1000)
sell_back_no_profit_example =
    sell_back_no_profit launch 366_037 1000 false launch_runs (omega arith)

get_amount_in_tight_example :
    (x bought : ℕ) × (get_amount_in (pos 100_000) (pos 1680) (pos 1_000_000) (pos 0) ≡ ok (pos x))
    × (get_amount_out (pos x) (pos 1680) (pos 1_000_000) (pos 0) ≡ ok (pos bought))
    × (100_000 ≤ bought)
    × ((x' bought' : ℕ)
        → 0 < x'
        → get_amount_out (pos x') (pos 1680) (pos 1_000_000) (pos 0) ≡ ok (pos bought')
        → 100_000 ≤ bought'
        → x ≤ x' + 1)
get_amount_in_tight_example =
    get_amount_in_tight 100_000 1680 1_000_000 (omega arith) (omega arith) (omega arith)

impact_some : 0 < swap_out 100 1680 1_000_000
unfolding swap_out
impact_some = omega arith
