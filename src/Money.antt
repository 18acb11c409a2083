-- ===== src/Money.antt =====
-- Integer money helpers: packages/utils/src/money.ts.
use stunks.Prelude.{Result, ok, err, ◌>>=◌, if◌then◌else◌, ◌&&◌}
use stunks.Prelude.Int.{ℤ, pos, ◌+ℤ◌, ◌-ℤ◌, ◌*ℤ◌, ◌/ℤ◌, ltb_ℤ, leb_ℤ, is_zero}

-- What the money and curve functions throw, a constructor for each kind of `throw`.
pub data Fault : Type 0 where
  negative_amount negative_bps division_by_zero slippage_out_of_range : Fault
  quote_in_not_positive tokens_in_not_positive : Fault
  amount_in_not_positive amount_out_not_positive : Fault
  reserves_too_small output_exceeds_reserve fee_consumes_trade : Fault
  no_sellable_allocation degenerate_economics : Fault
  snipe_tax_not_modellable : ℤ → ℤ → ℤ → Fault

abbrev pub Fallible : Type 0 → Type 0
Fallible = Result Fault

abbrev pub basis_points : ℤ
basis_points = pos 10_000

unfoldable pub apply_bps : ℤ → ℤ → Fallible ℤ
apply_bps amount bps =
    if ltb_ℤ amount (pos 0)
    then err negative_amount
    else if ltb_ℤ bps (pos 0)
    then err negative_bps
    else ok (amount *ℤ bps /ℤ basis_points)

unfoldable pub subtract_bps : ℤ → ℤ → Fallible ℤ
unfolding apply_bps
subtract_bps amount bps = do share ← apply_bps amount bps; ok (amount -ℤ share)

unfoldable pub floor_div : ℤ → ℤ → Fallible ℤ
floor_div numerator denominator =
    if is_zero denominator then err division_by_zero else ok (numerator /ℤ denominator)

unfoldable pub ceil_div : ℤ → ℤ → Fallible ℤ
ceil_div numerator denominator =
    if is_zero denominator
    then err division_by_zero
    else if is_zero numerator
    then ok (pos 0)
    else ok ((numerator +ℤ denominator -ℤ pos 1) /ℤ denominator)

unfoldable pub mul_div : ℤ → ℤ → ℤ → Fallible ℤ
mul_div x y d = if is_zero d then err division_by_zero else ok (x *ℤ y /ℤ d)

unfoldable pub bigint_min : ℤ → ℤ → ℤ
bigint_min a b = if ltb_ℤ a b then a else b

unfoldable pub bigint_max : ℤ → ℤ → ℤ
bigint_max a b = if ltb_ℤ b a then a else b

unfoldable pub ratio_bps : ℤ → ℤ → ℤ
ratio_bps part whole = if leb_ℤ whole (pos 0) then pos 0 else part *ℤ basis_points /ℤ whole

-- `slippageBps` is a JavaScript number: an argument that is no integer is refused as one that is
-- out of range, so the model takes the integers.
unfoldable pub apply_slippage_floor : ℤ → ℤ → Fallible ℤ
unfolding subtract_bps
apply_slippage_floor expected_out slippage_bps =
    if leb_ℤ (pos 0) slippage_bps && leb_ℤ slippage_bps (pos 10_000)
    then subtract_bps expected_out slippage_bps
    else err slippage_out_of_range
