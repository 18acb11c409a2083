-- ===== src/Pricing/Priced.antt =====
-- What the price of a settled trade says.
use native.Mathlib.Nat.{mul-le-mul_right, div-mul-le_self, lt-mul-div-succ, le_of_mul-le-mul_right}
use stunks.Prelude.{
  lt→ltb, lt→leb_false, ℕ, zero, suc, ◌+◌, ◌*◌, ◌/◌, ◌≤◌, ◌<◌, ◌≡◌, refl, ap, ok, arith,
}
use stunks.Prelude.Int.{pos}
use stunks.Pricing.{price_from_trade, market_cap_from_price}

abbrev scale : ℕ
scale = 1_000_000_000_000_000_000_000_000_000

div_above : (n d : ℕ) → 0 < d → n < (n / d + 1) * d
div_above n d h = omega (arith, lt-mul-div-succ n {b = d} h)

cap-le : (unit q t s p c : ℕ) → 0 < unit → c * unit ≤ p * s → p * t ≤ q * unit → c * t ≤ q * s
cap-le unit q t s p c h capped priced =
    le_of_mul-le-mul_right {k = unit}
      (omega (arith, mul-le-mul_right t capped, mul-le-mul_right s priced)) h

-- A price of zero, or a supply of zero, is worth what the division gives.
cap_lem :
    (price supply : ℕ)
    → market_cap_from_price (pos price) (pos supply) ≡ ok (pos (price * supply / scale))
unfolding market_cap_from_price
cap_lem zero supply = ap (λ n. ok (pos n)) (omega arith)
cap_lem (suc price) zero =
    rw (lt→ltb 0 (suc price) (omega arith)) (ap (λ n. ok (pos n)) (omega arith))
cap_lem (suc price) (suc supply) =
    rw (lt→ltb 0 (suc price) (omega arith), lt→ltb 0 (suc supply) (omega arith)) refl

-- A trade of positive amounts has a price, which is the exact price rounded down: the price times the
-- tokens is at most the scaled quote amount, and one unit more would be above it. The market cap for a
-- supply, with the scale divided out, never exceeds what the supply is worth at the price of the trade.
pub price_from_trade_bounds :
    (quote tokens supply : ℕ)
    → 0 < quote
    → 0 < tokens
    → (price : ℕ) × (cap : ℕ) × (price_from_trade
          (record { quote_amount = pos quote; token_amount = pos tokens })
        ≡ ok (pos price))
      × (market_cap_from_price (pos price) (pos supply) ≡ ok (pos cap))
      × (price * tokens ≤ quote * scale)
      × (quote * scale < (price + 1) * tokens)
      × (cap * tokens ≤ quote * supply)
unfolding price_from_trade
price_from_trade_bounds quote tokens supply h k =
    let price = quote * scale / tokens in
    let cap = price * supply / scale in
    (
      price,
      cap,
      rw (lt→ltb 0 tokens k, lt→ltb 0 quote h, lt→leb_false tokens 0 k) refl,
      cap_lem price supply,
      div-mul-le_self (quote * scale) tokens,
      div_above (quote * scale) tokens k,
      cap-le scale quote tokens supply price cap (omega arith)
          (div-mul-le_self (price * supply) scale) (div-mul-le_self (quote * scale) tokens),
    )
