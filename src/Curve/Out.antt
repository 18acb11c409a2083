-- ===== src/Curve/Out.antt =====
-- The pricing primitives on positive amounts, as the constant product of naturals.
use stunks.Prelude.{ℕ, ◌*◌, ◌/◌, ◌<◌, ◌≡◌, ok, arith}
use stunks.Prelude.Int.{pos}
use stunks.Money.{apply_bps}
use stunks.Curve.Product.{swap_out, swap_out_scaled, swap_in, swap_in_scaled}
use stunks.Curve.{get_amount_out, get_amount_in}

pub get_amount_out-pos :
    (x q t : ℕ)
    → 0 < x
    → 0 < q
    → 0 < t
    → get_amount_out (pos x) (pos q) (pos t) (pos 0) ≡ ok (pos (swap_out x q t))
unfolding get_amount_out
get_amount_out-pos x q t hx hq ht = ground (arith, swap_out_scaled x q t)

pub get_amount_in-pos :
    (y q t : ℕ)
    → 0 < y
    → 0 < q
    → y < t
    → get_amount_in (pos y) (pos q) (pos t) (pos 0) ≡ ok (pos (swap_in y q t))
unfolding get_amount_in
get_amount_in-pos y q t hy hq ht = ground (arith, swap_in_scaled y q t)

abbrev pub share : ℕ → ℕ → ℕ
share a b = a * b / 10_000

pub apply_bps-pos : (a b : ℕ) → apply_bps (pos a) (pos b) ≡ ok (pos (share a b))
unfolding apply_bps
apply_bps-pos a b = ground arith
