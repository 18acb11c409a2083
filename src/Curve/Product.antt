-- ===== src/Curve/Product.antt =====
-- The constant product over naturals, which the code's pricing computes on positive amounts.
use native.Mathlib.Nat.{
  mul-div-mul_right, le-div_iff_mul-le, div-lt_iff_lt-mul, div-mul-le_self, lt-mul-div-succ,
  mul_comm, mul-le-mul_right, div-le_of_le-mul,
}
use mathlib.Core.Path.{ap₂}
use stunks.Prelude.{ℕ, ◌+◌, ◌-◌, ◌*◌, ◌/◌, ◌≤◌, ◌<◌, ◌≡◌, ◌∙◌, ap, arith}

-- The output for `x` of input against the reserves `q` and `t`, rounded down.
unfoldable pub swap_out : ℕ → ℕ → ℕ → ℕ
swap_out x q t = x * t / (q + x)

-- The input that the code asks for `y` of output: the exact quotient rounded down, plus one.
unfoldable pub swap_in : ℕ → ℕ → ℕ → ℕ
swap_in y q t = y * q / (t - y) + 1

pub swap_out_scaled : (x q t : ℕ) → x * 10_000 * t / (q * 10_000 + x * 10_000) ≡ swap_out x q t
unfolding swap_out
swap_out_scaled x q t =
    let scaled : x * 10_000 * t / (q * 10_000 + x * 10_000)
        ≡ (x * t) * 10_000 / ((q + x) * 10_000) =
      ap₂ ◌/◌ (omega arith) (omega arith) in
    scaled ∙ mul-div-mul_right (x * t) (q + x) (omega arith)

pub swap_out-mul-le : (x q t : ℕ) → swap_out x q t * (q + x) ≤ x * t
unfolding swap_out
swap_out-mul-le x q t = div-mul-le_self (x * t) (q + x)

pub lt-swap_out-mul : (x q t : ℕ) → 0 < q → x * t < (swap_out x q t + 1) * (q + x)
unfolding swap_out
lt-swap_out-mul x q t h = omega (
  arith,
  lt-mul-div-succ (x * t) {b = q + x} (omega arith),
  mul_comm (q + x) (x * t / (q + x) + 1),
)

pub mul_split : (x y t : ℕ) → y ≤ t → x * t ≡ x * y + x * (t - y)
mul_split x y t h = let e : t ≡ y + (t - y) = omega arith in ap (λ (n : ℕ). x * n) e ∙ omega arith

-- An output that satisfies the bound is at most the output computed.
pub le-swap_out : (y x q t : ℕ) → 0 < q → y * (q + x) ≤ x * t → y ≤ swap_out x q t
unfolding swap_out
le-swap_out y x q t hq h = (le-div_iff_mul-le {k = q + x} (omega arith)).1 h

pub swap_out-lt : (x q t : ℕ) → 0 < q → 0 < t → swap_out x q t < t
unfolding swap_out
swap_out-lt x q t hq ht = (div-lt_iff_lt-mul {k = q + x} (omega arith)).1 (grind arith)

pub swap_out_mono : (x x' q t : ℕ) → 0 < q → 0 < t → x ≤ x' → swap_out x q t ≤ swap_out x' q t
swap_out_mono x x' q t hq ht h =
    let o = swap_out x q t in
    let d = x' - x in
    let grown : o * d ≤ t * d = mul-le-mul_right d (omega (arith, swap_out-lt x q t hq ht)) in
    le-swap_out o x' q t hq
      (let e : x' ≡ x + d = omega arith in rw e (omega (arith, swap_out-mul-le x q t)))

-- The product of the reserves does not fall.
pub product-le : (x q t : ℕ) → 0 < q → 0 < t → q * t ≤ (q + x) * (t - swap_out x q t)
product-le x q t hq ht =
    let o = swap_out x q t in
    let below = swap_out-lt x q t hq ht in
    omega (arith, swap_out-mul-le x q t, mul_split (q + x) o t (omega arith))

pub swap_in_scaled : (y q t : ℕ) → y * q * 10_000 / ((t - y) * 10_000) + 1 ≡ swap_in y q t
unfolding swap_in
swap_in_scaled y q t = ap (λ (n : ℕ). n + 1) (mul-div-mul_right (y * q) (t - y) (omega arith))

-- The input asked for buys what it was asked for.
pub swap_in_enough : (y q t : ℕ) → 0 < q → y < t → y ≤ swap_out (swap_in y q t) q t
unfolding swap_in
swap_in_enough y q t hq h =
    let r = t - y in
    let x = y * q / r + 1 in
    let e : x * t ≡ x * y + x * r = mul_split x y t (omega arith) in
    le-swap_out y x q t hq
      (omega (arith, lt-mul-div-succ (y * q) {b = r} (omega arith), mul_comm r x))

-- An input that buys more than `y` is at least the input asked for `y`, and one that buys `y` is at
-- most one short of it.
pub swap_in-le : (y x q t : ℕ) → 0 < q → y < t → y < swap_out x q t → swap_in y q t ≤ x
unfolding swap_in
swap_in-le y x q t hq h more =
    let r = t - y in
    let e : x * t ≡ x * y + x * r = mul_split x y t (omega arith) in
    let grown : (y + 1) * (q + x) ≤ swap_out x q t * (q + x) =
      mul-le-mul_right (q + x) (omega arith) in
    let small : y * q < x * r = omega (arith, swap_out-mul-le x q t) in
    omega (arith, (div-lt_iff_lt-mul {k = r} (omega arith)).1 small)

pub swap_in-le_suc : (y x q t : ℕ) → y < t → y ≤ swap_out x q t → swap_in y q t ≤ x + 1
unfolding swap_in
swap_in-le_suc y x q t h enough =
    let r = t - y in
    let e : x * t ≡ x * y + x * r = mul_split x y t (omega arith) in
    let grown : y * (q + x) ≤ swap_out x q t * (q + x) = mul-le-mul_right (q + x) (omega arith) in
    omega (arith, div-le_of_le-mul r {m = y * q} {n = x} (omega (arith, swap_out-mul-le x q t)))

pub swap_back-le_of :
    (o q x t : ℕ) → t - o + o ≡ t → o * (q + x) ≤ x * t → swap_out o (t - o) (q + x) ≤ x
unfolding swap_out
swap_back-le_of o q x t e h =
    rw e (div-le_of_le-mul t {m = o * (q + x)} {n = x} (omega (arith, mul_comm x t)))

pub swap_in_pos : (y q t : ℕ) → 0 < swap_in y q t
unfolding swap_in
swap_in_pos y q t = omega arith
