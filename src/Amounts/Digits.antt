-- ===== src/Amounts/Digits.antt =====
-- The digits of a number.
use native.Mathlib.Nat.{pow-suc, mul_assoc}
use stunks.Prelude.{
  lt→ltb, ℕ, zero, suc, ◌+◌, ◌*◌, ◌/◌, ◌%◌, ◌^◌, ◌≤◌, ◌<◌, ◌≡◌, refl, sym, ap, ◌∙◌, inl, inr, true,
  false, [], ◌∷◌, length, arith, ltb, if◌then◌else◌, Bool-cases, ltb_false→le,
}
use stunks.Prelude.Text.{Text}
use stunks.Exemptions.{is_blank}
use stunks.Amounts.{decimal, digits_of, digits_value, are_digits}

-- How many digits a number has.
pub width : ℕ → ℕ → ℕ
width zero n = 0
width (suc fuel) n = let more = width fuel (n / 10) in if ltb n 10 then 1 else more + 1

-- Ten to the number of digits.
scale : ℕ → ℕ → ℕ
scale zero n = 1
scale (suc fuel) n = let more = scale fuel (n / 10) in if ltb n 10 then 10 else more * 10

digits_value-decimal :
    (fuel n a : ℕ) (t : Text)
    → n < fuel
    → digits_value a (decimal fuel n t) ≡ digits_value (a * scale fuel n + n) t
unfolding decimal digits_value scale
digits_value-decimal zero n a t h = absurd (omega arith)
digits_value-decimal (suc fuel) n a t h = elim (Bool-cases (ltb n 10)) [
  | inl e ↦ rw e (ap (λ k. digits_value k t) (omega arith))
  | inr e ↦
      let big = ltb_false→le n 10 e in
      rw e (
        digits_value-decimal fuel (n / 10) a ((b'0' + n % 10) ∷ t) (omega arith)
        ∙ ap (λ k. digits_value k t) (omega (arith, mul_assoc a (scale fuel (n / 10)) 10)))
]

pub length-decimal : (fuel n : ℕ) (t : Text) → length (decimal fuel n t) ≡ width fuel n + length t
unfolding decimal width
length-decimal zero n t = omega arith
length-decimal (suc fuel) n t = elim (Bool-cases (ltb n 10)) [
  | inl e ↦ rw e (omega arith)
  | inr e ↦ rw e (omega (arith, length-decimal fuel (n / 10) ((b'0' + n % 10) ∷ t)))
]

scale-width : (fuel n : ℕ) → scale fuel n ≡ 10 ^ width fuel n
unfolding scale width
scale-width zero n = refl
scale-width (suc fuel) n = elim (Bool-cases (ltb n 10)) [
  | inl e ↦ rw e refl
  | inr e ↦ rw e (
      ap (λ s. s * 10) (scale-width fuel (n / 10))
      ∙ sym (pow-suc 10 (width fuel (n / 10)))
      ∙ ap (λ w. 10 ^ w) (omega arith))
]

-- A number below a power of ten has no more digits than that.
pub width-le : (fuel n k : ℕ) → n < 10 ^ suc k → width fuel n ≤ suc k
unfolding width
width-le zero n k h = omega arith
width-le (suc fuel) n zero h = rw (lt→ltb n 10 (omega arith)) (omega arith)
width-le (suc fuel) n (suc k) h = elim (Bool-cases (ltb n 10)) [
  | inl e ↦ rw e (omega arith)
  | inr e ↦ rw e (omega (arith, width-le fuel (n / 10) k (omega (arith, pow-suc 10 (suc k)))))
]

pub are_digits-decimal :
    (fuel n : ℕ) (t : Text) → n < fuel → are_digits t ≡ true → are_digits (decimal fuel n t) ≡ true
unfolding decimal are_digits
are_digits-decimal zero n t h all = absurd (omega arith)
are_digits-decimal (suc fuel) n t h all = elim (Bool-cases (ltb n 10)) [
  | inl e ↦ rw e (ground arith)
  | inr e ↦ rw e (
      are_digits-decimal fuel (n / 10) ((b'0' + n % 10) ∷ t) (omega (arith, ltb_false→le n 10 e))
        (ground arith))
]

is_blank-decimal :
    (fuel n : ℕ) (t : Text) → is_blank t ≡ false → is_blank (decimal fuel n t) ≡ false
unfolding decimal
is_blank-decimal zero n t h = h
is_blank-decimal (suc fuel) n t h = elim (Bool-cases (ltb n 10)) [
  | inl e ↦ rw e refl
  | inr e ↦ rw e (is_blank-decimal fuel (n / 10) ((b'0' + n % 10) ∷ t) refl)
]

pub is_blank-digits_of : (n : ℕ) → is_blank (digits_of n) ≡ false
unfolding decimal
is_blank-digits_of n = elim (Bool-cases (ltb n 10)) [
  | inl e ↦ rw e refl
  | inr e ↦ rw e (is_blank-decimal n (n / 10) ((b'0' + n % 10) ∷ []) refl)
]

pub are_digits-digits_of : (n : ℕ) → are_digits (digits_of n) ≡ true
are_digits-digits_of n = are_digits-decimal (suc n) n [] (omega arith) (unfold are_digits in refl)

-- What the digits of a number stand for after those of another.
pub digits_value-digits_of :
    (a n : ℕ) → digits_value a (digits_of n) ≡ a * 10 ^ length (digits_of n) + n
unfolding digits_value
digits_value-digits_of a n =
    digits_value-decimal (suc n) n a [] (omega arith)
    ∙ ap (λ s. a * s + n)
        (scale-width (suc n) n ∙ ap (λ w. 10 ^ w) (omega (arith, length-decimal (suc n) n [])))
