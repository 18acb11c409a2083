-- ===== src/Amounts/Padding.antt =====
-- Padding with zeros, and taking zeros off again.
use native.Mathlib.Nat.{pow-suc, mul_assoc}
use stunks.Prelude.{
  ℕ, zero, suc, ◌+◌, ◌-◌, ◌*◌, ◌^◌, ◌≤◌, ◌≡◌, refl, sym, ap, ◌∙◌, inl, inr, Bool, true, false, ◌&&◌,
  List, [], ◌∷◌, ◌++◌, length, length-append, take, arith, ◌==◌, Bool-cases, ==_iff,
}
use stunks.Prelude.Text.{Text}
use stunks.Exemptions.{is_blank}
use stunks.Amounts.{digits_value, are_digits, repeat, pad_start, pad_end, strip_zeros}

pub length-repeat : (n : ℕ) → length (repeat n) ≡ n
unfolding repeat
length-repeat zero = refl
length-repeat (suc n) = ap suc (length-repeat n)

pub length-pad_start :
    (width : ℕ) (t : Text) → length t ≤ width → length (pad_start width t) ≡ width
unfolding pad_start
length-pad_start width t h =
    omega (arith, length-append (repeat (width - length t)) t, length-repeat (width - length t))

pub digits_value-append :
    (a : ℕ) (s t : Text) → digits_value a (s ++ t) ≡ digits_value (digits_value a s) t
unfolding digits_value
digits_value-append a [] t = refl
digits_value-append a (c ∷ s) t = digits_value-append (a * 10 + (c - b'0')) s t

pub digits_value-repeat : (a n : ℕ) → digits_value a (repeat n) ≡ a * 10 ^ n
unfolding digits_value repeat
digits_value-repeat a zero = omega arith
digits_value-repeat a (suc n) =
    digits_value-repeat (a * 10 + (b'0' - b'0')) n
    ∙ ap (λ k. k * 10 ^ n) (omega arith)
    ∙ mul_assoc a 10 (10 ^ n)
    ∙ ap (λ k. a * k) (omega (arith, pow-suc 10 n))

are_digits-repeat : (n : ℕ) → are_digits (repeat n) ≡ true
unfolding are_digits repeat
are_digits-repeat zero = refl
are_digits-repeat (suc n) = are_digits-repeat n

pub are_digits-append :
    (s t : Text) → are_digits s ≡ true → are_digits t ≡ true → are_digits (s ++ t) ≡ true
unfolding are_digits
are_digits-append [] t h k = k
are_digits-append (c ∷ s) t h k = ground (arith, are_digits-append s t)

pub are_digits-pad_start :
    (width : ℕ) (t : Text) → are_digits t ≡ true → are_digits (pad_start width t) ≡ true
unfolding pad_start
are_digits-pad_start width t h =
    are_digits-append (repeat (width - length t)) t (are_digits-repeat (width - length t)) h

pub both : (a b : Bool) → (a && b) ≡ true → (a ≡ true) × (b ≡ true)
both true b h = (refl, h)
both false b h = cc

pub blank-nil : (t : Text) → is_blank t ≡ true → t ≡ []
blank-nil [] h = refl
blank-nil (c ∷ t) h = cc

-- What is taken off is zeros, and is put back by the padding.
pub strip_zeros-repeat :
    (t : Text) → (n : ℕ) × (strip_zeros t ++ repeat n ≡ t) × (length (strip_zeros t) + n ≡ length t)
unfolding strip_zeros repeat
strip_zeros-repeat [] = (0, refl, refl)
strip_zeros-repeat (c ∷ t) =
    let (n, same, long) = strip_zeros-repeat t in
    elim (Bool-cases (c == b'0' && is_blank (strip_zeros t))) [
      | inl e ↦
          let (nought, blank) = both (c == b'0') (is_blank (strip_zeros t)) e in
          let none_left = blank-nil (strip_zeros t) blank in
          let rest : repeat n ≡ t = ap (λ s. s ++ repeat n) (sym none_left) ∙ same in
          rw e (
            suc n,
            λ i. sym ((==_iff c b'0').0 nought) i ∷ rest i,
            omega (arith, ap length none_left, long),
          )
      | inr e ↦ rw e (n, ap (λ s. c ∷ s) same, omega (arith, long))
    ]

pub are_digits-strip_zeros : (t : Text) → are_digits t ≡ true → are_digits (strip_zeros t) ≡ true
unfolding are_digits strip_zeros
are_digits-strip_zeros [] h = refl
are_digits-strip_zeros (c ∷ t) h = ground (arith, are_digits-strip_zeros t)

take_all {ℓ} : {A : Type ℓ} (n : ℕ) (xs : List A) → length xs ≤ n → take n xs ≡ xs
take_all zero [] h = refl
take_all zero (x ∷ xs) h = absurd (omega arith)
take_all (suc n) [] h = refl
take_all (suc n) (x ∷ xs) h = ap (λ ys. x ∷ ys) (take_all n xs (omega arith))

pub pad_end-strip_zeros :
    (width : ℕ) (t : Text) → length t ≡ width → pad_end width (take width (strip_zeros t)) ≡ t
unfolding pad_end
pad_end-strip_zeros width t h =
    let (n, same, long) = strip_zeros-repeat t in
    ap (λ s. s ++ repeat (width - length s)) (take_all width (strip_zeros t) (omega (arith, long)))
    ∙ ap (λ k. strip_zeros t ++ repeat k) (omega (arith, long))
    ∙ same
