-- ===== src/Amounts/Plain.antt =====
-- The texts of amounts: nothing of them is trimmed, and their parts are found again.
use stunks.Prelude.{ℕ, ◌≡◌, refl, ap, Bool, true, false, ◌&&◌, ◌||◌, [], ◌∷◌, ◌++◌, arith, ◌==◌}
use stunks.Prelude.Text.{Text, is_space}
use stunks.Prelude.Regex.{is_digit}
use stunks.Exemptions.{trim_end, trim}
use stunks.Amounts.Padding.{both}
use stunks.Amounts.{are_digits, is_decimal, before_dot, after_dot}

-- A digit, a dot or a minus.
abbrev pub is_sign : ℕ → Bool
is_sign c = is_digit c || (c == b'.' || c == b'-')

unfoldable pub are_signs : Text → Bool
are_signs [] = true
are_signs (c ∷ t) = is_sign c && are_signs t

is_sign-is_space : (c : ℕ) → is_sign c ≡ true → is_space c ≡ false
is_sign-is_space c h = ground arith

trim_end-are_signs : (t : Text) → are_signs t ≡ true → trim_end t ≡ t
unfolding trim_end are_signs
trim_end-are_signs [] h = refl
trim_end-are_signs (c ∷ t) h =
    let (sign, rest) = both (is_sign c) (are_signs t) h in
    rw (is_sign-is_space c sign) (ap (λ s. c ∷ s) (trim_end-are_signs t rest))

pub trim-are_signs : (t : Text) → are_signs t ≡ true → trim t ≡ t
unfolding trim are_signs
trim-are_signs [] h = refl
trim-are_signs (c ∷ t) h =
    let (sign, rest) = both (is_sign c) (are_signs t) h in
    rw (is_sign-is_space c sign) (ap (λ s. c ∷ s) (trim_end-are_signs t rest))

pub are_signs-are_digits : (t : Text) → are_digits t ≡ true → are_signs t ≡ true
unfolding are_signs are_digits
are_signs-are_digits [] h = refl
are_signs-are_digits (c ∷ t) h = ground (arith, are_signs-are_digits t)

pub are_signs-append :
    (s t : Text) → are_signs s ≡ true → are_signs t ≡ true → are_signs (s ++ t) ≡ true
unfolding are_signs
are_signs-append [] t h k = k
are_signs-append (c ∷ s) t h k = ground (arith, are_signs-append s t)

module _ (fraction : Text) where
  pub is_decimal-append :
      (whole : Text)
      → are_digits whole ≡ true
      → is_decimal (whole ++ fraction) ≡ is_decimal fraction
  unfolding is_decimal are_digits
  is_decimal-append [] h = refl
  is_decimal-append (c ∷ t) h = ground (arith, is_decimal-append t)

  pub before_dot-append :
      (whole : Text)
      → are_digits whole ≡ true
      → before_dot (whole ++ fraction) ≡ whole ++ before_dot fraction
  unfolding before_dot are_digits
  before_dot-append [] h = refl
  before_dot-append (c ∷ t) h = ground (arith, before_dot-append t)

  pub after_dot-append :
      (whole : Text) → are_digits whole ≡ true → after_dot (whole ++ fraction) ≡ after_dot fraction
  unfolding after_dot are_digits
  after_dot-append [] h = refl
  after_dot-append (c ∷ t) h = ground (arith, after_dot-append t)

pub before_dot-are_digits : (t : Text) → are_digits t ≡ true → before_dot t ≡ t
unfolding before_dot are_digits
before_dot-are_digits [] h = refl
before_dot-are_digits (c ∷ t) h = ground (arith, before_dot-are_digits t)
