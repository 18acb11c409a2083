-- ===== src/Amounts/Parts.antt =====
-- The parts of a formatted magnitude, read again.
use native.Mathlib.Nat.{pow-suc, mul_assoc, add-zero, div-add-mod'}
use mathlib.Core.List.{append-nil}
use stunks.Amounts.Padding.{both, blank-nil}
use stunks.Prelude.{
  ℕ, zero, suc, ◌+◌, ◌-◌, ◌*◌, ◌/◌, ◌%◌, ◌^◌, ◌≤◌, ◌<◌, ◌≡◌, refl, sym, ap, ◌∙◌, inl, inr, true,
  false, [], ◌∷◌, ◌++◌, length, take, arith, ◌==◌, Bool-cases,
}
use stunks.Prelude.Int.{pos, negsuc, ◌-ℤ◌}
use stunks.Prelude.Text.{Text}
use stunks.Prelude.Regex.{is_digit}
use stunks.Exemptions.{is_blank}
use stunks.Amounts.{
  digits_of, digits_value, are_digits, is_negative, unsigned, repeat, pad_start, pad_end,
  strip_zeros, with_fraction, format_magnitude, is_decimal, before_dot, after_dot, or_nought,
  magnitude_of,
}
use stunks.Amounts.Digits.{
  length-decimal, width-le, is_blank-digits_of, are_digits-digits_of, digits_value-digits_of,
}
use stunks.Amounts.Padding.{
  length-pad_start, digits_value-append, digits_value-repeat, are_digits-pad_start,
  are_digits-strip_zeros, pad_end-strip_zeros,
}
use stunks.Amounts.Plain.{
  are_signs, are_signs-are_digits, are_signs-append, is_decimal-append, before_dot-append,
  after_dot-append, before_dot-are_digits,
}

-- A text that begins with a digit has no sign.
abbrev pub IsBare : Text → Type 0
IsBare t = (is_negative t ≡ false) × (unsigned t ≡ t) × (is_blank t ≡ false) × (are_signs t ≡ true)

digit_not_minus : (c : ℕ) → is_digit c ≡ true → (c == b'-') ≡ false
digit_not_minus c h = ground arith

IsBare-append :
    (whole rest : Text)
    → are_digits whole ≡ true
    → is_blank whole ≡ false
    → are_signs rest ≡ true
    → IsBare (whole ++ rest)
unfolding are_digits
IsBare-append [] rest d b r = cc
IsBare-append (c ∷ t) rest d b r =
    rw (digit_not_minus c (both (is_digit c) (are_digits t) d).0)
      (refl, refl, refl, are_signs-append (c ∷ t) rest (are_signs-are_digits (c ∷ t) d) r)

pow_add : (m n : ℕ) → 10 ^ m * 10 ^ n ≡ 10 ^ (m + n)
pow_add m zero = ap (λ k. k) (omega (arith, ap (λ k. 10 ^ k) (add-zero m)))
pow_add m (suc n) =
    ap (λ k. 10 ^ m * k) (pow-suc 10 n)
    ∙ sym (mul_assoc (10 ^ m) (10 ^ n) 10)
    ∙ ap (λ k. k * 10) (pow_add m n)
    ∙ sym (pow-suc 10 (m + n))
    ∙ ap (λ k. 10 ^ k) (omega arith)

digits_fit : (part decimals : ℕ) → part < 10 ^ suc decimals → length (digits_of part) ≤ suc decimals
digits_fit part decimals h =
    omega (arith, length-decimal (suc part) part [], width-le (suc part) part decimals h)

-- `10n ** decimals` counts the zeros that the padding adds.
pad_value :
    (whole part decimals : ℕ)
    → part < 10 ^ suc decimals
    → digits_value whole (pad_start (suc decimals) (digits_of part))
      ≡ whole * 10 ^ suc decimals + part
unfolding pad_start
pad_value whole part decimals h =
    let long = length (digits_of part) in
    let fits : long ≤ suc decimals = digits_fit part decimals h in
    digits_value-append whole (repeat (suc decimals - long)) (digits_of part)
    ∙ digits_value-digits_of (digits_value whole (repeat (suc decimals - long))) part
    ∙ ap (λ n. n * 10 ^ long + part) (digits_value-repeat whole (suc decimals - long))
    ∙ ap (λ n. n + part)
        (mul_assoc whole (10 ^ (suc decimals - long)) (10 ^ long)
          ∙ ap (λ n. whole * n)
              (pow_add (suc decimals - long) long ∙ ap (λ n. 10 ^ n) (omega arith)))

dot_signs : (t : Text) → are_digits t ≡ true → are_signs (b'.' ∷ t) ≡ true
unfolding are_signs
dot_signs t h = are_signs-are_digits t h

dot_decimal : (t : Text) → are_digits t ≡ true → is_decimal (b'.' ∷ t) ≡ true
unfolding is_decimal
dot_decimal t h = h

dot_before : (whole t : Text) → whole ++ before_dot (b'.' ∷ t) ≡ whole
unfolding before_dot
dot_before whole t = append-nil whole

dot_after : (t : Text) → are_digits t ≡ true → after_dot (b'.' ∷ t) ≡ t
unfolding after_dot
dot_after t h = before_dot-are_digits t h

no_padding : (n : ℕ) → digits_value n (pad_end 0 []) ≡ n
unfolding digits_value pad_end repeat
no_padding n = refl

-- A text of a whole part and a fraction has them as its parts.
abbrev HasParts : Text → Text → Text → Type 0
HasParts t whole fraction =
    IsBare t × (is_decimal t ≡ true) × (before_dot t ≡ whole) × (after_dot t ≡ fraction)

nil_parts :
    (whole : Text) → are_digits whole ≡ true → is_blank whole ≡ false → HasParts whole whole []
unfolding are_signs is_decimal before_dot after_dot
nil_parts whole d b =
    let parts : HasParts (whole ++ []) whole [] = (
      IsBare-append whole [] d b refl,
      is_decimal-append [] whole d,
      before_dot-append [] whole d ∙ append-nil whole,
      after_dot-append [] whole d,
    ) in
    rw (append-nil whole) at parts

with_fraction_parts :
    (whole fraction : Text)
    → are_digits whole ≡ true
    → is_blank whole ≡ false
    → are_digits fraction ≡ true
    → HasParts (with_fraction whole fraction) whole fraction
with_fraction_parts whole fraction d b f = elim (Bool-cases (is_blank fraction)) [
  | inl e ↦ rw (blank-nil fraction e) (nil_parts whole d b)
  | inr e ↦ rw e (
    IsBare-append whole (b'.' ∷ fraction) d b (dot_signs fraction f),
    is_decimal-append (b'.' ∷ fraction) whole d ∙ dot_decimal fraction f,
    before_dot-append (b'.' ∷ fraction) whole d ∙ dot_before whole fraction,
    after_dot-append (b'.' ∷ fraction) whole d ∙ dot_after fraction f,
  )
]

or_nought_lem : (t : Text) → is_blank t ≡ false → or_nought t ≡ t
or_nought_lem [] h = cc
or_nought_lem (c ∷ t) h = refl

-- What is read of a text is told by its parts.
magnitude_parts :
    (t whole fraction : Text) (decimals : ℕ)
    → is_blank whole ≡ false
    → before_dot t ≡ whole
    → after_dot t ≡ fraction
    → magnitude_of t decimals
      ≡ digits_value (digits_value 0 whole) (pad_end decimals (take decimals fraction))
magnitude_parts t whole fraction decimals b before after =
    ap (λ s. digits_value 0 (or_nought s ++ pad_end decimals (take decimals (after_dot t)))) before
    ∙ ap (λ s. digits_value 0 (or_nought whole ++ pad_end decimals (take decimals s))) after
    ∙ ap (λ s. digits_value 0 (s ++ pad_end decimals (take decimals fraction)))
        (or_nought_lem whole b)
    ∙ digits_value-append 0 whole (pad_end decimals (take decimals fraction))

abbrev pub IsRead : Text → ℕ → ℕ → Type 0
IsRead t decimals magnitude =
    IsBare t × (is_decimal t ≡ true) × (magnitude_of t decimals ≡ magnitude)

pub value_of_digits : (n : ℕ) → digits_value 0 (digits_of n) ≡ n
value_of_digits n = digits_value-digits_of 0 n ∙ omega arith

IsRead-with_fraction :
    (whole part decimals : ℕ)
    → part < 10 ^ suc decimals
    → IsRead
        (with_fraction (digits_of whole) (strip_zeros (pad_start (suc decimals) (digits_of part))))
        (suc decimals)
        (whole * 10 ^ suc decimals + part)
IsRead-with_fraction whole part decimals h =
    let padded = pad_start (suc decimals) (digits_of part) in
    let full : are_digits padded ≡ true =
      are_digits-pad_start (suc decimals) (digits_of part) (are_digits-digits_of part) in
    let (bare, dec, before, after) =
      with_fraction_parts (digits_of whole) (strip_zeros padded) (are_digits-digits_of whole)
        (is_blank-digits_of whole) (are_digits-strip_zeros padded full) in
    (
      bare,
      dec,
      magnitude_parts _ (digits_of whole) (strip_zeros padded) (suc decimals)
            (is_blank-digits_of whole) before after
          ∙ ap
              (λ n.
                digits_value n (pad_end (suc decimals) (take (suc decimals) (strip_zeros padded))))
              (value_of_digits whole)
          ∙ ap (digits_value whole) (
              pad_end-strip_zeros (suc decimals) padded
                (length-pad_start (suc decimals) (digits_of part) (digits_fit part decimals h)))
          ∙ pad_value whole part decimals h,
    )

pub IsRead-digits_of : (whole : ℕ) → IsRead (digits_of whole) 0 whole
unfolding digits_value
IsRead-digits_of whole =
    let (bare, dec, before, after) =
      nil_parts (digits_of whole) (are_digits-digits_of whole) (is_blank-digits_of whole) in
    (
      bare,
      dec,
      magnitude_parts (digits_of whole) (digits_of whole) [] 0 (is_blank-digits_of whole) before
            after
          ∙ no_padding (digits_value 0 (digits_of whole))
          ∙ value_of_digits whole,
    )

suc_not_zero : (n : ℕ) → (suc n == 0) ≡ false
suc_not_zero n = ground arith

pub minus_suc : (n : ℕ) → pos 0 -ℤ pos (suc n) ≡ negsuc n
minus_suc n = ground arith

div_one : (n : ℕ) → n / 1 ≡ n
div_one n = omega arith

pow_pos : (n : ℕ) → 0 < 10 ^ n
pow_pos zero = omega arith
pow_pos (suc n) = omega (arith, pow-suc 10 n, pow_pos n)

mod-lt_base : (n decimals : ℕ) → n % 10 ^ suc decimals < 10 ^ suc decimals
mod-lt_base n decimals = grind (arith, pow_pos (suc decimals))

pub IsRead-format_magnitude :
    (magnitude decimals : ℕ) → IsRead (format_magnitude magnitude decimals) decimals magnitude
IsRead-format_magnitude magnitude zero = rw (div_one magnitude) (IsRead-digits_of magnitude)
IsRead-format_magnitude magnitude (suc decimals) =
    let base = 10 ^ suc decimals in
    let (bare, dec, read) =
      IsRead-with_fraction (magnitude / base) (magnitude % base) decimals
        (mod-lt_base magnitude decimals) in
    rw (suc_not_zero decimals) (bare, dec, read ∙ div-add-mod' magnitude base)
