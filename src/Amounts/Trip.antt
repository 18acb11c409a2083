-- ===== src/Amounts/Trip.antt =====
-- What is formatted is parsed, and what is serialised is read back.
use stunks.Prelude.{ℕ, suc, ◌≤◌, ◌≡◌, refl, ap, ◌∙◌, false, some, ◌∷◌, arith, ltb}
use stunks.Prelude.Int.{ℤ, pos, negsuc, ◌-ℤ◌}
use stunks.Prelude.Text.{Text}
use stunks.Exemptions.{trim}
use stunks.Amounts.{
  max_decimals, digits_of, serialise_amount, deserialise_amount, format_magnitude,
  format_units_exact, read_units, parse_units_exact,
}
use stunks.Amounts.Digits.{are_digits-digits_of}
use stunks.Amounts.Plain.{are_signs, trim-are_signs}
use stunks.Amounts.Parts.{
  IsRead, IsRead-digits_of, IsRead-format_magnitude, minus_suc, value_of_digits,
}

-- The text is read as the number, and after a minus as its negation.
read_bare :
    (t : Text) (decimals n : ℕ) → IsRead t decimals n → read_units (trim t) decimals ≡ some (pos n)
read_bare t decimals n ((sign, same, filled, signs), dec, read) =
    rw (trim-are_signs t signs, sign, same, dec, filled) (ap (λ k. some (pos k)) read)

read_minus :
    (t : Text) (decimals n : ℕ)
    → IsRead t decimals (suc n)
    → read_units (trim (b'-' ∷ t)) decimals ≡ some (negsuc n)
unfolding are_signs
read_minus t decimals n ((sign, same, filled, signs), dec, read) =
    rw (trim-are_signs (b'-' ∷ t) signs, dec, filled)
      (ap (λ k. some (pos 0 -ℤ pos k)) read ∙ ap some (minus_suc n))

within : (decimals : ℕ) → decimals ≤ 48 → ltb max_decimals decimals ≡ false
within decimals h = ground arith

-- With at most 48 decimals, formatting an amount answers, and parsing the text with as many decimals
-- gives the amount back, whatever its sign.
pub parse_units_exact-format_units_exact :
    (value : ℤ) (decimals : ℕ)
    → decimals ≤ 48
    → (text : Text) × (format_units_exact value decimals ≡ some text)
      × (parse_units_exact text decimals ≡ some value)
unfolding format_units_exact parse_units_exact
parse_units_exact-format_units_exact (pos n) decimals h = (
  format_magnitude n decimals,
  rw (within decimals h) refl,
  rw (within decimals h)
      (read_bare (format_magnitude n decimals) decimals n (IsRead-format_magnitude n decimals)),
)
parse_units_exact-format_units_exact (negsuc n) decimals h = (
  b'-' ∷ format_magnitude (suc n) decimals,
  rw (within decimals h) refl,
  rw (within decimals h) (
      read_minus (format_magnitude (suc n) decimals) decimals n
        (IsRead-format_magnitude (suc n) decimals)),
)

-- Reading a serialised amount gives the amount back, whatever its sign.
pub deserialise_amount-serialise_amount :
    (value : ℤ) → deserialise_amount (serialise_amount value) ≡ some value
unfolding deserialise_amount serialise_amount are_signs
deserialise_amount-serialise_amount (pos n) =
    let (sign, same, filled, signs) = (IsRead-digits_of n).0 in
    rw (trim-are_signs (digits_of n) signs, sign, same, filled, are_digits-digits_of n)
      (ap (λ k. some (pos k)) (value_of_digits n))
deserialise_amount-serialise_amount (negsuc n) =
    let (sign, same, filled, signs) = (IsRead-digits_of (suc n)).0 in
    rw (trim-are_signs (b'-' ∷ digits_of (suc n)) signs, filled, are_digits-digits_of (suc n))
      (ap (λ k. some (pos 0 -ℤ pos k)) (value_of_digits (suc n)) ∙ ap some (minus_suc n))
