-- ===== src/Tests/Amounts.antt =====
-- Amounts as texts, and round trips at negative amounts.
use stunks.Prelude.{◌≡◌, refl, none, some, arith}
use stunks.Prelude.Int.{pos, negsuc}
use stunks.Prelude.Text.{Text}
use stunks.Prelude.Regex.{codes}
use stunks.Amounts.{format_units_exact, parse_units_exact, serialise_amount, deserialise_amount}
use stunks.Amounts.Trip.{parse_units_exact-format_units_exact, deserialise_amount-serialise_amount}

formats : format_units_exact (negsuc 1_500_499) 6 ≡ some (codes "-1.5005")
unfolding format_units_exact stunks.Amounts.decimal stunks.Amounts.pad_start
    stunks.Amounts.strip_zeros
formats = refl

-- Digits beyond the decimals are cut off, and a whole part may be missing.
parses : parse_units_exact (codes " .12999") 2 ≡ some (pos 12)
unfolding parse_units_exact stunks.Amounts.digits_value stunks.Amounts.is_decimal
    stunks.Amounts.before_dot stunks.Amounts.after_dot stunks.Amounts.pad_end stunks.Exemptions.trim
parses = refl

refuses : parse_units_exact (codes "1e18") 2 ≡ none
unfolding parse_units_exact stunks.Amounts.is_decimal stunks.Exemptions.trim
refuses = refl

parse_units_exact-format_units_exact_example :
    (text : Text) × (format_units_exact (negsuc 1_500_499) 6 ≡ some text)
    × (parse_units_exact text 6 ≡ some (negsuc 1_500_499))
parse_units_exact-format_units_exact_example =
    parse_units_exact-format_units_exact (negsuc 1_500_499) 6 (omega arith)

deserialise_amount-serialise_amount_example :
    deserialise_amount (serialise_amount (negsuc 41)) ≡ some (negsuc 41)
deserialise_amount-serialise_amount_example = deserialise_amount-serialise_amount (negsuc 41)
