-- ===== src/Amounts.antt =====
-- Amounts as texts: parseUnitsExact, formatUnitsExact, serialiseAmount and deserialiseAmount of
-- packages/utils/src/money.ts. `none` is where the code throws. A number of decimals that is negative
-- or no integer is refused as one that is too large, so that the model takes the naturals.
pub mod Digits
pub mod Padding
pub mod Plain
pub mod Parts
pub mod Trip
use stunks.Prelude.{
  ℕ, zero, suc, ◌+◌, ◌-◌, ◌*◌, ◌/◌, ◌%◌, ◌^◌, Bool, true, false, not, ◌&&◌, ◌||◌, Option, none,
  some, List, [], ◌∷◌, ◌++◌, length, take, ltb, ◌==◌, if◌then◌else◌,
}
use stunks.Prelude.Int.{ℤ, pos, negsuc, ◌-ℤ◌}
use stunks.Prelude.Text.{Text}
use stunks.Prelude.Regex.{is_digit}
use stunks.Exemptions.{is_blank, trim}

abbrev pub max_decimals : ℕ
max_decimals = 48

-- The digits of a number before a text; each takes one of the fuel, and a number has fewer digits than
-- one more than itself.
unfoldable pub decimal : ℕ → ℕ → Text → Text
decimal zero n t = t
decimal (suc fuel) n t =
    let more = decimal fuel (n / 10) ((b'0' + n % 10) ∷ t) in
    if ltb n 10 then (b'0' + n) ∷ t else more

-- `toString(10)` of what is not negative.
abbrev pub digits_of : ℕ → Text
digits_of n = decimal (suc n) n []

unfoldable pub serialise_amount : ℤ → Text
serialise_amount (pos n) = digits_of n
serialise_amount (negsuc n) = b'-' ∷ digits_of (suc n)

-- `BigInt` of digits, after those that stand for `n`.
unfoldable pub digits_value : ℕ → Text → ℕ
digits_value n [] = n
digits_value n (c ∷ t) = digits_value (n * 10 + (c - b'0')) t

unfoldable pub are_digits : Text → Bool
are_digits [] = true
are_digits (c ∷ t) = is_digit c && are_digits t

abbrev pub signed : Bool → ℕ → ℤ
signed true n = pos 0 -ℤ pos n
signed false n = pos n

abbrev pub is_negative : Text → Bool
is_negative [] = false
is_negative (c ∷ t) = c == b'-'

abbrev pub unsigned : Text → Text
unsigned [] = []
unsigned (c ∷ t) = if c == b'-' then t else c ∷ t

-- `/^-?\d+$/` on the trimmed text.
abbrev pub read_integer : Text → Option ℤ
read_integer t =
    if not (is_blank (unsigned t)) && are_digits (unsigned t)
    then some (signed (is_negative t) (digits_value 0 (unsigned t)))
    else none

unfoldable pub deserialise_amount : Text → Option ℤ
deserialise_amount t = read_integer (trim t)

unfoldable pub repeat : ℕ → Text
repeat zero = []
repeat (suc n) = b'0' ∷ repeat n

-- `padStart` and `padEnd` with zeros.
unfoldable pub pad_start : ℕ → Text → Text
unfolding repeat
pad_start width t = repeat (width - length t) ++ t

unfoldable pub pad_end : ℕ → Text → Text
unfolding repeat
pad_end width t = t ++ repeat (width - length t)

-- `replace(/0+$/, "")`.
unfoldable pub strip_zeros : Text → Text
strip_zeros [] = []
strip_zeros (c ∷ t) =
    let rest = strip_zeros t in if c == b'0' && is_blank rest then [] else c ∷ rest

abbrev pub with_fraction : Text → Text → Text
with_fraction whole fraction = if is_blank fraction then whole else whole ++ b'.' ∷ fraction

abbrev pub format_magnitude : ℕ → ℕ → Text
format_magnitude magnitude decimals =
    let base = 10 ^ decimals in
    if decimals == 0
    then digits_of (magnitude / base)
    else with_fraction (digits_of (magnitude / base))
        (strip_zeros (pad_start decimals (digits_of (magnitude % base))))

abbrev pub format_signed : ℤ → ℕ → Text
format_signed (pos n) decimals = format_magnitude n decimals
format_signed (negsuc n) decimals = b'-' ∷ format_magnitude (suc n) decimals

unfoldable pub format_units_exact : ℤ → ℕ → Option Text
format_units_exact value decimals =
    if ltb max_decimals decimals then none else some (format_signed value decimals)

-- `/^-?\d*(\.\d*)?$/`, after the sign.
unfoldable pub is_decimal : Text → Bool
unfolding are_digits
is_decimal [] = true
is_decimal (c ∷ t) =
    let rest = is_decimal t in if is_digit c then rest else c == b'.' && are_digits t

-- `split(".")`: the part before the first dot, and the part between it and the next.
unfoldable pub before_dot : Text → Text
before_dot [] = []
before_dot (c ∷ t) = let rest = before_dot t in if c == b'.' then [] else c ∷ rest

unfoldable pub after_dot : Text → Text
unfolding before_dot
after_dot [] = []
after_dot (c ∷ t) = let rest = after_dot t in if c == b'.' then before_dot t else rest

abbrev pub or_nought : Text → Text
or_nought [] = b'0' ∷ []
or_nought (c ∷ t) = c ∷ t

-- The magnitude of a text after its sign.
abbrev pub magnitude_of : Text → ℕ → ℕ
magnitude_of t decimals =
    digits_value 0 (or_nought (before_dot t) ++ pad_end decimals (take decimals (after_dot t)))

-- From the trimmed text on; a text of its sign alone is the text "-".
abbrev pub read_units : Text → ℕ → Option ℤ
read_units t decimals =
    if not (is_decimal (unsigned t)) || is_blank (unsigned t)
    then none
    else some (signed (is_negative t) (magnitude_of (unsigned t) decimals))

unfoldable pub parse_units_exact : Text → ℕ → Option ℤ
parse_units_exact value decimals =
    if ltb max_decimals decimals then none else read_units (trim value) decimals
