-- ===== src/Prelude/Regex.antt =====
-- The regular expressions of the source, with the flag `i`, as a matcher that lists every place
-- where a match may end. A place is the code unit before it and the text after it.
use Prim.Native.Nat.{ℕ, zero, suc}
use Prim.Native.Char.{code}
use Prim.Native.String.{String}
use mathlib.Core.Bool.{Bool, true, false, not, ◌&&◌, ◌||◌}
use mathlib.Core.List.{List, [], ◌∷◌, ◌++◌}
use mathlib.Core.Option.{Option, none, some}
use stunks.Prelude.Tests.{leb, ◌==◌, if◌then◌else◌}
use stunks.Prelude.Lists.{length}
use stunks.Prelude.Text.{Text, lower_code}

-- The code units of a text in ASCII.
abbrev pub codes : String → Text
codes String.[] = []
codes (String.◌∷◌ c s) = code c ∷ codes s

pub data Regex : Type 0 where
  char : (ℕ → Bool) → Regex
  word_edge nothing : Regex
  then_ or_ : Regex → Regex → Regex
  some_of : Regex → Regex  -- `+`
  up_to : ℕ → Regex → Regex  -- `{0,n}`

abbrev Place : Type 0
Place = Option ℕ × Text

abbrev pub is_digit : ℕ → Bool
is_digit c = leb b'0' c && leb c b'9'

-- `\w`.
abbrev is_word : ℕ → Bool
is_word c = is_digit c || (leb b'a' (lower_code c) && leb (lower_code c) b'z') || c == b'_'

abbrev opens : Text → Bool
opens [] = false
opens (c ∷ t) = is_word c

abbrev closes : Option ℕ → Bool
closes none = false
closes (some c) = is_word c

abbrev same : Bool → Bool → Bool
same true b = b
same false b = not b

-- The places that a list of places leads to.
ends_of : (Place → List Place) → List Place → List Place
ends_of step [] = []
ends_of step (p ∷ ps) = step p ++ ends_of step ps

-- One match of `step` or more; each takes a code unit at least, so the text's length is fuel enough.
repeated : ℕ → (Place → List Place) → Place → List Place
unfolding ends_of
repeated zero step p = []
repeated (suc fuel) step p = let next = step p in next ++ ends_of (repeated fuel step) next

at_most : ℕ → (Place → List Place) → Place → List Place
unfolding ends_of
at_most zero step p = p ∷ []
at_most (suc n) step p = p ∷ ends_of (at_most n step) (step p)

read_char : (ℕ → Bool) → Place → List Place
read_char test (before, []) = []
read_char test (before, c ∷ t) = if test c then (some c, t) ∷ [] else []

unfoldable pub ends : Regex → Place → List Place
unfolding ends_of repeated at_most read_char
ends (char test) p = read_char test p
ends word_edge (before, t) = if same (closes before) (opens t) then [] else (before, t) ∷ []
ends nothing p = p ∷ []
ends (then_ r s) p = ends_of (ends s) (ends r p)
ends (or_ r s) p = ends r p ++ ends s p
ends (some_of r) p = repeated (length p.1) (ends r) p
ends (up_to n r) p = at_most n (ends r) p

abbrev is_found : List Place → Bool
is_found [] = false
is_found (p ∷ ps) = true

search_from : Regex → Option ℕ → Text → Bool
unfolding ends
search_from r before [] = is_found (ends r (before, []))
search_from r before (c ∷ t) = is_found (ends r (before, c ∷ t)) || search_from r (some c) t

-- `pattern.test(text)`.
unfoldable pub test : Regex → Text → Bool
unfolding search_from
test r t = search_from r none t

-- A literal, whatever its case.
abbrev pub literal : Text → Regex
literal [] = nothing
literal (c ∷ t) = then_ (char (λ x. lower_code x == lower_code c)) (literal t)

abbrev pub text : String → Regex
text s = literal (codes s)

abbrev pub optional : Regex → Regex
optional r = up_to 1 r

abbrev pub digits : Regex
digits = some_of (char is_digit)

-- `.`.
abbrev pub any_char : Regex
any_char = char (λ c. not (c == 10 || c == 13 || c == 8_232 || c == 8_233))

infixr 20 ◌~◌
abbrev pub ◌~◌ : Regex → Regex → Regex
r ~ s = then_ r s
