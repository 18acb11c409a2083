-- ===== src/Exemptions.antt =====
-- The validation of a launch's whitelist: packages/pons/src/launch/exemptions.ts. The tests on
-- addresses of the client library, `isAddress` and `getAddress`, are parameters.
pub mod Listed
use stunks.Prelude.{
  ℕ, zero, suc, ◌+◌, ◌-◌, Bool, true, false, not, ◌&&◌, ◌||◌, Option, none, some, List, [], ◌∷◌,
  ◌++◌, length, ltb, leb, ◌==◌, if◌then◌else◌,
}
use stunks.Prelude.Text.{Text, lower, text_eq, has, is_space}
use stunks.Graduation.{Address}
use stunks.Bundle.Execution.{zeros}

abbrev pub max_declarable_snipe_exemptions : ℕ
max_declarable_snipe_exemptions = 31

abbrev pub zero_address : Address
zero_address = 48 ∷ 120 ∷ zeros 40

abbrev pub is_blank : Text → Bool
is_blank [] = true
is_blank (c ∷ s) = false

unfoldable pub trim_end : Text → Text
trim_end [] = []
trim_end (c ∷ s) = let rest = trim_end s in if is_space c && is_blank rest then [] else c ∷ rest

unfoldable pub trim : Text → Text
unfolding trim_end
trim [] = []
trim (c ∷ s) = let rest = trim s in if is_space c then rest else trim_end (c ∷ s)

-- The errors and warnings, with what their messages name; places count from 1.
pub data ExemptionError : Type 0 where
  invalid_entry : ℕ → Text → ExemptionError
  zero_entry : ℕ → ExemptionError
  too_many_entries : ℕ → ExemptionError

pub data ExemptionWarning : Type 0 where
  appears_again automatic : Address → ExemptionWarning

pub record ExemptionValidationInput : Type 0 where
  pub addresses : List Text
  pub deployer : Address
  pub creator_fee_recipient : Option Address

pub record ExemptionValidationResult : Type 0 where
  pub addresses : List Address
  pub errors : List ExemptionError
  pub warnings : List ExemptionWarning
  pub slots_used : ℕ
  pub slots_remaining : ℕ

-- The set `autoExempt`.
abbrev pub recipient_keys : Address → Option Address → List Text
recipient_keys deployer none = []
recipient_keys deployer (some recipient) =
    if not (text_eq (lower recipient) (lower deployer)) then lower recipient ∷ [] else []

unfoldable pub auto_exempt : ExemptionValidationInput → List Text
auto_exempt input = lower input.deployer ∷ recipient_keys input.deployer input.creator_fee_recipient

-- What the body of the loop decides of an entry.
pub data Entry : Type 0 where
  skipped not_an_address the_zero_address : Entry
  seen_before auto_exempted listed : Address → Entry

-- What the loop has collected.
pub record Collected : Type 0 where
  pub addresses : List Address
  pub errors : List ExemptionError
  pub warnings : List ExemptionWarning

abbrev pub seen_after : List Text → Entry → List Text
seen_after seen (listed address) = lower address ∷ seen
seen_after seen _ = seen

abbrev pub enter : ℕ → Text → Entry → Collected → Collected
enter place raw skipped c = c
enter place raw not_an_address c = record c { errors = invalid_entry place (trim raw) ∷ c.errors }
enter place raw the_zero_address c = record c { errors = zero_entry place ∷ c.errors }
enter place raw (seen_before a) c = record c { warnings = appears_again a ∷ c.warnings }
enter place raw (auto_exempted a) c = record c { warnings = automatic a ∷ c.warnings }
enter place raw (listed a) c = record c { addresses = a ∷ c.addresses }

abbrev pub count_errors : ℕ → List ExemptionError
count_errors count =
    if ltb max_declarable_snipe_exemptions count then too_many_entries count ∷ [] else []

module _ (is_address : Text → Bool) (get_address : Text → Address) where
  unfoldable pub entry_of : List Text → List Text → Text → Entry
  entry_of auto seen raw =
      let trimmed = trim raw in
      let checksummed = get_address trimmed in
      if is_blank trimmed
      then skipped
      else if not (is_address trimmed)
      then not_an_address
      else if text_eq (lower checksummed) (lower zero_address)
      then the_zero_address
      else if has (lower checksummed) seen
      then seen_before checksummed
      else if has (lower checksummed) auto
      then auto_exempted checksummed
      else listed checksummed

  -- The loop from the entry at `place` on.
  unfoldable pub collect : List Text → List Text → ℕ → List Text → Collected
  unfolding entry_of
  collect auto seen place [] = record { addresses = []; errors = []; warnings = [] }
  collect auto seen place (raw ∷ raws) =
      let entry = entry_of auto seen raw in
      enter place raw entry (collect auto (seen_after seen entry) (suc place) raws)

  -- `Math.max(0, …)` is the subtraction that stops at 0.
  unfoldable pub validate_snipe_exemptions : ExemptionValidationInput → ExemptionValidationResult
  unfolding collect auto_exempt
  validate_snipe_exemptions input =
      let collected = collect (auto_exempt input) [] 1 input.addresses in
      let count = length collected.addresses in
      record {
        addresses = collected.addresses;
        errors = collected.errors ++ count_errors count;
        warnings = collected.warnings;
        slots_used = count;
        slots_remaining = max_declarable_snipe_exemptions - count;
      }
