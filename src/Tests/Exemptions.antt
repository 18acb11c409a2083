-- ===== src/Tests/Exemptions.antt =====
-- The whitelist's validation at concrete entries.
use stunks.Prelude.{ℕ, ◌+◌, ◌≡◌, refl, Bool, true, Option, none, List, [], ◌∷◌, length, All}
use stunks.Prelude.Text.{Text}
use stunks.Graduation.{Address}
use stunks.Exemptions.{ExemptionValidationInput, auto_exempt, validate_snipe_exemptions, trim}
use stunks.Exemptions.Listed.{AreListed, IsAutoExempt, covered, validate_snipe_exemptions-AreListed}

abbrev any_text : Text → Bool
any_text t = true

abbrev as_typed : Text → Address
as_typed t = t

-- An address, a blank line, the same address in upper case between spaces, and the deployer.
abbrev typed : ExemptionValidationInput
typed = record {
  addresses = (97 ∷ []) ∷ (32 ∷ 9 ∷ []) ∷ (32 ∷ 65 ∷ 10 ∷ []) ∷ (98 ∷ []) ∷ [];
  deployer = 66 ∷ [];
  creator_fee_recipient = none;
}

one_listed : (validate_snipe_exemptions any_text as_typed typed).addresses ≡ (97 ∷ []) ∷ []
unfolding validate_snipe_exemptions trim stunks.Prelude.Text.text_eq stunks.Prelude.Text.has
one_listed = refl

no_errors : (validate_snipe_exemptions any_text as_typed typed).errors ≡ []
unfolding validate_snipe_exemptions trim stunks.Prelude.Text.text_eq stunks.Prelude.Text.has
no_errors = refl

validate_snipe_exemptions-AreListed_example :
    let result = validate_snipe_exemptions any_text as_typed typed in
    (result.slots_used ≡ length result.addresses)
    × (result.slots_used + result.slots_remaining ≡ 31)
    × IsAutoExempt typed (auto_exempt typed)
    × AreListed (auto_exempt typed) [] result.addresses
    × All
        (λ raw. covered any_text as_typed (auto_exempt typed) [] result.addresses raw ≡ true)
        typed.addresses
validate_snipe_exemptions-AreListed_example =
    validate_snipe_exemptions-AreListed any_text as_typed typed no_errors
