-- ===== src/Launch.antt =====
-- The launch builder: packages/pons/src/launch/builder.ts. The reads of the contracts, the encoding of
-- calldata and the client library's tests on addresses are parameters; errors and warnings are named by
-- constructors, with what their messages name.
pub mod Limits
pub mod Built
use stunks.Prelude.{
  ℕ, zero, suc, Bool, true, false, not, ◌&&◌, ◌||◌, Option, none, some, List, [], ◌∷◌, ◌++◌, map,
  length, Result, ok, err, ltb, leb, ◌==◌, if◌then◌else◌,
}
use stunks.Prelude.Int.{ℤ, pos, negsuc, ◌+ℤ◌, ltb_ℤ}
use stunks.Prelude.Text.{Text, lower}
use stunks.Prelude.Regex.{codes}
use stunks.Graduation.{Address}
use stunks.Bundle.Execution.{is_native}
use stunks.Exemptions.{
  is_blank, trim, ExemptionError, ExemptionWarning, ExemptionValidationResult,
  validate_snipe_exemptions,
}

pub record LaunchSocials : Type 0 where
  pub website : Option Text
  pub twitter : Option Text
  pub telegram : Option Text
  pub discord : Option Text
  pub farcaster : Option Text

pub data SocialKey : Type 0 where
  on_website on_twitter on_telegram on_discord on_farcaster : SocialKey

pub record BuildLaunchInput : Type 0 where
  pub name : Text
  pub symbol : Text
  pub logo : Text
  pub description : Option Text
  pub socials : LaunchSocials
  pub creator : Address
  pub creator_fee_recipient : Option Address
  pub creator_tax_bps : Option ℤ  -- `none`: no whole number
  pub buyback_enabled : Bool
  pub launch_config_id : ℤ
  pub pair_token : Address
  pub dev_buy_amount : ℤ
  pub min_tokens_out : ℤ
  pub dev_buy_recipient : Option Address
  pub whitelist : List Text
  pub salt : Option Text

pub data LaunchError : Type 0 where
  name_required name_too_long symbol_required symbol_too_long : LaunchError
  image_required image_too_long description_too_long : LaunchError
  tax_not_whole tax_above_ceiling opening_buy_negative output_without_buy : LaunchError
  link_too_long link_not_http : SocialKey → LaunchError
  pair_not_approved launches_disabled : LaunchError
  exemption : ExemptionError → LaunchError

pub data LaunchWarning : Type 0 where
  exempted : ExemptionWarning → LaunchWarning
  approve_first gateway_logo whitelist_without_buy : LaunchWarning

abbrev pub text_or_empty : Option Text → Text
text_or_empty none = []
text_or_empty (some t) = t

unfoldable pub starts_with : Text → Text → Bool
starts_with [] t = true
starts_with (c ∷ prefix) [] = false
starts_with (c ∷ prefix) (d ∷ t) = c == d && starts_with prefix t

-- `/^https?:\/\//i`.
unfoldable pub is_http : Text → Bool
unfolding starts_with
is_http t = starts_with (codes "http://") (lower t) || starts_with (codes "https://") (lower t)

-- A test with the error that it stands for where it is true.
abbrev pub Check : Type 0
Check = Bool × LaunchError

unfoldable pub failing : List Check → List LaunchError
failing [] = []
failing ((fails, error) ∷ checks) =
    let rest = failing checks in if fails then error ∷ rest else rest

abbrev pub is_whole : Option ℤ → Bool
is_whole none = false
is_whole (some (pos n)) = true
is_whole (some (negsuc n)) = false

abbrev pub is_above : ℤ → Option ℤ → Bool
is_above ceiling none = false
is_above ceiling (some tax) = ltb_ℤ ceiling tax

abbrev pub is_zero : ℤ → Bool
is_zero (pos n) = n == 0
is_zero (negsuc n) = false

abbrev pub social_checks : SocialKey → Option Text → List Check
social_checks key none = []
social_checks key (some link) =
    (ltb 256 (length link), link_too_long key)
    ∷ (not (is_blank link) && not (is_http link), link_not_http key)
    ∷ []

-- The tests on an input, in the order of the code.
abbrev pub launch_checks : BuildLaunchInput → ℤ → List Check
launch_checks input max_creator_tax_bps =
    ((is_blank (trim input.name), name_required)
      ∷ (ltb 64 (length input.name), name_too_long)
      ∷ (is_blank (trim input.symbol), symbol_required)
      ∷ (ltb 16 (length input.symbol), symbol_too_long)
      ∷ (is_blank (trim input.logo), image_required)
      ∷ (ltb 256 (length input.logo), image_too_long)
      ∷ (ltb 512 (length (text_or_empty input.description)), description_too_long)
      ∷ (not (is_whole input.creator_tax_bps), tax_not_whole)
      ∷ (
        is_whole input.creator_tax_bps && is_above max_creator_tax_bps input.creator_tax_bps,
        tax_above_ceiling,
      )
      ∷ (ltb_ℤ input.dev_buy_amount (pos 0), opening_buy_negative)
      ∷ (is_zero input.dev_buy_amount && ltb_ℤ (pos 0) input.min_tokens_out, output_without_buy)
      ∷ [])
    ++ social_checks on_website input.socials.website
    ++ social_checks on_twitter input.socials.twitter
    ++ social_checks on_telegram input.socials.telegram
    ++ social_checks on_discord input.socials.discord
    ++ social_checks on_farcaster input.socials.farcaster

unfoldable pub validate_launch_input : BuildLaunchInput → ℤ → List LaunchError
unfolding failing is_http
validate_launch_input input max_creator_tax_bps = failing (launch_checks input max_creator_tax_bps)

unfoldable pub launch_value : ℤ → ℤ → Address → ℤ
unfolding is_native
launch_value launch_fee dev_buy_amount pair_token =
    if is_native pair_token then launch_fee +ℤ dev_buy_amount else launch_fee

-- The arguments of `launchAndBuy`.
pub record LaunchCall : Type 0 where
  pub name : Text
  pub symbol : Text
  pub logo : Text
  pub description : Text
  pub website : Text
  pub twitter : Text
  pub telegram : Text
  pub discord : Text
  pub farcaster : Text
  pub creator_fee_recipient : Address
  pub creator_tax_bps : Option ℤ
  pub buyback_enabled : Bool
  pub expected_economics : Text
  pub salt : Text
  pub launch_config_id : ℤ
  pub pair_token : Address
  pub dev_buy_amount : ℤ
  pub min_tokens_out : ℤ
  pub dev_buy_recipient : Address
  pub exemptions : List Address

pub record BuiltLaunch (Data : Type 0) : Type 0 where
  pub to : Address
  pub call_data : Data
  pub value : ℤ
  pub launch_fee : ℤ
  pub expected_economics : Text
  pub salt : Text
  pub whitelist : List Address
  pub warnings : List LaunchWarning

-- What the contracts say of a launch, and the salt that is made where none is given.
pub record LaunchReads : Type 0 where
  pub launch_fee : ℤ
  pub max_creator_tax_bps : ℤ
  pub launch_enabled : Bool
  pub pair_approved : Bool
  pub economics : Text
  pub made_salt : Text

abbrev pub given_or : {A : Type 0} → Option A → A → A
given_or none default = default
given_or (some a) default = a

-- `errors.length > 0`, and the launch otherwise.
abbrev pub unless_errors : {A : Type 0} → List LaunchError → A → Result (List LaunchError) A
unless_errors [] a = ok a
unless_errors (e ∷ errors) a = err (e ∷ errors)

abbrev pub if_warns : Bool → LaunchWarning → List LaunchWarning
if_warns warns warning = if warns then warning ∷ [] else []

module _ {Data : Type 0} (is_address : Text → Bool) (get_address : Text → Address)
    (encode_launch : LaunchCall → Data) where
  abbrev pub exemptions_of : BuildLaunchInput → ExemptionValidationResult
  exemptions_of input = validate_snipe_exemptions is_address get_address (record {
    addresses = input.whitelist;
    deployer = input.creator;
    creator_fee_recipient = input.creator_fee_recipient;
  })

  abbrev pub launch_call : LaunchReads → BuildLaunchInput → LaunchCall
  launch_call reads input = record {
    name = input.name;
    symbol = input.symbol;
    logo = input.logo;
    description = text_or_empty input.description;
    website = text_or_empty input.socials.website;
    twitter = text_or_empty input.socials.twitter;
    telegram = text_or_empty input.socials.telegram;
    discord = text_or_empty input.socials.discord;
    farcaster = text_or_empty input.socials.farcaster;
    creator_fee_recipient = given_or input.creator_fee_recipient input.creator;
    creator_tax_bps = input.creator_tax_bps;
    buyback_enabled = input.buyback_enabled;
    expected_economics = reads.economics;
    salt = given_or input.salt reads.made_salt;
    launch_config_id = input.launch_config_id;
    pair_token = input.pair_token;
    dev_buy_amount = input.dev_buy_amount;
    min_tokens_out = input.min_tokens_out;
    dev_buy_recipient = given_or input.dev_buy_recipient input.creator;
    exemptions = (exemptions_of input).addresses;
  }

  abbrev pub launch_warnings : BuildLaunchInput → List LaunchWarning
  launch_warnings input =
      map exempted (exemptions_of input).warnings
      ++ if_warns (not (is_native input.pair_token) && ltb_ℤ (pos 0) input.dev_buy_amount)
          approve_first
      ++ if_warns (starts_with (codes "http") input.logo) gateway_logo
      ++ if_warns (ltb 0 (exemptions_of input).slots_used && is_zero input.dev_buy_amount)
          whitelist_without_buy

  abbrev pub built : LaunchReads → Address → BuildLaunchInput → BuiltLaunch Data
  built reads router input = record {
    to = router;
    call_data = encode_launch (launch_call reads input);
    value =
        if is_native input.pair_token
        then reads.launch_fee +ℤ input.dev_buy_amount
        else reads.launch_fee;
    launch_fee = reads.launch_fee;
    expected_economics = reads.economics;
    salt = given_or input.salt reads.made_salt;
    whitelist = (exemptions_of input).addresses;
    warnings = launch_warnings input;
  }

  unfoldable pub build_launch_transaction :
      LaunchReads → Address → BuildLaunchInput → Result (List LaunchError) (BuiltLaunch Data)
  unfolding validate_launch_input validate_snipe_exemptions is_native starts_with
  build_launch_transaction reads router input =
      if not (is_native input.pair_token) && not reads.pair_approved
      then err (pair_not_approved ∷ [])
      else if not reads.launch_enabled
      then err (launches_disabled ∷ [])
      else unless_errors
          (validate_launch_input input reads.max_creator_tax_bps
            ++ map exemption (exemptions_of input).errors)
          (built reads router input)
