-- ===== src/Launch/Built.antt =====
-- What a launch that was built is.
use stunks.Prelude.{◌≡◌, Option, none, some}
use stunks.Prelude.Text.{Text}
use stunks.Launch.{BuildLaunchInput, LaunchReads, LaunchCall, BuiltLaunch}

-- The recipient that is given, or the creator.
abbrev pub IsGivenOr : Option Text → Text → Text → Type 0
IsGivenOr none default t = t ≡ default
IsGivenOr (some given) default t = t ≡ given

-- The arguments of the call: what was typed, the economics that were read, and the salt and the
-- whitelist that the launch shows.
pub record IsCallFor {Data : Type 0} (reads : LaunchReads) (input : BuildLaunchInput)
    (launch : BuiltLaunch Data) (call : LaunchCall) : Type 0 where
  pub economics : call.expected_economics ≡ reads.economics
  pub exempts : call.exemptions ≡ launch.whitelist
  pub salted : call.salt ≡ launch.salt
  pub salt_given : IsGivenOr input.salt reads.made_salt launch.salt
  pub named : (call.name ≡ input.name) × (call.symbol ≡ input.symbol) × (call.logo ≡ input.logo)
  pub taxed :
      (call.creator_tax_bps ≡ input.creator_tax_bps)
      × (call.buyback_enabled ≡ input.buyback_enabled)
  pub fees_to : IsGivenOr input.creator_fee_recipient input.creator call.creator_fee_recipient
  pub configured :
      (call.launch_config_id ≡ input.launch_config_id) × (call.pair_token ≡ input.pair_token)
  pub buys :
      (call.dev_buy_amount ≡ input.dev_buy_amount) × (call.min_tokens_out ≡ input.min_tokens_out)
  pub bought_for : IsGivenOr input.dev_buy_recipient input.creator call.dev_buy_recipient
