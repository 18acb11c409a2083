-- ===== src/Tests/Bundle.antt =====
-- The bundle planner at a concrete launch.
use stunks.Prelude.{
  ℕ, ◌+◌, ◌≤◌, ◌≡◌, refl, Bool, true, false, Option, none, some, List, [], ◌∷◌, length, All, Result,
  ok, err, arith, if◌then◌else◌,
}
use stunks.Prelude.Int.{ℤ, pos, ◌+ℤ◌, ◌*ℤ◌}
use stunks.Prelude.Text.{Text}
use stunks.Graduation.{Address}
use stunks.Bundle.{
  BundleRecipient, PlanBundleArgs, BundlePlan, plan_bundle, refused, duplicate_recipient,
}
use stunks.Bundle.Execution.{
  is_native, zeros, ConfirmedLaunch, ExecutableBundle, build_bundle_transactions,
  bundle_funding_requirement,
}
use stunks.Bundle.Planned.{IsPlanFor, plan_bundle-IsPlanFor, sum_in}
use stunks.Bundle.Allocation.{BundleTerms, args_on, plan_bundle_within_allocation}
use stunks.Bundle.Funding.{sum_values, bundle_funding_requirement_covers}

abbrev curve : BundleTerms
curve = record {
  quote_reserve = 1680;
  token_reserve = 1_000_000;
  reserved = 285_714;
  fee_bps = 100;
  creator_tax_bps = 200;
}

abbrev wallets : List BundleRecipient
wallets =
    record { address = 97 ∷ []; amount_in = pos 100 }
    ∷ record { address = 98 ∷ []; amount_in = pos 300 }
    ∷ []

abbrev bundle_args : PlanBundleArgs
bundle_args = args_on curve wallets (pos 500) ((65 ∷ []) ∷ (98 ∷ []) ∷ [])

abbrev two_buys : BundlePlan
two_buys = record {
  buys =
      record {
        recipient = 97 ∷ [];
        amount_in = pos 100;
        expected_out = pos 54_586;
        min_out = pos 37_981;
        order = 0;
      }
      ∷ record {
        recipient = 98 ∷ [];
        amount_in = pos 300;
        expected_out = pos 133_034;
        min_out = pos 126_383;
        order = 1;
      }
      ∷ [];
  total_in = pos 400;
  total_expected_out = pos 187_620;
  warnings = [];
}

two_buys_planned : plan_bundle bundle_args ≡ ok two_buys
unfolding plan_bundle stunks.Prelude.Text.text_eq stunks.Curve.compute_curve_buy stunks.Curve.fill
    stunks.Money.apply_bps stunks.Curve.get_amount_out stunks.Curve.sellable_of
    stunks.Money.apply_slippage_floor
two_buys_planned = refl

-- The same wallet twice, but for case.
twice_refused :
    plan_bundle (record bundle_args {
      recipients = record { address = 65 ∷ []; amount_in = pos 1 } ∷ wallets;
    })
    ≡ err (refused duplicate_recipient)
unfolding plan_bundle stunks.Prelude.Text.text_eq
twice_refused = refl

plan_bundle-IsPlanFor_example : IsPlanFor bundle_args two_buys
plan_bundle-IsPlanFor_example = plan_bundle-IsPlanFor bundle_args two_buys_planned

plan_bundle_within_allocation_example :
    (given : ℕ) × (two_buys.total_expected_out ≡ pos given) × (285_714 + given ≤ 1_000_000)
plan_bundle_within_allocation_example =
    plan_bundle_within_allocation curve wallets (pos 500) ((65 ∷ []) ∷ (98 ∷ []) ∷ []) (omega arith)
      two_buys_planned

abbrev confirmed : ConfirmedLaunch
confirmed = record {
  curve = 99 ∷ [];
  pair_token = 48 ∷ 88 ∷ zeros 40;
  launch_tx_hash = [];
  curve_has_code = true;
}

-- Calldata that is its amount alone.
abbrev encode_buy : ℤ → ℤ → Address → ℤ
encode_buy amount_in min_out recipient = amount_in

abbrev sent : ExecutableBundle ℤ
sent = record {
  curve = 99 ∷ [];
  native = true;
  transactions =
      record { to = 99 ∷ []; data_field = pos 100; value = pos 100; recipient = 97 ∷ []; order = 0 }
      ∷ record {
        to = 99 ∷ [];
        data_field = pos 300;
        value = pos 300;
        recipient = 98 ∷ [];
        order = 1;
      }
      ∷ [];
}

sent_built : build_bundle_transactions encode_buy two_buys confirmed ≡ some sent
unfolding build_bundle_transactions stunks.Bundle.Execution.is_native stunks.Prelude.Text.text_eq
sent_built = refl

bundle_funding_requirement_covers_example :
    let need = bundle_funding_requirement two_buys sent.native (pos 21) (pos 7) in
    let gas = pos (length sent.transactions) *ℤ pos 21 *ℤ pos 7 in
    (confirmed.curve_has_code ≡ true)
    × (sent.native ≡ is_native confirmed.pair_token)
    × All (λ t. t.to ≡ confirmed.curve) sent.transactions
    × (sum_values encode_buy sent.transactions
        ≡ (if is_native confirmed.pair_token then sum_in bundle_args.recipients else pos 0))
    × (need.quote_asset ≡ sum_in bundle_args.recipients)
    × (need.native_for_gas ≡ (
        if is_native confirmed.pair_token
        then gas +ℤ sum_values encode_buy sent.transactions
        else gas))
bundle_funding_requirement_covers_example =
    bundle_funding_requirement_covers encode_buy bundle_args confirmed (pos 21) (pos 7)
      two_buys_planned sent_built
