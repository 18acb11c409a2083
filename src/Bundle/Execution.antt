-- ===== src/Bundle/Execution.antt =====
-- What is built from a plan, in packages/pons/src/trade/bundle.ts: its transactions, for a launch that
-- is confirmed, and the gas and the funds that they need. Calldata is encoded by a parameter.
use stunks.Prelude.{
  ℕ, zero, suc, Bool, not, Option, none, some, List, [], ◌∷◌, map, length, if◌then◌else◌,
}
use stunks.Prelude.Int.{ℤ, pos, ◌+ℤ◌, ◌*ℤ◌}
use stunks.Prelude.Text.{Text, lower, text_eq}
use stunks.Graduation.{Address}
use stunks.Bundle.{PlannedBuy, BundlePlan}

pub record ConfirmedLaunch : Type 0 where
  pub curve : Address
  pub pair_token : Address
  pub launch_tx_hash : Text
  pub curve_has_code : Bool

pub record BundleTransaction (Data : Type 0) : Type 0 where
  pub to : Address
  pub data_field : Data
  pub value : ℤ
  pub recipient : Address
  pub order : ℕ

pub record ExecutableBundle (Data : Type 0) : Type 0 where
  pub curve : Address
  pub native : Bool
  pub transactions : List (BundleTransaction Data)

-- `/^0x0{40}$/i`.
abbrev pub zeros : ℕ → Text
zeros zero = []
zeros (suc n) = 48 ∷ zeros n

unfoldable pub is_native : Address → Bool
is_native pair_token = text_eq (lower pair_token) (48 ∷ 120 ∷ zeros 40)

module _ {Data : Type 0} (encode_buy : ℤ → ℤ → Address → Data) where
  abbrev pub transaction_of : Address → Bool → PlannedBuy → BundleTransaction Data
  transaction_of curve native buy = record {
    to = curve;
    data_field = encode_buy buy.amount_in buy.min_out buy.recipient;
    value = if native then buy.amount_in else pos 0;
    recipient = buy.recipient;
    order = buy.order;
  }

  -- `none` where the code throws.
  unfoldable pub build_bundle_transactions :
      BundlePlan → ConfirmedLaunch → Option (ExecutableBundle Data)
  build_bundle_transactions plan launch =
      if not launch.curve_has_code
      then none
      else some (record {
        curve = launch.curve;
        native = is_native launch.pair_token;
        transactions = map (transaction_of launch.curve (is_native launch.pair_token)) plan.buys;
      })

pub record GasCeiling : Type 0 where
  pub max_fee_per_gas : ℤ
  pub max_priority_fee_per_gas : ℤ

unfoldable pub bundle_gas_ceiling : ℤ → ℤ → GasCeiling
bundle_gas_ceiling base_fee_per_gas priority_fee_per_gas = record {
  max_fee_per_gas = base_fee_per_gas *ℤ pos 6 +ℤ priority_fee_per_gas;
  max_priority_fee_per_gas = priority_fee_per_gas;
}

pub record FundingRequirement : Type 0 where
  pub quote_asset : ℤ
  pub native_for_gas : ℤ

unfoldable pub bundle_funding_requirement : BundlePlan → Bool → ℤ → ℤ → FundingRequirement
bundle_funding_requirement plan native gas_per_buy max_fee_per_gas =
    let gas = pos (length plan.buys) *ℤ gas_per_buy *ℤ max_fee_per_gas in
    record {
      quote_asset = plan.total_in;
      native_for_gas = if native then gas +ℤ plan.total_in else gas;
    }
