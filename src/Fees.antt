-- ===== src/Fees.antt =====
-- Fee split arithmetic: packages/pons/src/fees/split.ts.
use native.Mathlib.Nat.{mul-le-mul_left}
use stunks.Prelude.{
  ℕ, ◌+◌, ◌-◌, ◌*◌, ◌/◌, ◌≤◌, ◌≡◌, Bool, false, ok, ◌>>=◌, arith, min, if◌then◌else◌,
}
use stunks.Prelude.Int.{ℤ, pos, ◌+ℤ◌, ◌-ℤ◌}
use stunks.Money.{Fallible, apply_bps, bigint_min}

pub record FeeSplitInput : Type 0 where
  pub pending_fee : ℤ
  pub pending_creator_tax : ℤ
  pub buyback_earmark : ℤ
  pub protocol_fee_share_bps : ℤ
  pub buyback_executes : Bool

pub record FeeSplitResult : Type 0 where
  pub protocol_amount : ℤ
  pub buyback_amount : ℤ
  pub creator_amount : ℤ
  pub platform_amount : ℤ

unfoldable pub compute_fee_split : FeeSplitInput → Fallible FeeSplitResult
compute_fee_split input = do
  protocol_amount ← apply_bps input.pending_fee input.protocol_fee_share_bps
  let creator_bucket = input.pending_fee -ℤ protocol_amount
  let buyback_amount =
      if input.buyback_executes then bigint_min input.buyback_earmark creator_bucket else pos 0
  ok (record {
    protocol_amount = protocol_amount;
    buyback_amount = buyback_amount;
    creator_amount = creator_bucket -ℤ buyback_amount +ℤ input.pending_creator_tax;
    platform_amount = pos 0;
  })

unfoldable pub total_trade_fee_bps : ℤ → ℤ → ℤ
total_trade_fee_bps fee_bps creator_tax_bps = fee_bps +ℤ creator_tax_bps

-- The `amount` of the answer; its `reason` is a fixed text.
unfoldable pub platform_revenue : ℤ
platform_revenue = pos 0

abbrev pub split_input : ℕ → ℕ → ℕ → ℕ → Bool → FeeSplitInput
split_input fee tax earmark share_bps executes = record {
  pending_fee = pos fee;
  pending_creator_tax = pos tax;
  buyback_earmark = pos earmark;
  protocol_fee_share_bps = pos share_bps;
  buyback_executes = executes;
}

-- With a protocol share of at most 100%, the split answers, hands out exactly the pending fee and
-- the pending creator tax, gives the creator at least that tax, buys back at most the earmark and
-- nothing where the buyback does not execute, and gives the platform what `platformRevenue` says.
pub compute_fee_split_conserves :
    (fee tax earmark share_bps : ℕ) (executes : Bool)
    → share_bps ≤ 10_000
    → (protocol buyback creator : ℕ) × (compute_fee_split
          (split_input fee tax earmark share_bps executes)
        ≡ ok (record {
          protocol_amount = pos protocol;
          buyback_amount = pos buyback;
          creator_amount = pos creator;
          platform_amount = platform_revenue;
        }))
      × (protocol + buyback + creator ≡ fee + tax)
      × (tax ≤ creator)
      × (buyback ≤ earmark)
      × (executes ≡ false → buyback ≡ 0)
unfolding compute_fee_split apply_bps bigint_min platform_revenue
compute_fee_split_conserves fee tax earmark share_bps executes h =
    let p = fee * share_bps / 10_000 in
    let b = if executes then min earmark (fee - p) else 0 in
    let bounded : fee * share_bps ≤ fee * 10_000 = mul-le-mul_left fee h in
    (p, b, fee - p - b + tax, ground arith, ground arith, ground arith, ground arith, ground arith)
