-- ===== src/Tests/Policy.antt =====
-- The anti-snipe tax, the fee split, the progress and the venue at concrete inputs.
use stunks.Prelude.{ℕ, ◌+◌, ◌≤◌, ◌≡◌, ◌≢◌, ◌↔◌, refl, true, false, Option, none, ok, [], ◌∷◌, arith}
use stunks.Prelude.Int.{pos}
use stunks.SnipeTax.{compute_snipe_tax_bps, requires_simulation}
use stunks.SnipeTax.Decay.{taxed_at, compute_snipe_tax_bps_decays}
use stunks.Fees.{compute_fee_split, split_input, platform_revenue, compute_fee_split_conserves}
use stunks.Graduation.{
  swept, pool_created, ResolveVenueArgs, PoolCurrencies, resolve_trading_venue, is_tradeable_phase,
  no_venue, swept_awaiting_pool,
}
use stunks.Graduation.Venue.{has_venue, resolve_trading_venue_iff}

-- The taxes that the audit measured at 9900 basis points and 3 seconds.
measured :
    (compute_snipe_tax_bps (taxed_at 9_900 3 1) ≡ pos 618)
    × (compute_snipe_tax_bps (taxed_at 9_900 3 2) ≡ pos 19)
unfolding compute_snipe_tax_bps
measured = (refl, refl)

compute_snipe_tax_bps_decays_example :
    (tax tax' : ℕ) × (compute_snipe_tax_bps (taxed_at 9_900 3 0) ≡ pos tax)
    × (compute_snipe_tax_bps (taxed_at 9_900 3 3) ≡ pos tax')
    × (tax' ≤ tax)
    × (tax ≤ 9_900)
    × (◌≡◌ {A = ℕ} 0 0 → tax ≡ 9_900)
    × (3 ≤ 3 → tax' ≡ 0)
compute_snipe_tax_bps_decays_example =
    compute_snipe_tax_bps_decays 9_900 3 0 3 (omega arith) (omega arith)

after_window : requires_simulation (pos 100) (pos 3) (pos 105) false ≡ false
unfolding requires_simulation
after_window = refl

compute_fee_split_conserves_example :
    (protocol buyback creator : ℕ) × (compute_fee_split (split_input 10_001 7 6_000 3_000 true)
      ≡ ok (record {
        protocol_amount = pos protocol;
        buyback_amount = pos buyback;
        creator_amount = pos creator;
        platform_amount = platform_revenue;
      }))
    × (protocol + buyback + creator ≡ 10_001 + 7)
    × (7 ≤ creator)
    × (buyback ≤ 6_000)
    × (true ≡ false → buyback ≡ 0)
compute_fee_split_conserves_example =
    compute_fee_split_conserves 10_001 7 6_000 3_000 true (omega arith)

abbrev drained : ResolveVenueArgs
drained = record {
  launch = record {
    token = b'a' ∷ [];
    curve = b'b' ∷ [];
    deployer = b'c' ∷ [];
    creator_fee_recipient = b'c' ∷ [];
    pair_token = b'0' ∷ [];
    graduation_threshold = pos 4_200;
    pool_fee = pos 0;
    tick_spacing = pos 200;
    creator_tax_bps = pos 200;
    buyback_enabled = true;
    phase = swept;
    swept_quote = pos 4_200;
    swept_tokens = pos 285_714;
    swept_at = pos 9;
    exists = true;
  };
  pool_manager = b'd' ∷ [];
  meme_hook = b'e' ∷ [];
  pool_currencies = none;
}

drained_runs : resolve_trading_venue drained ≡ no_venue swept_awaiting_pool
unfolding resolve_trading_venue
drained_runs = refl

resolve_trading_venue_iff_example : (has_venue (resolve_trading_venue drained) ≡ true) ↔ (
    (true ≡ true)
    × (is_tradeable_phase swept ≡ true)
    × ((swept ≡ pool_created) → ◌≢◌ {A = Option PoolCurrencies} none none))
resolve_trading_venue_iff_example = resolve_trading_venue_iff drained
