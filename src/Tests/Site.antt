-- ===== src/Tests/Site.antt =====
-- Freshness, health and the launch builder at concrete inputs.
use stunks.Prelude.{
  ℕ, ◌+◌, ◌-◌, ◌/◌, ◌≤◌, ◌≡◌, refl, ◌↔◌, inl, inr, Bool, true, false, Option, none, some, List, [],
  ◌∷◌, Result, err, arith, All, filter_by, ◌==◌, length,
}
use stunks.Prelude.Int.{pos}
use stunks.Prelude.Text.{Text}
use stunks.Prelude.Regex.{codes}
use stunks.Graduation.{Address}
use stunks.Bundle.Execution.{zeros}
use stunks.Checkpoint.{CheckpointState, Tables, unresolved_failed_blocks}
use stunks.Staleness.{StreamState, summarise_staleness}
use stunks.Staleness.Fresh.{IsFresh, summarise_staleness-IsFresh}
use stunks.IndexerHealth.{degraded, healthy, build_health_snapshot}
use stunks.IndexerHealth.Ready.{IsWell, build_health_snapshot-IsWell}
use stunks.Launch.{BuildLaunchInput, LaunchReads, LaunchCall, BuiltLaunch, built}
use stunks.Tests.Pool.{latencies, options, pool}

abbrev state : Text → ℕ → StreamState
state stream block = record {
  stream = stream;
  last_processed_block = block;
  last_success_at = none;
  is_paused = false;
}

-- The curves stream is 100 blocks behind the head, and the factory stream 1.
abbrev states : List StreamState
states = state (codes "curves") 900 ∷ state (codes "factory") 999 ∷ []

abbrev tenth : ℕ → ℕ
tenth n = n / 10

tenth-monotone : (a b : ℕ) → a ≤ b → tenth a ≤ tenth b
tenth-monotone a b h = omega arith

summarise_staleness-IsFresh_example :
    ((summarise_staleness tenth states (some 1000)).is_stale ≡ false)
    ↔ IsFresh tenth tenth-monotone states (some 1000)
summarise_staleness-IsFresh_example =
    summarise_staleness-IsFresh tenth tenth-monotone states (some 1000)

abbrev checkpoint : CheckpointState
checkpoint = record {
  chain_id = 1;
  stream = codes "curves";
  last_processed_block = 900;
  last_processed_block_hash = none;
  confirmation_depth = 12;
  log_window_size = 100;
  is_paused = false;
  last_success_at = none;
  last_error = none;
  last_error_at = none;
}

abbrev db : Tables
db = record {
  states =
      checkpoint ∷ record checkpoint { stream = codes "factory"; last_processed_block = 1000 } ∷ [];
  failures = [];
}

-- The factory stream has scanned every block from the start to the head, and the snapshot is degraded.
scanned_all : (build_health_snapshot latencies options db pool 5 (some 1000) 0 1).status ≡ degraded
unfolding build_health_snapshot stunks.Prelude.Text.text_eq
scanned_all = refl

build_health_snapshot-IsWell_example :
    ((build_health_snapshot latencies options db pool 5 (some 1000) 0 1).status ≡ healthy) ↔ (
      ((block : ℕ) × (some 1000 ≡ some block))
      × (unresolved_failed_blocks db 1 ≡ 0)
      × All (IsWell 0) (filter_by (λ state. state.chain_id == 1) db.states))
build_health_snapshot-IsWell_example =
    build_health_snapshot-IsWell latencies options db pool 5 (some 1000) 0 1

abbrev input : BuildLaunchInput
input = record {
  name = codes "Stunks";
  symbol = codes "STNK";
  logo = codes "ipfs://x";
  description = none;
  socials = record {
    website = some (codes "HTTPS://s.io");
    twitter = none;
    telegram = none;
    discord = none;
    farcaster = none;
  };
  creator = codes "0xa";
  creator_fee_recipient = none;
  creator_tax_bps = some (pos 100);
  buyback_enabled = false;
  launch_config_id = pos 1;
  pair_token = 48 ∷ 120 ∷ zeros 40;
  dev_buy_amount = pos 50;
  min_tokens_out = pos 10;
  dev_buy_recipient = none;
  whitelist = codes "0xB" ∷ codes " 0xb " ∷ codes "" ∷ [];
  salt = none;
}

abbrev reads : LaunchReads
reads = record {
  launch_fee = pos 7;
  max_creator_tax_bps = pos 300;
  launch_enabled = true;
  pair_approved = false;
  economics = codes "0xee";
  made_salt = codes "0x01";
}

abbrev any_address : Text → Bool
any_address t = true

abbrev as_typed : Text → Address
as_typed t = t

abbrev encoded : LaunchCall → ℕ
encoded call = length call.exemptions

abbrev launch : BuiltLaunch ℕ
launch = built any_address as_typed encoded reads (codes "0xr") input
