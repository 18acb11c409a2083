-- ===== src/Graduation.antt =====
-- Graduation phases, progress and the trading venue: packages/pons/src/graduation/progress.ts and
-- venue.ts, with the types of packages/types/src/pons.ts.
pub mod Progress
pub mod Venue
use stunks.Prelude.{
  ℕ, Bool, true, false, not, ◌&&◌, ◌||◌, Option, none, some, Result, ok, err, ltb, if◌then◌else◌,
}
use stunks.Prelude.Int.{ℤ, pos, ltb_ℤ, is_zero, ◌-ℤ◌}
use stunks.Prelude.Text.{Text, lower, text_lt}
use stunks.Money.{basis_points, ratio_bps}

pub data GraduationPhase : Type 0 where
  not_graduated swept pool_created rescued : GraduationPhase

-- The value of the source's enumeration.
abbrev pub phase_code : GraduationPhase → ℤ
phase_code not_graduated = pos 0
phase_code swept = pos 1
phase_code pool_created = pos 2
phase_code rescued = pos 3

-- `phase === GraduationPhase.NotGraduated`.
abbrev pub is_not_graduated : GraduationPhase → Bool
is_not_graduated not_graduated = true
is_not_graduated _ = false

pub record GraduationProgress : Type 0 where
  pub progress_bps : ℤ
  pub real_quote_reserve : ℤ
  pub graduation_threshold : ℤ
  pub sellable_tokens : ℤ
  pub ready_to_graduate : Bool
  pub phase : GraduationPhase

unfoldable pub compute_graduation_progress : ℤ → ℤ → ℤ → GraduationPhase → GraduationProgress
unfolding ratio_bps
compute_graduation_progress real_quote_reserve graduation_threshold sellable_tokens phase =
    let reached_threshold = not (is_not_graduated phase) in
    let raw_bps = ratio_bps real_quote_reserve graduation_threshold in
    record {
      progress_bps =
          if reached_threshold
          then basis_points
          else if ltb_ℤ basis_points raw_bps
          then basis_points
          else raw_bps;
      real_quote_reserve = real_quote_reserve;
      graduation_threshold = graduation_threshold;
      sellable_tokens = sellable_tokens;
      ready_to_graduate = is_not_graduated phase && is_zero sellable_tokens;
      phase = phase;
    }

unfoldable pub is_tradeable_phase : GraduationPhase → Bool
is_tradeable_phase not_graduated = true
is_tradeable_phase swept = false
is_tradeable_phase pool_created = true
is_tradeable_phase rescued = false

pub data UnknownPhase : Type 0 where
  unknown_phase : ℤ → UnknownPhase

-- `raw === n`.
abbrev pub is_raw : ℤ → ℕ → Bool
is_raw raw n = is_zero (raw -ℤ pos n)

unfoldable pub parse_graduation_phase : ℤ → Result UnknownPhase GraduationPhase
parse_graduation_phase raw =
    if is_raw raw 0
    then ok not_graduated
    else if is_raw raw 1
    then ok swept
    else if is_raw raw 2
    then ok pool_created
    else if is_raw raw 3
    then ok rescued
    else err (unknown_phase raw)

abbrev pub Address : Type 0
Address = Text

pub record LaunchedToken : Type 0 where
  pub token : Address
  pub curve : Address
  pub deployer : Address
  pub creator_fee_recipient : Address
  pub pair_token : Address
  pub graduation_threshold : ℤ
  pub pool_fee : ℤ
  pub tick_spacing : ℤ
  pub creator_tax_bps : ℤ
  pub buyback_enabled : Bool
  pub phase : GraduationPhase
  pub swept_quote : ℤ
  pub swept_tokens : ℤ
  pub swept_at : ℤ
  pub exists : Bool

pub data NoVenueReason : Type 0 where
  swept_awaiting_pool rescued_terminal not_a_pons_launch pool_not_registered : NoVenueReason

pub record PoolCurrencies : Type 0 where
  pub currency0 : Address
  pub currency1 : Address

pub record UniswapVenue : Type 0 where
  pub pool_manager : Address
  pub hook : Address
  pub pool_fee : ℤ
  pub tick_spacing : ℤ
  pub currency0 : Address
  pub currency1 : Address

pub data TradingVenue : Type 0 where
  curve_venue : Address → Address → TradingVenue
  uniswap_v4 : UniswapVenue → TradingVenue
  no_venue : NoVenueReason → TradingVenue

pub record ResolveVenueArgs : Type 0 where
  pub launch : LaunchedToken
  pub pool_manager : Address
  pub meme_hook : Address
  pub pool_currencies : Option PoolCurrencies

-- The case `PoolCreated` of the switch.
unfoldable pub pool_venue : ResolveVenueArgs → Option PoolCurrencies → TradingVenue
pool_venue args none = no_venue pool_not_registered
pool_venue args (some c) = uniswap_v4 (record {
  pool_manager = args.pool_manager;
  hook = args.meme_hook;
  pool_fee = args.launch.pool_fee;
  tick_spacing = args.launch.tick_spacing;
  currency0 = c.currency0;
  currency1 = c.currency1;
})

-- The switch on the phase.
unfoldable pub phase_venue : ResolveVenueArgs → GraduationPhase → TradingVenue
unfolding pool_venue
phase_venue args not_graduated = curve_venue args.launch.curve args.launch.pair_token
phase_venue args swept = no_venue swept_awaiting_pool
phase_venue args pool_created = pool_venue args args.pool_currencies
phase_venue args rescued = no_venue rescued_terminal

unfoldable pub resolve_trading_venue : ResolveVenueArgs → TradingVenue
unfolding phase_venue
resolve_trading_venue args =
    if not args.launch.exists
    then no_venue not_a_pons_launch
    else phase_venue args args.launch.phase

unfoldable pub order_pool_currencies : Address → Address → PoolCurrencies
order_pool_currencies token_a token_b =
    if text_lt (lower token_a) (lower token_b)
    then record { currency0 = token_a; currency1 = token_b }
    else record { currency0 = token_b; currency1 = token_a }
