-- ===== src/Graduation/Venue.antt =====
-- Where a trade may execute.
use stunks.Prelude.{
  ◌≡◌, ◌≢◌, ◌↔◌, inl, inr, refl, Bool, true, false, Option, none, some, arith, Bool-cases,
}
use stunks.Prelude.Text.{text_lt, lower, text_lt_asymm, text_lt_connected}
use stunks.Graduation.{
  pool_created, is_tradeable_phase, Address, TradingVenue, no_venue, ResolveVenueArgs,
  resolve_trading_venue, PoolCurrencies, order_pool_currencies,
}

abbrev pub has_venue : TradingVenue → Bool
has_venue (no_venue reason) = false
has_venue _ = true

abbrev is_registered : Option PoolCurrencies → Bool
is_registered none = false
is_registered (some c) = true

-- A venue is offered exactly for an existing launch in a tradeable phase, with its pool registered
-- if it has graduated; the phase `Swept` never has one.
pub resolve_trading_venue_iff :
    (args : ResolveVenueArgs)
    → (has_venue (resolve_trading_venue args) ≡ true) ↔ (
        (args.launch.exists ≡ true)
        × (is_tradeable_phase args.launch.phase ≡ true)
        × ((args.launch.phase ≡ pool_created) → args.pool_currencies ≢ none))
unfolding resolve_trading_venue is_tradeable_phase
resolve_trading_venue_iff args = ground arith

-- The ordered pair does not depend on the order of the tokens, if they differ by more than case, and
-- is ascending.
pub order_pool_currencies_comm :
    (a b : Address)
    → lower a ≢ lower b
    → (order_pool_currencies a b ≡ order_pool_currencies b a)
      × (text_lt
            (lower (order_pool_currencies a b).currency0)
            (lower (order_pool_currencies a b).currency1)
          ≡ true)
unfolding order_pool_currencies
order_pool_currencies_comm a b ne = elim (Bool-cases (text_lt (lower a) (lower b))) [
  | inl up ↦ rw (up, text_lt_asymm (lower a) (lower b) up) (refl, up)
  | inr stays ↦ elim (Bool-cases (text_lt (lower b) (lower a))) [
    | inl down ↦ rw (stays, down) (refl, refl)
    | inr level ↦ absurd (ne (text_lt_connected (lower a) (lower b) stays level))
  ]
]
