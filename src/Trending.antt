-- ===== src/Trending.antt =====
-- The trending score: packages/database/src/trending.ts.
pub mod Bounds
use stunks.Prelude.{Bool, not, ◌||◌, List, [], ◌∷◌, ◌++◌, map, Result, ok, err, if◌then◌else◌}
use stunks.Prelude.Int.{ℤ, pos, ◌+ℤ◌, ◌-ℤ◌, ◌*ℤ◌, ◌/ℤ◌, ltb_ℤ, leb_ℤ, is_zero}
use stunks.Prelude.Text.{Text}
use stunks.Money.{basis_points, ratio_bps, bigint_max}

-- One of these for each of the five parts of a score.
pub record Parts (A : Type 0) : Type 0 where
  pub volume_acceleration : A
  pub unique_traders : A
  pub trade_activity : A
  pub buy_pressure : A
  pub market_cap_growth : A

abbrev pub default_trending_weights : Parts ℤ
default_trending_weights = record {
  volume_acceleration = pos 30;
  unique_traders = pos 25;
  trade_activity = pos 20;
  buy_pressure = pos 15;
  market_cap_growth = pos 10;
}

pub data WeightError : Type 0 where
  wrong_sum : ℤ → WeightError
  negative_weight : WeightError

abbrev pub total_weight : Parts ℤ → ℤ
total_weight w =
    w.volume_acceleration +ℤ w.unique_traders +ℤ w.trade_activity +ℤ w.buy_pressure
    +ℤ w.market_cap_growth

abbrev pub error_if : Bool → WeightError → List WeightError
error_if b e = if b then e ∷ [] else []

abbrev pub sign_error : ℤ → List WeightError
sign_error value = error_if (ltb_ℤ value (pos 0)) negative_weight

-- Weights are JavaScript numbers: one that is no integer is refused as a negative one.
unfoldable pub validate_weights : Parts ℤ → List WeightError
validate_weights w =
    error_if (not (is_zero (total_weight w -ℤ pos 100))) (wrong_sum (total_weight w))
    ++ (sign_error w.volume_acceleration
        ++ (sign_error w.unique_traders
            ++ (sign_error w.trade_activity
                ++ (sign_error w.buy_pressure ++ sign_error w.market_cap_growth))))

pub record TrendingInput : Type 0 where
  pub token_id : Text
  pub recent_volume : ℤ
  pub prior_volume : ℤ
  pub unique_traders : ℤ
  pub trade_count : ℤ
  pub buy_volume : ℤ
  pub sell_volume : ℤ
  pub market_cap : ℤ
  pub prior_market_cap : ℤ

pub record TrendingComponent : Type 0 where
  pub raw : ℤ
  pub normalised_bps : ℤ
  pub weight : ℤ

pub record TrendingScore : Type 0 where
  pub token_id : Text
  pub score_bps : ℤ
  pub components : Parts TrendingComponent

abbrev pub max_growth_bps : ℤ
max_growth_bps = pos 10_000

unfoldable pub growth_bps : ℤ → ℤ → ℤ
unfolding ratio_bps
growth_bps recent prior =
    let growth = ratio_bps (recent -ℤ prior) prior in
    if leb_ℤ recent (pos 0)
    then pos 0
    else if leb_ℤ prior (pos 0)
    then max_growth_bps
    else if leb_ℤ recent prior
    then pos 0
    else if ltb_ℤ max_growth_bps growth
    then max_growth_bps
    else growth

unfoldable pub buy_pressure_bps : ℤ → ℤ → ℤ
unfolding ratio_bps
buy_pressure_bps buy_volume sell_volume =
    let total = buy_volume +ℤ sell_volume in
    if leb_ℤ total (pos 0) then pos 0 else ratio_bps buy_volume total

unfoldable pub normalise : ℤ → ℤ → ℤ
unfolding ratio_bps
normalise value most =
    if leb_ℤ most (pos 0)
    then pos 0
    else if leb_ℤ most value
    then basis_points
    else ratio_bps value most

unfoldable pub component : ℤ → ℤ → ℤ → TrendingComponent
unfolding normalise
component raw most weight = record {
  raw = raw;
  normalised_bps = normalise raw most;
  weight = weight;
}

unfoldable pub max_of : ℤ → List ℤ → ℤ
max_of best [] = best
max_of best (value ∷ values) = max_of (if ltb_ℤ best value then value else best) values

unfoldable pub raw_of : TrendingInput → Parts ℤ
unfolding growth_bps buy_pressure_bps bigint_max
raw_of input = record {
  volume_acceleration = growth_bps input.recent_volume input.prior_volume;
  unique_traders = bigint_max (pos 0) input.unique_traders;
  trade_activity = bigint_max (pos 0) input.trade_count;
  buy_pressure = buy_pressure_bps input.buy_volume input.sell_volume;
  market_cap_growth = growth_bps input.market_cap input.prior_market_cap;
}

-- The largest of each part in the cohort; the buy pressure has a scale of its own.
unfoldable pub max_parts : List (Parts ℤ) → Parts ℤ
unfolding max_of
max_parts raw = record {
  volume_acceleration = max_of (pos 0) (map (λ (r : Parts ℤ). r.volume_acceleration) raw);
  unique_traders = max_of (pos 0) (map (λ (r : Parts ℤ). r.unique_traders) raw);
  trade_activity = max_of (pos 0) (map (λ (r : Parts ℤ). r.trade_activity) raw);
  buy_pressure = basis_points;
  market_cap_growth = max_of (pos 0) (map (λ (r : Parts ℤ). r.market_cap_growth) raw);
}

unfoldable pub components_of : Parts ℤ → Parts ℤ → Parts ℤ → Parts TrendingComponent
unfolding component
components_of raw most w = record {
  volume_acceleration =
      component raw.volume_acceleration most.volume_acceleration w.volume_acceleration;
  unique_traders = component raw.unique_traders most.unique_traders w.unique_traders;
  trade_activity = component raw.trade_activity most.trade_activity w.trade_activity;
  buy_pressure = component raw.buy_pressure most.buy_pressure w.buy_pressure;
  market_cap_growth = component raw.market_cap_growth most.market_cap_growth w.market_cap_growth;
}

unfoldable pub weighted : Parts TrendingComponent → Parts ℤ → ℤ
weighted c w =
    c.volume_acceleration.normalised_bps *ℤ w.volume_acceleration
    +ℤ c.unique_traders.normalised_bps *ℤ w.unique_traders
    +ℤ c.trade_activity.normalised_bps *ℤ w.trade_activity
    +ℤ c.buy_pressure.normalised_bps *ℤ w.buy_pressure
    +ℤ c.market_cap_growth.normalised_bps *ℤ w.market_cap_growth

unfoldable pub score_of : Parts ℤ → Parts ℤ → TrendingInput → TrendingScore
unfolding raw_of components_of weighted
score_of most w input =
    let components = components_of (raw_of input) most w in
    record {
      token_id = input.token_id;
      score_bps = weighted components w /ℤ pos 100;
      components = components;
    }

unfoldable pub score_trending :
    List TrendingInput → Parts ℤ → Result (List WeightError) (List TrendingScore)
unfolding validate_weights score_of max_parts raw_of
score_trending inputs w = elim (validate_weights w) [
  | [] ↦ ok (map (score_of (max_parts (map raw_of inputs)) w) inputs)
  | e ∷ errors ↦ err (e ∷ errors)
]
