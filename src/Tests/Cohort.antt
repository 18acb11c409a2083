-- ===== src/Tests/Cohort.antt =====
-- The trending scores of two tokens.
use stunks.Prelude.{◌≡◌, refl, Result, ok, err, List, [], ◌∷◌, map, All}
use stunks.Prelude.Int.{ℤ, pos}
use stunks.Trending.{
  WeightError, TrendingInput, TrendingScore, default_trending_weights, validate_weights,
  score_trending,
}
use stunks.Trending.Bounds.{IsBps, score_trending-IsBps}

abbrev growing : TrendingInput
growing = record {
  token_id = b'a' ∷ [];
  recent_volume = pos 150;
  prior_volume = pos 100;
  unique_traders = pos 9;
  trade_count = pos 40;
  buy_volume = pos 120;
  sell_volume = pos 30;
  market_cap = pos 5_000;
  prior_market_cap = pos 4_000;
}

abbrev fading : TrendingInput
fading = record {
  token_id = b'b' ∷ [];
  recent_volume = pos 80;
  prior_volume = pos 200;
  unique_traders = pos 3;
  trade_count = pos 60;
  buy_volume = pos 20;
  sell_volume = pos 60;
  market_cap = pos 900;
  prior_market_cap = pos 1_000;
}

defaults_valid : validate_weights default_trending_weights ≡ []
unfolding validate_weights
defaults_valid = refl

abbrev scores_in : Result (List WeightError) (List TrendingScore) → List ℤ
scores_in (ok scores) = map (λ (s : TrendingScore). s.score_bps) scores
scores_in (err errors) = []

cohort_scores :
    scores_in (score_trending (growing ∷ fading ∷ []) default_trending_weights)
    ≡ pos 9_033 ∷ pos 3_208 ∷ []
unfolding score_trending
cohort_scores = refl

score_trending-IsBps_example :
    (scores : List TrendingScore) × (score_trending (growing ∷ fading ∷ []) default_trending_weights
      ≡ ok scores)
    × (map (λ (s : TrendingScore). s.token_id) scores ≡ (b'a' ∷ []) ∷ (b'b' ∷ []) ∷ [])
    × All (λ (s : TrendingScore). IsBps s.score_bps) scores
score_trending-IsBps_example =
    score_trending-IsBps (growing ∷ fading ∷ []) default_trending_weights defaults_valid
      (((120, refl), (30, refl)), (((20, refl), (60, refl)), tt))
