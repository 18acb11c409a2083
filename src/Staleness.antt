-- ===== src/Staleness.antt =====
-- How current the indexed data is: apps/web/src/lib/staleness.ts. Block numbers that the code prints
-- are kept as numbers. `Math.round` of blocks by the block time is floating-point, so it is a parameter.
pub mod Fresh
use stunks.Prelude.{
  ℕ, ◌-◌, Bool, true, false, ◌||◌, Option, none, some, List, [], ◌∷◌, map, ltb, if◌then◌else◌,
  any_by,
}
use stunks.Prelude.Text.{Text, text_eq}
use stunks.Prelude.Regex.{codes}

abbrev pub required_streams : List Text
required_streams = codes "factory" ∷ codes "curves" ∷ []

abbrev pub stale_after_seconds : ℕ
stale_after_seconds = 600

pub record StreamState : Type 0 where
  pub stream : Text
  pub last_processed_block : ℕ
  pub last_success_at : Option ℕ
  pub is_paused : Bool

pub record StreamStaleness : Type 0 where
  pub stream : Text
  pub indexed_block : ℕ
  pub lag_blocks : Option ℕ
  pub lag_seconds : Option ℕ
  pub last_success_at : Option ℕ
  pub is_paused : Bool

pub record IndexerStaleness : Type 0 where
  pub stream : Option Text
  pub indexed_block : Option ℕ
  pub chain_head : Option ℕ
  pub lag_blocks : Option ℕ
  pub lag_seconds : Option ℕ
  pub last_success_at : Option ℕ
  pub is_stale : Bool
  pub streams : List StreamStaleness

unfoldable pub lag_blocks : Option ℕ → ℕ → Option ℕ
lag_blocks none indexed_block = none
lag_blocks (some head) indexed_block =
    some (if ltb indexed_block head then head - indexed_block else 0)

unfoldable pub find_state : Text → List StreamState → Option StreamState
find_state name [] = none
find_state name (state ∷ states) =
    let rest = find_state name states in if text_eq state.stream name then some state else rest

-- The states of the names, or none where one is missing.
unfoldable pub find_required : List Text → List StreamState → Option (List StreamState)
unfolding find_state
find_required [] states = some []
find_required (name ∷ names) states = elim (find_state name states) [
  | none ↦ none
  | some state ↦ elim (find_required names states) [
    | none ↦ none
    | some present ↦ some (state ∷ present)
  ]
]

abbrev pub slower : StreamState → StreamState → StreamState
slower slowest state =
    if ltb state.last_processed_block slowest.last_processed_block then state else slowest

-- The `reduce`, from its first element on.
unfoldable pub slowest_of : StreamState → List StreamState → StreamState
slowest_of slowest [] = slowest
slowest_of slowest (state ∷ states) = slowest_of (slower slowest state) states

module _ (seconds_for : ℕ → ℕ) where
  unfoldable pub lag_seconds : Option ℕ → ℕ → Option ℕ
  unfolding lag_blocks
  lag_seconds head indexed_block = elim (lag_blocks head indexed_block) [
    | none ↦ none
    | some blocks ↦ some (seconds_for blocks)
  ]

  unfoldable pub describe : Option ℕ → StreamState → StreamStaleness
  unfolding lag_seconds
  describe head state = record {
    stream = state.stream;
    indexed_block = state.last_processed_block;
    lag_blocks = lag_blocks head state.last_processed_block;
    lag_seconds = lag_seconds head state.last_processed_block;
    last_success_at = state.last_success_at;
    is_paused = state.is_paused;
  }

  unfoldable pub unknown : Option ℕ → IndexerStaleness
  unknown head = record {
    stream = none;
    indexed_block = none;
    chain_head = head;
    lag_blocks = none;
    lag_seconds = none;
    last_success_at = none;
    is_stale = true;
    streams = [];
  }

  abbrev pub is_late : Option ℕ → Bool
  is_late none = true
  is_late (some seconds) = ltb stale_after_seconds seconds

  abbrev pub summary : Option ℕ → List StreamState → StreamState → IndexerStaleness
  summary head present binding = record {
    stream = some binding.stream;
    indexed_block = some binding.last_processed_block;
    chain_head = head;
    lag_blocks = lag_blocks head binding.last_processed_block;
    lag_seconds = lag_seconds head binding.last_processed_block;
    last_success_at = binding.last_success_at;
    is_stale =
        is_late (lag_seconds head binding.last_processed_block)
        || any_by (λ state. state.is_paused) present;
    streams = map (describe head) present;
  }

  -- The `reduce` on the states, which are there for the required names.
  abbrev pub of_present : Option ℕ → Option (List StreamState) → IndexerStaleness
  of_present head none = unknown head
  of_present head (some []) = unknown head
  of_present head (some (state ∷ states)) = summary head (state ∷ states) (slowest_of state states)

  unfoldable pub summarise_staleness : List StreamState → Option ℕ → IndexerStaleness
  unfolding find_required slowest_of describe unknown
  summarise_staleness states head = of_present head (find_required required_streams states)
