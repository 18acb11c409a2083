-- ===== src/Tests/Times.antt =====
-- The block cache with room for two, and a reader of batches.
use stunks.Prelude.{
  ℕ, ◌+◌, ◌≡◌, refl, sym, ap, ◌∙◌, some, List, [], ◌∷◌, map, arith, length, some-injective, false,
}
use stunks.BlockCache.{BlockTimeCache, BatchRead, BlockTimeCacheOptions, times, get, warm}
use stunks.BlockCache.Kept.{IsKept, IsTimeOf, warm-IsKept}

abbrev chain : ℕ → ℕ
chain block = block + 7

abbrev options : BlockTimeCacheOptions
options = record {
  max_entries = 2;
  batch_size = 2;
  min_batch_size = 2;
  read_batch = some (λ chunk. times (map chain chunk));
  get_block = λ block. some (chain block);
  finishing = λ blocks. blocks;
}

abbrev empty : BlockTimeCache
empty = record { entries = []; is_batch_unsupported = false }

-- A block that stands twice is read once.
read_once : (warm options (5 ∷ 6 ∷ 5 ∷ []) empty).entries ≡ (5, 12_000) ∷ (6, 13_000) ∷ []
unfolding warm
read_once = refl

reads : (block seconds : ℕ) → options.get_block block ≡ some seconds → seconds ≡ chain block
reads block seconds h = sym (some-injective h)

times_of : BatchRead → List ℕ
times_of (times seconds) = seconds
times_of _ = []

batches :
    (read : List ℕ → BatchRead) (chunk seconds : List ℕ)
    → options.read_batch ≡ some read
    → read chunk ≡ times seconds
    → length seconds ≡ length chunk
    → seconds ≡ map chain chunk
unfolding times_of
batches read chunk seconds given answer same =
    sym (ap times_of answer) ∙ sym (ap (λ r. times_of (r chunk)) (some-injective given))

warm-IsKept_example :
    IsKept chain options (omega arith) reads batches (warm options (5 ∷ 6 ∷ 5 ∷ []) empty)
    × IsKept chain options (omega arith) reads batches (get options 5 empty).1
    × IsTimeOf chain 5 (get options 5 empty).0
warm-IsKept_example =
    warm-IsKept chain options (omega arith) reads batches (5 ∷ 6 ∷ 5 ∷ []) 5 empty (omega arith, tt)
