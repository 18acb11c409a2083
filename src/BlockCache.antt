-- ===== src/BlockCache.antt =====
-- The cache of block times: apps/indexer/src/block-cache.ts. A `Map` is the list of its entries in the
-- order of insertion. The client and the batch reader are parameters; the workers of `warm` are seen by
-- the order in which their reads end. Log lines are left out.
pub mod Kept
use stunks.Prelude.{
  ℕ, zero, suc, ◌+◌, ◌*◌, Bool, true, false, not, ◌&&◌, Option, none, some, List, [], ◌∷◌, length,
  leb, ◌==◌, if◌then◌else◌, filter_by,
}
use stunks.LogSource.{chunks_from}

pub record BlockTimeCache : Type 0 where
  pub entries : List (ℕ × ℕ)  -- a block and its time in milliseconds
  pub is_batch_unsupported : Bool

-- What the batch reader does: it reads times in seconds, finds no endpoint for a batch of the size, or
-- throws otherwise.
pub data BatchRead : Type 0 where
  times : List ℕ → BatchRead
  batch_not_supported batch_failed : BatchRead

pub record BlockTimeCacheOptions : Type 0 where
  pub max_entries : ℕ
  pub batch_size : ℕ
  pub min_batch_size : ℕ
  pub read_batch : Option (List ℕ → BatchRead)
  pub get_block : ℕ → Option ℕ  -- the time in seconds; `none` where the call throws
  pub finishing : List ℕ → List ℕ

unfoldable pub cached : ℕ → List (ℕ × ℕ) → Option ℕ
cached block [] = none
cached block ((b, t) ∷ entries) =
    let rest = cached block entries in if b == block then some t else rest

abbrev pub is_cached : Option ℕ → Bool
is_cached none = false
is_cached (some t) = true

-- `Map.set`.
unfoldable pub set_entry : ℕ → ℕ → List (ℕ × ℕ) → List (ℕ × ℕ)
set_entry block time [] = (block, time) ∷ []
set_entry block time ((b, t) ∷ entries) =
    let rest = set_entry block time entries in
    if b == block then (b, time) ∷ entries else (b, t) ∷ rest

abbrev pub without_oldest : List (ℕ × ℕ) → List (ℕ × ℕ)
without_oldest [] = []
without_oldest (e ∷ entries) = entries

unfoldable pub is_known : ℕ → List ℕ → Bool
is_known block [] = false
is_known block (b ∷ blocks) = if b == block then true else is_known block blocks

-- `[...new Set(blocks)]`, with the blocks that came before.
unfoldable pub distinct_blocks : List ℕ → List ℕ → List ℕ
unfolding is_known
distinct_blocks seen [] = []
distinct_blocks seen (b ∷ blocks) = elim (is_known b seen) [
  | true ↦ distinct_blocks seen blocks
  | false ↦ b ∷ distinct_blocks (b ∷ seen) blocks
]

module _ (options : BlockTimeCacheOptions) where
  unfoldable pub remember : ℕ → ℕ → BlockTimeCache → BlockTimeCache
  unfolding set_entry
  remember block seconds cache = record cache {
    entries = set_entry block (seconds * 1000) (
        if leb options.max_entries (length cache.entries)
        then without_oldest cache.entries
        else cache.entries);
  }

  -- From what the cache has on; `none` where the client throws.
  abbrev pub read_unless : ℕ → BlockTimeCache → Option ℕ → Option ℕ → Option ℕ × BlockTimeCache
  read_unless block cache (some time) answer = (some time, cache)
  read_unless block cache none none = (none, cache)
  read_unless block cache none (some seconds) =
      (some (seconds * 1000), remember block seconds cache)

  unfoldable pub get : ℕ → BlockTimeCache → Option ℕ × BlockTimeCache
  unfolding cached remember
  get block cache = read_unless block cache (cached block cache.entries) (options.get_block block)

  -- The blocks that the cache does not have.
  unfoldable pub missing_of : BlockTimeCache → List ℕ → List ℕ
  unfolding cached
  missing_of cache blocks = filter_by (λ block. not (is_cached (cached block cache.entries))) blocks

  unfoldable pub remember_all : List ℕ → List ℕ → BlockTimeCache → BlockTimeCache
  unfolding remember
  remember_all (block ∷ blocks) (seconds ∷ more) cache =
      remember_all blocks more (remember block seconds cache)
  remember_all _ _ cache = cache

  -- A chunk's answer, and the chunks after it unless the loop breaks off.
  abbrev pub after_batch :
      (BlockTimeCache → BlockTimeCache) → List ℕ → BatchRead → BlockTimeCache → BlockTimeCache
  after_batch next chunk (times seconds) cache =
      if length seconds == length chunk then next (remember_all chunk seconds cache) else cache
  after_batch next chunk batch_not_supported cache = record cache { is_batch_unsupported = true }
  after_batch next chunk batch_failed cache = cache

  unfoldable pub warm_chunks :
      (List ℕ → BatchRead) → List (List ℕ) → BlockTimeCache → BlockTimeCache
  unfolding remember_all
  warm_chunks read [] cache = cache
  warm_chunks read (chunk ∷ chunks) cache =
      after_batch (warm_chunks read chunks) chunk (read chunk) cache

  unfoldable pub warm_batches :
      Option (List ℕ → BatchRead) → List ℕ → BlockTimeCache → BlockTimeCache
  unfolding warm_chunks chunks_from
  warm_batches none missing cache = cache
  warm_batches (some read) missing cache =
      if not cache.is_batch_unsupported && leb options.min_batch_size (length missing)
      then warm_chunks read (chunks_from (length missing) options.batch_size missing) cache
      else cache

  -- The single reads, in the order in which they end. A read that throws leaves the cache as it is.
  unfoldable pub warm_singles : List ℕ → BlockTimeCache → BlockTimeCache
  unfolding get
  warm_singles [] cache = cache
  warm_singles (block ∷ blocks) cache = warm_singles blocks (get block cache).1

  unfoldable pub warm : List ℕ → BlockTimeCache → BlockTimeCache
  unfolding distinct_blocks missing_of warm_batches warm_singles
  warm blocks cache =
      let missing = missing_of cache (distinct_blocks [] blocks) in
      let batched = warm_batches options.read_batch missing cache in
      warm_singles (options.finishing (missing_of batched missing)) batched
