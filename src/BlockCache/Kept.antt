-- ===== src/BlockCache/Kept.antt =====
-- What the cache keeps.
use stunks.Prelude.{
  ℕ, ◌+◌, ◌-◌, ◌*◌, ◌≤◌, ◌≡◌, refl, sym, ap, ◌∙◌, inl, inr, not, ◌&&◌, Option, none, some, List, [],
  ◌∷◌, map, All, arith, length, leb, ◌==◌, Bool-cases, some-injective, leb→le, leb_false→lt,
}
use stunks.BlockCache.{
  BlockTimeCache, BatchRead, BlockTimeCacheOptions, times, batch_not_supported, batch_failed,
  cached, set_entry, without_oldest, remember, read_unless, get, missing_of, remember_all,
  after_batch, warm_chunks, warm_batches, warm_singles, warm, distinct_blocks,
}

module _ (chain : ℕ → ℕ) where
  -- Each entry has the time that the chain has for its block.
  abbrev pub AreTrue : List (ℕ × ℕ) → Type 0
  AreTrue = All (λ e. e.1 ≡ chain e.0 * 1000)

  -- No time, or the time of the block in milliseconds.
  abbrev pub IsTimeOf : ℕ → Option ℕ → Type 0
  IsTimeOf block none = Unit
  IsTimeOf block (some t) = t ≡ chain block * 1000

  IsTimeOf-intro :
      (block : ℕ) (found : Option ℕ)
      → ((t : ℕ) → found ≡ some t → t ≡ chain block * 1000)
      → IsTimeOf block found
  IsTimeOf-intro block none true_time = tt
  IsTimeOf-intro block (some t) true_time = true_time t refl

  set_entry-AreTrue :
      (block : ℕ) (entries : List (ℕ × ℕ))
      → AreTrue entries
      → AreTrue (set_entry block (chain block * 1000) entries)
  unfolding set_entry
  set_entry-AreTrue block [] all = (refl, tt)
  set_entry-AreTrue block ((b, t) ∷ entries) (right, all) = elim (Bool-cases (b == block)) [
    | inl e ↦ let same : b ≡ block = ground arith in rw e (ap (λ k. chain k * 1000) (sym same), all)
    | inr e ↦ rw e (right, set_entry-AreTrue block entries all)
  ]

  without_oldest-AreTrue :
      (entries : List (ℕ × ℕ)) → AreTrue entries → AreTrue (without_oldest entries)
  without_oldest-AreTrue [] all = tt
  without_oldest-AreTrue (e ∷ entries) (right, all) = all

  cached-true :
      (block t : ℕ) (entries : List (ℕ × ℕ))
      → AreTrue entries
      → cached block entries ≡ some t
      → t ≡ chain block * 1000
  unfolding cached
  cached-true block t [] all h = cc
  cached-true block t ((b, s) ∷ entries) (right, all) h = elim (Bool-cases (b == block)) [
    | inl e ↦
        let same : b ≡ block = ground arith in
        sym (some-injective (rw e at h)) ∙ right ∙ ap (λ k. chain k * 1000) same
    | inr e ↦ cached-true block t entries all (rw e at h)
  ]

  length-set_entry :
      (block t : ℕ) (entries : List (ℕ × ℕ))
      → length (set_entry block t entries) ≤ length entries + 1
  unfolding set_entry
  length-set_entry block t [] = omega arith
  length-set_entry block t ((b, s) ∷ entries) = elim (Bool-cases (b == block)) [
    | inl e ↦ rw e (omega arith)
    | inr e ↦ rw e (omega (arith, length-set_entry block t entries))
  ]

  length-without_oldest :
      (entries : List (ℕ × ℕ))
      → length (without_oldest entries) + 1 ≤ length entries + (1 - length entries)
  length-without_oldest [] = omega arith
  length-without_oldest (e ∷ entries) = omega arith

  module _ (options : BlockTimeCacheOptions) (room : 1 ≤ options.max_entries)
      (reads : (block seconds : ℕ) → options.get_block block ≡ some seconds → seconds ≡ chain block)
      (batches : (read : List ℕ → BatchRead) (chunk seconds : List ℕ)
        → options.read_batch ≡ some read
        → read chunk ≡ times seconds
        → length seconds ≡ length chunk
        → seconds ≡ map chain chunk) where
    -- The cache is bounded, and true to the chain.
    abbrev pub IsKept : BlockTimeCache → Type 0
    IsKept cache = (length cache.entries ≤ options.max_entries) × AreTrue cache.entries

    remember-IsKept :
        (block : ℕ) (cache : BlockTimeCache)
        → IsKept cache
        → IsKept (remember options block (chain block) cache)
    unfolding remember
    remember-IsKept block cache (bounded, all) =
        elim (Bool-cases (leb options.max_entries (length cache.entries))) [
          | inl e ↦ rw e (
            omega (
              arith,
              length-set_entry block (chain block * 1000) (without_oldest cache.entries),
              length-without_oldest cache.entries,
              leb→le _ _ e,
            ),
            set_entry-AreTrue block (without_oldest cache.entries)
                (without_oldest-AreTrue cache.entries all),
          )
          | inr e ↦ rw e (
            omega (
              arith,
              length-set_entry block (chain block * 1000) cache.entries,
              leb_false→lt _ _ e,
            ),
            set_entry-AreTrue block cache.entries all,
          )
        ]

    read_unless-IsKept :
        (block : ℕ) (cache : BlockTimeCache) (found answer : Option ℕ)
        → IsKept cache
        → options.get_block block ≡ answer
        → IsKept (read_unless options block cache found answer).1
    read_unless-IsKept block cache (some t) answer kept e = kept
    read_unless-IsKept block cache none none kept e = kept
    read_unless-IsKept block cache none (some seconds) kept e =
        rw (reads block seconds e) (remember-IsKept block cache kept)

    get-IsKept :
        (block : ℕ) (cache : BlockTimeCache) → IsKept cache → IsKept (get options block cache).1
    unfolding get
    get-IsKept block cache kept =
        read_unless-IsKept block cache (cached block cache.entries) (options.get_block block) kept
          refl

    read_unless-true :
        (block : ℕ) (cache : BlockTimeCache) (found answer : Option ℕ) (t : ℕ)
        → IsKept cache
        → cached block cache.entries ≡ found
        → options.get_block block ≡ answer
        → (read_unless options block cache found answer).0 ≡ some t
        → t ≡ chain block * 1000
    read_unless-true block cache (some s) answer t kept e₁ e₂ h =
        cached-true block t cache.entries (kept.1) (e₁ ∙ h)
    read_unless-true block cache none none t kept e₁ e₂ h = cc
    read_unless-true block cache none (some seconds) t kept e₁ e₂ h =
        sym (some-injective h) ∙ ap (λ k. k * 1000) (reads block seconds e₂)

    remember_all-IsKept :
        (blocks : List ℕ) (cache : BlockTimeCache)
        → IsKept cache
        → IsKept (remember_all options blocks (map chain blocks) cache)
    unfolding remember_all
    remember_all-IsKept [] cache kept = kept
    remember_all-IsKept (block ∷ blocks) cache kept =
        remember_all-IsKept blocks _ (remember-IsKept block cache kept)

    after_batch-IsKept :
        (read : List ℕ → BatchRead) (next : BlockTimeCache → BlockTimeCache) (chunk : List ℕ)
        (answer : BatchRead) (cache : BlockTimeCache)
        → options.read_batch ≡ some read
        → ((c : BlockTimeCache) → IsKept c → IsKept (next c))
        → read chunk ≡ answer
        → IsKept cache
        → IsKept (after_batch options next chunk answer cache)
    after_batch-IsKept read next chunk batch_not_supported cache given keeps e kept = kept
    after_batch-IsKept read next chunk batch_failed cache given keeps e kept = kept
    after_batch-IsKept read next chunk (times seconds) cache given keeps e kept =
        elim (Bool-cases (length seconds == length chunk)) [
          | inr other ↦ rw other kept
          | inl same ↦
              rw (same, batches read chunk seconds given e (ground arith))
                (keeps _ (remember_all-IsKept chunk cache kept))
        ]

    warm_chunks-IsKept :
        (read : List ℕ → BatchRead) (chunks : List (List ℕ)) (cache : BlockTimeCache)
        → options.read_batch ≡ some read
        → IsKept cache
        → IsKept (warm_chunks options read chunks cache)
    unfolding warm_chunks
    warm_chunks-IsKept read [] cache given kept = kept
    warm_chunks-IsKept read (chunk ∷ chunks) cache given kept =
        after_batch-IsKept read (warm_chunks options read chunks) chunk (read chunk) cache given
          (λ c k. warm_chunks-IsKept read chunks c given k) refl kept

    warm_batches-IsKept :
        (reader : Option (List ℕ → BatchRead)) (missing : List ℕ) (cache : BlockTimeCache)
        → options.read_batch ≡ reader
        → IsKept cache
        → IsKept (warm_batches options reader missing cache)
    unfolding warm_batches
    warm_batches-IsKept none missing cache given kept = kept
    warm_batches-IsKept (some read) missing cache given kept =
        elim (Bool-cases
          (not cache.is_batch_unsupported && leb options.min_batch_size (length missing))) [
            | inl e ↦ rw e (warm_chunks-IsKept read _ cache given kept)
            | inr e ↦ rw e kept
          ]

    warm_singles-IsKept :
        (blocks : List ℕ) (cache : BlockTimeCache)
        → IsKept cache
        → IsKept (warm_singles options blocks cache)
    unfolding warm_singles
    warm_singles-IsKept [] cache kept = kept
    warm_singles-IsKept (block ∷ blocks) cache kept =
        warm_singles-IsKept blocks _ (get-IsKept block cache kept)

    -- Where the client and the batch reader tell the times of the chain, and the cache has room for one
    -- entry at least: `warm` and `get` keep it within its bound and true to the chain, whatever the
    -- batches and the order in which the single reads end, failed batches and reads included; and a
    -- time that `get` gives, cached or read, is that of the chain in milliseconds.
    pub warm-IsKept :
        (blocks : List ℕ) (block : ℕ) (cache : BlockTimeCache)
        → IsKept cache
        → IsKept (warm options blocks cache)
          × IsKept (get options block cache).1
          × IsTimeOf block (get options block cache).0
    unfolding warm get
    warm-IsKept blocks block cache kept =
        let missing = missing_of options cache (distinct_blocks [] blocks) in
        let batched = warm_batches options options.read_batch missing cache in
        (
          warm_singles-IsKept (options.finishing (missing_of options batched missing)) batched
              (warm_batches-IsKept options.read_batch missing cache refl kept),
          get-IsKept block cache kept,
          IsTimeOf-intro block (get options block cache).0 λ t h.
              read_unless-true block cache (cached block cache.entries) (options.get_block block) t
                kept refl refl h,
        )
