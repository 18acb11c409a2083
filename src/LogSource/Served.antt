-- ===== src/LogSource/Served.antt =====
-- What `getLogs` delivers, against the logs of the chain.
use mathlib.Core.List.Perm
use mathlib.Core.List.{Perm, append-nil}
use mathlib.Core.Path.{subst}
use stunks.Prelude.{
  ℕ, suc, ◌-◌, ◌≡◌, refl, sym, ap, ◌∙◌, max, Bool, true, false, ◌&&◌, ◌||◌, ◌⊎◌, inl, inr, Option,
  none, some, List, [], ◌∷◌, ◌++◌, Result, ok, err, All, arith, leb, Bool-cases, length, filter_by,
}
use stunks.Prelude.Text.{Text, has, text_eq, text_eq→≡}
use stunks.LogSource.{
  max_log_addresses_per_query, LogQuery, RawJsonRpcLog, LogFilter, concat, is_empty, chunks_from,
  address_chunks, matches_topics, delivered, add_chunk, read_chunks,
}
use stunks.LogSource.Chunks.{chunks_from_lem, chunks_from-filled}
use stunks.LogSource.Delivered.{delivered-append, delivered-matching, delivered-split}

-- No address stands twice.
abbrev pub AreDistinct : List Text → Type 0
AreDistinct [] = Unit
AreDistinct (a ∷ addresses) = (has a addresses ≡ false) × AreDistinct addresses

has-append : (a : Text) (xs ys : List Text) → has a (xs ++ ys) ≡ (has a xs || has a ys)
unfolding has
has-append a [] ys = refl
has-append a (x ∷ xs) ys = elim (Bool-cases (text_eq x a)) [
  | inl e ↦ rw e refl
  | inr e ↦ rw e (has-append a xs ys)
]

or_right : (b c : Bool) → (b || c) ≡ false → c ≡ false
or_right true c h = cc
or_right false c h = h

AreDistinct-append :
    (xs ys : List Text)
    → AreDistinct (xs ++ ys)
    → AreDistinct ys × ((a : Text) → has a xs ≡ true → has a ys ≡ false)
unfolding has
AreDistinct-append [] ys h = (h, λ a e. cc)
AreDistinct-append (x ∷ xs) ys (fresh, h) =
    let (rest, apart) = AreDistinct-append xs ys h in
    (
      rest,
      λ a e. elim (Bool-cases (text_eq x a)) [
        | inl same ↦
            subst (λ k. has k ys ≡ false) (text_eq→≡ x a same)
              (or_right (has x xs) (has x ys) (sym (has-append x xs ys) ∙ fresh))
        | inr other ↦ apart a (rw other at e)
      ],
    )

abbrev pub in_range : ℕ → ℕ → Option ℕ → Bool
in_range from_block to_block none = false
in_range from_block to_block (some number) = leb from_block number && leb number to_block

-- What a filter is meant to select; no address means any.
abbrev pub selects : ℕ → ℕ → List Text → RawJsonRpcLog → Bool
selects from_block to_block addresses log =
    in_range from_block to_block log.block_number
    && (is_empty addresses || has log.address addresses)

-- An endpoint on a chain with the logs `chain`: where it answers, and the topics match, it answers with
-- what the filter selects. It may ignore the topics.
abbrev pub IsHonest : List RawJsonRpcLog → (LogFilter → Result ℕ (List RawJsonRpcLog)) → Type 0
IsHonest chain request =
    (filter : LogFilter) (logs : List RawJsonRpcLog)
    → request filter ≡ ok logs
    → filter_by (λ log. matches_topics filter.topics0 log.topics) logs
      ≡ filter_by (λ log. matches_topics filter.topics0 log.topics)
          (filter_by (selects filter.from_block filter.to_block filter.addresses) chain)

-- The same for addresses that are there.
abbrev picks : ℕ → ℕ → List Text → RawJsonRpcLog → Bool
picks from_block to_block addresses log =
    in_range from_block to_block log.block_number && has log.address addresses

picks-selects :
    (from_block to_block : ℕ) (addresses : List Text) (chain : List RawJsonRpcLog)
    → is_empty addresses ≡ false
    → filter_by (selects from_block to_block addresses) chain
      ≡ filter_by (picks from_block to_block addresses) chain
picks-selects from_block to_block [] chain h = cc
picks-selects from_block to_block (a ∷ addresses) chain h = refl

filter_by-none :
    {A : Type 0} (p : A → Bool) (xs : List A) → ((x : A) → p x ≡ false) → filter_by p xs ≡ []
filter_by-none p [] h = refl
filter_by-none p (x ∷ xs) h = rw (h x) (filter_by-none p xs h)

picks-split :
    (from_block to_block : ℕ) (xs ys : List Text)
    → ((a : Text) → has a xs ≡ true → has a ys ≡ false)
    → (l : RawJsonRpcLog)
    → ((picks from_block to_block xs l ≡ true)
        × (picks from_block to_block ys l ≡ false)
        × (picks from_block to_block (xs ++ ys) l ≡ true))
      ⊎ (((picks from_block to_block xs l ≡ false)
            × (picks from_block to_block ys l ≡ true)
            × (picks from_block to_block (xs ++ ys) l ≡ true))
          ⊎ ((picks from_block to_block xs l ≡ false)
              × (picks from_block to_block ys l ≡ false)
              × (picks from_block to_block (xs ++ ys) l ≡ false)))
picks-split from_block to_block xs ys apart l =
    go (in_range from_block to_block l.block_number) (has l.address xs) (has l.address ys) _
      (has-append l.address xs ys) (apart l.address)
  where
    go :
        (r x y u : Bool)
        → u ≡ (x || y)
        → (x ≡ true → y ≡ false)
        → (((r && x) ≡ true) × ((r && y) ≡ false) × ((r && u) ≡ true))
          ⊎ ((((r && x) ≡ false) × ((r && y) ≡ true) × ((r && u) ≡ true))
              ⊎ (((r && x) ≡ false) × ((r && y) ≡ false) × ((r && u) ≡ false)))
    go false x y u h apart = inr (inr (refl, refl, refl))
    go true true y u h apart = inl (refl, apart refl, h)
    go true false true u h apart = inr (inl (refl, refl, h))
    go true false false u h apart = inr (inr (refl, refl, h))

and_false : (b : Bool) → (b && false) ≡ false
and_false true = refl
and_false false = refl

module _ (chain : List RawJsonRpcLog) (request : LogFilter → Result ℕ (List RawJsonRpcLog))
    (honest : IsHonest chain request) (query : LogQuery) (to_block : ℕ) where
  chunk_filter : List Text → LogFilter
  chunk_filter addresses = record {
    from_block = query.from_block;
    to_block = to_block;
    addresses = addresses;
    topics0 = query.topics0;
  }

  chunk_delivered :
      (addresses : List Text) (logs : List RawJsonRpcLog)
      → request (chunk_filter addresses) ≡ ok logs
      → delivered query.topics0 logs
        ≡ delivered query.topics0 (filter_by (selects query.from_block to_block addresses) chain)
  unfolding chunk_filter
  chunk_delivered addresses logs h =
      delivered-matching query.topics0 logs
        (filter_by (selects query.from_block to_block addresses) chain)
        (honest (chunk_filter addresses) logs h)

  added :
      (answer : Result ℕ (List RawJsonRpcLog)) (rest : List ℕ × List (List RawJsonRpcLog))
      (logs : List (List RawJsonRpcLog))
      → add_chunk answer rest ≡ ([], logs)
      → (own : List RawJsonRpcLog) × (more : List (List RawJsonRpcLog)) × (answer ≡ ok own)
        × (rest ≡ ([], more))
        × (logs ≡ own ∷ more)
  added (ok own) (failures, more) logs h =
      (own, more, refl, ap (λ r. (r.0, more)) h, sym (ap (λ r. r.1) h))
  added (err f) (failures, more) logs h = cc (ap (λ r. r.0) h)

  chunks_delivered :
      (chunks : List (List Text)) (logs : List (List RawJsonRpcLog))
      → All (λ c. is_empty c ≡ false) chunks
      → AreDistinct (concat chunks)
      → read_chunks request query to_block chunks ≡ ([], logs)
      → Perm (delivered query.topics0 (concat logs)) (
          delivered query.topics0
            (filter_by (picks query.from_block to_block (concat chunks)) chain))
  unfolding read_chunks concat chunk_filter has
  chunks_delivered [] logs filled distinct h =
      subst
        (λ ls.
          Perm (delivered query.topics0 (concat ls))
            (delivered query.topics0 (filter_by (picks query.from_block to_block []) chain)))
        (ap (λ r. r.1) h)
        (rw (filter_by-none (picks query.from_block to_block []) chain (λ l. and_false _))
          (Perm.refl _))
  chunks_delivered (c ∷ chunks) logs (full, filled) distinct h =
      let (own, more, answer, rest, same) =
        added (request (chunk_filter c)) (read_chunks request query to_block chunks) logs h in
      let (distinct_rest, apart) = AreDistinct-append c (concat chunks) distinct in
      let all : List RawJsonRpcLog =
        filter_by (picks query.from_block to_block (c ++ concat chunks)) chain in
      let first : List RawJsonRpcLog = filter_by (picks query.from_block to_block c) chain in
      subst (λ r. Perm r (delivered query.topics0 all))
        (sym (
          ap (λ ls. delivered query.topics0 (concat ls)) same
          ∙ delivered-append query.topics0 own (concat more)
          ∙ ap (λ r. r ++ delivered query.topics0 (concat more))
              (chunk_delivered c own answer
                ∙ ap (delivered query.topics0)
                    (picks-selects query.from_block to_block c chain full))))
        (Perm.trans
          (Perm.append_left (delivered query.topics0 first)
            (chunks_delivered chunks more filled distinct_rest rest))
          (delivered-split query.topics0 (picks query.from_block to_block c)
            (picks query.from_block to_block (concat chunks))
            (picks query.from_block to_block (c ++ concat chunks))
            (picks-split query.from_block to_block c (concat chunks) apart) chain))

  pub all_delivered :
      (addresses : List Text) (topic_count : ℕ) (logs : List (List RawJsonRpcLog))
      → AreDistinct addresses
      → read_chunks request query to_block (address_chunks addresses topic_count) ≡ ([], logs)
      → Perm
          (delivered query.topics0 (concat logs))
          (delivered query.topics0 (filter_by (selects query.from_block to_block addresses) chain))
  unfolding read_chunks concat address_chunks chunk_filter
  all_delivered [] topic_count logs distinct h =
      let (own, more, answer, rest, same) = added (request (chunk_filter [])) ([], []) logs h in
      let single : logs ≡ own ∷ [] = same ∙ ap (λ r. own ∷ r.1) (sym rest) in
      subst
        (λ r.
          Perm r (delivered query.topics0 (filter_by (selects query.from_block to_block []) chain)))
        (sym (
          ap (λ ls. delivered query.topics0 (concat ls)) single
          ∙ ap (delivered query.topics0) (append-nil own)
          ∙ chunk_delivered [] own answer))
        (Perm.refl _)
  all_delivered (a ∷ rest) topic_count logs distinct h =
      let size = max_log_addresses_per_query - topic_count - 1 in
      let same : max 1 (max_log_addresses_per_query - topic_count) ≡ suc size = omega arith in
      let (whole, _) = chunks_from_lem (length (a ∷ rest)) size (a ∷ rest) (omega arith) in
      subst
        (λ c.
          Perm (delivered query.topics0 (concat logs))
            (delivered query.topics0 (filter_by (picks query.from_block to_block c) chain)))
        whole
        (chunks_delivered (chunks_from (length (a ∷ rest)) (suc size) (a ∷ rest)) logs
          (chunks_from-filled (length (a ∷ rest)) size (a ∷ rest))
          (subst AreDistinct (sym whole) distinct)
          (subst
            (λ n.
              read_chunks request query to_block (chunks_from (length (a ∷ rest)) n (a ∷ rest))
              ≡ ([], logs))
            same h))
