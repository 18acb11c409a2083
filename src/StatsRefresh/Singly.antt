-- ===== src/StatsRefresh/Singly.antt =====
-- Refreshing a batch of tokens is refreshing each by itself.
use stunks.Prelude.{
  ◌≡◌, refl, ap, ◌∙◌, sym, inl, inr, Option, none, some, List, [], ◌∷◌, Bool-cases, some-injective,
}
use mathlib.Core.Path.{fun_ext}
use stunks.Prelude.Text.{Text, text_eq, text_eq→≡, text_eq_comm, has}
use stunks.Trades.{
  Trade, Dict, TokenTradeAggregate, lookup, aggregate_for_token, aggregate_for_tokens,
  latest_for_token, latest_for_tokens, or_zeros, or_none,
}
use stunks.Trades.Totals.{aggregate_for_tokens_lem, latest_for_tokens_lem}
use stunks.CurveStream.{TokenStats, Token, Database, TokenInfo, ProcessorDeps}
use stunks.StatsRefresh.{
  find_by_id, curve_addresses_for, with_stats, update_stats_many, add_row, stats_from, new_stats,
  stats_rows, since, refresh_token_stats_batch, refresh_token_stats,
}
use stunks.StatsRefresh.Carried.{
  update_with, update_with-ext, update_stats_many-with, only, update_stats-with, Carries,
  find_by_id-update_with, id-with_stats, lookup-curve_addresses_for, asked_only, with_stats_twice,
}

module _ (deps : ProcessorDeps) where
  -- The stats of a token, recomputed from what is stored.
  unfoldable pub fresh : Database → Text → Option TokenStats
  fresh db id =
      stats_from deps (find_by_id db.tokens id) (aggregate_for_token db.trades id none)
        (aggregate_for_token db.trades id (since deps)) (latest_for_token db.trades id)

  from-holder :
      (found : Option TokenInfo) (a b : TokenTradeAggregate) (t : Option Trade) (s : TokenStats)
      (i : TokenInfo)
      → stats_from deps found a b t ≡ some s
      → found ≡ some i
      → s.holder_count ≡ i.holder_count
  unfolding new_stats
  from-holder none a b t s i h same = cc
  from-holder (some j) a b t s i h same =
      ap (λ x. x.holder_count) (sym (some-injective h))
      ∙ ap (λ x. x.holder_count) (some-injective same)

  fresh-Carries : (db : Database) (id : Text) → Carries (fresh db) db.tokens id
  unfolding fresh
  fresh-Carries db id s i h found =
      from-holder (find_by_id db.tokens id) (aggregate_for_token db.trades id none)
        (aggregate_for_token db.trades id (since deps)) (latest_for_token db.trades id) s i h found

  pub asked-Carries :
      (db : Database) (ids : List Text) (id : Text)
      → Carries (asked_only ids (fresh db)) db.tokens id
  asked-Carries db ids id s i h found = elim (Bool-cases (has id ids)) [
    | inl e ↦ fresh-Carries db id s i (rw e at h) found
    | inr e ↦ cc (rw e at h)
  ]

  abbrev pub updated : Database → (Text → Option TokenStats) → Database
  updated db f = record db { tokens = update_with f db.tokens }

  asked-cons_at :
      (f : Text → Option TokenStats) (id : Text) (ids : List Text) (k : Text) (t : Token)
      → with_stats (asked_only ids f k) (with_stats (only id (f id) k) t)
        ≡ with_stats (asked_only (id ∷ ids) f k) t
  unfolding has
  asked-cons_at f id ids k t = elim (Bool-cases (text_eq k id)) [
    | inl e ↦
        rw (e, text_eq_comm id k ∙ e, ap f (sym (text_eq→≡ k id e)))
          (elim (Bool-cases (has k ids)) [
            | inl h ↦ rw h (with_stats_twice (f k) t)
            | inr h ↦ rw h refl
          ])
    | inr e ↦ rw (e, text_eq_comm id k ∙ e) refl
  ]

  -- The stats of one token written first, those of others after them.
  asked-cons :
      (f : Text → Option TokenStats) (id : Text) (ids : List Text) (tokens : List Token)
      → update_with (asked_only ids f) (update_with (only id (f id)) tokens)
        ≡ update_with (asked_only (id ∷ ids) f) tokens
  unfolding update_with has
  asked-cons f id ids [] = refl
  asked-cons f id ids (t ∷ tokens) =
      rw
        (
          id-with_stats (only id (f id) t.id) t,
          asked-cons_at f id ids t.id t,
          asked-cons f id ids tokens,
        )
        refl

  refresh_single :
      (id : Text) (db : Database)
      → refresh_token_stats deps id db ≡ updated db (only id (fresh db id))
  unfolding refresh_token_stats fresh
  refresh_single id db = ap (λ ts. record db { tokens = ts }) (update_stats-with id _ db.tokens)

  -- `refreshTokenStats`, one token after another.
  unfoldable pub refresh_each : List Text → Database → Database
  unfolding refresh_token_stats
  refresh_each [] db = db
  refresh_each (id ∷ ids) db = refresh_each ids (refresh_token_stats deps id db)

  only-Carries : (db : Database) (id k : Text) → Carries (only id (fresh db id)) db.tokens k
  only-Carries db id k s i h found = elim (Bool-cases (text_eq k id)) [
    | inl e ↦ fresh-Carries db k s i (ap (fresh db) (text_eq→≡ k id e) ∙ (rw e at h)) found
    | inr e ↦ cc (rw e at h)
  ]

  -- What is recomputed does not depend on the stats that were written.
  pub fresh-updated :
      (db : Database) (f : Text → Option TokenStats)
      → ((id : Text) → Carries f db.tokens id)
      → (id : Text) → fresh (updated db f) id ≡ fresh db id
  unfolding fresh
  fresh-updated db f carries id =
      ap
        (λ found.
          stats_from deps found (aggregate_for_token db.trades id none)
            (aggregate_for_token db.trades id (since deps)) (latest_for_token db.trades id))
        (find_by_id-update_with f id db.tokens (carries id))

  update_with-none :
      (f : Text → Option TokenStats) (tokens : List Token)
      → update_with (asked_only [] f) tokens ≡ tokens
  unfolding update_with has
  update_with-none f [] = refl
  update_with-none f (t ∷ tokens) = ap (λ ts. t ∷ ts) (update_with-none f tokens)

  updated_none : (db : Database) → updated db (asked_only [] (fresh db)) ≡ db
  updated_none db = ap (λ ts. record db { tokens = ts }) (update_with-none (fresh db) db.tokens)

  pub refresh_each_lem :
      (ids : List Text) (db : Database)
      → refresh_each ids db ≡ updated db (asked_only ids (fresh db))
  unfolding refresh_each
  refresh_each_lem [] db = sym (updated_none db)
  refresh_each_lem (id ∷ ids) db =
      let db' = updated db (only id (fresh db id)) in
      ap (refresh_each ids) (refresh_single id db)
      ∙ refresh_each_lem ids db'
      ∙ ap (λ f. updated db' (asked_only ids f))
          (fun_ext (fresh-updated db (only id (fresh db id)) (only-Carries db id)))
      ∙ ap (λ ts. record db { tokens = ts }) (asked-cons (fresh db) id ids db.tokens)

  module _ (infos : Dict TokenInfo) (totals daily : Dict TokenTradeAggregate)
      (latest : Dict (Option Trade)) where
    abbrev from_dicts : Text → Option TokenStats
    from_dicts id =
        stats_from deps (lookup id infos) (or_zeros (lookup id totals)) (or_zeros (lookup id daily))
          (or_none (lookup id latest))

    lookup-add_row :
        (k id : Text) (ids : List Text) (stats : Option TokenStats) (rows : Dict TokenStats)
        → from_dicts id ≡ stats
        → lookup k rows ≡ asked_only ids from_dicts k
        → lookup k (add_row id stats rows) ≡ asked_only (id ∷ ids) from_dicts k
    unfolding lookup has
    lookup-add_row k id ids none rows made rest = elim (Bool-cases (text_eq id k)) [
      | inl e ↦
          let absent : from_dicts k ≡ none = ap from_dicts (sym (text_eq→≡ id k e)) ∙ made in
          rest
          ∙ rw (e, absent) (elim (Bool-cases (has k ids)) [ inl h ↦ rw h refl | inr h ↦ rw h refl ])
      | inr e ↦ rw e rest
    ]
    lookup-add_row k id ids (some s) rows made rest = elim (Bool-cases (text_eq id k)) [
      | inl e ↦ rw e (sym made ∙ ap from_dicts (text_eq→≡ id k e))
      | inr e ↦ rw e rest
    ]

    lookup-stats_rows :
        (k : Text) (ids : List Text)
        → lookup k (stats_rows deps infos totals daily latest ids) ≡ asked_only ids from_dicts k
    unfolding stats_rows
    lookup-stats_rows k [] = unfold lookup has in refl
    lookup-stats_rows k (id ∷ ids) =
        lookup-add_row k id ids (from_dicts id) (stats_rows deps infos totals daily latest ids) refl
          (lookup-stats_rows k ids)

  -- The stats that a batch writes for a token that it was asked for.
  from_dicts-fresh :
      (db : Database) (ids : List Text) (k : Text)
      → asked_only ids
          (from_dicts
            (curve_addresses_for db.tokens ids)
            (aggregate_for_tokens db.trades ids none)
            (aggregate_for_tokens db.trades ids (since deps))
            (latest_for_tokens db.trades ids))
          k
        ≡ asked_only ids (fresh db) k
  unfolding fresh
  from_dicts-fresh db ids k = elim (Bool-cases (has k ids)) [
    | inl e ↦
        rw
          (
            e,
            lookup-curve_addresses_for k ids db.tokens e,
            aggregate_for_tokens_lem db.trades ids none k e,
            aggregate_for_tokens_lem db.trades ids (since deps) k e,
            latest_for_tokens_lem db.trades ids k e,
          )
          refl
    | inr e ↦ rw e refl
  ]

  rows_lem :
      (db : Database) (ids : List Text)
      → update_stats_many
          (stats_rows deps
            (curve_addresses_for db.tokens ids)
            (aggregate_for_tokens db.trades ids none)
            (aggregate_for_tokens db.trades ids (since deps))
            (latest_for_tokens db.trades ids)
            ids)
          db.tokens
        ≡ update_with (asked_only ids (fresh db)) db.tokens
  rows_lem db ids =
      update_stats_many-with _ db.tokens
      ∙ update_with-ext _ (asked_only ids (fresh db))
          (λ k. lookup-stats_rows _ _ _ _ k ids ∙ from_dicts-fresh db ids k) db.tokens

  pub refresh_batch_lem :
      (ids : List Text) (db : Database)
      → refresh_token_stats_batch deps ids db ≡ updated db (asked_only ids (fresh db))
  unfolding refresh_token_stats_batch
  refresh_batch_lem [] db = sym (updated_none db)
  refresh_batch_lem (id ∷ ids) db = ap (λ ts. record db { tokens = ts }) (rows_lem db (id ∷ ids))

  -- Refreshing a batch of tokens leaves the database as refreshing each of them by itself, one after
  -- another: the batched totals, counts, latest trades and writes are those of the single queries.
  pub refresh_token_stats_batch-refresh_each :
      (ids : List Text) (db : Database)
      → refresh_token_stats_batch deps ids db ≡ refresh_each ids db
  refresh_token_stats_batch-refresh_each ids db =
      refresh_batch_lem ids db ∙ sym (refresh_each_lem ids db)
