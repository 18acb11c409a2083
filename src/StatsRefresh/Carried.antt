-- ===== src/StatsRefresh/Carried.antt =====
-- What a write of stats leaves of the tokens.
use stunks.Prelude.{
  ℕ, ◌≡◌, refl, ap, ◌∙◌, sym, inl, inr, true, Option, none, some, List, [], ◌∷◌, if◌then◌else◌,
  Bool-cases,
}
use stunks.Prelude.Text.{Text, text_eq, text_eq→≡, has}
use stunks.Trades.{Dict, lookup}
use stunks.CurveStream.{TokenStats, Token, TokenInfo}
use stunks.StatsRefresh.{
  info_of, find_by_id, curve_addresses_for, coalesce, with_stats, update_stats_many, update_stats,
}

-- A write of the stats that `f` has for an id.
unfoldable pub update_with : (Text → Option TokenStats) → List Token → List Token
update_with f [] = []
update_with f (t ∷ tokens) = with_stats (f t.id) t ∷ update_with f tokens

pub update_with-ext :
    (f g : Text → Option TokenStats)
    → ((id : Text) → f id ≡ g id)
    → (tokens : List Token) → update_with f tokens ≡ update_with g tokens
unfolding update_with
update_with-ext f g same [] = refl
update_with-ext f g same (t ∷ tokens) = rw (same t.id, update_with-ext f g same tokens) refl

pub update_stats_many-with :
    (rows : Dict TokenStats) (tokens : List Token)
    → update_stats_many rows tokens ≡ update_with (λ id. lookup id rows) tokens
unfolding update_stats_many update_with
update_stats_many-with rows [] = refl
update_stats_many-with rows (t ∷ tokens) = rw (update_stats_many-with rows tokens) refl

abbrev pub only : Text → Option TokenStats → Text → Option TokenStats
only id stats k = if text_eq k id then stats else none

pub update_stats-with :
    (id : Text) (stats : Option TokenStats) (tokens : List Token)
    → update_stats id stats tokens ≡ update_with (only id stats) tokens
unfolding update_stats update_with
update_stats-with id stats [] = refl
update_stats-with id stats (t ∷ tokens) = elim (Bool-cases (text_eq t.id id)) [
  | inl e ↦ rw (e, update_stats-with id stats tokens) refl
  | inr e ↦ rw (e, update_stats-with id stats tokens) refl
]

-- What is written carries the count of holders that is there.
abbrev pub Carries : (Text → Option TokenStats) → List Token → Text → Type 0
Carries f tokens id =
    (s : TokenStats) (i : TokenInfo)
    → f id ≡ some s
    → find_by_id tokens id ≡ some i
    → s.holder_count ≡ i.holder_count

info_of-with_stats :
    (stats : Option TokenStats) (t : Token)
    → ((s : TokenStats) → stats ≡ some s → s.holder_count ≡ t.stats.holder_count)
    → info_of (with_stats stats t) ≡ info_of t
info_of-with_stats none t same = refl
info_of-with_stats (some s) t same =
    ap
      (λ n. record {
        curve_address = t.curve_address;
        total_supply = t.total_supply;
        holder_count = n;
      })
      (same s refl)

pub id-with_stats : (stats : Option TokenStats) (t : Token) → (with_stats stats t).id ≡ t.id
id-with_stats none t = refl
id-with_stats (some s) t = refl

pub find_by_id-update_with :
    (f : Text → Option TokenStats) (id : Text) (tokens : List Token)
    → Carries f tokens id
    → find_by_id (update_with f tokens) id ≡ find_by_id tokens id
unfolding find_by_id update_with
find_by_id-update_with f id [] carries = refl
find_by_id-update_with f id (t ∷ tokens) carries = elim (Bool-cases (text_eq t.id id)) [
  | inl e ↦
      rw (id-with_stats (f t.id) t, e)
        (ap some (
          info_of-with_stats (f t.id) t
            (λ s h. carries s (info_of t) (ap f (sym (text_eq→≡ t.id id e)) ∙ h) (rw e refl))))
  | inr e ↦ rw (id-with_stats (f t.id) t, e) (find_by_id-update_with f id tokens (rw e at carries))
]

pub lookup-curve_addresses_for :
    (id : Text) (ids : List Text) (tokens : List Token)
    → has id ids ≡ true
    → lookup id (curve_addresses_for tokens ids) ≡ find_by_id tokens id
unfolding lookup curve_addresses_for find_by_id
lookup-curve_addresses_for id ids [] asked = refl
lookup-curve_addresses_for id ids (t ∷ tokens) asked = elim (Bool-cases (text_eq t.id id)) [
  | inl e ↦ rw (ap (λ x. has x ids) (text_eq→≡ t.id id e) ∙ asked, e) refl
  | inr e ↦ elim (Bool-cases (has t.id ids)) [
    | inl f ↦ rw (f, e) (lookup-curve_addresses_for id ids tokens asked)
    | inr f ↦ rw (f, e) (lookup-curve_addresses_for id ids tokens asked)
  ]
]

abbrev pub asked_only : List Text → (Text → Option TokenStats) → Text → Option TokenStats
asked_only ids f id = if has id ids then f id else none

coalesce_twice : (a b : Option ℕ) → coalesce a (coalesce a b) ≡ coalesce a b
coalesce_twice none b = refl
coalesce_twice (some n) b = refl

pub with_stats_twice :
    (stats : Option TokenStats) (t : Token)
    → with_stats stats (with_stats stats t) ≡ with_stats stats t
with_stats_twice none t = refl
with_stats_twice (some s) t =
    ap (λ at. record t { stats = record s { last_trade_at = at } })
      (coalesce_twice s.last_trade_at t.stats.last_trade_at)
