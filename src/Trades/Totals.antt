-- ===== src/Trades/Totals.antt =====
-- The batched totals and the latest trades are those of each token by itself.
use stunks.Prelude.{
  ℕ, ◌≡◌, refl, ap, ◌∙◌, sym, inl, inr, Bool, true, false, not, ◌&&◌, Option, none, some, List, [],
  ◌∷◌, ◌++◌, length, if◌then◌else◌, filter_by, sort_by, Bool-cases,
}
use stunks.Prelude.Text.{Text, text_eq, text_eq→≡, text_eq_comm, has}
use stunks.Trades.{
  Trade, Table, Dict, TokenTradeAggregate, is_of, is_since, is_asked, is_buy, is_later, sum_quote,
  lookup, add_to_group, group_by, count_or_zero, zeros_aggregate, set_totals, set_unless,
  with_zeros, aggregate_for_token, aggregate_for_tokens, top_row, latest_for_token,
  latest_of_groups, latest_for_tokens, or_zeros, or_none,
}

-- The rows of a group, and none where there is no group.
abbrev rows_in : Option (List Trade) → List Trade
rows_in none = []
rows_in (some rows) = rows

abbrev joined : Bool → Trade → Option (List Trade) → Option (List Trade)
joined false t group = group
joined true t none = some (t ∷ [])
joined true t (some rows) = some (t ∷ rows)

lookup-add_to_group :
    (id : Text) (t : Trade) (groups : Dict (List Trade))
    → lookup id (add_to_group t groups) ≡ joined (is_of id t) t (lookup id groups)
unfolding lookup add_to_group
lookup-add_to_group id t [] = elim (Bool-cases (text_eq t.token_id id)) [
  | inl e ↦ rw e refl
  | inr e ↦ rw e refl
]
lookup-add_to_group id t ((k, rows) ∷ groups) = elim (Bool-cases (text_eq k t.token_id)) [
  | inl e ↦
      rw (e, ap (λ x. text_eq x id) (text_eq→≡ k t.token_id e))
        (elim (Bool-cases (text_eq t.token_id id)) [ inl f ↦ rw f refl | inr f ↦ rw f refl ])
  | inr e ↦ elim (Bool-cases (text_eq k id)) [
    | inl f ↦
        let other : text_eq t.token_id id ≡ false =
          text_eq_comm t.token_id id
          ∙ ap (λ x. text_eq x t.token_id) (sym (text_eq→≡ k id f))
          ∙ e in
        rw (e, f, other) refl
    | inr f ↦ rw (e, f) (lookup-add_to_group id t groups)
  ]
]

abbrev grouped : List Trade → Option (List Trade)
grouped [] = none
grouped (t ∷ ts) = some (t ∷ ts)

joined-grouped :
    (b : Bool) (t : Trade) (rows : List Trade)
    → joined b t (grouped rows) ≡ grouped (if b then t ∷ rows else rows)
joined-grouped false t rows = refl
joined-grouped true t [] = refl
joined-grouped true t (r ∷ rows) = refl

-- A group of `groupBy` is the rows of its token.
lookup-group_by :
    (id : Text) (ts : List Trade) → lookup id (group_by ts) ≡ grouped (filter_by (is_of id) ts)
unfolding group_by lookup
lookup-group_by id [] = refl
lookup-group_by id (t ∷ ts) =
    lookup-add_to_group id t (group_by ts)
    ∙ ap (joined (is_of id t) t) (lookup-group_by id ts)
    ∙ joined-grouped (is_of id t) t (filter_by (is_of id) ts)

filter_by-filter_by {ℓ} :
    {A : Type ℓ} (p q r : A → Bool)
    → ((x : A) → (q x && p x) ≡ r x)
    → (xs : List A) → filter_by p (filter_by q xs) ≡ filter_by r xs
filter_by-filter_by p q r same [] = refl
filter_by-filter_by p q r same (x ∷ xs) = elim (Bool-cases (q x)) [
  | inl e ↦ rw (e, ap (λ b. b && p x) (sym e) ∙ same x, filter_by-filter_by p q r same xs) refl
  | inr e ↦ rw (e, sym (same x) ∙ ap (λ b. b && p x) e) (filter_by-filter_by p q r same xs)
]

and_true : (b : Bool) → (b && true) ≡ b
and_true true = refl
and_true false = refl

and_false : (b : Bool) → (b && false) ≡ false
and_false true = refl
and_false false = refl

-- Of what was asked for, the rows of one token.
rows_of :
    (ids : List Text) (since : Option ℕ) (id : Text) (table : Table)
    → has id ids ≡ true
    → filter_by (is_of id) (filter_by (is_asked ids since) table)
      ≡ filter_by (λ t. is_of id t && is_since since t) table
rows_of ids since id table asked =
    filter_by-filter_by (is_of id) (is_asked ids since) (λ t. is_of id t && is_since since t)
      (λ t. elim (Bool-cases (text_eq t.token_id id)) [
        | inl e ↦
            rw (e, ap (λ x. has x ids) (text_eq→≡ t.token_id id e) ∙ asked)
              (and_true (is_since since t))
        | inr e ↦ rw e (and_false (is_asked ids since t))
      ])
      table

and_comm : (a b : Bool) → (a && b) ≡ (b && a)
and_comm true true = refl
and_comm true false = refl
and_comm false true = refl
and_comm false false = refl

filter_by_comm {ℓ} :
    {A : Type ℓ} (p q : A → Bool) (xs : List A)
    → filter_by p (filter_by q xs) ≡ filter_by q (filter_by p xs)
filter_by_comm p q xs =
    filter_by-filter_by p q (λ x. q x && p x) (λ x. refl) xs
    ∙ sym (filter_by-filter_by q p (λ x. q x && p x) (λ x. and_comm (p x) (q x)) xs)

-- The aggregate of the rows of one token.
abbrev from_rows : List Trade → TokenTradeAggregate
from_rows rows = record {
  volume = sum_quote rows;
  trade_count = length rows;
  buy_count = length (filter_by is_buy rows);
  sell_count = length (filter_by (λ t. not (is_buy t)) rows);
}

count-grouped : (rows : List Trade) → count_or_zero (grouped rows) ≡ length rows
count-grouped [] = refl
count-grouped (r ∷ rows) = refl

abbrev made_of :
    Dict (List Trade) → Dict (List Trade) → Text → Option (List Trade) → Option TokenTradeAggregate
made_of buys sells id none = none
made_of buys sells id (some rows) = some (record {
  volume = sum_quote rows;
  trade_count = length rows;
  buy_count = count_or_zero (lookup id buys);
  sell_count = count_or_zero (lookup id sells);
})

lookup-set_totals :
    (buys sells : Dict (List Trade)) (id : Text) (totals : Dict (List Trade))
    → lookup id (set_totals buys sells totals) ≡ made_of buys sells id (lookup id totals)
unfolding lookup set_totals
lookup-set_totals buys sells id [] = refl
lookup-set_totals buys sells id ((k, rows) ∷ totals) = elim (Bool-cases (text_eq k id)) [
  | inl e ↦ rw e (ap (λ x. made_of buys sells x (some rows)) (text_eq→≡ k id e))
  | inr e ↦ rw e (lookup-set_totals buys sells id totals)
]

lookup-append_zeros :
    (id k : Text) (result : Dict TokenTradeAggregate)
    → or_zeros (lookup id (result ++ (k, zeros_aggregate) ∷ [])) ≡ or_zeros (lookup id result)
unfolding lookup
lookup-append_zeros id k [] = elim (Bool-cases (text_eq k id)) [
  | inl e ↦ rw e refl
  | inr e ↦ rw e refl
]
lookup-append_zeros id k ((j, v) ∷ result) = elim (Bool-cases (text_eq j id)) [
  | inl e ↦ rw e refl
  | inr e ↦ rw e (lookup-append_zeros id k result)
]

lookup-set_unless :
    (id k : Text) (old : Option TokenTradeAggregate) (result : Dict TokenTradeAggregate)
    → or_zeros (lookup id (set_unless k zeros_aggregate old result)) ≡ or_zeros (lookup id result)
lookup-set_unless id k (some w) result = refl
lookup-set_unless id k none result = lookup-append_zeros id k result

lookup-with_zeros :
    (id : Text) (ids : List Text) (result : Dict TokenTradeAggregate)
    → or_zeros (lookup id (with_zeros ids result)) ≡ or_zeros (lookup id result)
unfolding with_zeros
lookup-with_zeros id [] result = refl
lookup-with_zeros id (k ∷ ids) result =
    lookup-with_zeros id ids (set_unless k zeros_aggregate (lookup k result) result)
    ∙ lookup-set_unless id k (lookup k result) result

made_of-rows :
    (buys sells : Dict (List Trade)) (id : Text) (rows : List Trade)
    → lookup id buys ≡ grouped (filter_by is_buy rows)
    → lookup id sells ≡ grouped (filter_by (λ t. not (is_buy t)) rows)
    → or_zeros (made_of buys sells id (grouped rows)) ≡ from_rows rows
unfolding sum_quote
made_of-rows buys sells id [] bought sold = refl
made_of-rows buys sells id (r ∷ rows) bought sold =
    rw
      (
        bought,
        sold,
        count-grouped (filter_by is_buy (r ∷ rows)),
        count-grouped (filter_by (λ t. not (is_buy t)) (r ∷ rows)),
      )
      refl

-- The totals of the rows that were asked for.
totals_of :
    (id : Text) (rows : List Trade)
    → or_zeros (
        lookup id (
          set_totals
            (group_by (filter_by is_buy rows))
            (group_by (filter_by (λ t. not (is_buy t)) rows))
            (group_by rows)))
      ≡ from_rows (filter_by (is_of id) rows)
totals_of id rows =
    let buys = group_by (filter_by is_buy rows) in
    let sells = group_by (filter_by (λ t. not (is_buy t)) rows) in
    ap or_zeros (lookup-set_totals buys sells id (group_by rows))
    ∙ ap (λ g. or_zeros (made_of buys sells id g)) (lookup-group_by id rows)
    ∙ made_of-rows buys sells id (filter_by (is_of id) rows)
        (lookup-group_by id (filter_by is_buy rows)
          ∙ ap grouped (filter_by_comm (is_of id) is_buy rows))
        (lookup-group_by id (filter_by (λ t. not (is_buy t)) rows)
          ∙ ap grouped (filter_by_comm (is_of id) (λ t. not (is_buy t)) rows))

none_asked : (id : Text) → has id [] ≡ true → ⊥
unfolding has
none_asked id h = cc

asked_of :
    (ids : List Text) (id : Text)
    → has id ids ≡ true
    → (t : Trade) → (has t.token_id ids && is_of id t) ≡ is_of id t
asked_of ids id asked t = elim (Bool-cases (text_eq t.token_id id)) [
  | inl e ↦ rw (e, ap (λ x. has x ids) (text_eq→≡ t.token_id id e) ∙ asked) refl
  | inr e ↦ rw e (and_false (has t.token_id ids))
]

pub aggregate_for_tokens_lem :
    (table : Table) (ids : List Text) (since : Option ℕ) (id : Text)
    → has id ids ≡ true
    → or_zeros (lookup id (aggregate_for_tokens table ids since))
      ≡ aggregate_for_token table id since
unfolding aggregate_for_tokens aggregate_for_token
aggregate_for_tokens_lem table [] since id asked = absurd (none_asked id asked)
aggregate_for_tokens_lem table (k ∷ ids) since id asked =
    let rows = filter_by (is_asked (k ∷ ids) since) table in
    lookup-with_zeros id (k ∷ ids) (
      set_totals (group_by (filter_by is_buy rows))
        (group_by (filter_by (λ t. not (is_buy t)) rows)) (group_by rows))
    ∙ totals_of id rows
    ∙ ap from_rows (rows_of (k ∷ ids) since id table asked)

abbrev first_sorted : Option (List Trade) → Option Trade
first_sorted none = none
first_sorted (some rows) = top_row (sort_by is_later rows)

lookup-latest_of_groups :
    (id : Text) (groups : Dict (List Trade))
    → or_none (lookup id (latest_of_groups groups)) ≡ first_sorted (lookup id groups)
unfolding lookup latest_of_groups
lookup-latest_of_groups id [] = refl
lookup-latest_of_groups id ((k, rows) ∷ groups) = elim (Bool-cases (text_eq k id)) [
  | inl e ↦ rw e refl
  | inr e ↦ rw e (lookup-latest_of_groups id groups)
]

first_sorted-grouped :
    (rows : List Trade) → first_sorted (grouped rows) ≡ top_row (sort_by is_later rows)
first_sorted-grouped [] = refl
first_sorted-grouped (r ∷ rows) = refl

pub latest_for_tokens_lem :
    (table : Table) (ids : List Text) (id : Text)
    → has id ids ≡ true
    → or_none (lookup id (latest_for_tokens table ids)) ≡ latest_for_token table id
unfolding latest_for_tokens latest_for_token
latest_for_tokens_lem table [] id asked = absurd (none_asked id asked)
latest_for_tokens_lem table (k ∷ ids) id asked =
    let rows = filter_by (λ t. has t.token_id (k ∷ ids)) table in
    lookup-latest_of_groups id (group_by rows)
    ∙ ap first_sorted (lookup-group_by id rows)
    ∙ first_sorted-grouped (filter_by (is_of id) rows)
    ∙ ap (λ r. top_row (sort_by is_later r))
        (filter_by-filter_by (is_of id) (λ t. has t.token_id (k ∷ ids)) (is_of id)
          (asked_of (k ∷ ids) id asked) table)
