-- ===== src/Trades/Replay.antt =====
-- Recording what is recorded.
use stunks.Prelude.{
  ℕ, ◌+◌, ◌≡◌, refl, ap, ◌∙◌, sym, inl, inr, Bool, true, false, ◌||◌, List, [], ◌∷◌, ◌++◌, All,
  length, length-append, or_false, arith, any_by, Bool-cases,
}
use stunks.Prelude.Text.{text_eq_refl, text_eq_comm}
use stunks.Trades.{
  Trade, Table, same_log, find_log, to_create_data, record_trade, record_many, one_more_if,
}

-- A row's key is its own, also after `toCreateData`.
same_log_refl : (t : Trade) → same_log t (to_create_data t) ≡ true
unfolding same_log
same_log_refl t = ground (arith, text_eq_refl t.transaction_hash)

find_log-append :
    (input : Trade) (xs ys : Table)
    → find_log input (xs ++ ys) ≡ (find_log input xs || find_log input ys)
unfolding find_log
find_log-append input [] ys = refl
find_log-append input (x ∷ xs) ys = ground (arith, find_log-append input xs ys)

find_log-record_trade_self :
    (input : Trade) (table : Table) → find_log input (record_trade input table).1 ≡ true
unfolding record_trade
find_log-record_trade_self input table = elim (Bool-cases (find_log input table)) [
  | inl old ↦ rw old old
  | inr new ↦
      rw new (
        find_log-append input table (to_create_data input ∷ [])
        ∙ rw (new, same_log_refl input) refl)
]

find_log-record_trade :
    (input other : Trade) (table : Table)
    → find_log other table ≡ true
    → find_log other (record_trade input table).1 ≡ true
unfolding record_trade
find_log-record_trade input other table known = elim (Bool-cases (find_log input table)) [
  | inl old ↦ rw old known
  | inr new ↦ rw new (find_log-append other table (to_create_data input ∷ []) ∙ rw known refl)
]

find_log-record_many :
    (inputs : List Trade) (other : Trade) (table : Table)
    → find_log other table ≡ true
    → find_log other (record_many inputs table).1 ≡ true
unfolding record_many
find_log-record_many [] other table known = known
find_log-record_many (input ∷ inputs) other table known =
    find_log-record_many inputs other (record_trade input table).1
      (find_log-record_trade input other table known)

abbrev pub AreKnown : Table → List Trade → Type 0
AreKnown table inputs = All (λ t. find_log t table ≡ true) inputs

AreKnown-record_many :
    (inputs : List Trade) (table : Table) → AreKnown (record_many inputs table).1 inputs
unfolding record_many
AreKnown-record_many [] table = tt
AreKnown-record_many (input ∷ inputs) table = (
  find_log-record_many inputs input (record_trade input table).1
      (find_log-record_trade_self input table),
  AreKnown-record_many inputs (record_trade input table).1,
)

-- What is known is not recorded again.
record_many_known :
    (inputs : List Trade) (table : Table)
    → AreKnown table inputs
    → record_many inputs table ≡ (0, table)
unfolding record_many record_trade
record_many_known [] table known = refl
record_many_known (input ∷ inputs) table (known, rest) =
    rw (known, record_many_known inputs table rest) refl

record_many-append :
    (xs ys : List Trade) (table : Table)
    → (record_many (xs ++ ys) table).1 ≡ (record_many ys (record_many xs table).1).1
unfolding record_many
record_many-append [] ys table = refl
record_many-append (x ∷ xs) ys table = record_many-append xs ys (record_trade x table).1

pub record_many_twice :
    (inputs : List Trade) (table : Table)
    → record_many inputs (record_many inputs table).1 ≡ (0, (record_many inputs table).1)
record_many_twice inputs table =
    record_many_known inputs (record_many inputs table).1 (AreKnown-record_many inputs table)

-- No row has the key of another.
abbrev pub IsKeyed : Table → Type 0
IsKeyed [] = Unit
IsKeyed (t ∷ ts) = (find_log t ts ≡ false) × IsKeyed ts

same_log-created : (a b : Trade) → same_log b a ≡ false → same_log a (to_create_data b) ≡ false
unfolding same_log
same_log-created a b h = ground (arith, text_eq_comm a.transaction_hash b.transaction_hash)

IsKeyed-append :
    (input : Trade) (table : Table)
    → IsKeyed table
    → find_log input table ≡ false
    → IsKeyed (table ++ to_create_data input ∷ [])
unfolding find_log
IsKeyed-append input [] keyed new = (refl, tt)
IsKeyed-append input (t ∷ ts) (apart, keyed) new =
    let (here, later) = (or_false (same_log input t) (any_by (same_log input) ts)).0 new in
    (
      find_log-append t ts (to_create_data input ∷ [])
          ∙ rw (apart, same_log-created t input here) refl,
      IsKeyed-append input ts keyed later,
    )

record_trade-IsKeyed :
    (input : Trade) (table : Table) → IsKeyed table → IsKeyed (record_trade input table).1
unfolding record_trade
record_trade-IsKeyed input table keyed = elim (Bool-cases (find_log input table)) [
  | inl old ↦ rw old keyed
  | inr new ↦ rw new (IsKeyed-append input table keyed new)
]

length-record_trade :
    (input : Trade) (table : Table)
    → length (record_trade input table).1 ≡ one_more_if (record_trade input table).0 (length table)
unfolding record_trade
length-record_trade input table = elim (Bool-cases (find_log input table)) [
  | inl old ↦ rw old refl
  | inr new ↦ rw new (omega (arith, length-append table (to_create_data input ∷ [])))
]

one_more_if-add : (b : Bool) (m n : ℕ) → one_more_if b m + n ≡ m + one_more_if b n
one_more_if-add true m n = omega arith
one_more_if-add false m n = refl

record_many-Keeps :
    (inputs : List Trade) (table : Table)
    → IsKeyed table
    → IsKeyed (record_many inputs table).1
      × (length (record_many inputs table).1 ≡ length table + (record_many inputs table).0)
unfolding record_many
record_many-Keeps [] table keyed = (keyed, omega arith)
record_many-Keeps (input ∷ inputs) table keyed =
    let (still, long) =
      record_many-Keeps inputs (record_trade input table).1
        (record_trade-IsKeyed input table keyed) in
    (
      still,
      long
          ∙ ap (λ n. n + (record_many inputs (record_trade input table).1).0)
              (length-record_trade input table)
          ∙ one_more_if-add (record_trade input table).0 (length table)
              (record_many inputs (record_trade input table).1).0,
    )

rerecorded :
    (before shared after : List Trade) (table : Table)
    → (record_many (shared ++ after) (record_many (before ++ shared) table).1).1
      ≡ (record_many (before ++ (shared ++ after)) table).1
rerecorded before shared after table =
    let start = (record_many before table).1 in
    let known = (record_many shared start).1 in
    ap (λ t. (record_many (shared ++ after) t).1) (record_many-append before shared table)
    ∙ record_many-append shared after known
    ∙ ap (λ p. (record_many after p.1).1) (record_many_twice shared start)
    ∙ sym (record_many-append shared after start)
    ∙ sym (record_many-append before (shared ++ after) table)

-- In a table where no two rows have the same chain, transaction and log index, recording a window
-- and then one that overlaps it leaves what recording the whole range at once leaves. No two rows
-- have the same key then either, the table has grown by exactly the number that was reported as
-- inserted, and recording the window again inserts nothing and changes nothing.
pub record_many_overlap :
    (before shared after : List Trade) (table : Table)
    → IsKeyed table
    → let first = record_many (before ++ shared) table in
      let second = record_many (shared ++ after) first.1 in
      (second.1 ≡ (record_many (before ++ (shared ++ after)) table).1)
      × IsKeyed second.1
      × (length second.1 ≡ length table + first.0 + second.0)
      × (record_many (shared ++ after) second.1 ≡ (0, second.1))
record_many_overlap before shared after table keyed =
    let first = record_many (before ++ shared) table in
    let (still, grown) = record_many-Keeps (before ++ shared) table keyed in
    let (last, more) = record_many-Keeps (shared ++ after) first.1 still in
    (
      rerecorded before shared after table,
      last,
      omega (arith, grown, more),
      record_many_twice (shared ++ after) first.1,
    )
