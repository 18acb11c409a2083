-- ===== src/LogSource/Delivered.antt =====
-- The logs of a batch, and how they split.
use mathlib.Core.List.Perm
use mathlib.Core.List.{Perm, perm_append_comm, append_assoc}
use stunks.Prelude.{
  ◌≡◌, refl, sym, ap, ◌∙◌, Bool, true, false, ◌&&◌, ◌⊎◌, inl, inr, Option, List, [], ◌∷◌, ◌++◌,
  Bool-cases, filter_by,
}
use stunks.Prelude.Text.{Text}
use stunks.LogSource.{RawJsonRpcLog, is_complete, matches_topics, widen, widen_all, delivered}

module _ {A : Type 0} (p q : A → Bool) where
  filter_by-append : (xs ys : List A) → filter_by p (xs ++ ys) ≡ filter_by p xs ++ filter_by p ys
  filter_by-append [] ys = refl
  filter_by-append (x ∷ xs) ys = elim (Bool-cases (p x)) [
    | inl e ↦ rw e (ap (λ r. x ∷ r) (filter_by-append xs ys))
    | inr e ↦ rw e (filter_by-append xs ys)
  ]

  filter_by_comm : (xs : List A) → filter_by p (filter_by q xs) ≡ filter_by q (filter_by p xs)
  filter_by_comm [] = refl
  filter_by_comm (x ∷ xs) = elim (Bool-cases (p x)) [
    | inl e ↦ elim (Bool-cases (q x)) [
      | inl f ↦ rw (e, f) (rw e (ap (λ r. x ∷ r) (filter_by_comm xs)))
      | inr f ↦ rw (e, f) (filter_by_comm xs)
    ]
    | inr e ↦ elim (Bool-cases (q x)) [
      | inl f ↦ rw (e, f) (rw e (filter_by_comm xs))
      | inr f ↦ rw (e, f) (filter_by_comm xs)
    ]
  ]

  filter_by-and : (xs : List A) → filter_by (λ x. p x && q x) xs ≡ filter_by q (filter_by p xs)
  filter_by-and [] = refl
  filter_by-and (x ∷ xs) = elim (Bool-cases (p x)) [
    | inl e ↦ elim (Bool-cases (q x)) [
      | inl f ↦ rw (e, f) (ap (λ r. x ∷ r) (filter_by-and xs))
      | inr f ↦ rw (e, f) (filter_by-and xs)
    ]
    | inr e ↦ rw e (filter_by-and xs)
  ]

widen_all-append :
    (xs ys : List RawJsonRpcLog) → widen_all (xs ++ ys) ≡ widen_all xs ++ widen_all ys
unfolding widen_all
widen_all-append [] ys = refl
widen_all-append (x ∷ xs) ys =
    ap (λ r. widen x x.block_number x.block_hash x.transaction_hash x.log_index ++ r)
      (widen_all-append xs ys)
    ∙ sym (
        append_assoc (widen x x.block_number x.block_hash x.transaction_hash x.log_index)
          (widen_all xs) (widen_all ys))

module _ (topics0 : Option (List Text)) where
  abbrev pub matching : RawJsonRpcLog → Bool
  matching log = matches_topics topics0 log.topics

  pub delivered-append :
      (xs ys : List RawJsonRpcLog)
      → delivered topics0 (xs ++ ys) ≡ delivered topics0 xs ++ delivered topics0 ys
  unfolding delivered
  delivered-append xs ys =
      ap (λ r. widen_all (filter_by matching r)) (filter_by-append is_complete matching xs ys)
      ∙ ap widen_all (
          filter_by-append matching is_complete (filter_by is_complete xs)
            (filter_by is_complete ys))
      ∙ widen_all-append (filter_by matching (filter_by is_complete xs))
          (filter_by matching (filter_by is_complete ys))

  -- Logs that agree where the topics match are delivered alike.
  pub delivered-matching :
      (xs ys : List RawJsonRpcLog)
      → filter_by matching xs ≡ filter_by matching ys
      → delivered topics0 xs ≡ delivered topics0 ys
  unfolding delivered
  delivered-matching xs ys h = ap widen_all (
      filter_by_comm matching is_complete xs
      ∙ ap (filter_by is_complete) h
      ∙ sym (filter_by_comm matching is_complete ys))

  first-cons :
      (l : RawJsonRpcLog) (xs ys zs : List RawJsonRpcLog)
      → Perm (delivered topics0 xs ++ delivered topics0 ys) (delivered topics0 zs)
      → Perm (delivered topics0 (l ∷ xs) ++ delivered topics0 ys) (delivered topics0 (l ∷ zs))
  first-cons l xs ys zs h =
      let one = delivered topics0 (l ∷ []) in
      rw
        (
          delivered-append (l ∷ []) xs,
          delivered-append (l ∷ []) zs,
          append_assoc one (delivered topics0 xs) (delivered topics0 ys),
        )
        (Perm.append_left one h)

  second-cons :
      (l : RawJsonRpcLog) (xs ys zs : List RawJsonRpcLog)
      → Perm (delivered topics0 xs ++ delivered topics0 ys) (delivered topics0 zs)
      → Perm (delivered topics0 xs ++ delivered topics0 (l ∷ ys)) (delivered topics0 (l ∷ zs))
  second-cons l xs ys zs h =
      Perm.trans (perm_append_comm (delivered topics0 xs) (delivered topics0 (l ∷ ys))) (
        first-cons l ys xs zs
          (Perm.trans (perm_append_comm (delivered topics0 ys) (delivered topics0 xs)) h))

  -- A log is picked by one of two tests, and by the third, or by none.
  pub delivered-split :
      (a b u : RawJsonRpcLog → Bool)
      → ((l : RawJsonRpcLog)
          → ((a l ≡ true) × (b l ≡ false) × (u l ≡ true))
            ⊎ (((a l ≡ false) × (b l ≡ true) × (u l ≡ true))
                ⊎ ((a l ≡ false) × (b l ≡ false) × (u l ≡ false))))
      → (chain : List RawJsonRpcLog)
      → Perm
          (delivered topics0 (filter_by a chain) ++ delivered topics0 (filter_by b chain))
          (delivered topics0 (filter_by u chain))
  unfolding delivered widen_all
  delivered-split a b u cases [] = Perm.nil
  delivered-split a b u cases (l ∷ chain) =
      let ih = delivered-split a b u cases chain in
      elim (cases l) [
        | inl (x, y, z) ↦
            rw (x, y, z)
              (first-cons l (filter_by a chain) (filter_by b chain) (filter_by u chain) ih)
        | inr (inl (x, y, z)) ↦
            rw (x, y, z)
              (second-cons l (filter_by a chain) (filter_by b chain) (filter_by u chain) ih)
        | inr (inr (x, y, z)) ↦ rw (x, y, z) ih
      ]
