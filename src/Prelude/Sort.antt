-- ===== src/Prelude/Sort.antt =====
-- JavaScript's `sort`, which keeps the order of what compares as equal: insertion from the back.
use mathlib.Core.Bool.{Bool, true, false, not}
use mathlib.Core.Path.{◌≡◌}
use stunks.Prelude.Lists.{All, filter_by, length}
use Prim.Native.Nat.{◌+◌}
use native.Mathlib.Omega.{arith}
use mathlib.Core.List.{List, [], ◌∷◌, ◌++◌, Perm, perm_middle}
use mathlib.Core.List.Perm
use stunks.Prelude.Tests.{if◌then◌else◌, Bool-cases}
use mathlib.Core.Logic.{inl, inr}

module _ {ℓ} {A : Type ℓ} (before : A → A → Bool) where
  abbrev pub insert_by : A → List A → List A
  insert_by x [] = x ∷ []
  insert_by x (y ∷ ys) = if before y x then y ∷ insert_by x ys else x ∷ y ∷ ys

  abbrev pub sort_by : List A → List A
  sort_by [] = []
  sort_by (x ∷ xs) = insert_by x (sort_by xs)

  insert_by-perm : (x : A) (ys : List A) → Perm (insert_by x ys) (x ∷ ys)
  insert_by-perm x [] = Perm.refl _
  insert_by-perm x (y ∷ ys) = elim (Bool-cases (before y x)) [
    | inl e ↦ rw e (Perm.trans (Perm.cons y (insert_by-perm x ys)) (Perm.swap x y ys))
    | inr e ↦ rw e (Perm.refl _)
  ]

  pub sort_by-perm : (xs : List A) → Perm (sort_by xs) xs
  sort_by-perm [] = Perm.refl _
  sort_by-perm (x ∷ xs) = Perm.trans (insert_by-perm x (sort_by xs)) (Perm.cons x (sort_by-perm xs))

  -- No element goes before the one that it follows.
  abbrev pub Follows : A → List A → Type 0
  Follows x [] = Unit
  Follows x (y ∷ ys) = before y x ≡ false

  abbrev pub IsOrdered : List A → Type 0
  IsOrdered [] = Unit
  IsOrdered (x ∷ xs) = Follows x xs × IsOrdered xs

  module _ (asymm : (x y : A) → before x y ≡ true → before y x ≡ false) where
    insert_by-Follows :
        (y x : A) (ys : List A) → before y x ≡ true → Follows y ys → Follows y (insert_by x ys)
    insert_by-Follows y x [] h f = asymm y x h
    insert_by-Follows y x (z ∷ zs) h f = elim (Bool-cases (before z x)) [
      | inl e ↦ rw e f
      | inr e ↦ rw e (asymm y x h)
    ]

    insert_by-IsOrdered : (x : A) (ys : List A) → IsOrdered ys → IsOrdered (insert_by x ys)
    insert_by-IsOrdered x [] sorted = (tt, tt)
    insert_by-IsOrdered x (y ∷ ys) (f, sorted) = elim (Bool-cases (before y x)) [
      | inl e ↦ rw e (insert_by-Follows y x ys e f, insert_by-IsOrdered x ys sorted)
      | inr e ↦ rw e (e, (f, sorted))
    ]

    pub sort_by-IsOrdered : (xs : List A) → IsOrdered (sort_by xs)
    sort_by-IsOrdered [] = tt
    sort_by-IsOrdered (x ∷ xs) = insert_by-IsOrdered x (sort_by xs) (sort_by-IsOrdered xs)

module _ {ℓ} {A : Type ℓ} (test : A → Bool) where
  pub filter_by-perm :
      (xs : List A) → Perm (filter_by test xs ++ filter_by (λ x. not (test x)) xs) xs
  filter_by-perm [] = Perm.refl _
  filter_by-perm (x ∷ xs) = elim (Bool-cases (test x)) [
    | inl e ↦ rw e (Perm.cons x (filter_by-perm xs))
    | inr e ↦ rw e (
        Perm.trans (perm_middle (filter_by test xs) (filter_by (λ y. not (test y)) xs))
          (Perm.cons x (filter_by-perm xs)))
  ]

  pub filter_by-All : (xs : List A) → All (λ x. test x ≡ true) (filter_by test xs)
  filter_by-All [] = tt
  filter_by-All (x ∷ xs) = elim (Bool-cases (test x)) [
    | inl e ↦ rw e (e, filter_by-All xs)
    | inr e ↦ rw e (filter_by-All xs)
  ]

module _ {ℓ κ} {A : Type ℓ} (before : A → A → Bool) (P : A → Type κ) where
  insert_by-All : (x : A) (ys : List A) → P x → All P ys → All P (insert_by before x ys)
  insert_by-All x [] p ps = (p, tt)
  insert_by-All x (y ∷ ys) p (q, qs) = elim (Bool-cases (before y x)) [
    | inl e ↦ rw e (q, insert_by-All x ys p qs)
    | inr e ↦ rw e (p, (q, qs))
  ]

  pub sort_by-All : (xs : List A) → All P xs → All P (sort_by before xs)
  sort_by-All [] ps = tt
  sort_by-All (x ∷ xs) (p, ps) = insert_by-All x (sort_by before xs) p (sort_by-All xs ps)

module _ {ℓ} {A : Type ℓ} where
  length-insert_by :
      (before : A → A → Bool) (x : A) (ys : List A) → length (insert_by before x ys) ≡ length ys + 1
  length-insert_by before x [] = omega arith
  length-insert_by before x (y ∷ ys) = elim (Bool-cases (before y x)) [
    | inl e ↦ rw e (omega (arith, length-insert_by before x ys))
    | inr e ↦ rw e (omega arith)
  ]

  pub length-sort_by :
      (before : A → A → Bool) (xs : List A) → length (sort_by before xs) ≡ length xs
  length-sort_by before [] = omega arith
  length-sort_by before (x ∷ xs) =
      omega (arith, length-insert_by before x (sort_by before xs), length-sort_by before xs)

  pub length-filter_by :
      (test : A → Bool) (xs : List A)
      → length (filter_by test xs) + length (filter_by (λ x. not (test x)) xs) ≡ length xs
  length-filter_by test [] = omega arith
  length-filter_by test (x ∷ xs) = elim (Bool-cases (test x)) [
    | inl e ↦ rw e (omega (arith, length-filter_by test xs))
    | inr e ↦ rw e (omega (arith, length-filter_by test xs))
  ]
