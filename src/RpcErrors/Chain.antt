-- ===== src/RpcErrors/Chain.antt =====
-- Chains of causes, which may come back to an object: packages/web3/src/errors.ts.
use mathlib.Core.Path.{subst}
use stunks.Prelude.{
  ℕ, zero, suc, ◌+◌, ◌≤◌, ◌<◌, ◌≡◌, refl, sym, ap, ◌∙◌, ◌⊎◌, inl, inr, Bool, true, false, List, [],
  ◌∷◌, arith, if◌then◌else◌,
}
use stunks.RpcErrors.{ErrorObject, rpc_call, all_endpoints_failed, caused_by, is_seen}

-- The objects of the store that have not been seen.
pub unseen : ℕ → List ℕ → ℕ
unseen zero seen = 0
unseen (suc n) seen = (if is_seen n seen then 0 else 1) + unseen n seen

pub unseen_above :
    (n current : ℕ) (seen : List ℕ) → n ≤ current → unseen n (current ∷ seen) ≡ unseen n seen
unfolding unseen is_seen
unseen_above zero current seen h = refl
unseen_above (suc n) current seen h = ground (arith, unseen_above n current seen)

pub unseen-cons :
    (n current : ℕ) (seen : List ℕ)
    → current < n
    → is_seen current seen ≡ false
    → unseen n (current ∷ seen) + 1 ≡ unseen n seen
unfolding unseen is_seen
unseen-cons zero current seen h fresh = absurd (omega arith)
unseen-cons (suc n) current seen h fresh =
    ground (arith, unseen-cons n current seen, unseen_above n current seen)

seen-cons :
    (x current : ℕ) (seen : List ℕ)
    → is_seen x (current ∷ seen) ≡ true
    → (x ≡ current) ⊎ (is_seen x seen ≡ true)
unfolding is_seen
seen-cons x current seen h = ground arith

seen_first : (x current : ℕ) (seen : List ℕ) → x ≡ current → is_seen x (current ∷ seen) ≡ true
unfolding is_seen
seen_first x current seen h = ground arith

seen_still :
    (x current : ℕ) (seen : List ℕ) → is_seen x seen ≡ true → is_seen x (current ∷ seen) ≡ true
unfolding is_seen
seen_still x current seen h = ground arith

pub unseen-le : (n : ℕ) → unseen n [] ≤ n
unfolding unseen is_seen
unseen-le zero = omega arith
unseen-le (suc n) = omega (arith, unseen-le n)

-- A store of `count` objects: every cause is one of them.
abbrev pub IsClosed : (ℕ → ErrorObject) → ℕ → Type 0
IsClosed store count = (n m : ℕ) → store n ≡ caused_by m → m < count

-- The object `e` is `n`, or a cause of it, or a cause of a cause, and so on.
pub data Reaches (store : ℕ → ErrorObject) : ℕ → ℕ → Type 0 where
  here : {n : ℕ} → Reaches store n n
  by_cause : {n m e : ℕ} → store n ≡ caused_by m → Reaches store m e → Reaches store n e

-- The object holds no RPC error.
abbrev pub IsSilent : ErrorObject → Type 0
IsSilent (rpc_call r) = ⊥
IsSilent (all_endpoints_failed fs) = fs ≡ []
IsSilent _ = Unit

module _ (store : ℕ → ErrorObject) where
  -- The objects that were seen lead to the current one.
  abbrev pub IsChained : List ℕ → ℕ → Type 0
  IsChained seen current =
      (x : ℕ)
      → is_seen x seen ≡ true
      → (m : ℕ) × (store x ≡ caused_by m) × ((m ≡ current) ⊎ (is_seen m seen ≡ true))

  silent : {e : ℕ} (object : ErrorObject) → store e ≡ object → IsSilent object → IsSilent (store e)
  silent object at is = subst IsSilent (sym at) is

  cause-injective : {m n : ℕ} → caused_by m ≡ caused_by n → m ≡ n
  cause-injective h = ap cause_or_none h
    where
      cause_or_none : ErrorObject → ℕ
      cause_or_none (caused_by m) = m
      cause_or_none _ = 0

  -- Nothing is left to find where the chain comes back to what was seen.
  pub cycle-IsSilent :
      (seen : List ℕ) (current : ℕ)
      → IsChained seen current
      → is_seen current seen ≡ true
      → {x e : ℕ} → is_seen x seen ≡ true
      → Reaches store x e
      → IsSilent (store e)
  cycle-IsSilent seen current chained again {x} among here =
      let (m, at, _) = chained x among in silent (caused_by m) at tt
  cycle-IsSilent seen current chained again {x} among (by_cause {m = n} p r) =
      let (m, at, next) = chained x among in
      let same = cause-injective (sym at ∙ p) in
      cycle-IsSilent seen current chained again
        (elim next [
          | inl back ↦ subst (λ k. is_seen k seen ≡ true) (sym back ∙ same) again
          | inr on ↦ subst (λ k. is_seen k seen ≡ true) same on
        ])
        r

  pub further-IsSilent :
      {current m : ℕ}
      → store current ≡ caused_by m
      → ((e : ℕ) → Reaches store m e → IsSilent (store e))
      → (e : ℕ) → Reaches store current e
      → IsSilent (store e)
  further-IsSilent {m} at none_there e here = silent (caused_by m) at tt
  further-IsSilent at none_there e (by_cause p r) =
      none_there e (subst (λ k. Reaches store k e) (cause-injective (sym p ∙ at)) r)

  abbrev pub is_caused : ErrorObject → Bool
  is_caused (caused_by m) = true
  is_caused _ = false

  pub end-IsSilent :
      {current : ℕ} (object : ErrorObject)
      → store current ≡ object
      → is_caused object ≡ false
      → IsSilent object
      → (e : ℕ) → Reaches store current e
      → IsSilent (store e)
  end-IsSilent object at ends is e here = silent object at is
  end-IsSilent object at ends is e (by_cause p r) = cc (sym ends ∙ ap is_caused (sym at ∙ p))

  pub IsChained-cons :
      (seen : List ℕ) (current m : ℕ)
      → IsChained seen current
      → store current ≡ caused_by m
      → IsChained (current ∷ seen) m
  IsChained-cons seen current m chained at x among = elim (seen-cons x current seen among) [
    | inl same ↦ (m, subst (λ k. store k ≡ caused_by m) (sym same) at, inl refl)
    | inr before ↦
        let (n, caused, next) = chained x before in
        (
          n,
          caused,
          inr (elim next [
            | inl same ↦ seen_first n current seen same
            | inr on ↦ seen_still n current seen on
          ]),
        )
  ]

  pub nothing_seen : (current : ℕ) → IsChained [] current
  unfolding is_seen
  nothing_seen current x h = cc
