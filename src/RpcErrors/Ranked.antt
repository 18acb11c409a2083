-- ===== src/RpcErrors/Ranked.antt =====
-- What `findRpcCallError` finds in a chain of causes.
use mathlib.Core.List.{Mem}
use mathlib.Core.List.{mem-cons_self, mem-cons_of_mem}
use mathlib.Core.Path.{subst}
use stunks.Prelude.{
  ℕ, zero, suc, ◌≤◌, ◌<◌, ◌≡◌, refl, ap, ◌∙◌, ◌⊎◌, inl, inr, false, Option, none, some, List, [],
  ◌∷◌, arith, ltb, Bool-cases, All, insert_by, some-injective,
}
use stunks.RpcErrors.Chain.{
  unseen, unseen-cons, unseen-le, IsClosed, Reaches, here, by_cause, IsSilent, IsChained,
  cycle-IsSilent, further-IsSilent, end-IsSilent, IsChained-cons, nothing_seen,
}
use stunks.RpcErrors.{
  RpcCallError, ErrorObject, rpc_call, all_endpoints_failed, caused_by, without_cause,
  failure_priority, first_of, ranked, is_seen, find_from, find_rpc_call_error,
}

-- `r` is one of the failures, and none of them has a higher priority.
abbrev pub IsBest : RpcCallError → List RpcCallError → Type 0
IsBest r fs = Mem r fs × All (λ f. failure_priority f.kind ≤ failure_priority r.kind) fs

-- `r` is the error at `e`, or the best of the failures of every endpoint there.
abbrev pub IsFoundAt : (ℕ → ErrorObject) → RpcCallError → ℕ → Type 0
IsFoundAt store r e =
    (store e ≡ rpc_call r)
    ⊎ ((fs : List RpcCallError) × (store e ≡ all_endpoints_failed fs) × IsBest r fs)

All-priority-le :
    (a b : ℕ) (fs : List RpcCallError)
    → a ≤ b
    → All (λ f. failure_priority f.kind ≤ a) fs
    → All (λ f. failure_priority f.kind ≤ b) fs
All-priority-le a b [] h all = tt
All-priority-le a b (f ∷ fs) h (g, all) = (omega arith, All-priority-le a b fs h all)

-- What goes before the first of the ranking of the others, or after it.
insert_by-IsBest :
    (x r : RpcCallError) (xs sorted : List RpcCallError)
    → (sorted ≡ [] → xs ≡ [])
    → ((y : RpcCallError) → first_of sorted ≡ some y → IsBest y xs)
    → first_of (insert_by (λ a b. ltb (failure_priority b.kind) (failure_priority a.kind)) x sorted)
      ≡ some r
    → IsBest r (x ∷ xs)
insert_by-IsBest x r xs [] none_left best h =
    rw (← some-injective h, none_left refl) (mem-cons_self, (omega arith, tt))
insert_by-IsBest x r xs (y ∷ ys) none_left best h =
    let (among, all) = best y refl in
    elim (Bool-cases (ltb (failure_priority x.kind) (failure_priority y.kind))) [
      | inl e ↦
          let first : y ≡ r = some-injective (rw e at h) in
          subst (λ f. IsBest f (x ∷ xs)) first (mem-cons_of_mem x among, (ground arith, all))
      | inr e ↦
          let first : x ≡ r = some-injective (rw e at h) in
          subst (λ f. IsBest f (x ∷ xs)) first
            (mem-cons_self, (omega arith, All-priority-le _ _ xs (ground arith) all))
    ]

ranked-nil : (fs : List RpcCallError) → ranked fs ≡ [] → fs ≡ []
ranked-nil [] h = refl
ranked-nil (f ∷ fs) h = absurd (insert_by-cons f (ranked fs) h)
  where
    insert_by-cons :
        (x : RpcCallError) (fs : List RpcCallError)
        → insert_by (λ a b. ltb (failure_priority b.kind) (failure_priority a.kind)) x fs ≡ []
        → ⊥
    insert_by-cons x [] h = cc
    insert_by-cons x (f ∷ fs) h = ground arith

ranked-IsBest :
    (fs : List RpcCallError) (r : RpcCallError) → first_of (ranked fs) ≡ some r → IsBest r fs
ranked-IsBest [] r h = cc
ranked-IsBest (f ∷ fs) r h =
    insert_by-IsBest f r fs (ranked fs) (ranked-nil fs) (ranked-IsBest fs) h

module _ (store : ℕ → ErrorObject) (count : ℕ) (closed : IsClosed store count) where
  -- What the search ends with.
  abbrev Answers : ℕ → Option (Option RpcCallError) → Type 0
  Answers error answer =
      (found : Option RpcCallError) × (answer ≡ some found)
      × ((r : RpcCallError)
          → found ≡ some r
          → (e : ℕ) × Reaches store error e × IsFoundAt store r e)
      × (found ≡ none → (e : ℕ) → Reaches store error e → IsSilent (store e))

  first-none : (fs : List RpcCallError) → first_of (ranked fs) ≡ none → fs ≡ []
  first-none fs h = ranked-nil fs (nothing-first (ranked fs) h)
    where
      nothing-first : (fs : List RpcCallError) → first_of fs ≡ none → fs ≡ []
      nothing-first [] h = refl
      nothing-first (f ∷ fs) h = cc

  found_at :
      (fuel : ℕ) (seen : List ℕ) (current : ℕ) (object : ErrorObject)
      → store current ≡ object
      → is_seen current seen ≡ false
      → ((m : ℕ) → object ≡ caused_by m → Answers m (find_from store fuel (current ∷ seen) m))
      → Answers current (find_from store (suc fuel) seen current)
  unfolding find_from
  found_at fuel seen current (rpc_call f) e fresh further =
      rw (fresh, e, find_from)
        (some f, refl, λ r h. (current, here, inl (e ∙ ap rpc_call (some-injective h))), λ h. cc)
  found_at fuel seen current (all_endpoints_failed fs) e fresh further =
      rw (fresh, e, find_from)
        (
          first_of (ranked fs),
          refl,
          λ r h. (current, here, inr (fs, e, ranked-IsBest fs r h)),
          λ h. end-IsSilent store (all_endpoints_failed fs) e refl (first-none fs h),
        )
  found_at fuel seen current (caused_by m) e fresh further =
      let (found, answered, by, nowhere) = further m refl in
      rw (fresh, e, find_from)
        (
          found,
          answered,
          λ r h. let (o, reached, at) = by r h in (o, by_cause e reached, at),
          λ h. further-IsSilent store e (nowhere h),
        )
  found_at fuel seen current without_cause e fresh further =
      rw (fresh, e, find_from)
        (none, refl, λ r h. cc, λ h. end-IsSilent store without_cause e refl tt)

  find_from-Answers :
      (fuel : ℕ) (seen : List ℕ) (current : ℕ)
      → current < count
      → unseen count seen < fuel
      → IsChained store seen current
      → Answers current (find_from store fuel seen current)
  unfolding find_from
  find_from-Answers zero seen current inside enough chained = absurd (omega arith)
  find_from-Answers (suc fuel) seen current inside enough chained =
      elim (Bool-cases (is_seen current seen)) [
        | inl again ↦
            rw (again, find_from)
              (none, refl, λ r h. cc, λ h e. cycle-IsSilent store seen current chained again again)
        | inr fresh ↦ found_at fuel seen current (store current) refl fresh λ m e.
            find_from-Answers fuel (current ∷ seen) m (closed current m e)
              (omega (arith, unseen-cons count current seen inside fresh))
              (IsChained-cons store seen current m chained e)
      ]

  -- In a store whose causes are all among its objects, whether they form a cycle or not,
  -- `findRpcCallError` ends. What it finds is an RPC error in the chain of causes, or one of the
  -- failures of every endpoint there, than which none of those failures has a higher priority.
  -- And where it finds nothing, no object of the chain holds an RPC error.
  pub find_rpc_call_error_best :
      (error : ℕ)
      → error < count
      → (found : Option RpcCallError) × (find_rpc_call_error store count error ≡ some found)
        × ((r : RpcCallError)
            → found ≡ some r
            → (e : ℕ) × Reaches store error e × IsFoundAt store r e)
        × (found ≡ none → (e : ℕ) → Reaches store error e → IsSilent (store e))
  unfolding find_rpc_call_error
  find_rpc_call_error_best error inside =
      find_from-Answers (suc count) [] error inside (omega (arith, unseen-le count))
        (nothing_seen store error)
