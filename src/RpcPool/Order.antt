-- ===== src/RpcPool/Order.antt =====
-- The order in which `selectOrder` tries the endpoints.
use mathlib.Core.List.Perm
use mathlib.Core.List.{Perm}
use stunks.Prelude.{
  ℕ, ◌≡◌, refl, true, false, not, List, ◌++◌, Option, none, some, All, filter_by, filter_by-perm,
  inl, inr, filter_by-All, sort_by-perm, sort_by-All, sort_by-IsOrdered, IsOrdered, Bool-cases,
}
use stunks.RpcPool.Endpoints.{
  Averages, Endpoint, RpcPoolOptions, before, indexed, preferred, is_healthy, select_order,
}

module _ {Average : Type 0} (averages : Averages Average) (options : RpcPoolOptions) (now : ℕ) where
  before-asymm :
      ((a b : Average) → averages.below a b ≡ true → averages.below b a ≡ false)
      → (x y : Option Average) → before averages options x y ≡ true
      → before averages options y x ≡ false
  before-asymm asymm none y h = cc
  before-asymm asymm (some a) none h = refl
  before-asymm asymm (some a) (some b) h = asymm a b h

  -- The healthy endpoints, by average latency where the strategy is `fastest`.
  preferred_lem :
      ((a b : Average) → averages.below a b ≡ true → averages.below b a ≡ false)
      → (es : List (ℕ × Endpoint Average))
      → All (λ p. is_healthy averages options now p.1 ≡ true) es
      → Perm (preferred averages options es) es
        × All (λ p. is_healthy averages options now p.1 ≡ true) (preferred averages options es)
        × (options.is_fastest ≡ true
            → IsOrdered
                (λ a b. before averages options a.1.avg_latency_ms b.1.avg_latency_ms)
                (preferred averages options es))
  unfolding preferred is_healthy
  preferred_lem asymm es all = elim (Bool-cases options.is_fastest) [
    | inl e ↦ rw e (
      sort_by-perm _ es,
      sort_by-All _ _ es all,
      λ _. sort_by-IsOrdered _ (λ x y. before-asymm asymm x.1.avg_latency_ms y.1.avg_latency_ms) es,
    )
    | inr e ↦ rw e (Perm.refl es, all, λ h. cc)
  ]

  -- Where the order of averages is asymmetric, `selectOrder` gives every endpoint once: first the healthy
  -- ones, which are by average latency where the strategy is `fastest` and an endpoint without one
  -- counts as slowest, and then the ones in cooldown.
  pub select_order_lem :
      ((a b : Average) → averages.below a b ≡ true → averages.below b a ≡ false)
      → (endpoints : List (Endpoint Average))
      → (healthy : List (ℕ × Endpoint Average)) × (cooling : List (ℕ × Endpoint Average))
        × (select_order averages options now endpoints ≡ healthy ++ cooling)
        × Perm (healthy ++ cooling) (indexed averages options 0 endpoints)
        × All (λ p. is_healthy averages options now p.1 ≡ true) healthy
        × All (λ p. not (is_healthy averages options now p.1) ≡ true) cooling
        × (options.is_fastest ≡ true
            → IsOrdered
                (λ a b. before averages options a.1.avg_latency_ms b.1.avg_latency_ms)
                healthy)
  unfolding select_order
  select_order_lem asymm endpoints =
      let all = indexed averages options 0 endpoints in
      let test = λ (p : ℕ × Endpoint Average). is_healthy averages options now p.1 in
      let (perm, healthy, ordered) =
        preferred_lem asymm (filter_by test all) (filter_by-All test all) in
      (
        preferred averages options (filter_by test all),
        filter_by (λ p. not (test p)) all,
        refl,
        Perm.trans (Perm.append_right _ perm) (filter_by-perm test all),
        healthy,
        filter_by-All (λ p. not (test p)) all,
        ordered,
      )
