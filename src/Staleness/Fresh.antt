-- ===== src/Staleness/Fresh.antt =====
-- When the data counts as fresh.
use stunks.Prelude.{
  or_false, ℕ, ◌-◌, ◌≤◌, ◌≡◌, refl, sym, ◌∙◌, ◌↔◌, inl, inr, true, false, ◌||◌, Option, none, some,
  List, [], ◌∷◌, arith, ltb, if◌then◌else◌, Bool-cases, Option-cases, some-injective,
}
use stunks.Prelude.Regex.{codes}
use stunks.Staleness.{
  unknown, required_streams, stale_after_seconds, StreamState, lag_blocks, find_state,
  find_required, slower, slowest_of, lag_seconds, of_present, summary, summarise_staleness,
}

late_iff : (n : ℕ) → (ltb stale_after_seconds n ≡ false) ↔ (n ≤ stale_after_seconds)
late_iff n = ground arith

module _ (seconds_for : ℕ → ℕ) (monotone : (a b : ℕ) → a ≤ b → seconds_for a ≤ seconds_for b) where
  -- The seconds of a stream's lag behind the head.
  abbrev pub seconds_behind : ℕ → StreamState → ℕ
  seconds_behind head state =
      seconds_for
        (if ltb state.last_processed_block head then head - state.last_processed_block else 0)

  later_seconds :
      (head : ℕ) (s t : StreamState)
      → s.last_processed_block ≤ t.last_processed_block
      → seconds_behind head t ≤ seconds_behind head s
  later_seconds head s t h = monotone _ _ (ground arith)

  slower_seconds :
      (head : ℕ) (f c : StreamState)
      → (seconds_behind head (slower f c) ≤ stale_after_seconds) ↔ (
          (seconds_behind head f ≤ stale_after_seconds)
          × (seconds_behind head c ≤ stale_after_seconds))
  slower_seconds head f c = elim (Bool-cases (ltb c.last_processed_block f.last_processed_block)) [
    | inl e ↦
        let le = later_seconds head c f (ground arith) in rw e (λ h. (omega arith, h), λ h. h.1)
    | inr e ↦
        let le = later_seconds head f c (ground arith) in rw e (λ h. (h, omega arith), λ h. h.0)
  ]

  summary_iff :
      (head : ℕ) (f c : StreamState)
      → ((summary seconds_for (some head) (f ∷ c ∷ []) (slower f c)).is_stale ≡ false) ↔ (
          (seconds_behind head f ≤ stale_after_seconds)
          × (seconds_behind head c ≤ stale_after_seconds)
          × (f.is_paused ≡ false)
          × (c.is_paused ≡ false))
  unfolding lag_seconds lag_blocks
  summary_iff head f c =
      let both = slower_seconds head f c in
      let late = late_iff (seconds_behind head (slower f c)) in
      let split =
        or_false (ltb stale_after_seconds (seconds_behind head (slower f c)))
          (f.is_paused || (c.is_paused || false)) in
      let pauses = or_false f.is_paused (c.is_paused || false) in
      let last = or_false c.is_paused false in
      (
        λ h.
            let (on_time, running) = split.0 h in
            let (f_on, c_on) = both.0 (late.0 on_time) in
            let (f_runs, rest) = pauses.0 running in (f_on, c_on, f_runs, (last.0 rest).0),
        λ (f_on, c_on, f_runs, c_runs).
            split.1 (late.1 (both.1 (f_on, c_on)), pauses.1 (f_runs, last.1 (c_runs, refl))),
      )

  required_both :
      (states : List StreamState) (f c : StreamState)
      → find_state (codes "factory") states ≡ some f
      → find_state (codes "curves") states ≡ some c
      → find_required required_streams states ≡ some (f ∷ c ∷ [])
  unfolding find_required
  required_both states f c first second = rw (first, second, find_required) refl

  required_first :
      (states : List StreamState)
      → find_state (codes "factory") states ≡ none
      → find_required required_streams states ≡ none
  unfolding find_required
  required_first states first = rw (first, find_required) refl

  required_second :
      (states : List StreamState)
      → find_state (codes "curves") states ≡ none
      → find_required required_streams states ≡ none
  unfolding find_required
  required_second states second = elim (Option-cases (find_state (codes "factory") states)) [
    | inl e ↦ rw (e, find_required) refl
    | inr (f, e) ↦ rw (e, second, find_required) refl
  ]

  -- Both required streams are there, and the head is known; neither is paused, and neither is later
  -- than the threshold.
  abbrev pub IsFresh : List StreamState → Option ℕ → Type 0
  IsFresh states head =
      (f : StreamState) × (c : StreamState) × (block : ℕ) × (find_state (codes "factory") states
        ≡ some f)
      × (find_state (codes "curves") states ≡ some c)
      × (head ≡ some block)
      × (seconds_behind block f ≤ stale_after_seconds)
      × (seconds_behind block c ≤ stale_after_seconds)
      × (f.is_paused ≡ false)
      × (c.is_paused ≡ false)

  not_fresh :
      (states : List StreamState) (head : Option ℕ)
      → find_required required_streams states ≡ none
      → (summarise_staleness seconds_for states head).is_stale ≡ true
  unfolding summarise_staleness unknown
  not_fresh states head missing = rw missing refl

  headless : (f c : StreamState) → (of_present seconds_for none (some (f ∷ c ∷ []))).is_stale ≡ true
  unfolding lag_seconds lag_blocks slowest_of
  headless f c = refl

  with_head :
      (states : List StreamState) (head : Option ℕ) (f c : StreamState)
      → find_state (codes "factory") states ≡ some f
      → find_state (codes "curves") states ≡ some c
      → ((summarise_staleness seconds_for states head).is_stale ≡ false) ↔ IsFresh states head
  unfolding summarise_staleness
  with_head states none f c first second = rw (required_both states f c first second) (
    λ h. cc (sym (headless f c) ∙ h),
    λ (g, d, block, e₁, e₂, known, f_on, c_on, f_runs, c_runs). cc known,
  )
  with_head states (some head) f c first second = rw (required_both states f c first second) (
    λ h.
        let (f_on, c_on, f_runs, c_runs) = (summary_iff head f c).0 h in
        (f, c, head, first, second, refl, f_on, c_on, f_runs, c_runs),
    λ (g, d, block, e₁, e₂, known, f_on, c_on, f_runs, c_runs).
        let same_f : g ≡ f = some-injective (sym e₁ ∙ first) in
        let same_c : d ≡ c = some-injective (sym e₂ ∙ second) in
        let same_head : block ≡ head = some-injective (sym known) in
        (summary_iff head f c).1
          (rw (← same_f, ← same_c, ← same_head) (f_on, c_on, f_runs, c_runs)),
  )

  -- Where the seconds of more blocks are no fewer: the data counts as fresh exactly where the head of
  -- the chain is known, both required streams have a checkpoint, neither of them is paused, and each of
  -- them, not only the one that is shown, is at most the threshold behind.
  pub summarise_staleness-IsFresh :
      (states : List StreamState) (head : Option ℕ)
      → ((summarise_staleness seconds_for states head).is_stale ≡ false) ↔ IsFresh states head
  summarise_staleness-IsFresh states head =
      elim (Option-cases (find_state (codes "factory") states)) [
        | inl none_there ↦ (
          λ h. cc (sym (not_fresh states head (required_first states none_there)) ∙ h),
          λ (g, d, block, e₁, e₂, known, f_on, c_on, f_runs, c_runs). cc (sym e₁ ∙ none_there),
        )
        | inr (f, first) ↦ elim (Option-cases (find_state (codes "curves") states)) [
          | inl none_there ↦ (
            λ h. cc (sym (not_fresh states head (required_second states none_there)) ∙ h),
            λ (g, d, block, e₁, e₂, known, f_on, c_on, f_runs, c_runs). cc (sym e₂ ∙ none_there),
          )
          | inr (c, second) ↦ with_head states head f c first second
        ]
      ]
