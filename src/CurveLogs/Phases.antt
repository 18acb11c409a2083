-- ===== src/CurveLogs/Phases.antt =====
-- What the phase changes of a window do to the tokens, and that they commute with the stats.
use stunks.Prelude.{
  ◌≡◌, refl, ap, ◌∙◌, sym, inl, inr, Bool, true, false, not, Option, none, some, List, [], ◌∷◌,
  if◌then◌else◌, Bool-cases, ℕ, Option-cases,
}
use stunks.Prelude.Text.{Text, text_eq}
use stunks.Graduation.{GraduationPhase, LaunchedToken}
use stunks.CurveStream.{TokenStats, Token, ProcessorDeps}
use stunks.StatsRefresh.{find_by_id, with_stats}
use stunks.StatsRefresh.Carried.{update_with, id-with_stats, with_stats_twice}
use stunks.CurveLogs.{find_many_by_curves, set_phase, on_launch, sync_phases}

abbrev phased : Option GraduationPhase → Token → Token
phased none t = t
phased (some phase) t = record t { phase = phase }

unfoldable pub phase_with : (Text → Option GraduationPhase) → List Token → List Token
phase_with g [] = []
phase_with g (t ∷ tokens) = phased (g t.id) t ∷ phase_with g tokens

id-phased : (o : Option GraduationPhase) (t : Token) → (phased o t).id ≡ t.id
id-phased none t = refl
id-phased (some p) t = refl

-- The later of two writes stays.
abbrev later : Option GraduationPhase → Option GraduationPhase → Option GraduationPhase
later none o = o
later (some p) o = some p

phased-later :
    (a b : Option GraduationPhase) (t : Token) → phased a (phased b t) ≡ phased (later a b) t
phased-later none b t = refl
phased-later (some p) none t = refl
phased-later (some p) (some q) t = refl

later_self : (o : Option GraduationPhase) → later o o ≡ o
later_self none = refl
later_self (some p) = refl

phase_with-later :
    (g h : Text → Option GraduationPhase) (tokens : List Token)
    → phase_with g (phase_with h tokens) ≡ phase_with (λ id. later (g id) (h id)) tokens
unfolding phase_with
phase_with-later g h [] = refl
phase_with-later g h (t ∷ tokens) =
    rw (id-phased (h t.id) t, phased-later (g t.id) (h t.id) t, phase_with-later g h tokens) refl

phase_with-ext :
    (g h : Text → Option GraduationPhase)
    → ((id : Text) → g id ≡ h id)
    → (tokens : List Token) → phase_with g tokens ≡ phase_with h tokens
unfolding phase_with
phase_with-ext g h same [] = refl
phase_with-ext g h same (t ∷ tokens) = rw (same t.id, phase_with-ext g h same tokens) refl

abbrev one : Text → Option LaunchedToken → Text → Option GraduationPhase
one id none k = none
one id (some launch) k =
    if not launch.exists then none else if text_eq k id then some launch.phase else none

phase_with-none : (tokens : List Token) → phase_with (λ id. none) tokens ≡ tokens
unfolding phase_with
phase_with-none [] = refl
phase_with-none (t ∷ tokens) = ap (λ ts. t ∷ ts) (phase_with-none tokens)

set_phase-with :
    (id : Text) (phase : GraduationPhase) (tokens : List Token)
    → set_phase id phase tokens ≡ phase_with (λ k. if text_eq k id then some phase else none) tokens
unfolding set_phase phase_with
set_phase-with id phase [] = refl
set_phase-with id phase (t ∷ tokens) = elim (Bool-cases (text_eq t.id id)) [
  | inl e ↦ rw (e, set_phase-with id phase tokens) refl
  | inr e ↦ rw (e, set_phase-with id phase tokens) refl
]

gated :
    (exists : Bool) (id : Text) (phase : GraduationPhase) (tokens : List Token)
    → (if not exists then tokens else set_phase id phase tokens)
      ≡ phase_with
          (λ k. if not exists then none else if text_eq k id then some phase else none)
          tokens
gated true id phase tokens = set_phase-with id phase tokens
gated false id phase tokens = sym (phase_with-none tokens)

module _ (deps : ProcessorDeps) where
  on_launch-with :
      (id : Text) (answer : Option LaunchedToken) (tokens : List Token)
      → on_launch deps id answer tokens ≡ phase_with (one id answer) tokens
  unfolding on_launch
  on_launch-with id none tokens = sym (phase_with-none tokens)
  on_launch-with id (some launch) tokens = gated launch.exists id launch.phase tokens

  -- The phase that the last write to a token gives.
  chosen : List (Text × Text) → Text → Option GraduationPhase
  chosen [] k = none
  chosen ((id, address) ∷ syncs) k =
      later (chosen syncs k) (one id (deps.read_launched_token address) k)

  sync_phases-with :
      (syncs : List (Text × Text)) (tokens : List Token)
      → sync_phases deps syncs tokens ≡ phase_with (chosen syncs) tokens
  unfolding sync_phases chosen
  sync_phases-with [] tokens = sym (phase_with-none tokens)
  sync_phases-with ((id, address) ∷ syncs) tokens =
      let answer = deps.read_launched_token address in
      sync_phases-with syncs (on_launch deps id answer tokens)
      ∙ ap (phase_with (chosen syncs)) (on_launch-with id answer tokens)
      ∙ phase_with-later (chosen syncs) (one id answer) tokens

  pub sync_phases_twice :
      (syncs : List (Text × Text)) (tokens : List Token)
      → sync_phases deps syncs (sync_phases deps syncs tokens) ≡ sync_phases deps syncs tokens
  sync_phases_twice syncs tokens =
      rw (sync_phases-with syncs tokens, sync_phases-with syncs (phase_with (chosen syncs) tokens))
        (phase_with-later (chosen syncs) (chosen syncs) tokens
          ∙ phase_with-ext _ (chosen syncs) (λ k. later_self (chosen syncs k)) tokens)

  phased-with_stats :
      (o : Option GraduationPhase) (s : Option TokenStats) (t : Token)
      → with_stats s (phased o t) ≡ phased o (with_stats s t)
  phased-with_stats none s t = refl
  phased-with_stats (some p) none t = refl
  phased-with_stats (some p) (some s) t = refl

  update_with-phase_with :
      (f : Text → Option TokenStats) (g : Text → Option GraduationPhase) (tokens : List Token)
      → update_with f (phase_with g tokens) ≡ phase_with g (update_with f tokens)
  unfolding update_with phase_with
  update_with-phase_with f g [] = refl
  update_with-phase_with f g (t ∷ tokens) =
      rw
        (
          id-phased (g t.id) t,
          id-with_stats (f t.id) t,
          phased-with_stats (g t.id) (f t.id) t,
          update_with-phase_with f g tokens,
        )
        refl

  pub update_with-sync_phases :
      (f : Text → Option TokenStats) (syncs : List (Text × Text)) (tokens : List Token)
      → update_with f (sync_phases deps syncs tokens)
        ≡ sync_phases deps syncs (update_with f tokens)
  update_with-sync_phases f syncs tokens =
      rw (sync_phases-with syncs tokens, sync_phases-with syncs (update_with f tokens))
        (update_with-phase_with f (chosen syncs) tokens)

find_by_id-phase_with :
    (g : Text → Option GraduationPhase) (id : Text) (tokens : List Token)
    → find_by_id (phase_with g tokens) id ≡ find_by_id tokens id
unfolding find_by_id phase_with
find_by_id-phase_with g id [] = refl
find_by_id-phase_with g id (t ∷ tokens) = elim (Option-cases (g t.id)) [
  | inl e ↦ rw (e, find_by_id-phase_with g id tokens) refl
  | inr (p, e) ↦ rw (e, find_by_id-phase_with g id tokens) refl
]

find_many-phase_with :
    (g : Text → Option GraduationPhase) (chain_id : ℕ) (curves : List Text) (tokens : List Token)
    → find_many_by_curves (phase_with g tokens) chain_id curves
      ≡ find_many_by_curves tokens chain_id curves
unfolding find_many_by_curves phase_with
find_many-phase_with g chain_id curves [] = refl
find_many-phase_with g chain_id curves (t ∷ tokens) = elim (Option-cases (g t.id)) [
  | inl e ↦ rw (e, find_many-phase_with g chain_id curves tokens) refl
  | inr (p, e) ↦ rw (e, find_many-phase_with g chain_id curves tokens) refl
]

pub find_many-update_with :
    (f : Text → Option TokenStats) (chain_id : ℕ) (curves : List Text) (tokens : List Token)
    → find_many_by_curves (update_with f tokens) chain_id curves
      ≡ find_many_by_curves tokens chain_id curves
unfolding find_many_by_curves update_with
find_many-update_with f chain_id curves [] = refl
find_many-update_with f chain_id curves (t ∷ tokens) = elim (Option-cases (f t.id)) [
  | inl e ↦ rw (e, find_many-update_with f chain_id curves tokens) refl
  | inr (s, e) ↦ rw (e, find_many-update_with f chain_id curves tokens) refl
]

module _ (deps : ProcessorDeps) (syncs : List (Text × Text)) (tokens : List Token) where
  pub find_by_id-sync_phases :
      (id : Text) → find_by_id (sync_phases deps syncs tokens) id ≡ find_by_id tokens id
  find_by_id-sync_phases id =
      rw (sync_phases-with deps syncs tokens) (find_by_id-phase_with (chosen deps syncs) id tokens)

  pub find_many-sync_phases :
      (chain_id : ℕ) (curves : List Text)
      → find_many_by_curves (sync_phases deps syncs tokens) chain_id curves
        ≡ find_many_by_curves tokens chain_id curves
  find_many-sync_phases chain_id curves =
      rw (sync_phases-with deps syncs tokens)
        (find_many-phase_with (chosen deps syncs) chain_id curves tokens)

pub update_with_twice :
    (f : Text → Option TokenStats) (tokens : List Token)
    → update_with f (update_with f tokens) ≡ update_with f tokens
unfolding update_with
update_with_twice f [] = refl
update_with_twice f (t ∷ tokens) =
    rw (id-with_stats (f t.id) t, with_stats_twice (f t.id) t, update_with_twice f tokens) refl
