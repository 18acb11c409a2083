-- ===== src/LogRange/Window.antt =====
-- `AdaptiveLogWindow` against an endpoint with a hard limit on the span.
use native.Mathlib.Decide.{dec_le}
use native.Mathlib.Nat.{pow-suc}
use stunks.Prelude.{
  ℕ, zero, suc, ◌+◌, ◌-◌, ◌*◌, ◌/◌, ◌^◌, ◌≤◌, ◌<◌, ◌≡◌, refl, ◌⊎◌, inl, inr, none, some, arith, ltb,
  leb, if◌then◌else◌,
}
use stunks.LogRange.{AdaptiveLogWindow, on_rejected, on_success, clamp}

abbrev pub InRange : AdaptiveLogWindow → Type 0
InRange w = (w.min_span ≤ w.span) × (w.span ≤ w.max_span)

-- After a success or a rejection the span lies between the minimum and the maximum.
pub window_clamped :
    (w : AdaptiveLogWindow)
    → w.min_span ≤ w.max_span
    → InRange (on_success w) × InRange (on_rejected w)
unfolding on_success on_rejected
window_clamped w h = (ground arith, ground arith)

-- One request to an endpoint that serves spans up to `limit` and rejects longer ones.
pub request : ℕ → AdaptiveLogWindow → AdaptiveLogWindow
request limit w = if leb w.span limit then on_success w else on_rejected w

pub requests : ℕ → ℕ → AdaptiveLogWindow → AdaptiveLogWindow
requests zero limit w = w
requests (suc n) limit w = requests n limit (request limit w)

-- The bracket `c` above `limit`, with `w.last_good` at or below it; while the two are apart, the span
-- is the clamped midpoint.
pub record Brackets (limit c : ℕ) (w : AdaptiveLogWindow) : Type 0 where
  pub bound : w.ceiling ≡ some c
  pub good : w.last_good ≤ limit
  pub bad : limit < c
  pub high : c ≤ w.max_span
  pub low : w.min_span ≤ limit
  pub midpoint : w.last_good + 1 < c → w.span ≡ clamp w ((w.last_good + c) / 2)

-- The least rejected span after one more request.
abbrev pub next_bound : ℕ → ℕ → AdaptiveLogWindow → ℕ
next_bound limit c w = if leb w.span limit then c else if ltb w.span c then w.span else c

request-Brackets :
    (limit c : ℕ) (w : AdaptiveLogWindow)
    → Brackets limit c w
    → Brackets limit (next_bound limit c w) (request limit w)
unfolding request on_success on_rejected
request-Brackets limit c w h = ground arith

request-halves :
    (limit c : ℕ) (w : AdaptiveLogWindow)
    → Brackets limit c w
    → w.last_good + 1 < c
    → 2 * (next_bound limit c w - (request limit w).last_good) ≤ c - w.last_good + 1
unfolding request on_success on_rejected
request-halves limit c w h apart = ground (arith, h.midpoint apart)

-- The search has ended on `limit`: it is the largest span known to succeed, and the next one fails.
abbrev pub IsFound : ℕ → AdaptiveLogWindow → Type 0
IsFound limit w =
    (w.last_good ≡ limit)
    × (w.ceiling ≡ some (limit + 1))
    × (w.min_span ≤ limit)
    × (limit < w.max_span)

request-IsFound :
    (limit : ℕ) (w : AdaptiveLogWindow) → IsFound limit w → IsFound limit (request limit w)
unfolding request on_success on_rejected
request-IsFound limit w h = ground arith

requests-IsFound :
    (n limit : ℕ) (w : AdaptiveLogWindow) → IsFound limit w → IsFound limit (requests n limit w)
unfolding requests
requests-IsFound zero limit w h = h
requests-IsFound (suc n) limit w h =
    requests-IsFound n limit (request limit w) (request-IsFound limit w h)

Brackets-IsFound :
    (limit c : ℕ) (w : AdaptiveLogWindow)
    → Brackets limit c w
    → c ≤ w.last_good + 1
    → IsFound limit w
Brackets-IsFound limit c w h close = ground arith

narrower :
    (k limit c : ℕ) (w : AdaptiveLogWindow)
    → Brackets limit c w
    → w.last_good + 1 < c
    → c - w.last_good ≤ 2 ^ suc k
    → next_bound limit c w - (request limit w).last_good ≤ 2 ^ k
narrower k limit c w h apart small = omega (arith, request-halves limit c w h apart, pow-suc 2 k)

-- From a bracket of at most `2 ^ k`, `k` requests find the limit.
bracket-IsFound :
    (k n limit c : ℕ) (w : AdaptiveLogWindow)
    → Brackets limit c w
    → c - w.last_good ≤ 2 ^ k
    → k ≤ n
    → IsFound limit (requests n limit w)
unfolding requests
bracket-IsFound zero n limit c w h small enough =
    requests-IsFound n limit w (Brackets-IsFound limit c w h (omega arith))
bracket-IsFound (suc k) zero limit c w h small enough = absurd (omega arith)
bracket-IsFound (suc k) (suc n) limit c w h small enough = elim (dec_le c (w.last_good + 1)) [
  | yes close ↦ requests-IsFound (suc n) limit w (Brackets-IsFound limit c w h close)
  | no apart ↦
      bracket-IsFound k n limit (next_bound limit c w) (request limit w)
        (request-Brackets limit c w h) (narrower k limit c w h (omega arith) small) (omega arith)
]

-- A window that has met no rejection yet, below its maximum.
pub record IsGrowing (limit : ℕ) (w : AdaptiveLogWindow) : Type 0 where
  pub unbounded : w.ceiling ≡ none
  pub good : w.last_good ≤ limit
  pub low : w.min_span ≤ limit
  pub high : limit < w.max_span
  pub inside : w.span ≤ w.max_span

grow :
    (limit : ℕ) (w : AdaptiveLogWindow)
    → IsGrowing limit w
    → w.span ≤ limit
    → IsGrowing limit (request limit w)
      × (w.span < (request limit w).span)
      × ((request limit w).max_span ≡ w.max_span)
unfolding request on_success
grow limit w h small = ground arith

bump :
    (limit : ℕ) (w : AdaptiveLogWindow)
    → IsGrowing limit w
    → limit < w.span
    → Brackets limit w.span (request limit w)
unfolding request on_rejected
bump limit w h big = ground arith

grown-IsFound :
    (m n k limit : ℕ) (w : AdaptiveLogWindow)
    → IsGrowing limit w
    → w.max_span ≤ 2 ^ k
    → limit + 1 ≤ w.span + m
    → m + k + 1 ≤ n
    → IsFound limit (requests n limit w)
unfolding requests
grown-IsFound m zero k limit w h wide far enough = absurd (omega arith)
grown-IsFound zero (suc n) k limit w h wide far enough =
    bracket-IsFound k n limit w.span (request limit w) (bump limit w h (omega arith))
      (omega (arith, h.inside)) (omega arith)
grown-IsFound (suc m) (suc n) k limit w h wide far enough = elim (dec_le w.span limit) [
  | yes small ↦
      let (still, more, same) = grow limit w h small in
      grown-IsFound m n k limit (request limit w) still (omega arith) (omega arith) (omega arith)
  | no big ↦
      bracket-IsFound k n limit w.span (request limit w) (bump limit w h (omega arith))
        (omega (arith, h.inside)) (omega arith)
]

-- The window asks for the limit, after fewer than 200 successes there; or it probes the next span.
abbrev pub IsSteady : ℕ → AdaptiveLogWindow → Type 0
IsSteady limit w =
    ((w.span ≡ limit) × (w.successes_at_settled < 200))
    ⊎ ((w.span ≡ limit + 1) × (w.successes_at_settled ≡ 0))

request-IsSteady :
    (limit : ℕ) (w : AdaptiveLogWindow) → IsFound limit w → IsSteady limit (request limit w)
unfolding request on_success on_rejected
request-IsSteady limit w h = ground arith

request_at_limit :
    (s limit : ℕ) (w : AdaptiveLogWindow)
    → IsFound limit w
    → w.span ≡ limit
    → w.successes_at_settled ≡ s
    → s + 1 < 200
    → ((request limit w).span ≡ limit) × ((request limit w).successes_at_settled ≡ s + 1)
unfolding request on_success
request_at_limit s limit w h at count few = ground arith

request_above_limit :
    (limit : ℕ) (w : AdaptiveLogWindow)
    → IsFound limit w
    → w.span ≡ limit + 1
    → ((request limit w).span ≡ limit) × ((request limit w).successes_at_settled ≡ 0)
unfolding request on_rejected
request_above_limit limit w h at = ground arith

-- From the `s`-th success at the limit on, the limit is asked for until the 200th.
requests_at_limit :
    (j s limit : ℕ) (w : AdaptiveLogWindow)
    → IsFound limit w
    → w.span ≡ limit
    → w.successes_at_settled ≡ s
    → s + j < 200
    → (requests j limit w).span ≡ limit
unfolding requests
requests_at_limit zero s limit w h at count few = at
requests_at_limit (suc j) s limit w h at count few =
    let (at', count') = request_at_limit s limit w h at count (omega arith) in
    requests_at_limit j (s + 1) limit (request limit w) (request-IsFound limit w h) at' count'
      (omega arith)

requests-suc :
    (n limit : ℕ) (w : AdaptiveLogWindow)
    → requests (suc n) limit w ≡ request limit (requests n limit w)
unfolding requests
requests-suc zero limit w = refl
requests-suc (suc n) limit w = requests-suc n limit (request limit w)

-- A probe of the next span is followed by 200 requests for the limit.
pub ReturnsTo : ℕ → AdaptiveLogWindow → Type 0
ReturnsTo limit w = w.span ≡ limit + 1 → (j : ℕ) → j < 200 → (requests (suc j) limit w).span ≡ limit

found-ReturnsTo : (limit : ℕ) (w : AdaptiveLogWindow) → IsFound limit w → ReturnsTo limit w
unfolding ReturnsTo requests
found-ReturnsTo limit w h above j few =
    let (at, count) = request_above_limit limit w h above in
    requests_at_limit j 0 limit (request limit w) (request-IsFound limit w h) at count (omega arith)

last-IsSteady :
    (n limit : ℕ) (w : AdaptiveLogWindow)
    → IsFound limit (requests n limit w)
    → IsSteady limit (requests (suc n) limit w)
last-IsSteady n limit w h =
    rw (requests-suc n limit w) (request-IsSteady limit (requests n limit w) h)

-- Against an endpoint that serves exactly the spans up to `limit`, a window that starts with no
-- rejection, a span of at most the maximum and a limit between the minimum and the maximum finds the
-- limit after `limit + k + 3` requests, where the maximum is at most `2 ^ k`: the limit is its largest
-- good span and the next one its ceiling. From then on it asks for the limit, but for a probe of the
-- next span now and then; and a probe is followed by 200 requests for the limit.
pub requests_find_limit :
    (n k limit : ℕ) (w : AdaptiveLogWindow)
    → IsGrowing limit w
    → w.max_span ≤ 2 ^ k
    → limit + k + 3 ≤ n
    → let v = requests n limit w in
      (v.last_good ≡ limit)
      × (v.ceiling ≡ some (limit + 1))
      × ((v.span ≡ limit) ⊎ (v.span ≡ limit + 1))
      × (v.span ≡ limit + 1 → (j : ℕ) → j < 200 → (requests (suc j) limit v).span ≡ limit)
unfolding ReturnsTo
requests_find_limit zero k limit w h wide enough = absurd (omega arith)
requests_find_limit (suc n) k limit w h wide enough =
    let here = grown-IsFound (limit + 1) (suc n) k limit w h wide (omega arith) (omega arith) in
    let before = grown-IsFound (limit + 1) n k limit w h wide (omega arith) (omega arith) in
    (
      here.0,
      here.1,
      elim (last-IsSteady n limit w before) [ inl (at, _) ↦ inl at | inr (above, _) ↦ inr above ],
      found-ReturnsTo limit (requests (suc n) limit w) here,
    )
