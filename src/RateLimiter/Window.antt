-- ===== src/RateLimiter/Window.antt =====
-- How many requests the limiter lets through: src/surfaces/api/auth/rate-limiter.ts.
use sandi.Prelude.{
  ℕ, ◌+◌, ◌-◌, ◌≤◌, ◌<◌, ◌≡◌, String, Bool, List, [], ◌∷◌, if◌then◌else◌, leb, sym, subst, arith,
  All, inl, inr, Bool-cases,
}
use sandi.RateLimiter.{FixedWindowLimiter, roll, consume_rolled, try_consume, sweep}

-- A request is a client's key and its time.
unfoldable pub run : List (String × ℕ) → FixedWindowLimiter → FixedWindowLimiter × ℕ
unfolding try_consume
run [] limiter = (limiter, 0)
run (request ∷ requests) limiter =
    let (next, passed) = try_consume request.0 request.1 limiter in
    let (final, more) = run requests next in (final, (if passed then 1 else 0) + more)

-- What one request does to the global counter: nothing, or a pass that is counted.
consume_rolled-global :
    (key : String) (now : ℕ) (limiter : FixedWindowLimiter)
    → ((consume_rolled key now limiter).0.max_global ≡ limiter.max_global)
      × ((consume_rolled key now limiter).0.window_ms ≡ limiter.window_ms)
      × ((consume_rolled key now limiter).0.global.reset_at ≡ limiter.global.reset_at)
      × ((if (consume_rolled key now limiter).1 then 1 else 0)
            + (limiter.max_global - (consume_rolled key now limiter).0.global.requests)
          ≤ limiter.max_global - limiter.global.requests)
unfolding consume_rolled
consume_rolled-global key now limiter = ground arith

-- The same as a bound on what passes, by whether the global window is open.
abbrev Spends : FixedWindowLimiter → (reset_at left : ℕ) → FixedWindowLimiter × Bool → Type 0
Spends limiter reset_at left result =
    (result.0.max_global ≡ limiter.max_global)
    × (result.0.window_ms ≡ limiter.window_ms)
    × (result.0.global.reset_at ≡ reset_at)
    × ((if result.1 then 1 else 0) + (limiter.max_global - result.0.global.requests) ≤ left)

try_consume-open :
    (key : String) (now : ℕ) (limiter : FixedWindowLimiter)
    → now < limiter.global.reset_at
    → Spends limiter limiter.global.reset_at
        (limiter.max_global - limiter.global.requests)
        (try_consume key now limiter)
unfolding try_consume roll
try_consume-open key now limiter e = elim (Bool-cases (leb limiter.global.reset_at now)) [
  | inl over ↦ ground arith
  | inr still ↦ rw still (consume_rolled-global key now limiter)
]

try_consume-over :
    (key : String) (now : ℕ) (limiter : FixedWindowLimiter)
    → limiter.global.reset_at ≤ now
    → Spends limiter (now + limiter.window_ms) limiter.max_global (try_consume key now limiter)
unfolding try_consume roll
try_consume-over key now limiter e = elim (Bool-cases (leb limiter.global.reset_at now)) [
  | inl over ↦ rw over (
      let (m, w, r, spent) = consume_rolled-global key now (record limiter {
        global = record { requests = 0; reset_at = now + limiter.window_ms };
        clients = sweep now limiter.clients;
      }) in
      (m, w, r, omega (arith, spent)))
  | inr still ↦ ground arith
]

run-same_window :
    (requests : List (String × ℕ)) (limiter : FixedWindowLimiter)
    → All (λ r. r.1 < limiter.global.reset_at) requests
    → (run requests limiter).1 ≤ limiter.max_global - limiter.global.requests
unfolding run
run-same_window [] limiter h = omega arith
run-same_window ((key, now) ∷ requests) limiter h =
    let next = (try_consume key now limiter).0 in
    let (m, w, r, spent) = try_consume-open key now limiter h.0 in
    let rest =
      run-same_window requests next (subst (λ at. All (λ q. q.1 < at) requests) (sym r) h.1) in
    omega (arith, m, spent, rest)

before_reset :
    (start window_ms now : ℕ) (requests : List (String × ℕ))
    → start ≤ now
    → All (λ r. (start ≤ r.1) × (r.1 < start + window_ms)) requests
    → All (λ r. r.1 < now + window_ms) requests
before_reset start window_ms now [] e h = tt
before_reset start window_ms now (r ∷ requests) e ((low, high), later) =
    (omega arith, before_reset start window_ms now requests e later)

-- In any stretch of time as long as the window, whatever came before and in whatever order the clock
-- readings of the stretch come, at most twice `max_global` requests pass: what is left of the counter that
-- the stretch finds, and one full counter after the only reset that fits in.
pub run-window :
    (start : ℕ) (requests : List (String × ℕ)) (limiter : FixedWindowLimiter)
    → All (λ r. (start ≤ r.1) × (r.1 < start + limiter.window_ms)) requests
    → (run requests limiter).1 ≤ (limiter.max_global - limiter.global.requests) + limiter.max_global
unfolding run
run-window start [] limiter h = omega arith
run-window start ((key, now) ∷ requests) limiter (here, later) =
    elim (Bool-cases (leb limiter.global.reset_at now)) [
      | inl over ↦ after_reset (ground arith)
      | inr still ↦
          let (m, w, r, spent) = try_consume-open key now limiter (ground arith) in
          let rest = run-window start requests (try_consume key now limiter).0 (
            subst (λ width. All (λ q. (start ≤ q.1) × (q.1 < start + width)) requests) (sym w)
              later) in
          omega (arith, m, spent, rest)
    ]
  where
    next : FixedWindowLimiter
    next = (try_consume key now limiter).0

    after_reset :
        limiter.global.reset_at ≤ now
        → (if (try_consume key now limiter).1 then 1 else 0) + (run requests next).1
          ≤ (limiter.max_global - limiter.global.requests) + limiter.max_global
    after_reset e =
        let (m, w, r, spent) = try_consume-over key now limiter e in
        let rest = run-same_window requests next (
          subst (λ at. All (λ q. q.1 < at) requests) (sym r)
            (before_reset start limiter.window_ms now requests here.0 later)) in
        omega (arith, m, spent, rest)
