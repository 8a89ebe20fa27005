-- ===== src/RateLimiter/Tests.antt =====
-- Runs of the limiter, and its theorem at a concrete stretch.
use sandi.Prelude.{ℕ, ◌+◌, ◌-◌, ◌≤◌, ◌≡◌, String, true, false, List, [], ◌∷◌, refl, arith}
use sandi.Prelude.Dict.{lookup, insert}
use sandi.RateLimiter.{FixedWindowLimiter, new_limiter, sweep, roll, consume_rolled, try_consume}
use sandi.RateLimiter.Window.{run, run-window}

abbrev limiter : FixedWindowLimiter
unfolding new_limiter
limiter = new_limiter 100 2 3

abbrev flood : List (String × ℕ)
flood = ("a", 50) ∷ ("a", 60) ∷ ("a", 70) ∷ ("b", 80) ∷ ("c", 90) ∷ ("a", 149) ∷ []

limits : Unit {0}
unfolding run try_consume roll consume_rolled sweep new_limiter lookup insert limiter
limits = tt

test_passed : (run flood limiter).1 ≡ 3
unfolding limits
test_passed = refl

test_client : (try_consume "a" 70 (run (("a", 50) ∷ ("a", 60) ∷ []) limiter).0).1 ≡ false
unfolding limits
test_client = refl

test_next_window : (try_consume "a" 150 (run flood limiter).0).1 ≡ true
unfolding limits
test_next_window = refl

run-window_example :
    (run flood limiter).1 ≤ (limiter.max_global - limiter.global.requests) + limiter.max_global
unfolding limits
run-window_example = run-window 50 flood limiter (
  (omega arith, omega arith),
  (
    (omega arith, omega arith),
    (
      (omega arith, omega arith),
      ((omega arith, omega arith), ((omega arith, omega arith), ((omega arith, omega arith), tt))),
    ),
  ),
)
