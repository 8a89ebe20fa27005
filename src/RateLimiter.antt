-- ===== src/RateLimiter.antt =====
-- The fixed-window request counter of the pairing endpoint: src/surfaces/api/auth/rate-limiter.ts.
pub mod Window
mod Tests
use sandi.Prelude.{
  ℕ, ◌+◌, String, Bool, true, false, Option, none, some, [], ◌∷◌, if◌then◌else◌, ltb, leb,
}
use sandi.Prelude.Dict.{Dict, lookup, insert}

pub record Counter : Type 0 where
  pub requests : ℕ
  pub reset_at : ℕ

pub record FixedWindowLimiter : Type 0 where
  pub window_ms : ℕ
  pub max_per_client : ℕ
  pub max_global : ℕ
  pub clients : Dict Counter
  pub global : Counter

pub new_limiter : (window_ms max_per_client max_global : ℕ) → FixedWindowLimiter
new_limiter window_ms max_per_client max_global = record {
  window_ms = window_ms;
  max_per_client = max_per_client;
  max_global = max_global;
  clients = [];
  global = record { requests = 0; reset_at = 0 };
}

pub sweep : ℕ → Dict Counter → Dict Counter
sweep now [] = []
sweep now (entry ∷ more) =
    let rest = sweep now more in if leb entry.1.reset_at now then rest else entry ∷ rest

-- The reset of the global window.
abbrev pub roll : ℕ → FixedWindowLimiter → FixedWindowLimiter
unfolding sweep
roll now limiter =
    if leb limiter.global.reset_at now
    then record limiter {
      global = record { requests = 0; reset_at = now + limiter.window_ms };
      clients = sweep now limiter.clients;
    }
    else limiter

abbrev client_of : ℕ → ℕ → Option Counter → Counter
client_of now window_ms none = record { requests = 0; reset_at = now + window_ms }
client_of now window_ms (some existing) =
    if ltb now existing.reset_at
    then existing
    else record { requests = 0; reset_at = now + window_ms }

abbrev pub one_more : Counter → Counter
one_more counter = record counter { requests = counter.requests + 1 }

-- `tryConsume` behind the reset.
abbrev pub consume_rolled : String → ℕ → FixedWindowLimiter → FixedWindowLimiter × Bool
unfolding lookup insert
consume_rolled key now limiter =
    if leb limiter.max_global limiter.global.requests
    then (limiter, false)
    else let client = client_of now limiter.window_ms (lookup key limiter.clients) in
      if leb limiter.max_per_client client.requests then (limiter, false) else (
        record limiter {
          global = one_more limiter.global;
          clients = insert key (one_more client) limiter.clients;
        },
        true,
      )

pub try_consume : String → ℕ → FixedWindowLimiter → FixedWindowLimiter × Bool
unfolding roll consume_rolled
try_consume key now limiter = consume_rolled key now (roll now limiter)
