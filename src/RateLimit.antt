-- ===== src/RateLimit.antt =====
-- `InMemoryRateLimiter` of backend/app/core/rate_limit.py. The attempts are a function of the key, and
-- a key that was never used has none. A call reads the clock before it takes the lock; the updates
-- under the lock follow one another in some order, and each takes its own reading as an argument,
-- so the readings of successive updates need not be in order.
pub mod Window
pub mod Reference
pub mod Burst
use peka_saas.Common.{
  ℕ, ◌+◌, Bool, true, false, List, [], ◌∷◌, ◌++◌, leb, ◌==◌, length, if◌then◌else◌,
}

pub record InMemoryRateLimiter : Type 0 where
  pub limit : ℕ
  pub window_seconds : ℕ
  pub attempts_of : ℕ → List ℕ

-- `InMemoryRateLimiter(limit, window_seconds)`
abbrev pub in_memory_rate_limiter : ℕ → ℕ → InMemoryRateLimiter
in_memory_rate_limiter limit window_seconds = record {
  limit = limit;
  window_seconds = window_seconds;
  attempts_of = λ key. [];
}

-- The loop that drops the attempts of before the window; `a <= now - window` is written as a sum.
unfoldable pub drop_expired : ℕ → ℕ → List ℕ → List ℕ
drop_expired window now [] = []
drop_expired window now (a ∷ times) =
    let rest = drop_expired window now times in if leb (a + window) now then rest else a ∷ times

-- The test of the limit, and the attempts that it leaves.
abbrev pub admit : ℕ → ℕ → List ℕ → Bool × List ℕ
admit limit now times =
    if leb limit (length times) then (false, times) else (true, times ++ now ∷ [])

abbrev pub put : ℕ → List ℕ → (ℕ → List ℕ) → ℕ → List ℕ
put key times log k = if k == key then times else log k

-- The update under the lock, with the reading `now` of the clock.
unfoldable pub allow : InMemoryRateLimiter → ℕ → ℕ → Bool × InMemoryRateLimiter
allow r key now =
    let (b, times) = admit r.limit now (drop_expired r.window_seconds now (r.attempts_of key)) in
    (b, record r { attempts_of = put key times r.attempts_of })
