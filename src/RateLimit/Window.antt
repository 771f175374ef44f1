-- ===== src/RateLimit/Window.antt =====
-- What the limiter admits in a window.
use peka_saas.Common.{
  ℕ, ◌+◌, ◌≤◌, ◌<◌, ◌≡◌, refl, Bool, List, [], ◌∷◌, ◌++◌, arith, leb, ltb, ◌==◌, length,
  length-append, count_rows, Bool-cases, inl, inr,
}
use peka_saas.RateLimit.{InMemoryRateLimiter, drop_expired, admit, allow}

-- The times do not fall, and lie between the two bounds.
abbrev pub Ascending : ℕ → ℕ → List ℕ → Type 0
Ascending low high [] = Unit
Ascending low high (a ∷ times) = (low ≤ a) × (a ≤ high) × Ascending a high times

-- The attempt lies in the window before `now`.
abbrev pub in_window : ℕ → ℕ → ℕ → Bool
in_window window now a = ltb now (a + window)

-- The log of every key is in order, not later than `now`, and not longer than the limit.
abbrev pub IsLog : ℕ → InMemoryRateLimiter → Type 0
IsLog now r =
    (key : ℕ) → Ascending 0 now (r.attempts_of key) × (length (r.attempts_of key) ≤ r.limit)

Ascending-count :
    (window now low high : ℕ) (times : List ℕ)
    → now < low + window
    → Ascending low high times
    → count_rows (in_window window now) times ≡ length times
Ascending-count window now low high [] h up = refl
Ascending-count window now low high (a ∷ times) h up =
    ground (arith, Ascending-count window now a high times (omega arith) up.2)

-- What the loop keeps is as many as lie in the window.
pub drop_expired-count :
    (window now low high : ℕ) (times : List ℕ)
    → Ascending low high times
    → length (drop_expired window now times) ≡ count_rows (in_window window now) times
unfolding drop_expired
drop_expired-count window now low high [] up = refl
drop_expired-count window now low high (a ∷ times) up = elim (Bool-cases (leb (a + window) now)) [
  | inl e ↦ ground (arith, drop_expired-count window now a high times up.2)
  | inr e ↦ ground (arith, Ascending-count window now a high times (ground arith) up.2)
]

drop_expired-length :
    (window now : ℕ) (times : List ℕ) → length (drop_expired window now times) ≤ length times
unfolding drop_expired
drop_expired-length window now [] = omega arith
drop_expired-length window now (a ∷ times) = ground (arith, drop_expired-length window now times)

Ascending-weaken :
    (low low' high high' : ℕ) (times : List ℕ)
    → low' ≤ low
    → high ≤ high'
    → Ascending low high times
    → Ascending low' high' times
Ascending-weaken low low' high high' [] h k up = tt
Ascending-weaken low low' high high' (a ∷ times) h k up =
    (omega arith, omega arith, Ascending-weaken a a high high' times (omega arith) k up.2)

drop_expired-Ascending :
    (window now low high : ℕ) (times : List ℕ)
    → Ascending low high times
    → Ascending low high (drop_expired window now times)
unfolding drop_expired
drop_expired-Ascending window now low high [] up = tt
drop_expired-Ascending window now low high (a ∷ times) up =
    elim (Bool-cases (leb (a + window) now)) [
      | inl e ↦ rw e (
          Ascending-weaken a low high high _ up.0 (omega arith)
            (drop_expired-Ascending window now a high times up.2))
      | inr e ↦ rw e up
    ]

Ascending-append :
    (low high now : ℕ) (times : List ℕ)
    → low ≤ now
    → high ≤ now
    → Ascending low high times
    → Ascending low now (times ++ now ∷ [])
Ascending-append low high now [] h k up = (h, omega arith, tt)
Ascending-append low high now (a ∷ times) h k up =
    (up.0, omega arith, Ascending-append a high now times (omega arith) k up.2)

admit-Ascending :
    (limit last now : ℕ) (times : List ℕ)
    → last ≤ now
    → Ascending 0 last times
    → length times ≤ limit
    → Ascending 0 now (admit limit now times).1 × (length (admit limit now times).1 ≤ limit)
admit-Ascending limit last now times later up short = elim (Bool-cases (leb limit (length times))) [
  | inl e ↦ rw e (Ascending-weaken 0 0 last now times (omega arith) later up, short)
  | inr e ↦ rw e (
    Ascending-append 0 last now times (omega arith) later up,
    ground (arith, length-append times (now ∷ [])),
  )
]

module _ (r : InMemoryRateLimiter) (last key now : ℕ) (log : IsLog last r)
    (later : last ≤ now) where
  -- Where the log of every key is in order, no later than a time and not longer than the limit, and
  -- a call's reading of the clock is not before that time, the call leaves the log of every key in
  -- order, no later than its reading, and not longer than the limit.
  pub allow-IsLog : IsLog now (allow r key now).1
  unfolding allow
  allow-IsLog k = elim (Bool-cases (k == key)) [
    | inl e ↦ rw e (
        admit-Ascending r.limit last now (drop_expired r.window_seconds now (r.attempts_of key))
          later (drop_expired-Ascending r.window_seconds now 0 last (r.attempts_of key) (log key).0)
          (omega
            (arith, drop_expired-length r.window_seconds now (r.attempts_of key), (log key).1)))
    | inr e ↦
        rw e
          (Ascending-weaken 0 0 last now (r.attempts_of k) (omega arith) later (log k).0, (log k).1)
  ]
