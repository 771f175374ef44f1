-- ===== src/RateLimit/Reference.antt =====
-- The limiter against a description that remembers every admitted call.
use peka_saas.Common.{
  ℕ, ◌+◌, ◌≤◌, ◌≡◌, refl, ap, subst, Bool, true, false, List, [], ◌∷◌, arith, ltb, ◌==◌, ◌&&◌,
  count_rows, count_rows-append, if◌then◌else◌, Bool-cases, inl, inr, eq_of_==,
}
use peka_saas.RateLimit.{InMemoryRateLimiter, in_memory_rate_limiter, drop_expired, admit, allow}
use peka_saas.RateLimit.Window.{IsLog, in_window, allow-IsLog, drop_expired-count}

-- A call: its key and its reading of the clock.
abbrev pub Call : Type 0
Call = ℕ × ℕ

-- The answers of the limiter, from one call to the next.
abbrev pub answers : InMemoryRateLimiter → List Call → List Bool
answers r [] = []
answers r (c ∷ cs) = (allow r c.0 c.1).0 ∷ answers (allow r c.0 c.1).1 cs

-- The admitted call has the key, and lies in the window before the time.
abbrev pub is_recent : ℕ → ℕ → ℕ → Call → Bool
is_recent window key now a = a.0 == key && in_window window now a.1

-- A call is admitted where fewer than `limit` of the calls admitted so far, under its key, lie in
-- the window before it.
abbrev pub reference : ℕ → ℕ → List Call → List Call → List Bool
reference limit window admitted [] = []
reference limit window admitted (c ∷ cs) =
    let b = ltb (count_rows (is_recent window c.0 c.1) admitted) limit in
    b ∷ reference limit window (if b then c ∷ admitted else admitted) cs

-- The readings of the clock do not fall.
abbrev pub InOrder : ℕ → List Call → Type 0
InOrder last [] = Unit
InOrder last (c ∷ cs) = (last ≤ c.1) × InOrder c.1 cs

-- From the time on, the log of a key has as many entries in the window as there are admitted calls.
abbrev Matches : ℕ → InMemoryRateLimiter → List Call → Type 0
Matches last r admitted =
    (key now : ℕ)
    → last ≤ now
    → count_rows (in_window r.window_seconds now) (r.attempts_of key)
      ≡ count_rows (is_recent r.window_seconds key now) admitted

-- What the loop drops is in no later window.
drop_expired-later :
    (window now later : ℕ) (times : List ℕ)
    → now ≤ later
    → count_rows (in_window window later) (drop_expired window now times)
      ≡ count_rows (in_window window later) times
unfolding drop_expired
drop_expired-later window now later [] h = refl
drop_expired-later window now later (a ∷ times) h =
    ground (arith, drop_expired-later window now later times h)

allow-reference :
    (r : InMemoryRateLimiter) (last key now : ℕ) (admitted : List Call)
    → IsLog last r
    → last ≤ now
    → Matches last r admitted
    → (allow r key now).0 ≡ ltb (count_rows (is_recent r.window_seconds key now) admitted) r.limit
unfolding allow
allow-reference r last key now admitted log later same = ground (
  arith,
  drop_expired-count r.window_seconds now 0 last (r.attempts_of key) (log key).0,
  same key now later,
)

admit-count :
    (limit now window later : ℕ) (times : List ℕ)
    → count_rows (in_window window later) (admit limit now times).1
      ≡ count_rows (in_window window later) times
        + (if (admit limit now times).0 then (if in_window window later now then 1 else 0) else 0)
admit-count limit now window later times =
    ground (arith, count_rows-append (in_window window later) times (now ∷ []))

recent-if :
    (b : Bool) (window k at key now : ℕ) (admitted : List Call)
    → count_rows (is_recent window k at) (if b then (key, now) ∷ admitted else admitted)
      ≡ count_rows (is_recent window k at) admitted
        + (if b then (if key == k && in_window window at now then 1 else 0) else 0)
recent-if true window k at key now admitted = omega arith
recent-if false window k at key now admitted = omega arith

allow-Matches :
    (r : InMemoryRateLimiter) (last key now : ℕ) (admitted : List Call)
    → last ≤ now
    → Matches last r admitted
    → Matches now
        (allow r key now).1
        (if (allow r key now).0 then (key, now) ∷ admitted else admitted)
unfolding allow
allow-Matches r last key now admitted later same k at h =
    let before = same k at (omega (arith, later, h)) in
    let times = drop_expired r.window_seconds now (r.attempts_of key) in
    let recent = recent-if (admit r.limit now times).0 r.window_seconds k at key now admitted in
    elim (Bool-cases (k == key)) [
      | inl e ↦
          let eq : k ≡ key = eq_of_== k key e in
          ground (
            arith,
            eq,
            before,
            recent,
            admit-count r.limit now r.window_seconds at times,
            drop_expired-later r.window_seconds now at (r.attempts_of key) h,
          )
      | inr e ↦
          let other : (key == k) ≡ false = ground arith in ground (arith, before, recent, other)
    ]

answers-Matches :
    (r : InMemoryRateLimiter) (last : ℕ) (admitted calls : List Call)
    → IsLog last r
    → Matches last r admitted
    → InOrder last calls
    → answers r calls ≡ reference r.limit r.window_seconds admitted calls
unfolding allow
answers-Matches r last admitted [] log same up = refl
answers-Matches r last admitted (c ∷ cs) log same up =
    let v : InMemoryRateLimiter = (allow r c.0 c.1).1 in
    subst
      (λ b.
        ((allow r c.0 c.1).0 ∷ answers v cs)
        ≡ (b ∷ reference r.limit r.window_seconds (if b then c ∷ admitted else admitted) cs))
      (allow-reference r last c.0 c.1 admitted log up.0 same)
      (ap (λ l. (allow r c.0 c.1).0 ∷ l)
        (answers-Matches v c.1 (if (allow r c.0 c.1).0 then c ∷ admitted else admitted) cs
          (allow-IsLog r last c.0 c.1 log up.0) (allow-Matches r last c.0 c.1 admitted up.0 same)
          up.1))

-- When a new limiter is asked by any calls, under any keys, whose readings of the clock do not fall
-- in the order in which they take the lock, it answers each as the description does: a call is
-- admitted exactly when fewer than `limit` of the calls admitted before it, under its key, lie in
-- the window before it.
pub answers-reference :
    (limit window : ℕ) (calls : List Call)
    → InOrder 0 calls
    → answers (in_memory_rate_limiter limit window) calls ≡ reference limit window [] calls
answers-reference limit window calls up =
    answers-Matches (in_memory_rate_limiter limit window) 0 [] calls (λ key. (tt, omega arith))
      (λ key now h. refl) up
