-- ===== src/RateLimit/Burst.antt =====
-- The limiter in a burst of calls, in whatever order their readings of the clock are.
use peka_saas.Common.{
  ℕ, ◌+◌, ◌≤◌, ◌<◌, ◌≡◌, refl, ap, subst, Bool, true, false, List, [], ◌∷◌, ◌++◌, arith, leb, ltb,
  ◌==◌, length, length-append, count_rows, if◌then◌else◌, Bool-cases, inl, inr, eq_of_==, All,
}
use peka_saas.RateLimit.{InMemoryRateLimiter, in_memory_rate_limiter, drop_expired, admit, allow}
use peka_saas.RateLimit.Reference.{Call, answers}

-- A call is admitted where fewer than `limit` calls of its key have been.
abbrev pub first_calls : ℕ → List Call → List Call → List Bool
first_calls limit admitted [] = []
first_calls limit admitted (c ∷ cs) =
    let b = ltb (count_rows (λ a. a.0 == c.0) admitted) limit in
    b ∷ first_calls limit (if b then c ∷ admitted else admitted) cs

-- The readings lie within one window.
abbrev pub IsBurst : ℕ → ℕ → List Call → Type 0
IsBurst start window = All (λ c. (start ≤ c.1) × (c.1 < start + window))

-- No entry of a log is from before the burst, and there are as many as calls were admitted.
abbrev Counts : ℕ → InMemoryRateLimiter → List Call → Type 0
Counts start r admitted =
    (key : ℕ)
    → All (λ a. start ≤ a) (r.attempts_of key)
      × (length (r.attempts_of key) ≡ count_rows (λ a. a.0 == key) admitted)

drop_expired-nothing :
    (start window now : ℕ) (times : List ℕ)
    → now < start + window
    → All (λ a. start ≤ a) times
    → drop_expired window now times ≡ times
unfolding drop_expired
drop_expired-nothing start window now [] h from = refl
drop_expired-nothing start window now (a ∷ times) h from = ground (arith, from.0)

All-add :
    (start now : ℕ) (times : List ℕ)
    → start ≤ now
    → All (λ a. start ≤ a) times
    → All (λ a. start ≤ a) (times ++ now ∷ [])
All-add start now [] h from = (h, tt)
All-add start now (a ∷ times) h from = (from.0, All-add start now times h from.1)

allow-first :
    (start : ℕ) (r : InMemoryRateLimiter) (admitted : List Call) (c : Call)
    → Counts start r admitted
    → c.1 < start + r.window_seconds
    → (allow r c.0 c.1).0 ≡ ltb (count_rows (λ a. a.0 == c.0) admitted) r.limit
unfolding allow
allow-first start r admitted c counts soon = ground (
  arith,
  drop_expired-nothing start r.window_seconds c.1 (r.attempts_of c.0) soon (counts c.0).0,
  (counts c.0).1,
)

admitted-if :
    (b : Bool) (k : ℕ) (c : Call) (admitted : List Call)
    → count_rows (λ a. a.0 == k) (if b then c ∷ admitted else admitted)
      ≡ count_rows (λ a. a.0 == k) admitted + (if b then (if c.0 == k then 1 else 0) else 0)
admitted-if true k c admitted = omega arith
admitted-if false k c admitted = omega arith

admit-Counts :
    (start limit now : ℕ) (times : List ℕ)
    → start ≤ now
    → All (λ a. start ≤ a) times
    → All (λ a. start ≤ a) (admit limit now times).1
      × (length (admit limit now times).1
          ≡ length times + (if (admit limit now times).0 then 1 else 0))
admit-Counts start limit now times h from = elim (Bool-cases (leb limit (length times))) [
  | inl e ↦ rw e (from, omega arith)
  | inr e ↦ rw e (All-add start now times h from, length-append times (now ∷ []))
]

allow-Counts :
    (start : ℕ) (r : InMemoryRateLimiter) (admitted : List Call) (c : Call)
    → Counts start r admitted
    → start ≤ c.1
    → c.1 < start + r.window_seconds
    → Counts start (allow r c.0 c.1).1 (if (allow r c.0 c.1).0 then c ∷ admitted else admitted)
unfolding allow
allow-Counts start r admitted c counts later soon k =
    let kept =
      drop_expired-nothing start r.window_seconds c.1 (r.attempts_of c.0) soon (counts c.0).0 in
    let added = admit-Counts start r.limit c.1 (r.attempts_of c.0) later (counts c.0).0 in
    let rows = admitted-if (admit r.limit c.1 (r.attempts_of c.0)).0 k c admitted in
    elim (Bool-cases (k == c.0)) [
      | inl e ↦
          let eq : k ≡ c.0 = eq_of_== k c.0 e in
          rw (e, kept) (added.0, ground (arith, eq, added.1, rows, (counts k).1))
      | inr e ↦
          let other : (c.0 == k) ≡ false = ground arith in
          rw (e, kept) ((counts k).0, ground (arith, rows, other, (counts k).1))
    ]

answers-Counts :
    (start : ℕ) (r : InMemoryRateLimiter) (admitted calls : List Call)
    → Counts start r admitted
    → IsBurst start r.window_seconds calls
    → answers r calls ≡ first_calls r.limit admitted calls
unfolding allow
answers-Counts start r admitted [] counts burst = refl
answers-Counts start r admitted (c ∷ cs) counts burst =
    let v : InMemoryRateLimiter = (allow r c.0 c.1).1 in
    subst
      (λ b.
        ((allow r c.0 c.1).0 ∷ answers v cs)
        ≡ (b ∷ first_calls r.limit (if b then c ∷ admitted else admitted) cs))
      (allow-first start r admitted c counts burst.0.1)
      (ap (λ l. (allow r c.0 c.1).0 ∷ l)
        (answers-Counts start v (if (allow r c.0 c.1).0 then c ∷ admitted else admitted) cs
          (allow-Counts start r admitted c counts burst.0.0 burst.0.1) burst.1))

-- When a new limiter is asked by calls, under any keys, whose readings of the clock all lie within
-- one window, in whatever order they take the lock, it admits under each key the first `limit`
-- calls and no other.
pub answers-first :
    (limit window start : ℕ) (calls : List Call)
    → IsBurst start window calls
    → answers (in_memory_rate_limiter limit window) calls ≡ first_calls limit [] calls
answers-first limit window start calls burst =
    answers-Counts start (in_memory_rate_limiter limit window) [] calls (λ key. (tt, refl)) burst
