-- ===== src/Witness/Limits.antt =====
-- Examples of the theorems on the rate limiter.
use peka_saas.Common.{◌≡◌, true, false, refl, List, [], ◌∷◌, arith}
use peka_saas.RateLimit.{in_memory_rate_limiter}
use peka_saas.RateLimit.Reference.{Call, answers, reference, answers-reference}
use peka_saas.RateLimit.Burst.{first_calls, answers-first}

-- Two calls of a key are admitted, the third is not, and the fourth is, at a window's length after
-- the first; another key is not concerned.
abbrev calls : List Call
calls = (3, 10) ∷ (3, 50) ∷ (3, 65) ∷ (4, 66) ∷ (3, 70) ∷ []

answers-reference_example : answers (in_memory_rate_limiter 2 60) calls ≡ reference 2 60 [] calls
answers-reference_example =
    answers-reference 2 60 calls
      (omega arith, (omega arith, (omega arith, (omega arith, (omega arith, tt)))))

test_answers : reference 2 60 [] calls ≡ true ∷ true ∷ false ∷ true ∷ true ∷ []
test_answers = refl

-- The third call has read the clock first.
abbrev burst : List Call
burst = (3, 50) ∷ (4, 40) ∷ (3, 10) ∷ (3, 60) ∷ []

answers-first_example : answers (in_memory_rate_limiter 2 60) burst ≡ first_calls 2 [] burst
answers-first_example = answers-first 2 60 10 burst (
  (omega arith, omega arith),
  ((omega arith, omega arith), ((omega arith, omega arith), ((omega arith, omega arith), tt))),
)

test_burst : first_calls 2 [] burst ≡ true ∷ true ∷ true ∷ false ∷ []
test_burst = refl
