-- ===== src/Chunker/Text.antt =====
-- The operations on texts that the chunker calls, and slices of lists.
use peka_saas.Common.{
  ℕ, suc, zero, ◌+◌, ◌*◌, ◌/◌, ◌≤◌, ◌≡◌, refl, ap, Bool, Option, List, [], ◌∷◌, ◌++◌, arith, length,
  max,
}
use peka_saas.Ingestion.Types.{Text}

-- `split()`, `" ".join`, `"\n".join`, `"\n\n".join(…).strip()`, `splitlines()`, the order of sorted
-- names, the empty text, `headers` of a section's metadata joined by " | " if there are any, the
-- metadata of a chunk of rows with that header and of a structured chunk; and the tests of a line:
-- blank, opening a code fence, closing the fence that another line opened, a heading, a row of a
-- table, an item of a list.
pub record TextOps : Type 0 where
  pub split : Text → List Text
  pub join_words : List Text → Text
  pub join_lines : List Text → Text
  pub splitlines : Text → List Text
  pub precedes : Text → Text → Bool
  pub empty_text : Text
  pub headers : Text → Option Text
  pub header_metadata : Text → Text
  pub structured_metadata : Text → Text
  pub join_blocks : List Text → Text
  pub is_blank : Text → Bool
  pub opens_fence : Text → Bool
  pub closes_fence : Text → Text → Bool
  pub is_heading : Text → Bool
  pub is_table : Text → Bool
  pub is_list : Text → Bool

-- `max(1, int(n * 1.3))`
abbrev pub token_count : ℕ → ℕ
token_count n = max 1 (13 * n / 10)

module _ {A : Type 0} where
  -- `xs[:n]`
  abbrev pub take : ℕ → List A → List A
  take zero xs = []
  take (suc n) [] = []
  take (suc n) (x ∷ xs) = x ∷ take n xs

  -- `xs[n:]`
  abbrev pub drop : ℕ → List A → List A
  drop zero xs = xs
  drop (suc n) [] = []
  drop (suc n) (x ∷ xs) = drop n xs

  pub take-drop : (n : ℕ) (xs : List A) → take n xs ++ drop n xs ≡ xs
  take-drop zero xs = refl
  take-drop (suc n) [] = refl
  take-drop (suc n) (x ∷ xs) = ap (λ ys. x ∷ ys) (take-drop n xs)

  pub drop-nil : (n : ℕ) → drop n [] ≡ []
  drop-nil zero = refl
  drop-nil (suc n) = refl

  pub drop-drop : (m n k : ℕ) (xs : List A) → n + m ≡ k → drop m (drop n xs) ≡ drop k xs
  drop-drop m zero k xs e = let e' : m ≡ k = omega arith in rw e' refl
  drop-drop m (suc n) zero xs e = absurd (omega arith)
  drop-drop m (suc n) (suc k) [] e = drop-nil m
  drop-drop m (suc n) (suc k) (x ∷ xs) e = drop-drop m n k xs (omega arith)

  pub take-all : (n : ℕ) (xs : List A) → length xs ≤ n → take n xs ≡ xs
  take-all zero [] h = refl
  take-all zero (x ∷ xs) h = absurd (omega arith)
  take-all (suc n) [] h = refl
  take-all (suc n) (x ∷ xs) h = ap (λ ys. x ∷ ys) (take-all n xs (omega arith))

  pub append-nil : (xs : List A) → xs ++ [] ≡ xs
  append-nil [] = refl
  append-nil (x ∷ xs) = ap (λ ys. x ∷ ys) (append-nil xs)

  pub length-drop : (n : ℕ) (xs : List A) → n ≤ length xs → length (drop n xs) + n ≡ length xs
  length-drop zero xs h = omega arith
  length-drop (suc n) [] h = absurd (omega arith)
  length-drop (suc n) (x ∷ xs) h = omega (arith, length-drop n xs (omega arith))

  pub length-take : (n : ℕ) (xs : List A) → n ≤ length xs → length (take n xs) ≡ n
  length-take zero xs h = refl
  length-take (suc n) [] h = absurd (omega arith)
  length-take (suc n) (x ∷ xs) h = omega (arith, length-take n xs (omega arith))
