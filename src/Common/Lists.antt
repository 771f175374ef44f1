-- ===== src/Common/Lists.antt =====
-- Lists measured by native numbers, and the queries that the repositories make of a table:
-- a table is the list of its rows.
use Prim.Native.Nat.{ℕ, suc, ◌+◌}
use mathlib.Core.Path.{◌≡◌, refl}
use mathlib.Core.Logic.{◌⊎◌}
use mathlib.Core.Bool.{Bool, true, false}
use mathlib.Core.Option.{Option, none, some}
use mathlib.Core.List.{List, [], ◌∷◌, ◌++◌}
use native.Mathlib.Omega.{arith}
use mathlib.Core.Option
use peka_saas.Common.Tests.{if◌then◌else◌, is_none}

module _ {ℓ} {A : Type ℓ} where
  abbrev pub length : List A → ℕ
  length [] = 0
  length (x ∷ xs) = suc (length xs)

  -- `not rows`
  abbrev pub is_empty : List A → Bool
  is_empty [] = true
  is_empty (x ∷ xs) = false

  -- the rows with `where`
  abbrev pub where_rows : (A → Bool) → List A → List A
  where_rows p [] = []
  where_rows p (x ∷ xs) = let rest = where_rows p xs in if p x then x ∷ rest else rest

  -- the first row with `where`
  abbrev pub find : (A → Bool) → List A → Option A
  find p [] = none
  find p (x ∷ xs) = if p x then some x else find p xs

  -- a write to the attributes of every row with `where`
  abbrev pub update_rows : (A → Bool) → (A → A) → List A → List A
  update_rows p f [] = []
  update_rows p f (x ∷ xs) = (if p x then f x else x) ∷ update_rows p f xs

  abbrev pub count_rows : (A → Bool) → List A → ℕ
  count_rows p [] = 0
  count_rows p (x ∷ xs) = (if p x then 1 else 0) + count_rows p xs

  -- Every element has the property.
  abbrev pub All {κ} : (A → Type κ) → List A → Type κ
  All P [] = Unit
  All P (x ∷ xs) = P x × All P xs

  -- Some element has the property.
  abbrev pub Any : (A → Type 0) → List A → Type 0
  Any P [] = ⊥
  Any P (x ∷ xs) = P x ⊎ Any P xs

  pub length-append : (xs ys : List A) → length (xs ++ ys) ≡ length xs + length ys
  length-append [] ys = omega arith
  length-append (x ∷ xs) ys = omega (arith, length-append xs ys)

  -- What a query finds meets its condition.
  pub find_holds : (p : A → Bool) (xs : List A) (x : A) → find p xs ≡ some x → p x ≡ true
  find_holds p [] y h = cc
  find_holds p (x ∷ xs) y h = ground (arith, find_holds p xs y)

  -- A row that is found stays found, changed or not, by a write that keeps the condition.
  pub find-update_rows :
      (p q : A → Bool) (f : A → A)
      → ((x : A) → p (f x) ≡ p x)
      → (xs : List A)
      → find p (update_rows q f xs) ≡ Option.map (λ x. if q x then f x else x) (find p xs)
  find-update_rows p q f keep [] = refl
  find-update_rows p q f keep (x ∷ xs) = ground (arith, keep x, find-update_rows p q f keep xs)

  pub find-append :
      (p : A → Bool) (xs ys : List A)
      → find p (xs ++ ys) ≡ (if is_none (find p xs) then find p ys else find p xs)
  find-append p [] ys = refl
  find-append p (x ∷ xs) ys = ground (arith, find-append p xs ys)

  pub count_rows-append :
      (p : A → Bool) (xs ys : List A) → count_rows p (xs ++ ys) ≡ count_rows p xs + count_rows p ys
  count_rows-append p [] ys = omega arith
  count_rows-append p (x ∷ xs) ys = omega (arith, count_rows-append p xs ys)

  -- A write that keeps a condition keeps the number of rows that meet it.
  pub count_rows-update_rows :
      (p q : A → Bool) (f : A → A)
      → ((x : A) → p (f x) ≡ p x)
      → (xs : List A) → count_rows p (update_rows q f xs) ≡ count_rows p xs
  count_rows-update_rows p q f keep [] = refl
  count_rows-update_rows p q f keep (x ∷ xs) =
      ground (arith, keep x, count_rows-update_rows p q f keep xs)

  pub count_rows_of_find : (p : A → Bool) (xs : List A) → find p xs ≡ none → count_rows p xs ≡ 0
  count_rows_of_find p [] h = refl
  count_rows_of_find p (x ∷ xs) h = ground (arith, count_rows_of_find p xs)
