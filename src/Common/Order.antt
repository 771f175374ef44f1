-- ===== src/Common/Order.antt =====
-- The first row of a query with `order_by` on one column.
use peka_saas.Common.{
  ℕ, ◌≡◌, ◌⊎◌, inl, inr, Bool, true, false, Option, none, some, List, [], ◌∷◌, arith, All,
  Option-cases, leb, if◌then◌else◌, Any,
}

module _ {A : Type 0} (key : A → ℕ) where
  -- the earlier of two rows; a tie is the first of the table
  abbrev earlier : A → Option A → Option A
  earlier x none = some x
  earlier x (some y) = if leb (key x) (key y) then some x else some y

  unfoldable pub earliest : (A → Bool) → List A → Option A
  earliest p [] = none
  earliest p (x ∷ xs) = let rest = earliest p xs in if p x then earlier x rest else rest

  -- the later of two rows; a tie is the first of the table
  abbrev later : A → Option A → Option A
  later x none = some x
  later x (some y) = if leb (key y) (key x) then some x else some y

  unfoldable pub latest : (A → Bool) → List A → Option A
  latest p [] = none
  latest p (x ∷ xs) = let rest = latest p xs in if p x then later x rest else rest

  pub earliest_holds : (p : A → Bool) (xs : List A) (x : A) → earliest p xs ≡ some x → p x ≡ true
  unfolding earliest
  earliest_holds p [] x h = cc
  earliest_holds p (y ∷ xs) x h = elim (Option-cases (earliest p xs)) [
    | inl e ↦ ground arith
    | inr (z, e) ↦ ground (arith, earliest_holds p xs z e)
  ]

  pub earliest-none :
      (p : A → Bool) (xs : List A) → earliest p xs ≡ none → All (λ x. p x ≡ false) xs
  unfolding earliest
  earliest-none p [] h = tt
  earliest-none p (x ∷ xs) h = elim (Option-cases (earliest p xs)) [
    | inl e ↦ (ground arith, earliest-none p xs e)
    | inr (z, e) ↦ absurd (ground arith)
  ]

  pub earliest-Any :
      (p : A → Bool) (xs : List A) (x : A) → earliest p xs ≡ some x → Any (λ y. y ≡ x) xs
  unfolding earliest
  earliest-Any p [] x h = cc
  earliest-Any p (y ∷ xs) x h = elim (Option-cases (earliest p xs)) [
    | inl e ↦ inl (ground arith)
    | inr (z, e) ↦ elim (picked z e) [
      | inl same ↦ inl same
      | inr found ↦ inr (earliest-Any p xs x found)
    ]
  ]
    where
      picked : (z : A) → earliest p xs ≡ some z → (y ≡ x) ⊎ (earliest p xs ≡ some x)
      picked z e = ground arith
