-- ===== src/Common/Guarded.antt =====
-- Tables that keep at least one row with a condition, under the writes of a call.
use peka_saas.Common.{
  ℕ, ◌≤◌, ◌≡◌, ◌≢◌, ◌⊎◌, inl, inr, sym, subst, Bool, true, false, List, [], ◌∷◌, ◌++◌, arith, All,
  Any, update_rows, count_rows, count_rows-append, ◌==◌,
}
use peka_saas.Common.Keyed.{IsKeyed, IsKeyed-add, IsKeyed-update, count-update}

module _ {A : Type 0} (key : A → ℕ) where
  -- The table as it was, or a write to a row that the call found.
  abbrev pub Wrote : (A → A) → (A → Type 0) → List A → List A → Type 0
  Wrote f P xs ys =
      (ys ≡ xs)
      ⊎ ((r : A) × Any (λ x. x ≡ r) xs × P r × (ys ≡ update_rows (λ x. key x == key r) f xs))

  -- A write to the rows of a key, or none.
  abbrev pub Touched : (A → A) → List A → List A → Type 0
  Touched f xs ys = (ys ≡ xs) ⊎ ((k : ℕ) × (ys ≡ update_rows (λ x. key x == k) f xs))

  -- A new row, or none.
  abbrev pub Added : A → List A → List A → Type 0
  Added r xs ys = (ys ≡ xs) ⊎ (ys ≡ xs ++ r ∷ [])

  module _ (p : A → Bool) where
    -- The keys differ, and a row has the condition.
    abbrev pub IsManned : List A → Type 0
    IsManned xs = IsKeyed key xs × (1 ≤ count_rows p xs)

    grown :
        (q : A → Bool) (f : A → A)
        → ((x : A) → p x ≡ true → p (f x) ≡ true)
        → (xs : List A) → count_rows p xs ≤ count_rows p (update_rows q f xs)
    grown q f keep [] = omega arith
    grown q f keep (x ∷ xs) = ground (arith, keep x, grown q f keep xs)

    module _ (xs ys : List A) (h : IsManned xs) where
      pub Touched-IsManned :
          (f : A → A)
          → ((x : A) → key (f x) ≡ key x)
          → ((x : A) → p x ≡ true → p (f x) ≡ true)
          → Touched f xs ys
          → IsManned ys
      Touched-IsManned f same keep (inl e) = subst IsManned (sym e) h
      Touched-IsManned f same keep (inr (k, e)) = subst IsManned (sym e) (
        IsKeyed-update key f (λ x. key x == k) same xs h.0,
        omega (arith, h.1, grown (λ x. key x == k) f keep xs),
      )

      pub Added-IsManned : (r : A) → All (λ x. key x ≢ key r) xs → Added r xs ys → IsManned ys
      Added-IsManned r fresh (inl e) = subst IsManned (sym e) h
      Added-IsManned r fresh (inr e) =
          subst IsManned (sym e)
            (IsKeyed-add key r xs fresh h.0, omega (arith, h.1, count_rows-append p xs (r ∷ [])))

      -- The guard sees to it that another row has the condition.
      pub Wrote-IsManned :
          (f : A → A) (P : A → Type 0)
          → ((x : A) → key (f x) ≡ key x)
          → ((r : A)
              → P r
              → p r ≡ true
              → p (f r) ≡ false
              → (2 ≤ count_rows p xs) ⊎ (1 ≤ count_rows p (update_rows (λ x. key x == key r) f xs)))
          → Wrote f P xs ys
          → IsManned ys
      Wrote-IsManned f P same guard (inl e) = subst IsManned (sym e) h
      Wrote-IsManned f P same guard (inr (r, found, holds, e)) = subst IsManned (sym e) (
        IsKeyed-update key f (λ x. key x == key r) same xs h.0,
        ground (arith, h.1, guard r holds, count-update key p f r xs h.0 found),
      )

    -- A row that a write leaves out still counts.
    pub left_out :
        (k other : ℕ) (f : A → A) (xs : List A)
        → other ≢ k
        → Any (λ x. (key x ≡ other) × (p x ≡ true)) xs
        → 1 ≤ count_rows p (update_rows (λ x. key x == k) f xs)
    left_out k other f [] ne h = absurd h
    left_out k other f (x ∷ xs) ne (inl h) =
        let apart : (key x == k) ≡ false = ground (arith, h.0) in rw apart (ground (arith, h.1))
    left_out k other f (x ∷ xs) ne (inr h) = omega (arith, left_out k other f xs ne h)
