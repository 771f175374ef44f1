-- ===== src/Common/Keyed.antt =====
-- Tables with a primary key, and how a write to one loaded row changes them.
use peka_saas.Common.{
  ℕ, ◌+◌, count_rows, ◌≡◌, ◌≢◌, ◌⊎◌, inl, inr, refl, sym, Bool, true, false, some, List, [], ◌∷◌,
  ◌++◌, arith, All, Any, update_rows, find, ◌==◌, if◌then◌else◌, Bool-cases, eq_of_==, ==_refl,
  subst,
}

module _ {A : Type 0} where
  -- What a query finds is a row of the table.
  pub find-Any : (p : A → Bool) (xs : List A) (x : A) → find p xs ≡ some x → Any (λ y. y ≡ x) xs
  find-Any p [] x h = cc
  find-Any p (y ∷ xs) x h = elim (found h) [
    | inl same ↦ inl same
    | inr later ↦ inr (find-Any p xs x later)
  ]
    where
      found : find p (y ∷ xs) ≡ some x → (y ≡ x) ⊎ (find p xs ≡ some x)
      found h = ground arith

module _ {A : Type 0} (key : A → ℕ) where
  -- No two rows have the same key.
  abbrev pub IsKeyed : List A → Type 0
  IsKeyed [] = Unit
  IsKeyed (x ∷ xs) = All (λ y. key y ≢ key x) xs × IsKeyed xs

  All-add :
      (k : ℕ) (x : A) (xs : List A)
      → All (λ y. key y ≢ k) xs
      → key x ≢ k
      → All (λ y. key y ≢ k) (xs ++ x ∷ [])
  All-add k x [] h ne = (ne, tt)
  All-add k x (y ∷ xs) h ne = (h.0, All-add k x xs h.1 ne)

  other : (k : ℕ) (r : A) (xs : List A) → All (λ y. key y ≢ k) xs → Any (λ y. y ≡ r) xs → key r ≢ k
  other k r [] ne h = absurd h
  other k r (x ∷ xs) ne (inl e) = subst (λ z. key z ≢ k) e ne.0
  other k r (x ∷ xs) ne (inr h) = other k r xs ne.1 h

  -- The row that a write to the row of its key leaves.
  pub Any-update :
      (f : A → A) (r : A) (xs : List A)
      → Any (λ y. y ≡ r) xs
      → Any (λ y. y ≡ f r) (update_rows (λ x. key x == key r) f xs)
  Any-update f r [] h = absurd h
  Any-update f r (x ∷ xs) (inl e) = inl (ground (arith, ==_refl (key r)))
  Any-update f r (x ∷ xs) (inr h) = inr (Any-update f r xs h)

  count-absent :
      (p : A → Bool) (f : A → A) (k : ℕ) (xs : List A)
      → All (λ y. key y ≢ k) xs
      → count_rows p (update_rows (λ x. key x == k) f xs) ≡ count_rows p xs
  count-absent p f k [] h = refl
  count-absent p f k (x ∷ xs) h = ground (arith, h.0, count-absent p f k xs h.1)

  -- How a write to one row changes the number of rows with a condition.
  pub count-update :
      (p : A → Bool) (f : A → A) (r : A) (xs : List A)
      → IsKeyed xs
      → Any (λ y. y ≡ r) xs
      → count_rows p (update_rows (λ x. key x == key r) f xs) + (if p r then 1 else 0)
        ≡ count_rows p xs + (if p (f r) then 1 else 0)
  count-update p f r [] keyed h = absurd h
  count-update p f r (x ∷ xs) keyed (inl e) =
      subst
        (λ z.
          count_rows p (update_rows (λ y. key y == key r) f (z ∷ xs)) + (if p r then 1 else 0)
          ≡ count_rows p (z ∷ xs) + (if p (f r) then 1 else 0))
        (sym e)
        (rw (==_refl (key r)) (
          omega (
            arith,
            count-absent p f (key r) xs (subst (λ z. All (λ y. key y ≢ key z) xs) e keyed.0),
          )))
  count-update p f r (x ∷ xs) keyed (inr h) =
      let ne : (key x == key r) ≡ false = ground (arith, other (key x) r xs keyed.0 h) in
      rw ne (omega (arith, count-update p f r xs keyed.1 h))

  -- A query for the key of a row finds the row, if the row meets the condition.
  pub find-key :
      (p : A → Bool) (r : A) (xs : List A)
      → IsKeyed xs
      → Any (λ y. y ≡ r) xs
      → p r ≡ true
      → ((x : A) → p x ≡ true → key x ≡ key r)
      → find p xs ≡ some r
  find-key p r [] keyed h meets only = absurd h
  find-key p r (x ∷ xs) keyed (inl e) meets only = ground (arith, e, meets)
  find-key p r (x ∷ xs) keyed (inr h) meets only =
      ground (arith, other (key x) r xs keyed.0 h, only x, find-key p r xs keyed.1 h meets only)

  -- What some row of a key has, the row of the key has.
  pub IsKeyed-same :
      (P : A → Type 0) (r : A) (xs : List A)
      → IsKeyed xs
      → Any (λ y. y ≡ r) xs
      → Any (λ y. (key y ≡ key r) × P y) xs
      → P r
  IsKeyed-same P r [] keyed h found = absurd h
  IsKeyed-same P r (x ∷ xs) keyed (inl e) (inl p) = subst P e p.1
  IsKeyed-same P r (x ∷ xs) keyed (inl e) (inr later) = absurd (
      elsewhere (key x) xs keyed.0 (subst (λ z. Any (λ y. (key y ≡ key z) × P y) xs) (sym e) later))
    where
      elsewhere :
          (k : ℕ) (ys : List A) → All (λ y. key y ≢ k) ys → Any (λ y. (key y ≡ k) × P y) ys → ⊥
      elsewhere k [] ne h = h
      elsewhere k (y ∷ ys) ne (inl h) = ne.0 h.0
      elsewhere k (y ∷ ys) ne (inr h) = elsewhere k ys ne.1 h
  IsKeyed-same P r (x ∷ xs) keyed (inr h) (inl p) = absurd (other (key x) r xs keyed.0 h (sym p.0))
  IsKeyed-same P r (x ∷ xs) keyed (inr h) (inr later) = IsKeyed-same P r xs keyed.1 h later

  -- A row with a new key may be added.
  pub IsKeyed-add :
      (x : A) (xs : List A) → All (λ y. key y ≢ key x) xs → IsKeyed xs → IsKeyed (xs ++ x ∷ [])
  IsKeyed-add x [] h keyed = (tt, tt)
  IsKeyed-add x (y ∷ xs) h keyed =
      (All-add (key y) x xs keyed.0 (λ e. h.0 (sym e)), IsKeyed-add x xs h.1 keyed.1)

  module _ (f : A → A) (p : A → Bool) (same : (x : A) → key (f x) ≡ key x) where
    All-update :
        (k : ℕ) (xs : List A) → All (λ y. key y ≢ k) xs → All (λ y. key y ≢ k) (update_rows p f xs)
    All-update k [] h = tt
    All-update k (x ∷ xs) h = (ground (arith, same x, h.0), All-update k xs h.1)

    head-key : (x : A) → key (if p x then f x else x) ≡ key x
    head-key x = ground (arith, same x)

    -- A write that keeps the key keeps the keys different.
    pub IsKeyed-update : (xs : List A) → IsKeyed xs → IsKeyed (update_rows p f xs)
    IsKeyed-update [] h = tt
    IsKeyed-update (x ∷ xs) h = (rw (head-key x) (All-update (key x) xs h.0), IsKeyed-update xs h.1)

  module _ (R : A → A → Type 0) (new : A → Type 0) where
    -- Each row has become a related one in its place, and the rows that follow are new.
    abbrev pub Follow : List A → List A → Type 0
    Follow [] ys = All new ys
    Follow (x ∷ xs) [] = ⊥
    Follow (x ∷ xs) (y ∷ ys) = R x y × Follow xs ys

    module _ (stay : (x : A) → R x x) where
      pub Follow-refl : (xs : List A) → Follow xs xs
      Follow-refl [] = tt
      Follow-refl (x ∷ xs) = (stay x, Follow-refl xs)

      pub Follow-add : (xs : List A) (y : A) → new y → Follow xs (xs ++ y ∷ [])
      Follow-add [] y h = (h, tt)
      Follow-add (x ∷ xs) y h = (stay x, Follow-add xs y h)

      -- A write to all rows with a condition.
      pub Follow-where :
          (p : A → Bool) (f : A → A)
          → ((x : A) → p x ≡ true → R x (f x))
          → (xs : List A) → Follow xs (update_rows p f xs)
      Follow-where p f h [] = tt
      Follow-where p f h (x ∷ xs) = (
        elim (Bool-cases (p x)) [ inl e ↦ rw e (h x e) | inr e ↦ rw e (stay x) ],
        Follow-where p f h xs,
      )

      absent :
          (k : ℕ) (f : A → A) (xs : List A)
          → All (λ y. key y ≢ k) xs
          → Follow xs (update_rows (λ x. key x == k) f xs)
      absent k f [] h = tt
      absent k f (x ∷ xs) h = (
        elim (Bool-cases (key x == k)) [
          | inl e ↦ absurd (h.0 (eq_of_== (key x) k e))
          | inr e ↦ rw e (stay x)
        ],
        absent k f xs h.1,
      )

      -- A write to the row that a query has found.
      pub Follow-key :
          (f : A → A) (r : A)
          → R r (f r)
          → (xs : List A) → IsKeyed xs
          → Any (λ y. y ≡ r) xs
          → Follow xs (update_rows (λ x. key x == key r) f xs)
      Follow-key f r step [] keyed h = absurd h
      Follow-key f r step (x ∷ xs) keyed (inl e) =
          subst (λ z. Follow (z ∷ xs) (update_rows (λ y. key y == key r) f (z ∷ xs))) (sym e)
            (rw (==_refl (key r))
              (step, absent (key r) f xs (subst (λ z. All (λ y. key y ≢ key z) xs) e keyed.0)))
      Follow-key f r step (x ∷ xs) keyed (inr h) =
          let ne : (key x == key r) ≡ false = ground (arith, other (key x) r xs keyed.0 h) in
          rw ne (stay x, Follow-key f r step xs keyed.1 h)
