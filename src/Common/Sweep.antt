-- ===== src/Common/Sweep.antt =====
-- A loop that assigns to the attributes of each loaded row in turn, and what it does to the table.
use peka_saas.Common.{
  ℕ, ◌≡◌, ◌⊎◌, inl, inr, Bool, true, false, List, [], ◌∷◌, arith, ◌==◌, ==_refl, Bool-cases, All,
  update_rows, if◌then◌else◌, where_rows, ◌||◌,
}

module _ {A : Type 0} (key : A → ℕ) (f : A → A) where
  unfoldable pub sweep : List A → List A → List A
  sweep [] table = table
  sweep (x ∷ xs) table = sweep xs (update_rows (λ r. key r == key x) f table)

  abbrev pub has_key : ℕ → List A → Bool
  has_key k [] = false
  has_key k (x ∷ xs) = k == key x || has_key k xs

  module _ (P : A → Type 0) (done : (r : A) → P (f r)) (same : (r : A) → key (f r) ≡ key r) where
    -- the row is done, or its turn comes
    abbrev Pending : List A → A → Type 0
    Pending xs r = P r ⊎ (has_key (key r) xs ≡ true)

    turn :
        (x : A) (xs : List A) (r : A)
        → Pending (x ∷ xs) r
        → Pending xs (if key r == key x then f r else r)
    turn x xs r h = elim (Bool-cases (key r == key x)) [
      | inl e ↦ rw e (inl (done r))
      | inr e ↦ rw e (other h e)
    ]
      where
        other : Pending (x ∷ xs) r → (key r == key x) ≡ false → Pending xs r
        other (inl p) e = inl p
        other (inr h') e = inr (ground arith)

    turns :
        (x : A) (xs table : List A)
        → All (Pending (x ∷ xs)) table
        → All (Pending xs) (update_rows (λ r. key r == key x) f table)
    turns x xs [] h = tt
    turns x xs (r ∷ rs) h = (turn x xs r h.0, turns x xs rs h.1)

    over : (table : List A) → All (Pending []) table → All P table
    over [] h = tt
    over (r ∷ rs) h = (elim h.0 [ inl p ↦ p | inr e ↦ absurd (ground arith) ], over rs h.1)

    pub sweep-All : (xs table : List A) → All (Pending xs) table → All P (sweep xs table)
    unfolding sweep
    sweep-All [] table h = over table h
    sweep-All (x ∷ xs) table h =
        sweep-All xs (update_rows (λ r. key r == key x) f table) (turns x xs table h)

  -- Among the rows that a query returns, each row is done or its turn comes.
  pending_where :
      (p : A → Bool) (xs ys : List A)
      → ((k : ℕ) → has_key k (where_rows p xs) ≡ true → has_key k ys ≡ true)
      → All (λ r. (p r ≡ false) ⊎ (has_key (key r) ys ≡ true)) xs
  pending_where p [] ys sub = tt
  pending_where p (x ∷ xs) ys sub = elim (Bool-cases (p x)) [
    | inl e ↦ (
      inr (sub (key x) (rw e (ground (arith, ==_refl (key x))))),
      pending_where p xs ys (λ k h. sub k (rw e (ground (arith, h)))),
    )
    | inr e ↦ (inl e, pending_where p xs ys (λ k h. sub k (rw e h)))
  ]

  pending-All :
      (P : A → Type 0) (xs ys : List A)
      → ((k : ℕ) → has_key k xs ≡ true → has_key k ys ≡ true)
      → All (λ r. P r ⊎ (has_key (key r) ys ≡ true)) xs
  pending-All P [] ys sub = tt
  pending-All P (x ∷ xs) ys sub = (
    inr (sub (key x) (ground (arith, ==_refl (key x)))),
    pending-All P xs ys (λ k h. sub k (ground (arith, h))),
  )

  -- A loop over all rows leaves every row done.
  pub sweep-whole-All :
      (P : A → Type 0)
      → ((r : A) → P (f r))
      → ((r : A) → key (f r) ≡ key r)
      → (xs : List A) → All P (sweep xs xs)
  sweep-whole-All P done same xs = sweep-All P done same xs xs (pending-All P xs xs (λ k h. h))

  -- A loop over the rows with a condition that the assignment ends leaves no such row.
  pub sweep_where-All :
      (p : A → Bool)
      → ((r : A) → p (f r) ≡ false)
      → ((r : A) → key (f r) ≡ key r)
      → (xs : List A) → All (λ r. p r ≡ false) (sweep (where_rows p xs) xs)
  sweep_where-All p done same xs =
      sweep-All (λ r. p r ≡ false) done same (where_rows p xs) xs
        (pending_where p xs (where_rows p xs) (λ k h. h))
