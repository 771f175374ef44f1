-- ===== src/Tools/Requests/Ordered.antt =====
-- The order in which `create` looks at connectors.
use peka_saas.Common.{
  ℕ, ◌≤◌, ◌≡◌, ◌⊎◌, inl, inr, subst, Bool, true, false, some, List, [], ◌∷◌, arith, All, Any,
  where_rows, find, Bool-cases, or_else,
}
use peka_saas.Connector.Types.{ManagedConnector}
use peka_saas.Tools.Requests.{precedes, insert, ordered}

module _ (P : ManagedConnector → Type 0) where
  insert-Any :
      (c : ManagedConnector) (ds : List ManagedConnector) → P c ⊎ Any P ds → Any P (insert c ds)
  unfolding insert
  insert-Any c [] h = h
  insert-Any c (d ∷ ds) h = elim (Bool-cases (precedes c d)) [
    | inl e ↦ rw e h
    | inr e ↦ rw e (elim h [
      | inl hc ↦ inr (insert-Any c ds (inl hc))
      | inr (inl hd) ↦ inl hd
      | inr (inr hds) ↦ inr (insert-Any c ds (inr hds))
    ])
  ]

  Any-insert :
      (c : ManagedConnector) (ds : List ManagedConnector) → Any P (insert c ds) → P c ⊎ Any P ds
  unfolding insert
  Any-insert c [] h = h
  Any-insert c (d ∷ ds) h = elim (Bool-cases (precedes c d)) [
    | inl e ↦ rw e at h
    | inr e ↦ elim (rw e at h) [
      | inl hd ↦ inr (inl hd)
      | inr hds ↦ elim (Any-insert c ds hds) [ inl hc ↦ inl hc | inr x ↦ inr (inr x) ]
    ]
  ]

  pub ordered-Any : (cs : List ManagedConnector) → Any P cs → Any P (ordered cs)
  unfolding ordered
  ordered-Any [] h = h
  ordered-Any (c ∷ cs) (inl h) = insert-Any c (ordered cs) (inl h)
  ordered-Any (c ∷ cs) (inr h) = insert-Any c (ordered cs) (inr (ordered-Any cs h))

  pub Any-ordered : (cs : List ManagedConnector) → Any P (ordered cs) → Any P cs
  unfolding ordered
  Any-ordered [] h = h
  Any-ordered (c ∷ cs) h = elim (Any-insert c (ordered cs) h) [
    | inl hc ↦ inl hc
    | inr hcs ↦ inr (Any-ordered cs hcs)
  ]

  insert-All :
      (c : ManagedConnector) (ds : List ManagedConnector) → All P (insert c ds) → P c × All P ds
  unfolding insert
  insert-All c [] h = h
  insert-All c (d ∷ ds) h = elim (Bool-cases (precedes c d)) [
    | inl e ↦ rw e at h
    | inr e ↦
        let (hd, rest) : P d × All P (insert c ds) = rw e at h in
        let (hc, hds) = insert-All c ds rest in (hc, (hd, hds))
  ]

  All-insert :
      (c : ManagedConnector) (ds : List ManagedConnector) → P c → All P ds → All P (insert c ds)
  unfolding insert
  All-insert c [] hc h = (hc, tt)
  All-insert c (d ∷ ds) hc h = elim (Bool-cases (precedes c d)) [
    | inl e ↦ rw e (hc, h)
    | inr e ↦ rw e (h.0, All-insert c ds hc h.1)
  ]

  pub ordered-All : (cs : List ManagedConnector) → All P (ordered cs) → All P cs
  unfolding ordered
  ordered-All [] h = tt
  ordered-All (c ∷ cs) h = let (hc, rest) = insert-All c (ordered cs) h in (hc, ordered-All cs rest)

  pub where_rows-Any :
      (q : ManagedConnector → Bool) (cs : List ManagedConnector)
      → Any (λ c. (q c ≡ true) × P c) cs
      → Any P (where_rows q cs)
  where_rows-Any q [] h = h
  where_rows-Any q (c ∷ cs) (inl h) = rw h.0 (inl h.1)
  where_rows-Any q (c ∷ cs) (inr h) = elim (Bool-cases (q c)) [
    | inl e ↦ rw e (inr (where_rows-Any q cs h))
    | inr e ↦ rw e (where_rows-Any q cs h)
  ]

  pub Any-where_rows :
      (q : ManagedConnector → Bool) (cs : List ManagedConnector)
      → Any P (where_rows q cs)
      → Any (λ c. (q c ≡ true) × P c) cs
  Any-where_rows q [] h = h
  Any-where_rows q (c ∷ cs) h = elim (Bool-cases (q c)) [
    | inl e ↦ elim (rw e at h) [ inl hc ↦ inl (e, hc) | inr hcs ↦ inr (Any-where_rows q cs hcs) ]
    | inr e ↦ inr (Any-where_rows q cs (rw e at h))
  ]

  pub where_rows-All :
      (q : ManagedConnector → Bool) (cs : List ManagedConnector)
      → All P (where_rows q cs)
      → All (λ c. q c ≡ true → P c) cs
  where_rows-All q [] h = tt
  where_rows-All q (c ∷ cs) h = elim (Bool-cases (q c)) [
    | inl e ↦
        let (hc, rest) : P c × All P (where_rows q cs) = rw e at h in
        (λ _. hc, where_rows-All q cs rest)
    | inr e ↦ (λ e'. absurd (ground (arith, e, e')), where_rows-All q cs (rw e at h))
  ]

-- The time at which a connector was seen, for one that was.
abbrev pub seen : ManagedConnector → ℕ
seen c = or_else c.last_seen_at 0

precedes-seen : (c d : ManagedConnector) → precedes c d ≡ true → seen d ≤ seen c
unfolding precedes
precedes-seen c d h = ground arith

not_precedes-seen : (c d : ManagedConnector) → precedes c d ≡ false → seen c ≤ seen d
unfolding precedes
not_precedes-seen c d h = ground arith

-- The connectors stand in the order of `seen`, the latest first.
abbrev pub IsSorted : List ManagedConnector → Type 0
IsSorted [] = Unit
IsSorted (c ∷ cs) = All (λ d. seen d ≤ seen c) cs × IsSorted cs

lower :
    (m n : ℕ) (cs : List ManagedConnector)
    → m ≤ n
    → All (λ d. seen d ≤ m) cs
    → All (λ d. seen d ≤ n) cs
lower m n [] le h = tt
lower m n (c ∷ cs) le h = (omega (arith, h.0), lower m n cs le h.1)

insert-IsSorted :
    (c : ManagedConnector) (ds : List ManagedConnector) → IsSorted ds → IsSorted (insert c ds)
unfolding insert
insert-IsSorted c [] h = (tt, tt)
insert-IsSorted c (d ∷ ds) h = elim (Bool-cases (precedes c d)) [
  | inl e ↦ rw e ((precedes-seen c d e, lower (seen d) (seen c) ds (precedes-seen c d e) h.0), h)
  | inr e ↦ rw e (
    All-insert (λ x. seen x ≤ seen d) c ds (not_precedes-seen c d e) h.0,
    insert-IsSorted c ds h.1,
  )
]

pub ordered-IsSorted : (cs : List ManagedConnector) → IsSorted (ordered cs)
unfolding ordered
ordered-IsSorted [] = tt
ordered-IsSorted (c ∷ cs) = insert-IsSorted c (ordered cs) (ordered-IsSorted cs)

-- The first fresh connector was seen last of the fresh ones.
pub find-latest :
    (p : ManagedConnector → Bool) (cs : List ManagedConnector) (c : ManagedConnector)
    → IsSorted cs
    → find p cs ≡ some c
    → All (λ d. p d ≡ true → seen d ≤ seen c) cs
find-latest p [] c sorted h = tt
find-latest p (d ∷ ds) c sorted h = elim (Bool-cases (p d)) [
  | inl e ↦
      let same : d ≡ c = ground arith in
      subst (λ x. All (λ y. p y ≡ true → seen y ≤ seen x) (d ∷ ds)) same
        (λ _. omega arith, weaken ds sorted.0)
  | inr e ↦ (λ e'. absurd (ground arith), find-latest p ds c sorted.1 (ground arith))
]
  where
    weaken :
        (xs : List ManagedConnector)
        → All (λ x. seen x ≤ seen d) xs
        → All (λ x. p x ≡ true → seen x ≤ seen d) xs
    weaken [] k = tt
    weaken (x ∷ xs) k = (λ _. k.0, weaken xs k.1)

pub find-some :
    (p : ManagedConnector → Bool) (cs : List ManagedConnector)
    → Any (λ c. p c ≡ true) cs
    → (c : ManagedConnector) × (find p cs ≡ some c)
find-some p [] h = absurd h
find-some p (c ∷ cs) h = elim (Bool-cases (p c)) [
  | inl e ↦ (c, ground arith)
  | inr e ↦ elim h [
    | inl e' ↦ absurd (ground (arith, e, e'))
    | inr rest ↦ let (d, found) = find-some p cs rest in (d, ground arith)
  ]
]
