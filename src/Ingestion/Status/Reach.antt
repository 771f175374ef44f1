-- ===== src/Ingestion/Status/Reach.antt =====
-- Which statuses the transition table leads through.
use peka_saas.Common.{◌≡◌, ◌⊎◌, inl, inr, true, arith, List, [], ◌∷◌}
use peka_saas.Ingestion.Types.{IngestionStatus, received, embedding, indexing, indexed}
use peka_saas.Ingestion.Status.{accepts}

-- A sequence of accepted transitions, each to the next status of the list.
abbrev pub Run : IngestionStatus → List IngestionStatus → Type 0
Run s [] = Unit
Run s (t ∷ ts) = (accepts s t ≡ true) × Run t ts

abbrev pub last : IngestionStatus → List IngestionStatus → IngestionStatus
last s [] = s
last s (t ∷ ts) = last t ts

-- The list holds the status.
abbrev pub Visits : IngestionStatus → List IngestionStatus → Type 0
Visits s [] = ⊥
Visits s (t ∷ ts) = (t ≡ s) ⊎ Visits s ts

before_indexed :
    (s t : IngestionStatus) → accepts s t ≡ true → t ≡ indexed → (s ≡ indexed) ⊎ (s ≡ indexing)
unfolding accepts
before_indexed s t h e = ground arith

before_indexing :
    (s t : IngestionStatus)
    → accepts s t ≡ true
    → (t ≡ indexed) ⊎ (t ≡ indexing)
    → (s ≡ indexed) ⊎ (s ≡ indexing) ⊎ (s ≡ embedding)
unfolding accepts
before_indexing s t h e = ground arith

-- A run that ends in `indexed` began there, or at `indexing`, or goes through `indexing`.
Visits-indexing :
    (s : IngestionStatus) (ts : List IngestionStatus)
    → Run s ts
    → last s ts ≡ indexed
    → ((s ≡ indexed) ⊎ (s ≡ indexing)) ⊎ Visits indexing ts
Visits-indexing s [] run end = inl (inl end)
Visits-indexing s (t ∷ ts) run end = elim (Visits-indexing t ts run.1 end) [
  | inl (inl e) ↦ inl (before_indexed s t run.0 e)
  | inl (inr e) ↦ inr (inl e)
  | inr v ↦ inr (inr v)
]

Visits-embedding :
    (s : IngestionStatus) (ts : List IngestionStatus)
    → Run s ts
    → last s ts ≡ indexed
    → ((s ≡ indexed) ⊎ (s ≡ indexing) ⊎ (s ≡ embedding)) ⊎ Visits embedding ts
Visits-embedding s [] run end = inl (inl end)
Visits-embedding s (t ∷ ts) run end = elim (Visits-embedding t ts run.1 end) [
  | inl (inl e) ↦ inl (before_indexing s t run.0 (inl e))
  | inl (inr (inl e)) ↦ inl (before_indexing s t run.0 (inr e))
  | inl (inr (inr e)) ↦ inr (inl e)
  | inr v ↦ inr (inr v)
]

-- Every sequence of accepted transitions that takes a version from RECEIVED to INDEXED goes
-- through EMBEDDING and through INDEXING.
pub indexed_needs_embedding :
    (ts : List IngestionStatus)
    → Run received ts
    → last received ts ≡ indexed
    → Visits embedding ts × Visits indexing ts
indexed_needs_embedding ts run end = (
  elim (Visits-embedding received ts run end) [ inl h ↦ ground arith | inr v ↦ v ],
  elim (Visits-indexing received ts run end) [ inl h ↦ ground arith | inr v ↦ v ],
)
