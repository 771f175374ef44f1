-- ===== src/Ingestion/Worker/Vectors.antt =====
-- What the stages leave in the vector index.
use peka_saas.Common.{
  ℕ, ◌≡◌, ap, ◌∙◌, ◌⊎◌, inl, inr, refl, Bool, true, false, not, ◌&&◌, none, some, List, [], ◌∷◌,
  ◌++◌, arith, All, ◌==◌, where_rows, update_rows, Bool-cases, if◌then◌else◌, length, is_empty,
}
use peka_saas.Common.Exec.{Result, ok, err}
use peka_saas.Ingestion.Types.{
  Document, DocumentVersion, DocumentChunk, IngestionJob, embedding, indexing, deleted_from_index,
}
use peka_saas.Ingestion.Status.{accepts}
use peka_saas.Ingestion.World.{
  World, Action, Exn, VectorPoint, upsert_points, without_document, modify_version, query, ◌>>=◌,
}
use peka_saas.Ingestion.Worker.Env.{Env, records, list_chunks, get_document}
use peka_saas.Ingestion.Worker.Index.{
  embed_and_index_stage, index_chunks, store_points, points_of, texts, is_inactive, exclude, delete,
  remove_from_index, is_version_of, set_status,
}
use peka_saas.Ingestion.Worker.Restart.{Loads}

-- A point of the document belongs to the version.
abbrev pub IsOf : ℕ → ℕ → ℕ → VectorPoint → Type 0
IsOf tenant_id document_id version_id p =
    ((p.tenant_id == tenant_id && p.document_id == document_id) ≡ false)
    ⊎ (p.version_id ≡ version_id)

-- A point is not of the document.
abbrev pub IsOther : ℕ → ℕ → VectorPoint → Type 0
IsOther tenant_id document_id p = (p.tenant_id == tenant_id && p.document_id == document_id) ≡ false

where_rows-All :
    (P : VectorPoint → Type 0) (q : VectorPoint → Bool) (ps : List VectorPoint)
    → All P ps
    → All P (where_rows q ps)
where_rows-All P q [] h = tt
where_rows-All P q (p ∷ ps) h = elim (Bool-cases (q p)) [
  | inl e ↦ rw e (h.0, where_rows-All P q ps h.1)
  | inr e ↦ rw e (where_rows-All P q ps h.1)
]

append-All :
    (P : VectorPoint → Type 0) (ps : List VectorPoint) (p : VectorPoint)
    → All P ps
    → P p
    → All P (ps ++ p ∷ [])
append-All P [] p h k = (k, tt)
append-All P (x ∷ ps) p h k = (h.0, append-All P ps p h.1 k)

upsert_points-All :
    (P : VectorPoint → Type 0) (new ps : List VectorPoint)
    → All P new
    → All P ps
    → All P (upsert_points new ps)
upsert_points-All P [] ps h k = k
upsert_points-All P (p ∷ new) ps h k =
    upsert_points-All P new (where_rows (λ q. not (q.id == p.id)) ps ++ p ∷ []) h.1 (
      append-All P (where_rows (λ q. not (q.id == p.id)) ps) p
        (where_rows-All P (λ q. not (q.id == p.id)) ps k) h.0)

without_document-All :
    (tenant_id document_id : ℕ) (ps : List VectorPoint)
    → All (IsOther tenant_id document_id) (without_document tenant_id document_id ps)
without_document-All tenant_id document_id [] = tt
without_document-All tenant_id document_id (p ∷ ps) =
    elim (Bool-cases (p.tenant_id == tenant_id && p.document_id == document_id)) [
      | inl e ↦ rw e (without_document-All tenant_id document_id ps)
      | inr e ↦ rw e (e, without_document-All tenant_id document_id ps)
    ]

bind-ok :
    {A B : Type 0} (m : Action A) (f : A → Action B) (a : A) (w u : World)
    → m w ≡ (ok a, u)
    → (m >>= f) w ≡ f a u
unfolding ◌>>=◌
bind-ok {A} {B} m f a w u e = ap after e
  where
    after : Result Exn A × World → Result Exn B × World
    after r = elim r.0 [ ok a ↦ f a r.1 | err e ↦ (err e, r.1) ]

module _ (env : Env) (job : IngestionJob) (v : DocumentVersion) (d : Document) where
  points_of-IsOf :
      (cs : List DocumentChunk) (vectors : List ℕ)
      → All (IsOf job.tenant_id d.id v.id) (points_of env job v d cs vectors)
  unfolding points_of
  points_of-IsOf [] vectors = tt
  points_of-IsOf (c ∷ cs) [] = tt
  points_of-IsOf (c ∷ cs) (x ∷ xs) = (inr refl, points_of-IsOf cs xs)

  -- The stage's last statements, run from any world.
  store_points-index :
      (cs : List DocumentChunk) (vectors : List ℕ) (w : World)
      → env.delete_fault ≡ none
      → env.upsert_fault ≡ none
      → ((store_points env job v d cs vectors w).0 ≡ ok tt)
        × ((store_points env job v d cs vectors w).1.points
            ≡ upsert_points
                (points_of env job v d cs vectors)
                (without_document job.tenant_id d.id w.points))
  unfolding store_points ◌>>=◌ accepts
  store_points-index cs vectors w h k = ground arith

  -- What is left of the document, which is nothing, is of the version.
  without_document-IsOf :
      (ps : List VectorPoint)
      → All (IsOf job.tenant_id d.id v.id) (without_document job.tenant_id d.id ps)
  without_document-IsOf [] = tt
  without_document-IsOf (p ∷ ps) =
      elim (Bool-cases (p.tenant_id == job.tenant_id && p.document_id == d.id)) [
        | inl e ↦ rw e (without_document-IsOf ps)
        | inr e ↦ rw e (inl e, without_document-IsOf ps)
      ]

  records-ok : (w : World) → Loads job w v d → records job w ≡ (ok (v, d), w)
  unfolding records ◌>>=◌
  records-ok w loads = ground arith

  module _ (cs : List DocumentChunk) (vectors : List ℕ) (some_chunks : is_empty cs ≡ false)
      (may : accepts v.ingestion_status embedding ≡ true)
      (embedded : env.embed (texts cs) ≡ ok vectors)
      (fits : (length vectors == length cs) ≡ true) where
    unfoldable before : World → World
    before w =
        let a : World = modified (λ r. record r { ingestion_status = embedding }) w in
        let b : World = modified (λ r. record r { embedding_started_at = some env.now }) a in
        let c : World = record b { committed = b.working } in
        let e : World = modified (λ r. record r { embedding_completed_at = some env.now }) c in
        let f : World = modified (λ r. record r { ingestion_status = indexing }) e in
        let g : World = modified (λ r. record r { indexing_started_at = some env.now }) f in
        record g { committed = g.working }
      where
        modified : (DocumentVersion → DocumentVersion) → World → World
        modified f w = (modify_version v.id f w).1

    index_chunks-rest :
        (w : World) → index_chunks env job v d cs w ≡ store_points env job v d cs vectors (before w)
    unfolding index_chunks ◌>>=◌ accepts before
    index_chunks-rest w = rw some_chunks (rw may (rw embedded (rw fits refl)))

  module _ (w : World) (vectors : List ℕ) (loads : Loads job w v d)
      (current : is_inactive d v ≡ false)
      (some_chunks : is_empty (list_chunks job.tenant_id v.id w.working) ≡ false)
      (may : accepts v.ingestion_status embedding ≡ true)
      (embedded : env.embed (texts (list_chunks job.tenant_id v.id w.working)) ≡ ok vectors)
      (fits : (length vectors == length (list_chunks job.tenant_id v.id w.working)) ≡ true) where
    abbrev cs : List DocumentChunk
    cs = list_chunks job.tenant_id v.id w.working

    stage-store_points :
        embed_and_index_stage env job w
        ≡ store_points env job v d cs vectors (before cs vectors some_chunks may embedded fits w)
    unfolding embed_and_index_stage ◌>>=◌
    stage-store_points =
        let rest : (if is_inactive d v then exclude env job v else index_chunks env job v d cs) w
            ≡ store_points env job v d cs vectors
                (before cs vectors some_chunks may embedded fits w) =
          rw current (index_chunks-rest cs vectors some_chunks may embedded fits w) in
        let tail : DocumentVersion × Document → Action (Unit {0}) = λ r.
          query (list_chunks job.tenant_id r.0.id) >>= λ chunks.
          if is_inactive r.1 r.0
          then exclude env job r.0
          else index_chunks env job r.0 r.1 chunks in
        bind-ok (records job) tail (v, d) w w (records-ok w loads) ∙ rest

    -- When the version is the current one of a document that is not deleted, has chunks and is in a
    -- status from which it may be embedded, the provider gives one vector for each chunk and the vector
    -- store answers, the stage returns, and afterwards every point that the index holds of the document
    -- is of this version.
    pub embed_and_index-version :
        env.delete_fault ≡ none
        → env.upsert_fault ≡ none
        → ((embed_and_index_stage env job w).0 ≡ ok tt)
          × All (IsOf job.tenant_id d.id v.id) (embed_and_index_stage env job w).1.points
    embed_and_index-version no_fault no_upsert_fault =
        let u : World = before cs vectors some_chunks may embedded fits w in
        let ends = store_points-index cs vectors u no_fault no_upsert_fault in
        rw stage-store_points (
          ends.0,
          rw ends.1 (
              upsert_points-All (IsOf job.tenant_id d.id v.id) (points_of env job v d cs vectors)
                (without_document job.tenant_id d.id u.points) (points_of-IsOf cs vectors)
                (without_document-IsOf u.points)),
        )

-- The version has left the index, unless it is of another document.
abbrev pub IsGone : IngestionJob → DocumentVersion → Type 0
IsGone job v = (is_version_of job v ≡ false) ⊎ (v.ingestion_status ≡ deleted_from_index)

module _ (env : Env) (job : IngestionJob) (w : World) where
  update_rows-IsGone :
      (vs : List DocumentVersion)
      → All (IsGone job) (update_rows (is_version_of job) (set_status deleted_from_index) vs)
  update_rows-IsGone [] = tt
  update_rows-IsGone (v ∷ vs) = elim (Bool-cases (is_version_of job v)) [
    | inl e ↦ rw e (inr refl, update_rows-IsGone vs)
    | inr e ↦ rw e (inl e, update_rows-IsGone vs)
  ]

  -- When the job's document is found, is deleted and the vector store answers, the deletion returns,
  -- the index holds no point of the document, and every committed version of it is
  -- DELETED_FROM_INDEX.
  pub delete-index :
      (d : Document)
      → get_document job.tenant_id job.document_id w.working ≡ some d
      → d.is_deleted ≡ true
      → env.delete_fault ≡ none
      → ((delete env job w).0 ≡ ok tt)
        × All (IsOther job.tenant_id job.document_id) (delete env job w).1.points
        × All (IsGone job) (delete env job w).1.committed.versions
  unfolding delete remove_from_index ◌>>=◌
  delete-index d found gone no_fault = rw found (
      rw gone (
        rw no_fault (
          refl,
          without_document-All job.tenant_id job.document_id w.points,
          update_rows-IsGone _,
        )))
