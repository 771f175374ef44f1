-- ===== src/Ingestion/Queue/Active.antt =====
-- The queue holds at most one active job of a type for a version, and one deletion for a document.
use peka_saas.Common.{
  ℕ, ◌≤◌, ◌≡◌, ◌⊎◌, refl, ap, sym, subst, ◌∙◌, Bool, true, false, Option, none, some, List, [], ◌∷◌,
  ◌++◌, arith, All, count_rows, count_rows-append, Option-cases, inl, inr, Bool-cases, is_some,
}
use peka_saas.Common.Exec.{ok}
use peka_saas.Ingestion.Types.{
  Text, IngestionJob, IngestionJobType, delete_from_index, same_type, pipeline, parse_document,
  chunk_document, embed_and_index, reindex_document,
}
use peka_saas.Ingestion.World.{◌>>=◌, World}
use peka_saas.Ingestion.Queue.{
  oldest, enqueue_job, existing_job, NewJob, new_job, is_active_for_version, is_active_for_document,
}
use peka_saas.Ingestion.Queue.Claims.{oldest-none}

pub record IsUnique (jobs : List IngestionJob) : Type 0 where
  pub versions :
      (version_id : ℕ) (t : IngestionJobType)
      → same_type t delete_from_index ≡ false
      → count_rows (is_active_for_version version_id t) jobs ≤ 1
  pub deletions :
      (document_id : ℕ) → count_rows (is_active_for_document document_id delete_from_index) jobs ≤ 1

count_none :
    (p : IngestionJob → Bool) (js : List IngestionJob)
    → All (λ k. p k ≡ false) js
    → count_rows p js ≡ 0
count_none p [] h = refl
count_none p (j ∷ js) h = ground (arith, h.0, count_none p js h.1)

same_type-eq : (a b : IngestionJobType) → same_type a b ≡ true → a ≡ b
unfolding same_type
same_type-eq a b h = ground arith

-- The row that is added for a version competes only with the rows that were searched.
version_row :
    (fresh : NewJob) (tenant_id document_id v : ℕ) (t : IngestionJobType)
    (correlation_id : Option Text) (u : ℕ) (s : IngestionJobType)
    → is_active_for_version u s (new_job fresh tenant_id document_id (some v) t correlation_id)
      ≡ true
    → (u ≡ v) × (s ≡ t)
version_row fresh tenant_id document_id v t correlation_id u s h =
    (ground arith, sym (same_type-eq t s (ground arith)))

document_row :
    (fresh : NewJob) (tenant_id document_id : ℕ) (version_id : Option ℕ) (t : IngestionJobType)
    (correlation_id : Option Text) (d : ℕ)
    → is_active_for_document d delete_from_index
        (new_job fresh tenant_id document_id version_id t correlation_id)
      ≡ true
    → (d ≡ document_id) × (same_type t delete_from_index ≡ true)
document_row fresh tenant_id document_id version_id t correlation_id d h =
    (ground arith, ground arith)

deletion_row :
    (fresh : NewJob) (tenant_id document_id : ℕ) (v : Option ℕ) (c : Option Text) (u : ℕ)
    (s : IngestionJobType)
    → is_active_for_version u s (new_job fresh tenant_id document_id v delete_from_index c) ≡ true
    → same_type s delete_from_index ≡ true
unfolding same_type
deletion_row fresh tenant_id document_id v c u s e = ground arith

count-add :
    (p : IngestionJob → Bool) (js : List IngestionJob) (k : IngestionJob)
    → (p k ≡ true → All (λ j. p j ≡ false) js)
    → count_rows p js ≤ 1
    → count_rows p (js ++ k ∷ []) ≤ 1
count-add p js k free h = elim (Bool-cases (p k)) [
  | inl e ↦ ground (arith, count_rows-append p js (k ∷ []), count_none p js (free e))
  | inr e ↦ ground (arith, count_rows-append p js (k ∷ []))
]

existing_deletion :
    (d : ℕ) (v : Option ℕ) (w : World)
    → existing_job d v delete_from_index w.working
      ≡ oldest (is_active_for_document d delete_from_index) w.working.jobs
unfolding existing_job
existing_deletion d none w = refl
existing_deletion d (some v) w = refl

existing_version :
    (d v : ℕ) (t : IngestionJobType) (w : World)
    → same_type t delete_from_index ≡ false
    → existing_job d (some v) t w.working ≡ oldest (is_active_for_version v t) w.working.jobs
unfolding existing_job same_type
existing_version d v pipeline w h = refl
existing_version d v parse_document w h = refl
existing_version d v chunk_document w h = refl
existing_version d v embed_and_index w h = refl
existing_version d v reindex_document w h = refl
existing_version d v delete_from_index w h = cc

-- What `enqueue_job` does by what it finds.
enqueue_job-some :
    (fresh : NewJob) (tenant_id d : ℕ) (v : Option ℕ) (t : IngestionJobType) (c : Option Text)
    (w : World) (j : IngestionJob)
    → existing_job d v t w.working ≡ some j
    → enqueue_job fresh tenant_id d v t c w ≡ (ok j, w)
unfolding enqueue_job ◌>>=◌
enqueue_job-some fresh tenant_id d v t c w j e = rw e refl

enqueue_job-none :
    (fresh : NewJob) (tenant_id d : ℕ) (v : Option ℕ) (t : IngestionJobType) (c : Option Text)
    (w : World)
    → existing_job d v t w.working ≡ none
    → (enqueue_job fresh tenant_id d v t c w).1.working.jobs
      ≡ w.working.jobs ++ new_job fresh tenant_id d v t c ∷ []
unfolding enqueue_job ◌>>=◌
enqueue_job-none fresh tenant_id d v t c w e = rw e refl

module _ (fresh : NewJob) (tenant_id document_id : ℕ) (c : Option Text) (w : World)
    (unique : IsUnique w.working.jobs) where
  enqueue_version-added :
      (v : ℕ) (t : IngestionJobType)
      → same_type t delete_from_index ≡ false
      → All (λ j. is_active_for_version v t j ≡ false) w.working.jobs
      → IsUnique (w.working.jobs ++ new_job fresh tenant_id document_id (some v) t c ∷ [])
  enqueue_version-added v t other free =
      let k : IngestionJob = new_job fresh tenant_id document_id (some v) t c in
      record {
        versions = λ u s h.
            count-add (is_active_for_version u s) w.working.jobs k
              (λ e.
                let same = version_row fresh tenant_id document_id v t c u s e in
                rw (same.0, same.1) free)
              (unique.versions u s h);
        deletions = λ d.
            count-add (is_active_for_document d delete_from_index) w.working.jobs k
              (λ e.
                absurd (ground (arith, document_row fresh tenant_id document_id (some v) t c d e)))
              (unique.deletions d);
      }

  enqueue_deletion-added :
      (v : Option ℕ)
      → All (λ j. is_active_for_document document_id delete_from_index j ≡ false) w.working.jobs
      → IsUnique (w.working.jobs ++ new_job fresh tenant_id document_id v delete_from_index c ∷ [])
  enqueue_deletion-added v free =
      let k : IngestionJob = new_job fresh tenant_id document_id v delete_from_index c in
      record {
        versions = λ u s h.
            count-add (is_active_for_version u s) w.working.jobs k
              (λ e. absurd (ground (arith, deletion_row fresh tenant_id document_id v c u s e, h)))
              (unique.versions u s h);
        deletions = λ d.
            count-add (is_active_for_document d delete_from_index) w.working.jobs k
              (λ e. rw (document_row fresh tenant_id document_id v delete_from_index c d e).0 free)
              (unique.deletions d);
      }

  -- When the queue holds at most one active job of each type for a version, and at most one active
  -- deletion for a document, it does so after `enqueue_job` for a version or of a deletion.
  pub enqueue_job-IsUnique :
      (v : Option ℕ) (t : IngestionJobType)
      → (same_type t delete_from_index ≡ true) ⊎ (is_some v ≡ true)
      → IsUnique (enqueue_job fresh tenant_id document_id v t c w).1.working.jobs
  enqueue_job-IsUnique v t named = elim (Option-cases (existing_job document_id v t w.working)) [
    | inr (j, e) ↦ rw (enqueue_job-some fresh tenant_id document_id v t c w j e) unique
    | inl e ↦ rw (enqueue_job-none fresh tenant_id document_id v t c w e) (added v t named e)
  ]
    where
      added :
          (v : Option ℕ) (t : IngestionJobType)
          → (same_type t delete_from_index ≡ true) ⊎ (is_some v ≡ true)
          → existing_job document_id v t w.working ≡ none
          → IsUnique (w.working.jobs ++ new_job fresh tenant_id document_id v t c ∷ [])
      added v t named e = elim (Bool-cases (same_type t delete_from_index)) [
        | inl deletion ↦
            let same : t ≡ delete_from_index = same_type-eq t delete_from_index deletion in
            subst (λ s. IsUnique (w.working.jobs ++ new_job fresh tenant_id document_id v s c ∷ []))
              (sym same)
              (enqueue_deletion-added v (
                oldest-none (is_active_for_document document_id delete_from_index) w.working.jobs (
                  sym (existing_deletion document_id v w)
                  ∙ ap (λ s. existing_job document_id v s w.working) (sym same)
                  ∙ e)))
        | inr other ↦ elim (Option-cases v) [
          | inl nameless ↦ absurd (ground arith)
          | inr (x, same) ↦
              subst
                (λ o. IsUnique (w.working.jobs ++ new_job fresh tenant_id document_id o t c ∷ []))
                (sym same)
                (enqueue_version-added x t other (
                  oldest-none (is_active_for_version x t) w.working.jobs (
                    sym (existing_version document_id x t w other)
                    ∙ ap (λ o. existing_job document_id o t w.working) (sym same)
                    ∙ e)))
        ]
      ]
