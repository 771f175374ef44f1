-- ===== src/Ingestion/Worker/Restart.antt =====
-- What a retry meets after a worker died, or failed, in the middle of a stage.
use peka_saas.Common.{
  ◌≡◌, ◌≢◌, ◌⊎◌, false, some, List, [], ◌∷◌, arith, All, ◌==◌, update_rows, is_empty, subst, ap,
  ◌∙◌, sym,
}
use peka_saas.Common.Exec.{err}
use peka_saas.Ingestion.Types.{
  Document, DocumentVersion, IngestionJob, embed_and_index, indexing, failed, failed_permanent,
}
use peka_saas.Ingestion.Status.{accepts}
use peka_saas.Ingestion.World.{World, Exn, value_error, ◌>>=◌}
use peka_saas.Ingestion.Worker.Env.{Env, records, get_version, get_document, list_chunks}
use peka_saas.Ingestion.Worker.Chunk.{chunk}
use peka_saas.Ingestion.Worker.Index.{embed_and_index_stage, index_chunks, is_inactive}
use peka_saas.Ingestion.Worker.Run.{failed_job, is_permanent, run_stage, handled, attempt}
use peka_saas.Ingestion.Worker.Outcomes.{fail-jobs}

-- The rows that a job names.
pub record Loads (job : IngestionJob) (w : World) (v : DocumentVersion) (d : Document)
    : Type 0 where
  pub named : job.version_id ≡ some v.id
  pub version : get_version job.tenant_id v.id w.working ≡ some v
  pub document : get_document job.tenant_id job.document_id w.working ≡ some d

module _ (env : Env) (job : IngestionJob) (w : World) (v : DocumentVersion) (d : Document)
    (loads : Loads job w v d) where
  index_in_indexing :
      v.ingestion_status ≡ indexing
      → is_inactive d v ≡ false
      → is_empty (list_chunks job.tenant_id v.id w.working) ≡ false
      → embed_and_index_stage env job w ≡ (err (value_error "InvalidIngestionTransition"), w)
  unfolding embed_and_index_stage index_chunks records ◌>>=◌ accepts
  index_in_indexing stuck current some_chunks = ground arith

  chunk_after_failure :
      v.ingestion_status ≡ failed
      → chunk env job w ≡ (err (value_error "InvalidIngestionTransition"), w)
  unfolding chunk records ◌>>=◌ accepts
  chunk_after_failure stuck = ground arith

  permanent_rows :
      (js : List IngestionJob)
      → All
          (λ j. (j.id ≢ job.id) ⊎ (j.state ≡ failed_permanent))
          (update_rows
            (λ j. j.id == job.id)
            (failed_job env (value_error "InvalidIngestionTransition"))
            js)
  unfolding failed_job is_permanent
  permanent_rows [] = tt
  permanent_rows (j ∷ js) = (ground arith, permanent_rows js)

  -- An attempt at an EMBED_AND_INDEX job whose rows are found and whose version is the current one of a
  -- document that is not deleted, has chunks and is INDEXING leaves every committed row of the job
  -- FAILED_PERMANENT.
  pub restart_in_indexing :
      job.job_type ≡ embed_and_index
      → v.ingestion_status ≡ indexing
      → is_inactive d v ≡ false
      → is_empty (list_chunks job.tenant_id v.id w.working) ≡ false
      → All
          (λ j. (j.id ≢ job.id) ⊎ (j.state ≡ failed_permanent))
          (attempt env job w).1.committed.jobs
  unfolding attempt run_stage
  restart_in_indexing kind stuck current some_chunks =
      let raised : run_stage job.job_type env job w
          ≡ (err (value_error "InvalidIngestionTransition"), w) =
        ap (λ t. run_stage t env job w) kind ∙ index_in_indexing stuck current some_chunks in
      let e : Exn = value_error "InvalidIngestionTransition" in
      subst (All (λ j. (j.id ≢ job.id) ⊎ (j.state ≡ failed_permanent)))
        (sym (ap (λ r. (handled env job r).1.committed.jobs) raised ∙ (fail-jobs env job e w).0))
        (permanent_rows w.committed.jobs)
