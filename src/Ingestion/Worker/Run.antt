-- ===== src/Ingestion/Worker/Run.antt =====
-- `run_once` and `_fail`.
use peka_saas.Common.{
  ℕ, ◌+◌, ◌-◌, ◌*◌, ◌^◌, String, Bool, true, false, Option, none, some, ◌||◌, ◌&&◌, leb, not,
  is_some, min, if◌then◌else◌,
}
use peka_saas.Common.Exec.{Result, ok, err, pure}
use peka_saas.Ingestion.Types.{
  DocumentVersion, IngestionJob, IngestionJobType, pipeline, parse_document, chunk_document,
  embed_and_index, delete_from_index, reindex_document, failed_permanent, failed_retryable, chunked,
  failed, same_type,
}
use peka_saas.Ingestion.World.{
  ◌>>=◌, ◌>>◌, World, Action, Exn, value_error, file_not_found, not_configured, transient_embedding,
  qdrant_unavailable, other_error, query, commit, rollback, modify_job, modify_version,
}
use peka_saas.Ingestion.Queue.{recover_stale_jobs, claim_job, worker_heartbeat}
use peka_saas.Ingestion.Worker.Env.{Env, get_version}
use peka_saas.Ingestion.Worker.Parse.{parse, reindex}
use peka_saas.Ingestion.Worker.Chunk.{chunk}
use peka_saas.Ingestion.Worker.Index.{embed_and_index_stage, delete}

-- The error code that `_fail` writes; the source cuts the name of a type at 100 characters.
unfoldable pub error_code : Exn → String
error_code not_configured = "NOT_CONFIGURED"
error_code transient_embedding = "EMBEDDING_UNAVAILABLE"
error_code qdrant_unavailable = "QDRANT_UNAVAILABLE"
error_code (value_error name) = name
error_code file_not_found = "FileNotFoundError"
error_code (other_error name) = name

unfoldable pub safe_message : Exn → String
safe_message not_configured = "Embedding provider is not configured."
safe_message transient_embedding = "Embedding endpoint is currently unavailable."
safe_message qdrant_unavailable = "Qdrant is currently unavailable."
safe_message _ = "Document processing failed safely."

-- `isinstance(exc, (ValueError, FileNotFoundError, EmbeddingProviderNotConfigured))`
unfoldable pub is_permanent : Exn → Bool
is_permanent (value_error _) = true
is_permanent file_not_found = true
is_permanent not_configured = true
is_permanent _ = false

-- The exceptions after which the version waits as CHUNKED.
unfoldable pub is_blocking : Exn → Bool
is_blocking not_configured = true
is_blocking transient_embedding = true
is_blocking qdrant_unavailable = true
is_blocking _ = false

-- The delay before a retry, from the attempts so far.
unfoldable pub backoff : Env → ℕ → ℕ
backoff env attempts = min env.retry_max (env.retry_base * 2 ^ (attempts - 1)) + env.jitter

-- The assignments of `_fail` to the job.
unfoldable pub failed_job : Env → Exn → IngestionJob → IngestionJob
failed_job env e j =
    let noted = record j {
      error_code = some (error_code e);
      safe_error_message = some (safe_message e);
      locked_at = none;
      locked_by = none;
    } in
    if is_permanent e || leb j.max_attempts j.attempts
    then record noted { state = failed_permanent }
    else record noted {
      state = failed_retryable;
      next_retry_at = some (env.now + backoff env j.attempts);
    }

-- The assignments of `_fail` to the version.
unfoldable pub failed_version : Env → Exn → DocumentVersion → DocumentVersion
failed_version env e v =
    let noted = record v {
      error_code = some (error_code e);
      safe_error_message = some (safe_message e);
    } in
    if is_blocking e
    then record noted { ingestion_status = chunked; failed_at = none }
    else record noted { ingestion_status = failed; failed_at = some env.now }

abbrev note_version : Env → Exn → IngestionJob → Option ℕ → Action (Unit {0})
note_version env e job none = pure tt
note_version env e job (some version_id) = do
  found ← query (get_version job.tenant_id version_id)
  (if is_some found && not (same_type job.job_type delete_from_index)
      then modify_version version_id (failed_version env e)
      else pure tt)

-- `_fail`; the job that the worker claimed and committed is still there after the rollback.
unfoldable pub fail : Env → IngestionJob → Exn → Action (Unit {0})
fail env job e = do
  rollback
  modify_job job.id (failed_job env e)
  note_version env e job job.version_id
  commit

-- The dispatch on `job_type`, which covers every member of the enumeration.
unfoldable pub run_stage : IngestionJobType → Env → IngestionJob → Action (Unit {0})
run_stage pipeline env job = parse env job
run_stage parse_document env job = parse env job
run_stage chunk_document env job = chunk env job
run_stage embed_and_index env job = embed_and_index_stage env job
run_stage reindex_document env job = reindex env job
run_stage delete_from_index env job = delete env job

-- `except Exception as exc: self._fail(job.id, exc)`
abbrev pub handled :
    Env → IngestionJob → Result Exn (Unit {0}) × World → Result Exn (Unit {0}) × World
handled env job (ok _, w) = (ok tt, w)
handled env job (err e, w) = fail env job e w

-- The `try` statement of `run_once`.
unfoldable pub attempt : Env → IngestionJob → Action (Unit {0})
attempt env job w = handled env job (run_stage job.job_type env job w)

abbrev pub run_claimed : Env → Option IngestionJob → Action Bool
run_claimed env none = do worker_heartbeat env.worker_id "IDLE" none env.now; pure false
run_claimed env (some job) = do
  worker_heartbeat env.worker_id "BUSY" (some job.id) env.now
  attempt env job
  worker_heartbeat env.worker_id "IDLE" none env.now
  pure true

unfoldable pub run_once : Env → Action Bool
run_once env = do
  recover_stale_jobs env.stale_after env.now
  job ← claim_job env.worker_id env.now
  run_claimed env job
