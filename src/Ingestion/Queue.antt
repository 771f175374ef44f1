-- ===== src/Ingestion/Queue.antt =====
-- The job queue of `DocumentRepository`, backend/app/repositories/document_repository.py.
pub mod Claims
pub mod Recovery
pub mod Active
use peka_saas.Common.{
  ℕ, ◌+◌, ◌-◌, ◌≡◌, arith, String, Bool, true, false, Option, none, some, List, [], ◌∷◌, ◌++◌, ◌&&◌,
  leb, ltb, ◌==◌, equals, is_some, or_else, find, where_rows, update_rows, count_rows, length,
  is_empty, not, if◌then◌else◌,
}
use peka_saas.Common.Exec.{Exec, pure, ok}
use peka_saas.Ingestion.Types.{
  Text, IngestionJob, IngestionJobType, delete_from_index, IngestionJobState, pending, in_progress,
  failed_retryable, is_active, is_claimable, is_running, same_type, IngestionWorkerHeartbeat,
}
use peka_saas.Ingestion.World.{◌>>=◌, ◌>>◌, Db, World, Action, query, write, commit, modify_job}

-- The earlier of two rows by `created_at`; a tie is the first of the table.
abbrev earlier : IngestionJob → Option IngestionJob → Option IngestionJob
earlier j none = some j
earlier j (some k) = if leb j.created_at k.created_at then some j else some k

-- The first row under `where` and `order_by(IngestionJob.created_at)`.
unfoldable pub oldest : (IngestionJob → Bool) → List IngestionJob → Option IngestionJob
oldest p [] = none
oldest p (j ∷ js) = let rest = oldest p js in if p j then earlier j rest else rest

-- The condition of `active_job_for_document_stage`.
abbrev pub is_active_for_document : ℕ → IngestionJobType → IngestionJob → Bool
is_active_for_document document_id job_type j =
    j.document_id == document_id && (same_type j.job_type job_type && is_active j.state)

-- The condition of the lookup in `enqueue_job`.
abbrev pub is_active_for_version : ℕ → IngestionJobType → IngestionJob → Bool
is_active_for_version version_id job_type j =
    equals j.version_id version_id && (same_type j.job_type job_type && is_active j.state)

-- The job that `enqueue_job` returns in place of a new one.
unfoldable pub existing_job : ℕ → Option ℕ → IngestionJobType → Db → Option IngestionJob
existing_job document_id version_id delete_from_index db =
    oldest (is_active_for_document document_id delete_from_index) db.jobs
existing_job document_id none job_type db = none
existing_job document_id (some v) job_type db = oldest (is_active_for_version v job_type) db.jobs

-- What a new row takes from outside the call: its id, its creation time, and
-- `settings.peka_ingestion_job_max_attempts`.
pub record NewJob : Type 0 where
  pub id : ℕ
  pub created_at : ℕ
  pub max_attempts : ℕ

abbrev pub new_job : NewJob → ℕ → ℕ → Option ℕ → IngestionJobType → Option Text → IngestionJob
new_job fresh tenant_id document_id version_id job_type correlation_id = record {
  id = fresh.id;
  created_at = fresh.created_at;
  tenant_id = tenant_id;
  document_id = document_id;
  version_id = version_id;
  job_type = job_type;
  state = pending;
  attempts = 0;
  max_attempts = fresh.max_attempts;
  next_retry_at = none;
  locked_at = none;
  locked_by = none;
  started_at = none;
  completed_at = none;
  error_code = none;
  safe_error_message = none;
  correlation_id = correlation_id;
}

abbrev pub return_or_add : Option IngestionJob → IngestionJob → Action IngestionJob
return_or_add (some existing) job = pure existing
return_or_add none job = do write (λ db. record db { jobs = db.jobs ++ job ∷ [] }); pure job

unfoldable pub enqueue_job :
    NewJob → ℕ → ℕ → Option ℕ → IngestionJobType → Option Text → Action IngestionJob
unfolding existing_job ◌>>=◌
enqueue_job fresh tenant_id document_id version_id job_type correlation_id = do
  existing ← query (existing_job document_id version_id job_type)
  return_or_add existing (new_job fresh tenant_id document_id version_id job_type correlation_id)

-- The assignments of the two recoveries, with their error code and message.
abbrev pub recovered : String → String → ℕ → IngestionJob → IngestionJob
recovered code message now j = record j {
  state = failed_retryable;
  next_retry_at = some now;
  locked_at = none;
  locked_by = none;
  error_code = some code;
  safe_error_message = some message;
}

-- A running job that was locked before the threshold.
abbrev pub is_stale : ℕ → IngestionJob → Bool
is_stale threshold j =
    is_running j.state && elim j.locked_at [ none ↦ false | some at ↦ ltb at threshold ]

-- The jobs with the condition are recovered, and committed if there are any.
recover : (IngestionJob → Bool) → String → String → ℕ → Action ℕ
recover p code message now = do
  jobs ← query (λ db. where_rows p db.jobs)
  write (λ db. record db { jobs = update_rows p (recovered code message now) db.jobs })
  (if is_empty jobs then pure tt else commit)
  pure (length jobs)

unfoldable pub recover_stale_jobs : ℕ → ℕ → Action ℕ
unfolding recover ◌>>=◌
recover_stale_jobs stale_after now =
    recover (is_stale (now - stale_after)) "STALE_LOCK_RECOVERED"
      "A stale worker lock was recovered." now

-- The recovery always returns.
pub recover_stale_jobs-ok :
    (stale_after now : ℕ) (w : World) → (n : ℕ) × ((recover_stale_jobs stale_after now w).0 ≡ ok n)
unfolding recover_stale_jobs recover ◌>>=◌
recover_stale_jobs-ok stale_after now w =
    (length (where_rows (is_stale (now - stale_after)) w.working.jobs), ground arith)

unfoldable pub recover_orphaned_jobs_after_lock_handoff : ℕ → Action ℕ
unfolding recover ◌>>=◌
recover_orphaned_jobs_after_lock_handoff now =
    recover (λ j. is_running j.state) "WORKER_RESTART_RECOVERED"
      "An interrupted ingestion job was safely resumed." now

abbrev heartbeat_row : Text → String → Option ℕ → ℕ → IngestionWorkerHeartbeat
heartbeat_row worker_id status current_job_id now = record {
  worker_id = worker_id;
  last_seen_at = now;
  current_job_id = current_job_id;
  status = status;
}

-- The row of the worker is written, or added if there is none.
abbrev beat :
    IngestionWorkerHeartbeat → List IngestionWorkerHeartbeat → List IngestionWorkerHeartbeat
beat row rows =
    if is_some (find (λ r. r.worker_id == row.worker_id) rows)
    then update_rows (λ r. r.worker_id == row.worker_id) (λ _. row) rows
    else rows ++ row ∷ []

unfoldable pub worker_heartbeat : Text → String → Option ℕ → ℕ → Action (Unit {0})
unfolding ◌>>=◌
worker_heartbeat worker_id status current_job_id now = do
  write (λ db. record db {
    workers = beat (heartbeat_row worker_id status current_job_id now) db.workers;
  })
  commit

-- The condition of `claim_job`.
abbrev pub is_due : ℕ → IngestionJob → Bool
is_due now j = is_claimable j.state && elim j.next_retry_at [ none ↦ true | some at ↦ leb at now ]

-- The assignments of `claim_job`.
abbrev pub claimed : Text → ℕ → IngestionJob → IngestionJob
claimed worker_id now j = record j {
  state = in_progress;
  locked_at = some now;
  locked_by = some worker_id;
  started_at = some (or_else j.started_at now);
  attempts = j.attempts + 1;
}

abbrev claim : Text → ℕ → Option IngestionJob → Action (Option IngestionJob)
claim worker_id now none = pure none
claim worker_id now (some j) = do
  modify_job j.id (claimed worker_id now)
  commit
  pure (some (claimed worker_id now j))

-- `skip_locked` passes over the rows that another transaction holds while it claims; each claim
-- commits before the next begins here.
unfoldable pub claim_job : Text → ℕ → Action (Option IngestionJob)
unfolding ◌>>=◌
claim_job worker_id now = do
  found ← query (λ db. oldest (is_due now) db.jobs)
  claim worker_id now found
