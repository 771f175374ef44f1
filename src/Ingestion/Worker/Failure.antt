-- ===== src/Ingestion/Worker/Failure.antt =====
-- What `_fail` makes of a job: the retry delay and the limit on attempts.
use native.Mathlib.Nat.{pow-le-pow_right, mul-le-mul_left}
use peka_saas.Common.{ℕ, ◌+◌, ◌-◌, ◌*◌, ◌^◌, ◌≤◌, ◌<◌, ◌≡◌, ◌↔◌, ◌⊎◌, true, none, some, arith}
use peka_saas.Ingestion.Types.{IngestionJob, failed_permanent, failed_retryable}
use peka_saas.Ingestion.World.{Exn}
use peka_saas.Ingestion.Worker.Env.{Env}
use peka_saas.Ingestion.Worker.Run.{backoff, failed_job, is_permanent}

-- The retry delay never exceeds the configured maximum by more than the jitter, and it does not fall
-- as the attempts grow.
pub backoff_bounds :
    (env : Env) (m n : ℕ)
    → m ≤ n
    → (backoff env n ≤ env.retry_max + env.jitter) × (backoff env m ≤ backoff env n)
unfolding backoff
backoff_bounds env m n h =
    let grows : env.retry_base * 2 ^ (m - 1) ≤ env.retry_base * 2 ^ (n - 1) =
      mul-le-mul_left env.retry_base (pow-le-pow_right (omega arith) (omega arith)) in
    (omega arith, omega arith)

-- `_fail` ends a job for good exactly when the exception is permanent (a ValueError, a missing object
-- or a provider that is not configured) or the attempts have reached the job's limit.
pub failed_job-permanent_iff :
    (env : Env) (e : Exn) (j : IngestionJob)
    → ((failed_job env e j).state ≡ failed_permanent)
      ↔ ((is_permanent e ≡ true) ⊎ (j.max_attempts ≤ j.attempts))
unfolding failed_job
failed_job-permanent_iff env e j = (λ h. ground arith, λ h. ground arith)

-- A job that is to be retried is unlocked, below its limit, and due after the delay.
pub failed_job-retry :
    (env : Env) (e : Exn) (j : IngestionJob)
    → (failed_job env e j).state ≡ failed_retryable
    → (j.attempts < j.max_attempts)
      × ((failed_job env e j).next_retry_at ≡ some (env.now + backoff env j.attempts))
      × ((failed_job env e j).locked_by ≡ none)
unfolding failed_job
failed_job-retry env e j h = ground arith
