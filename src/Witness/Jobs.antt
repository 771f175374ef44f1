-- ===== src/Witness/Jobs.antt =====
-- Examples of the theorems on the queue and on the outcome of an attempt.
use peka_saas.Common.{
  ◌≡◌, ◌≢◌, ◌⊎◌, inl, inr, refl, arith, Any, true, false, none, some, List, [], ◌∷◌, All,
}
use peka_saas.Common.Exec.{ok}
use peka_saas.Ingestion.Types.{
  IngestionJob, IngestionStatus, embed_and_index, parse_document, delete_from_index, pending,
  in_progress, failed_permanent, chunked, indexing, indexed, received, parsing, parsed, chunking,
  embedding, is_running, same_type, is_active, is_claimable,
}
use peka_saas.Ingestion.Status.{accepts}
use peka_saas.Ingestion.Status.Reach.{Run, Visits, indexed_needs_embedding}
use peka_saas.Ingestion.World.{World, ◌>>=◌}
use peka_saas.Ingestion.Queue.{claim_job, claimed, recover_stale_jobs, enqueue_job, oldest}
use peka_saas.Ingestion.Queue.Claims.{claim_job_exclusive}
use peka_saas.Ingestion.Queue.Recovery.{IsDueAgain, recover_stale_jobs-due}
use peka_saas.Ingestion.Queue.Active.{IsUnique, enqueue_job-IsUnique}
use peka_saas.Ingestion.Worker.Index.{embed_and_index_stage, delete}
use peka_saas.Ingestion.Worker.Run.{run_once, attempt}
use peka_saas.Ingestion.Worker.Outcomes.{Settled, run_once-Settled}
use peka_saas.Ingestion.Worker.Restart.{Loads, restart_in_indexing}
use peka_saas.Ingestion.Worker.Vectors.{
  IsOf, IsOther, IsGone, embed_and_index-version, delete-index,
}
use peka_saas.Witness.IngestionData.{document, version, job, fresh_job, env, world}

abbrev waiting : World
waiting = world false chunked (record (job embed_and_index pending) { attempts = 0 })

abbrev taken : IngestionJob
taken = claimed 500 60 (record (job embed_and_index pending) { attempts = 0 })

claim_returns : (claim_job 500 60 waiting).0 ≡ ok (some taken)
unfolding claim_job oldest is_claimable ◌>>=◌
claim_returns = refl

-- A second job of the queue, created later.
abbrev other_job : IngestionJob
other_job = record (job parse_document pending) { id = 42; created_at = 9 }

abbrev queue : World
queue = record waiting {
  working = record waiting.working {
    jobs = record (job embed_and_index pending) { attempts = 0 } ∷ other_job ∷ [];
  };
}

first_claim : (claim_job 500 60 queue).0 ≡ ok (some taken)
unfolding claim_job oldest is_claimable ◌>>=◌
first_claim = refl

second_claim :
    (claim_job 501 70 (claim_job 500 60 queue).1).0 ≡ ok (some (claimed 501 70 other_job))
unfolding claim_job oldest is_claimable ◌>>=◌
second_claim = refl

claim_job_exclusive_example : other_job.id ≢ taken.id
claim_job_exclusive_example =
    claim_job_exclusive 500 501 60 70 queue taken (claimed 501 70 other_job) first_claim
      second_claim

-- A job that a worker took at 8 for its third attempt, and did not finish.
abbrev stuck : IngestionJob
stuck = record (job embed_and_index in_progress) { attempts = 3 }

stuck_runs : is_running stuck.state ≡ true
unfolding is_running
stuck_runs = refl

abbrev abandoned : World
abandoned = world false chunked stuck

recover_stale_jobs-due_example :
    Any (IsDueAgain 60 stuck) (recover_stale_jobs 30 60 abandoned).1.committed.jobs
    × ((a : IngestionJob) × ((claim_job 500 60 (recover_stale_jobs 30 60 abandoned).1).0
          ≡ ok (some a)))
recover_stale_jobs-due_example =
    recover_stale_jobs-due 30 60 500 abandoned stuck 8 (inl refl) stuck_runs refl (omega arith)
      (omega arith)

waiting-IsUnique : IsUnique waiting.working.jobs
unfolding is_active same_type
waiting-IsUnique = record {
  versions = λ version_id t other. ground arith;
  deletions = λ document_id. ground arith;
}

enqueue_job-IsUnique_example :
    IsUnique (enqueue_job fresh_job 1 10 (some 20) parse_document none waiting).1.working.jobs
enqueue_job-IsUnique_example =
    enqueue_job-IsUnique fresh_job 1 10 none waiting waiting-IsUnique (some 20) parse_document
      (inr refl)

claim_in_run : (claim_job 500 60 (recover_stale_jobs 30 60 waiting).1).0 ≡ ok (some taken)
unfolding claim_job oldest is_claimable recover_stale_jobs is_running ◌>>=◌
claim_in_run = refl

run_once-Settled_example :
    ((run_once env waiting).0 ≡ ok true) × Settled 40 (run_once env waiting).1
run_once-Settled_example = run_once-Settled env waiting taken claim_in_run

abbrev path : List IngestionStatus
path = parsing ∷ parsed ∷ chunking ∷ chunked ∷ embedding ∷ indexing ∷ indexed ∷ []

path-Run : Run received path
unfolding accepts
path-Run = (refl, (refl, (refl, (refl, (refl, (refl, (refl, tt)))))))

indexed_needs_embedding_example : Visits embedding path × Visits indexing path
indexed_needs_embedding_example = indexed_needs_embedding path path-Run refl

abbrev index_job : IngestionJob
index_job = job embed_and_index in_progress

-- The rows of the job, where the version has the status.
loaded :
    (s : IngestionStatus) → Loads index_job (world false s index_job) (version s) (document false)
loaded s = record { named = refl; version = refl; document = refl }

restart_in_indexing_example :
    All
      (λ j. (j.id ≢ 40) ⊎ (j.state ≡ failed_permanent))
      (attempt env index_job (world false indexing index_job)).1.committed.jobs
restart_in_indexing_example =
    restart_in_indexing env index_job (world false indexing index_job) (version indexing)
      (document false) (loaded indexing) refl refl refl refl

chunked_may : accepts chunked embedding ≡ true
unfolding accepts
chunked_may = refl

embed_and_index-version_example :
    ((embed_and_index_stage env index_job (world false chunked index_job)).0 ≡ ok tt)
    × All
        (IsOf 1 10 20)
        (embed_and_index_stage env index_job (world false chunked index_job)).1.points
embed_and_index-version_example =
    embed_and_index-version env index_job (version chunked) (document false)
      (world false chunked index_job) (301 ∷ []) (loaded chunked) refl refl chunked_may refl refl
      refl refl

abbrev delete_job : IngestionJob
delete_job = record (job delete_from_index in_progress) { version_id = none }

delete-index_example :
    ((delete env delete_job (world true indexed delete_job)).0 ≡ ok tt)
    × All (IsOther 1 10) (delete env delete_job (world true indexed delete_job)).1.points
    × All
        (IsGone delete_job)
        (delete env delete_job (world true indexed delete_job)).1.committed.versions
delete-index_example =
    delete-index env delete_job (world true indexed delete_job) (document true) refl refl refl
