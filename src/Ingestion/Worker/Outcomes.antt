-- ===== src/Ingestion/Worker/Outcomes.antt =====
-- What an attempt leaves of the job that was claimed.
use peka_saas.Common.{
  not, is_empty, ℕ, String, ap, ◌∙◌, ◌≡◌, ◌≢◌, ◌⊎◌, inr, refl, sym, subst, Bool, true, false,
  Option, none, some, List, [], ◌∷◌, ◌++◌, arith, All, ◌==◌, update_rows, if◌then◌else◌,
}
use peka_saas.Common.Exec.{Result, ok, err}
use peka_saas.Ingestion.Types.{
  DocumentVersion, Document, DocumentChunk, IngestionJob, IngestionJobType, pipeline,
  parse_document, chunk_document, embed_and_index, reindex_document, delete_from_index, is_running,
}
use peka_saas.Ingestion.World.{◌>>=◌, ◌>>◌, World, Db, Action, Exn, commit}
use peka_saas.Ingestion.Queue.{
  worker_heartbeat, claim_job, recover_stale_jobs, recover_stale_jobs-ok, enqueue_job, existing_job,
  return_or_add, new_job,
}
use peka_saas.Ingestion.Worker.Env.{Env, succeed, succeeded_row}
use peka_saas.Ingestion.Worker.Parse.{
  parse, reindex, hand_on, parse_object, resume_from_chunks, resume_from_sections,
}
use peka_saas.Ingestion.Worker.Chunk.{chunk}
use peka_saas.Ingestion.Worker.Index.{
  is_inactive, embed_and_index_stage, delete, exclude, index_chunks, remove_from_index,
}
use peka_saas.Ingestion.Worker.Run.{
  failed_job, fail, run_stage, handled, attempt, run_claimed, run_once,
}

-- No row with the id is held by a worker.
abbrev pub Released : ℕ → List IngestionJob → Type 0
Released id = All (λ j. (j.id ≢ id) ⊎ (is_running j.state ≡ false))

abbrev pub Settled : ℕ → World → Type 0
Settled id w = Released id w.committed.jobs × Released id w.working.jobs

-- What holds of the world if the action returns.
unfoldable pub Holds : {A : Type 0} → (World → Type 0) → Result Exn A × World → Type 0
Holds P (ok _, v) = P v
Holds P (err _, v) = Unit

-- The rule of a statement before the rest.
pub step :
    {A B : Type 0} (P : World → Type 0) (m : Action A) (f : A → Action B) (w : World)
    → ((a : A) (v : World) → Holds P (f a v))
    → Holds P ((m >>= f) w)
unfolding Holds ◌>>=◌
step {A} {B} P m f w h = rest (m w)
  where
    rest :
        (r : Result Exn A × World)
        → Holds {A = B} P (elim r.0 [ ok a ↦ f a r.1 | err e ↦ (err e, r.1) ])
    rest (ok a, v) = h a v
    rest (err e, v) = tt

-- A statement that returns hands its result on.
bind-result :
    {A B : Type 0} (m : Action A) (f : A → Action B) (a : A) (w : World)
    → (m w).0 ≡ ok a
    → (m >>= f) w ≡ f a (m w).1
unfolding ◌>>=◌
bind-result {A} {B} m f a w e = ap after e
  where
    after : Result Exn A → Result Exn B × World
    after r = elim r [ ok b ↦ f b (m w).1 | err x ↦ (err x, (m w).1) ]

pub either :
    {A : Type 0} (P : World → Type 0) (b : Bool) (m n : Action A) (w : World)
    → Holds P (m w)
    → Holds P (n w)
    → Holds P ((if b then m else n) w)
either P true m n w h k = h
either P false m n w h k = k

Released-update :
    (id : ℕ) (f : IngestionJob → IngestionJob)
    → ((j : IngestionJob) → is_running (f j).state ≡ false)
    → (js : List IngestionJob) → Released id (update_rows (λ j. j.id == id) f js)
Released-update id f off [] = tt
Released-update id f off (j ∷ js) = (ground (arith, off j), Released-update id f off js)

Released-append :
    (id : ℕ) (js : List IngestionJob) (k : IngestionJob)
    → Released id js
    → is_running k.state ≡ false
    → Released id (js ++ k ∷ [])
Released-append id [] k h off = (inr off, tt)
Released-append id (j ∷ js) k h off = (h.0, Released-append id js k h.1 off)

succeeded_row-Released :
    (env : Env) (job : IngestionJob) (js : List IngestionJob)
    → Released job.id (update_rows (λ j. j.id == job.id) (succeeded_row env.now) js)
succeeded_row-Released env job =
    Released-update job.id (succeeded_row env.now) (λ j. unfold is_running in refl)

-- The end of `enqueue_job`, committed.
return_or_add-Released :
    (id : ℕ) (existing : Option IngestionJob) (k : IngestionJob) (w : World)
    → is_running k.state ≡ false
    → Released id w.working.jobs
    → Holds (Settled id) ((return_or_add existing k >> commit) w)
unfolding Holds ◌>>=◌
return_or_add-Released id none k w off h =
    let added = Released-append id w.working.jobs k h off in (added, added)
return_or_add-Released id (some e) k w off h = (h, h)

module _ (env : Env) (job : IngestionJob) where
  abbrev Ends : Action (Unit {0}) → Type 0
  Ends m = (w : World) → Holds (Settled job.id) (m w)

  succeed-Ends : Ends (succeed env job >> commit)
  unfolding Holds ◌>>=◌
  succeed-Ends w = let done = succeeded_row-Released env job w.working.jobs in (done, done)

  hand_on-Ends : (v : DocumentVersion) (next : IngestionJobType) → Ends (hand_on env job v next)
  unfolding enqueue_job is_running ◌>>=◌
  hand_on-Ends v next w =
      let db : Db = record w.working {
        jobs = update_rows (λ j. j.id == job.id) (succeeded_row env.now) w.working.jobs;
      } in
      return_or_add-Released job.id (existing_job job.document_id (some v.id) next db)
        (new_job env.new_job job.tenant_id job.document_id (some v.id) next job.correlation_id)
        (record w { working = db }) refl (succeeded_row-Released env job w.working.jobs)

  parse_object-Ends : (v : DocumentVersion) (d : Document) → Ends (parse_object env job v d)
  unfolding parse_object
  parse_object-Ends v d w = step _ _ _ _ λ _ _. step _ _ _ _ λ _ _. step _ _ _ _ λ _ _.
      step _ _ _ _ λ p _. step _ _ _ _ λ _ _. step _ _ _ _ λ _ _.
        step _ _ _ _ λ _ _. step _ _ _ _ λ _ _. step _ _ _ _ λ _ _. hand_on-Ends v chunk_document _

  parse-Ends : Ends (parse env job)
  unfolding parse resume_from_chunks resume_from_sections
  parse-Ends w = step _ _ _ _ λ (v, d) _. step _ _ _ _ λ chunks _. step _ _ _ _ λ sections _.
      either _ (not (is_empty chunks)) _ _ _ (step _ _ _ _ λ _ _. hand_on-Ends v embed_and_index _)
        (either _ (not (is_empty sections)) _ _ _
          (step _ _ _ _ λ _ _. hand_on-Ends v chunk_document _) (parse_object-Ends v d _))

  reindex-Ends : Ends (reindex env job)
  unfolding reindex
  reindex-Ends w = step _ _ _ _ λ (v, d) _. step _ _ _ _ λ _ _.
      step _ _ _ _ λ _ _. step _ _ _ _ λ _ _. step _ _ _ _ λ _ _. hand_on-Ends v parse_document _

  chunk-Ends : Ends (chunk env job)
  unfolding chunk
  chunk-Ends w = step _ _ _ _ λ (v, d) _. step _ _ _ _ λ _ _. step _ _ _ _ λ _ _.
      step _ _ _ _ λ _ _. step _ _ _ _ λ _ _. step _ _ _ _ λ _ _. step _ _ _ _ λ _ _.
        step _ _ _ _ λ _ _. step _ _ _ _ λ _ _. step _ _ _ _ λ _ _. hand_on-Ends v embed_and_index _

  index_chunks-Ends :
      (v : DocumentVersion) (d : Document) (cs : List DocumentChunk)
      → Ends (index_chunks env job v d cs)
  unfolding index_chunks
  index_chunks-Ends v d cs w = step _ _ _ _ λ _ _. step _ _ _ _ λ _ _. step _ _ _ _ λ _ _.
      step _ _ _ _ λ _ _. step _ _ _ _ λ _ _. step _ _ _ _ λ _ _. step _ _ _ _ λ _ _.
        step _ _ _ _ λ _ _. step _ _ _ _ λ _ _. step _ _ _ _ λ _ _.
          step _ _ _ _
            λ _ _. step _ _ _ _ λ _ _. step _ _ _ _ λ _ _. step _ _ _ _ λ _ _. succeed-Ends _

  embed_and_index-Ends : Ends (embed_and_index_stage env job)
  unfolding embed_and_index_stage exclude
  embed_and_index-Ends w = step _ _ _ _ λ (v, d) _. step _ _ _ _ λ chunks _.
      either _ (is_inactive d v) _ _ _ (step _ _ _ _ λ _ _. succeed-Ends _)
        (index_chunks-Ends v d chunks _)

  delete-Ends : Ends (delete env job)
  unfolding delete remove_from_index
  delete-Ends w = step _ _ _ _ λ _ _. step _ _ _ _ λ d _.
      either _ d.is_deleted _ _ _
        (step _ _ _ _ λ _ _.
          step _ _ _ _
            λ _ _. step _ _ _ _ λ _ _. step _ _ _ _ λ _ _. step _ _ _ _ λ _ _. succeed-Ends _)
        (succeed-Ends _)

  run_stage-Ends : (t : IngestionJobType) → Ends (run_stage t env job)
  unfolding run_stage
  run_stage-Ends pipeline = parse-Ends
  run_stage-Ends parse_document = parse-Ends
  run_stage-Ends chunk_document = chunk-Ends
  run_stage-Ends embed_and_index = embed_and_index-Ends
  run_stage-Ends reindex_document = reindex-Ends
  run_stage-Ends delete_from_index = delete-Ends

  failed_job-released : (e : Exn) (j : IngestionJob) → is_running (failed_job env e j).state ≡ false
  unfolding failed_job is_running
  failed_job-released e j = ground arith

  failed_rows :
      (e : Exn) (w : World)
      → Released job.id (update_rows (λ j. j.id == job.id) (failed_job env e) w.committed.jobs)
  failed_rows e w =
      Released-update job.id (failed_job env e) (failed_job-released e) w.committed.jobs

  pub fail-jobs :
      (e : Exn) (w : World)
      → ((fail env job e w).1.committed.jobs
          ≡ update_rows (λ j. j.id == job.id) (failed_job env e) w.committed.jobs)
        × ((fail env job e w).1.working ≡ (fail env job e w).1.committed)
  unfolding fail ◌>>=◌
  fail-jobs e w = ground arith

  fail-Settled : (e : Exn) (w : World) → Settled job.id (fail env job e w).1
  fail-Settled e w =
      let released : Released job.id (fail env job e w).1.committed.jobs =
        rw (fail-jobs e w).0 (failed_rows e w) in
      (released, subst (λ (db : Db). Released job.id db.jobs) (sym (fail-jobs e w).1) released)

  attempt-Settled : (w : World) → Settled job.id (attempt env job w).1
  unfolding attempt Holds
  attempt-Settled w = after (run_stage job.job_type env job w) (run_stage-Ends job.job_type w)
    where
      after :
          (r : Result Exn (Unit {0}) × World)
          → Holds (Settled job.id) r
          → Settled job.id (handled env job r).1
      after (ok a, v) h = h
      after (err e, v) h = fail-Settled e v

  fail-ok : (e : Exn) (w : World) → (fail env job e w).0 ≡ ok tt
  unfolding fail ◌>>=◌
  fail-ok e w = ground arith

  attempt-ok : (w : World) → (attempt env job w).0 ≡ ok tt
  unfolding attempt
  attempt-ok w = after (run_stage job.job_type env job w)
    where
      after : (r : Result Exn (Unit {0}) × World) → (handled env job r).0 ≡ ok tt
      after (ok a, v) = refl
      after (err e, v) = fail-ok e v

  -- The heartbeats of the worker commit the jobs as they are.
  beat-Settled :
      (status : String) (id : Option ℕ) (w : World)
      → Settled job.id w
      → Settled job.id (worker_heartbeat env.worker_id status id env.now w).1
  unfolding worker_heartbeat ◌>>=◌
  beat-Settled status id w h = (h.1, h.1)

  run_claimed-Settled :
      (w : World)
      → ((run_claimed env (some job) w).0 ≡ ok true)
        × Settled job.id (run_claimed env (some job) w).1
  unfolding worker_heartbeat ◌>>=◌
  run_claimed-Settled w =
      let u : World = (worker_heartbeat env.worker_id "BUSY" (some job.id) env.now w).1 in
      let after : Action Bool =
        worker_heartbeat env.worker_id "IDLE" none env.now >>= λ _ v. (ok true, v) in
      subst (λ r. (r.0 ≡ ok true) × Settled job.id r.1)
        (sym (bind-result (attempt env job) (λ _. after) tt u (attempt-ok u)))
        (refl, beat-Settled "IDLE" none (attempt env job u).1 (attempt-Settled u))

-- Whatever a stage does, a run of the worker that claims a job returns true, and afterwards no row of
-- the job, committed or pending, is IN_PROGRESS or RUNNING.
pub run_once-Settled :
    (env : Env) (w : World) (job : IngestionJob)
    → (claim_job env.worker_id env.now (recover_stale_jobs env.stale_after env.now w).1).0
      ≡ ok (some job)
    → ((run_once env w).0 ≡ ok true) × Settled job.id (run_once env w).1
unfolding run_once
run_once-Settled env w job claimed =
    let (n, recovered) = recover_stale_jobs-ok env.stale_after env.now w in
    let u : World = (recover_stale_jobs env.stale_after env.now w).1 in
    let same : run_once env w ≡ run_claimed env (some job) (claim_job env.worker_id env.now u).1 =
      bind-result (recover_stale_jobs env.stale_after env.now)
        (λ _. claim_job env.worker_id env.now >>= run_claimed env) n w recovered
      ∙ bind-result (claim_job env.worker_id env.now) (run_claimed env) (some job) u claimed in
    subst (λ r. (r.0 ≡ ok true) × Settled job.id r.1) (sym same)
      (run_claimed-Settled env job (claim_job env.worker_id env.now u).1)
