-- ===== src/Ingestion/Queue/Recovery.antt =====
-- What the recovery of stale jobs makes of a job that has used up its attempts.
use peka_saas.Common.{
  ℕ, String, subst, ◌≤◌, ◌<◌, ◌≡◌, refl, sym, Bool, true, false, some, List, [], ◌∷◌, Any, is_empty,
  where_rows, ◌-◌, arith, All, update_rows, Option-cases, inl, inr,
}
use peka_saas.Common.Exec.{ok}
use peka_saas.Ingestion.Types.{Text, IngestionJob, is_claimable, is_running}
use peka_saas.Ingestion.World.{◌>>=◌, World, Db}
use peka_saas.Ingestion.Queue.{
  oldest, is_due, claimed, claim_job, is_stale, recovered, recover_stale_jobs,
}
use peka_saas.Ingestion.Queue.Claims.{oldest-none, claim_job-returns}

-- The recovered row of a job.
recovered_row :
    (p : IngestionJob → Bool) (code message : String) (now : ℕ) (j : IngestionJob)
    (js : List IngestionJob)
    → p j ≡ true
    → Any (λ k. k ≡ j) js
    → Any (λ k. k ≡ recovered code message now j) (update_rows p (recovered code message now) js)
recovered_row p code message now j [] h found = absurd found
recovered_row p code message now j (k ∷ js) h (inl e) = inl (rw e (rw h refl))
recovered_row p code message now j (k ∷ js) h (inr found) =
    inr (recovered_row p code message now j js h found)

some_row :
    (p : IngestionJob → Bool) (j : IngestionJob) (js : List IngestionJob)
    → p j ≡ true
    → Any (λ k. k ≡ j) js
    → is_empty (where_rows p js) ≡ false
some_row p j [] h found = absurd found
some_row p j (k ∷ js) h (inl e) = rw e (rw h refl)
some_row p j (k ∷ js) h (inr found) = ground (arith, some_row p j js h found)

recover_stale_jobs-rows :
    (stale_after now : ℕ) (w : World)
    → is_empty (where_rows (is_stale (now - stale_after)) w.working.jobs) ≡ false
    → (code : String) × (message : String) × ((recover_stale_jobs stale_after now w).1.working.jobs
        ≡ update_rows (is_stale (now - stale_after)) (recovered code message now) w.working.jobs)
      × ((recover_stale_jobs stale_after now w).1.committed
          ≡ (recover_stale_jobs stale_after now w).1.working)
unfolding recover_stale_jobs ◌>>=◌
recover_stale_jobs-rows stale_after now w h =
    ("STALE_LOCK_RECOVERED", "A stale worker lock was recovered.", rw h refl, rw h refl)

-- The row of the job is due, with its attempts unchanged and used up.
abbrev pub IsDueAgain : ℕ → IngestionJob → IngestionJob → Type 0
IsDueAgain now j k =
    (k.id ≡ j.id)
    × (is_due now k ≡ true)
    × (k.attempts ≡ j.attempts)
    × (k.max_attempts ≤ k.attempts)

-- A recovered row is due, with the attempts of the job.
recovered_due :
    (code message : String) (now : ℕ) (j : IngestionJob) (js : List IngestionJob)
    → j.max_attempts ≤ j.attempts
    → Any (λ k. k ≡ recovered code message now j) js
    → Any (IsDueAgain now j) js
unfolding is_claimable
recovered_due code message now j [] many found = absurd found
recovered_due code message now j (k ∷ js) many (inl e) = inl (rw e (refl, ground arith, refl, many))
recovered_due code message now j (k ∷ js) many (inr found) =
    inr (recovered_due code message now j js many found)

some_due :
    (p : IngestionJob → Bool) (P : IngestionJob → Type 0) (js : List IngestionJob)
    → ((k : IngestionJob) → P k → p k ≡ true)
    → Any P js
    → (j : IngestionJob) × (oldest p js ≡ some j)
some_due p P js due found = elim (Option-cases (oldest p js)) [
  | inr (j, e) ↦ (j, e)
  | inl e ↦ absurd (none_due js found (oldest-none p js e))
]
  where
    none_due : (ks : List IngestionJob) → Any P ks → All (λ k. p k ≡ false) ks → ⊥
    none_due [] h ne = h
    none_due (k ∷ ks) (inl h) ne = ground (arith, due k h, ne.0)
    none_due (k ∷ ks) (inr h) ne = none_due ks h ne.1

-- When a job of the queue is IN_PROGRESS or RUNNING, was locked before the threshold of stale locks
-- and has used up its attempts, the recovery of stale jobs commits its row as due at once, with its
-- attempts still used up, and a claim at that time returns a job.
pub recover_stale_jobs-due :
    (stale_after now : ℕ) (worker_id : Text) (w : World) (j : IngestionJob) (at : ℕ)
    → Any (λ k. k ≡ j) w.working.jobs
    → is_running j.state ≡ true
    → j.locked_at ≡ some at
    → at < now - stale_after
    → j.max_attempts ≤ j.attempts
    → Any (IsDueAgain now j) (recover_stale_jobs stale_after now w).1.committed.jobs
      × ((a : IngestionJob) × ((claim_job worker_id now (recover_stale_jobs stale_after now w).1).0
            ≡ ok (some a)))
recover_stale_jobs-due stale_after now worker_id w j at found running lock before many =
    let stale : is_stale (now - stale_after) j ≡ true = ground arith in
    let p : IngestionJob → Bool = is_stale (now - stale_after) in
    let v : World = (recover_stale_jobs stale_after now w).1 in
    let (code, message, rows, saved) =
      recover_stale_jobs-rows stale_after now w (some_row p j w.working.jobs stale found) in
    let due = subst (Any (IsDueAgain now j)) (sym rows) (
      recovered_due code message now j (update_rows p (recovered code message now) w.working.jobs)
        many (recovered_row p code message now j w.working.jobs stale found)) in
    let (a, next) = some_due (is_due now) (IsDueAgain now j) v.working.jobs (λ k h. h.1) due in
    (
      subst (λ (d : Db). Any (IsDueAgain now j) d.jobs) (sym saved) due,
      (claimed worker_id now a, claim_job-returns worker_id now v a next),
    )
