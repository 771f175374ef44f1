-- ===== src/Ingestion/Queue/Claims.antt =====
-- Which job a claim takes, and that no two claims take the same one.
use peka_saas.Common.{
  ℕ, subst, ◌≤◌, ◌≡◌, ◌≢◌, ap, sym, ◌∙◌, Bool, true, false, none, some, List, [], ◌∷◌, Bool, ◌+◌,
  or_else, arith, All, update_rows, ◌==◌, Option-cases, inl, inr, ◌⊎◌,
}
use peka_saas.Common.Exec.{ok}
use peka_saas.Ingestion.Types.{Text, IngestionJob, in_progress, is_claimable}
use peka_saas.Ingestion.World.{World}
use peka_saas.Ingestion.Queue.{oldest, is_due, claimed, claim_job}

pub oldest_holds :
    (p : IngestionJob → Bool) (js : List IngestionJob) (j : IngestionJob)
    → oldest p js ≡ some j
    → p j ≡ true
unfolding oldest
oldest_holds p [] j h = cc
oldest_holds p (k ∷ js) j h = elim (Option-cases (oldest p js)) [
  | inl e ↦ ground arith
  | inr (m, e) ↦ ground (arith, oldest_holds p js m e)
]

pub oldest-none :
    (p : IngestionJob → Bool) (js : List IngestionJob)
    → oldest p js ≡ none
    → All (λ k. p k ≡ false) js
unfolding oldest
oldest-none p [] h = tt
oldest-none p (k ∷ js) h = elim (Option-cases (oldest p js)) [
  | inl e ↦ (ground arith, oldest-none p js e)
  | inr (m, e) ↦ absurd (ground arith)
]

-- No row that meets the condition was created before the one that is taken.
abbrev pub NoEarlier : (IngestionJob → Bool) → IngestionJob → IngestionJob → Type 0
NoEarlier p j k = (p k ≡ false) ⊎ (j.created_at ≤ k.created_at)

NoEarlier-weaken :
    (p : IngestionJob → Bool) (i j : IngestionJob) (js : List IngestionJob)
    → i.created_at ≤ j.created_at
    → All (NoEarlier p j) js
    → All (NoEarlier p i) js
NoEarlier-weaken p i j [] le h = tt
NoEarlier-weaken p i j (k ∷ js) le h =
    (elim h.0 [ inl e ↦ inl e | inr e ↦ inr (omega arith) ], NoEarlier-weaken p i j js le h.1)

None-NoEarlier :
    (p : IngestionJob → Bool) (i : IngestionJob) (js : List IngestionJob)
    → All (λ k. p k ≡ false) js
    → All (NoEarlier p i) js
None-NoEarlier p i [] h = tt
None-NoEarlier p i (k ∷ js) h = (inl h.0, None-NoEarlier p i js h.1)

pub oldest-NoEarlier :
    (p : IngestionJob → Bool) (js : List IngestionJob) (j : IngestionJob)
    → oldest p js ≡ some j
    → All (NoEarlier p j) js
unfolding oldest
oldest-NoEarlier p [] j h = tt
oldest-NoEarlier p (k ∷ js) j h = elim (Option-cases (oldest p js)) [
  | inl e ↦ (ground arith, None-NoEarlier p j js (oldest-none p js e))
  | inr (m, e) ↦
      (ground arith, NoEarlier-weaken p j m js (ground arith) (oldest-NoEarlier p js m e))
]

claim_job-found :
    (worker_id : Text) (now : ℕ) (w : World) (a : IngestionJob)
    → (claim_job worker_id now w).0 ≡ ok (some a)
    → (j : IngestionJob) × (a ≡ claimed worker_id now j)
      × (oldest (is_due now) w.working.jobs ≡ some j)
      × ((claim_job worker_id now w).1.working.jobs
          ≡ update_rows (λ k. k.id == j.id) (claimed worker_id now) w.working.jobs)
      × ((claim_job worker_id now w).1.committed ≡ (claim_job worker_id now w).1.working)
unfolding claim_job
claim_job-found worker_id now w a h = elim (Option-cases (oldest (is_due now) w.working.jobs)) [
  | inl e ↦ absurd (ground arith)
  | inr (j, e) ↦ (j, ground arith, e, ground arith, ground arith)
]

-- What a claim by a worker does that takes the job `j` from `w`, returns `a` and leaves `v`: the
-- returned job is `j`, locked by the worker with one more attempt, and the rows with its id are
-- locked in the same way.
pub record IsClaim (worker_id : Text) (now : ℕ) (w v : World) (j a : IngestionJob) : Type 0 where
  pub due : is_due now j ≡ true
  pub oldest_due : All (NoEarlier (is_due now) j) w.working.jobs
  pub same_id : a.id ≡ j.id
  pub runs : a.state ≡ in_progress
  pub locked : (a.locked_at ≡ some now) × (a.locked_by ≡ some worker_id)
  pub counted : a.attempts ≡ j.attempts + 1
  pub rows :
      v.working.jobs
      ≡ update_rows
          (λ k. k.id == j.id)
          (λ k. record k {
            state = in_progress;
            locked_at = some now;
            locked_by = some worker_id;
            started_at = some (or_else k.started_at now);
            attempts = k.attempts + 1;
          })
          w.working.jobs
  pub saved : v.committed ≡ v.working

pub claim_job-returns :
    (worker_id : Text) (now : ℕ) (w : World) (j : IngestionJob)
    → oldest (is_due now) w.working.jobs ≡ some j
    → (claim_job worker_id now w).0 ≡ ok (some (claimed worker_id now j))
unfolding claim_job
claim_job-returns worker_id now w j e = ground arith

claimed_not_due :
    (worker_id : Text) (now later id : ℕ) (js : List IngestionJob)
    → All
        (λ k. (k.id ≢ id) ⊎ (is_due later k ≡ false))
        (update_rows (λ k. k.id == id) (claimed worker_id now) js)
unfolding is_claimable
claimed_not_due worker_id now later id [] = tt
claimed_not_due worker_id now later id (k ∷ js) =
    (ground arith, claimed_not_due worker_id now later id js)

oldest_differs :
    (p : IngestionJob → Bool) (id : ℕ) (js : List IngestionJob) (j : IngestionJob)
    → All (λ k. (k.id ≢ id) ⊎ (p k ≡ false)) js
    → oldest p js ≡ some j
    → j.id ≢ id
unfolding oldest
oldest_differs p id [] j h e = cc
oldest_differs p id (k ∷ js) j h e = elim (Option-cases (oldest p js)) [
  | inl e' ↦ ground arith
  | inr (m, e') ↦ ground (arith, oldest_differs p id js m h.1 e')
]

-- Of two claims in a row, by any workers at any times, the second never takes the first's job.
pub claim_job_exclusive :
    (first second : Text) (now later : ℕ) (w : World) (a b : IngestionJob)
    → (claim_job first now w).0 ≡ ok (some a)
    → (claim_job second later (claim_job first now w).1).0 ≡ ok (some b)
    → b.id ≢ a.id
claim_job_exclusive first second now later w a b h k =
    let (i, same, found, rows, saved) = claim_job-found first now w a h in
    let v : World = (claim_job first now w).1 in
    let (j, same', found', rows', saved') = claim_job-found second later v b k in
    let ne : j.id ≢ i.id =
      oldest_differs (is_due later) i.id
        (update_rows (λ x. x.id == i.id) (claimed first now) w.working.jobs) j
        (claimed_not_due first now later i.id w.working.jobs)
        (subst (λ js. oldest (is_due later) js ≡ some j) rows found') in
    λ e. ne (sym (ap (λ (x : IngestionJob). x.id) same') ∙ e ∙ ap (λ (x : IngestionJob). x.id) same)
