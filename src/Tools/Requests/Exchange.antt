-- ===== src/Tools/Requests/Exchange.antt =====
-- What the asker reads when a connector claims a request and submits its result in time.
use peka_saas.Common.{
  ℕ, ◌+◌, ◌<◌, ◌≡◌, inl, inr, refl, sym, true, false, none, some, arith, update_rows, Option-cases,
  ◌==◌, ==_refl, ◌&&◌, find-update_rows, subst, Bool, find, ap, ◌∙◌,
}
use peka_saas.Common.Exec.{ok}
use peka_saas.Common.Keyed.{IsKeyed, find-key}
use peka_saas.Common.Order.{earliest, earliest_holds, earliest-Any}
use peka_saas.Connector.Types.{ManagedConnector}
use peka_saas.Tools.Types.{
  OperationalToolRequest, OperationalToolRequestView, OperationalToolResultSubmission,
  SubmittedStatus, ToolStatus, Db,
}
use peka_saas.Tools.Requests.{
  Env, claim, submit, result, is_claimable, claimed, request_of, request_of_tenant, submitted,
  ended, is_too_large, claim_ttl, view,
}
use peka_saas.Common.Exec.{begin}
use peka_saas.Tools.Requests.Lifecycle.{key}

abbrev is_of : ManagedConnector → ℕ → OperationalToolRequest → Bool
is_of c id r = r.id == id && (r.connector_id == c.id && r.tenant_id == c.tenant_id)

abbrev is_of_tenant : ℕ → ℕ → OperationalToolRequest → Bool
is_of_tenant tenant_id id r = r.id == id && r.tenant_id == tenant_id

-- What a claim that returns a view has done.
pub claim-found :
    (env : Env) (d : Db) (c : ManagedConnector) (token now : ℕ) (v : OperationalToolRequestView)
    → (claim env c token now (begin d)).0 ≡ ok (some v)
    → (r : OperationalToolRequest) × (earliest (λ r. r.created_at) (is_claimable c now) d.requests
        ≡ some r)
      × (v ≡ view r token)
      × ((claim env c token now (begin d)).1.committed.requests
          ≡ update_rows (λ x. x.id == r.id) (claimed (env.sha256 token) now) d.requests)
unfolding claim
claim-found env d c token now v h =
    elim (Option-cases (earliest (λ r. r.created_at) (is_claimable c now) d.requests)) [
      | inl e ↦ absurd (ground arith)
      | inr (r, e) ↦ (r, e, ground arith, ground arith)
    ]

ended-kept :
    (s : OperationalToolResultSubmission) (t : SubmittedStatus) (now : ℕ)
    (r : OperationalToolRequest)
    → ((ended s t now r).id ≡ r.id)
      × ((ended s t now r).connector_id ≡ r.connector_id)
      × ((ended s t now r).tenant_id ≡ r.tenant_id)
ended-kept s SubmittedStatus.completed now r = (refl, refl, refl)
ended-kept s SubmittedStatus.failed now r = (refl, refl, refl)

-- A submission for a row that is claimed under its token.
submit-claimed :
    (env : Env) (e : Db) (c : ManagedConnector) (id : ℕ) (s : OperationalToolResultSubmission)
    (hash now later : ℕ) (r : OperationalToolRequest)
    → request_of c id e ≡ some (claimed hash now r)
    → env.sha256 s.claim_token ≡ hash
    → later < now + claim_ttl
    → later < r.expires_at
    → is_too_large env s.result ≡ false
    → ((submit env c id s later (begin e)).0 ≡ ok (submitted s later (claimed hash now r)))
      × ((submit env c id s later (begin e)).1.committed.requests
          ≡ update_rows (λ x. x.id == r.id) (submitted s later) e.requests)
unfolding submit
submit-claimed env e c id s hash now later r found same soon live small =
    (ground (arith, ==_refl hash), ground (arith, ==_refl hash))

-- The tenant reads the row that a submission has ended.
result-ended :
    (e : Db) (tenant_id id at later : ℕ) (s : OperationalToolResultSubmission) (t : SubmittedStatus)
    (r : OperationalToolRequest)
    → request_of_tenant tenant_id id e ≡ some (ended s t later r)
    → (result tenant_id id at (begin e)).0 ≡ ok (ended s t later r)
unfolding result
result-ended e tenant_id id at later s SubmittedStatus.completed r found = ground arith
result-ended e tenant_id id at later s SubmittedStatus.failed r found = ground arith

module _ (d : Db) (c : ManagedConnector) (hash now : ℕ) (r : OperationalToolRequest)
    (keyed : IsKeyed key d.requests)
    (found : earliest (λ r. r.created_at) (is_claimable c now) d.requests ≡ some r) where
  claimable : is_claimable c now r ≡ true
  claimable = earliest_holds (λ r. r.created_at) (is_claimable c now) d.requests r found

  row_found :
      (p : OperationalToolRequest → Bool)
      → p r ≡ true
      → ((x : OperationalToolRequest) → p x ≡ true → x.id ≡ r.id)
      → ((x : OperationalToolRequest) → p (claimed hash now x) ≡ p x)
      → find p (update_rows (λ x. x.id == r.id) (claimed hash now) d.requests)
        ≡ some (claimed hash now r)
  row_found p meets only keep = ground (
    arith,
    find-update_rows p (λ x. x.id == r.id) (claimed hash now) keep d.requests,
    find-key key p r d.requests keyed
        (earliest-Any (λ r. r.created_at) (is_claimable c now) d.requests r found) meets only,
    ==_refl r.id,
  )

  found_by_connector :
      find (is_of c r.id) (update_rows (λ x. x.id == r.id) (claimed hash now) d.requests)
      ≡ some (claimed hash now r)
  found_by_connector =
      row_found (is_of c r.id) (ground (arith, claimable, ==_refl r.id)) (λ x h. ground arith)
        (λ x. refl)

  found_by_tenant :
      (s : OperationalToolResultSubmission) (later : ℕ)
      → find (is_of_tenant c.tenant_id r.id) (
          update_rows
            (λ x. x.id == r.id)
            (submitted s later)
            (update_rows (λ x. x.id == r.id) (claimed hash now) d.requests))
        ≡ some (submitted s later (claimed hash now r))
  found_by_tenant s later = ground (
    arith,
    find-update_rows (is_of_tenant c.tenant_id r.id) (λ x. x.id == r.id) (submitted s later)
        (λ x. ground (arith, ended-kept s s.status later x))
        (update_rows (λ x. x.id == r.id) (claimed hash now) d.requests),
    row_found (is_of_tenant c.tenant_id r.id) (ground (arith, claimable, ==_refl r.id))
        (λ x h. ground arith) (λ x. refl),
    ==_refl r.id,
  )

-- The row is finished at the time, with what was submitted.
abbrev pub Carries :
    OperationalToolResultSubmission → SubmittedStatus → ℕ → OperationalToolRequest → Type 0
Carries s SubmittedStatus.completed at q =
    (q.status ≡ ToolStatus.completed)
    × (q.result ≡ s.result)
    × (q.error_code ≡ none)
    × (q.error_message ≡ none)
    × (q.completed_at ≡ some at)
Carries s SubmittedStatus.failed at q =
    (q.status ≡ ToolStatus.failed)
    × (q.result ≡ none)
    × (q.error_code ≡ s.error_code)
    × (q.error_message ≡ s.error_message)
    × (q.completed_at ≡ some at)

-- The row is the request that the view shows, with its answer.
abbrev pub IsAnswer :
    OperationalToolRequestView
    → OperationalToolResultSubmission
    → ℕ
    → OperationalToolRequest
    → Type 0
IsAnswer v s at q =
    (q.id ≡ v.id)
    × (q.tool_name ≡ v.tool_name)
    × (q.arguments ≡ v.arguments)
    × Carries s s.status at q

submitted-Carries :
    (s : OperationalToolResultSubmission) (t : SubmittedStatus) (at : ℕ)
    (r : OperationalToolRequest)
    → ((ended s t at r).tool_name ≡ r.tool_name)
      × ((ended s t at r).arguments ≡ r.arguments)
      × Carries s t at (ended s t at r)
submitted-Carries s SubmittedStatus.completed at r = (refl, refl, (refl, refl, refl, refl, refl))
submitted-Carries s SubmittedStatus.failed at r = (refl, refl, (refl, refl, refl, refl, refl))

-- When a claim in a table without two requests of the same id returns a view, and the same
-- connector then submits under the view's id and token a result that is not too large, within 15
-- seconds and before the request's deadline, the submission is accepted, and the tenant reads under
-- the id, at any time, the request of the view: completed with the submitted result, or failed with
-- the submitted error, as the submission says, at the time of the submission.
pub claim-submit-result :
    (env : Env) (d : Db) (c : ManagedConnector) (token now : ℕ) (v : OperationalToolRequestView)
    (s : OperationalToolResultSubmission) (later at : ℕ)
    → IsKeyed key d.requests
    → (claim env c token now (begin d)).0 ≡ ok (some v)
    → s.claim_token ≡ v.claim_token
    → later < now + claim_ttl
    → later < v.expires_at
    → is_too_large env s.result ≡ false
    → (q : OperationalToolRequest) × IsAnswer v s later q
      × ((submit env c v.id s later (begin (claim env c token now (begin d)).1.committed)).0 ≡ ok q)
      × ((result c.tenant_id v.id at (
            begin
              (submit env c v.id s later
                (begin (claim env c token now (begin d)).1.committed)).1.committed)).0
          ≡ ok q)
claim-submit-result env d c token now v s later at keyed h same soon live small =
    let (r, found, shown, rows) = claim-found env d c token now v h in
    let e : Db = (claim env c token now (begin d)).1.committed in
    let hash : ℕ = env.sha256 token in
    let id : v.id ≡ r.id = ap (λ (x : OperationalToolRequestView). x.id) shown in
    let held : request_of c v.id e ≡ some (claimed hash now r) =
      subst (λ rs. find (is_of c v.id) rs ≡ some (claimed hash now r)) (sym rows)
        (rw id (found_by_connector d c hash now r keyed found)) in
    let (accepted, ended_rows) =
      submit-claimed env e c v.id s hash now later r held
        (ap env.sha256 (same ∙ ap (λ (x : OperationalToolRequestView). x.claim_token) shown)) soon
        (ground (arith, shown)) small in
    let f : Db = (submit env c v.id s later (begin e)).1.committed in
    let kept = ended-kept s s.status later (claimed hash now r) in
    let (tool, arguments, carried) = submitted-Carries s s.status later (claimed hash now r) in
    (
      submitted s later (claimed hash now r),
      (
        kept.0 ∙ sym id,
        tool ∙ sym (ap (λ (x : OperationalToolRequestView). x.tool_name) shown),
        arguments ∙ sym (ap (λ (x : OperationalToolRequestView). x.arguments) shown),
        carried,
      ),
      accepted,
      result-ended f c.tenant_id v.id at later s s.status (claimed hash now r) (
          subst
            (λ rs.
              find (is_of_tenant c.tenant_id v.id) rs
              ≡ some (submitted s later (claimed hash now r)))
            (sym (ended_rows ∙ ap (update_rows (λ x. x.id == r.id) (submitted s later)) rows))
            (rw id (found_by_tenant d c hash now r keyed found s later))),
    )
