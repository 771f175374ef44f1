-- ===== src/Tools/Requests/Refinement.antt =====
-- Every call of the service keeps to the life of a request.
use peka_saas.Common.{
  ℕ, ◌≡◌, ◌≢◌, inl, inr, refl, arith, All, Any, update_rows, ◌==◌, ◌&&◌, String, subst, sym,
}
use peka_saas.Common.Keyed.{
  IsKeyed, IsKeyed-add, IsKeyed-update, Follow-refl, Follow-add, Follow-where, Follow-key, find-Any,
}
use peka_saas.Common.Order.{earliest_holds, earliest-Any}
use peka_saas.Connector.Types.{ManagedConnector}
use peka_saas.Tools.Types.{
  OperationalToolRequest, OperationalToolResultSubmission, SubmittedStatus, Db,
}
use peka_saas.Tools.Requests.{
  Env, create, claim, submit, result, clear_ephemeral_payload, chosen, new_request, is_claimable,
  is_open, is_old, request_of, request_of_tenant, submitted, ended,
}
use peka_saas.Common.Exec.{begin}
use peka_saas.Tools.Requests.Cases.{
  create-cases, claim-cases, submit-cases, result-cases, clear-cases,
}
use peka_saas.Tools.Requests
use peka_saas.Tools.Requests.Lifecycle.{
  Call, creates, claims, submits, results, clears, elsewhere, IsLater, IsNew, Refines, key, stay,
  claimed-IsLater, lapse-IsLater, cleared-IsLater, submitted-IsLater,
}

-- What a call leaves of the requests: the table follows the machine, and its keys stay different.
abbrev Keeps : Db → Db → Type 0
Keeps d e = Refines d.requests e.requests × IsKeyed key e.requests

unchanged : (d e : Db) → IsKeyed key d.requests → e ≡ d → Keeps d e
unchanged d e keyed same =
    subst (λ x. Keeps d x) (sym same) (Follow-refl key IsLater IsNew stay d.requests, keyed)

-- A write to a row that a query has found.
one_row :
    (f : OperationalToolRequest → OperationalToolRequest) (r : OperationalToolRequest) (d e : Db)
    → ((x : OperationalToolRequest) → key (f x) ≡ key x)
    → IsLater r (f r)
    → IsKeyed key d.requests
    → Any (λ x. x ≡ r) d.requests
    → e.requests ≡ update_rows (λ x. x.id == r.id) f d.requests
    → Keeps d e
one_row f r d e same step keyed found rows =
    subst (λ rs. Refines d.requests rs × IsKeyed key rs) (sym rows)
      (
        Follow-key key IsLater IsNew stay f r step d.requests keyed found,
        IsKeyed-update key f (λ x. x.id == r.id) same d.requests keyed,
      )

module _ (env : Env) where
  creates-Keeps :
      (d : Db) (tenant_id user_id : ℕ) (tool_name : String) (arguments id now : ℕ)
      → All (λ r. r.id ≢ id) d.requests
      → IsKeyed key d.requests
      → Keeps d (create tenant_id user_id tool_name arguments id now (begin d)).1.committed
  creates-Keeps d tenant_id user_id tool_name arguments id now fresh keyed =
      elim (create-cases tenant_id user_id tool_name arguments id now d) [
        | inl e ↦
            unchanged d (create tenant_id user_id tool_name arguments id now (begin d)).1.committed
              keyed e
        | inr (c, e) ↦
            let r : OperationalToolRequest =
              new_request tenant_id c user_id tool_name arguments id now in
            subst (λ rs. Refines d.requests rs × IsKeyed key rs) (sym e)
              (
                Follow-add key IsLater IsNew stay d.requests r (refl, refl),
                IsKeyed-add key r d.requests fresh keyed,
              )
      ]

  claims-Keeps :
      (d : Db) (c : ManagedConnector) (token now : ℕ)
      → IsKeyed key d.requests
      → Keeps d (claim env c token now (begin d)).1.committed
  claims-Keeps d c token now keyed = elim (claim-cases env c token now d) [
    | inl e ↦
        subst (λ rs. Refines d.requests rs × IsKeyed key rs) (sym e)
          (
            Follow-where key IsLater IsNew stay (is_old now) Requests.expired
                (λ r h. lapse-IsLater Requests.expired r (ground arith) (inl refl)) d.requests,
            IsKeyed-update key Requests.expired (is_old now) (λ x. refl) d.requests keyed,
          )
    | inr (r, found, e) ↦
        one_row (Requests.claimed (env.sha256 token) now) r d
          (claim env c token now (begin d)).1.committed (λ x. refl)
          (claimed-IsLater c (env.sha256 token) now r
            (earliest_holds (λ r. r.created_at) (is_claimable c now) d.requests r found))
          keyed (earliest-Any (λ r. r.created_at) (is_claimable c now) d.requests r found) e
  ]

  submits-Keeps :
      (d : Db) (c : ManagedConnector) (id : ℕ) (s : OperationalToolResultSubmission) (now : ℕ)
      → IsKeyed key d.requests
      → Keeps d (submit env c id s now (begin d)).1.committed
  submits-Keeps d c id s now keyed = elim (submit-cases env c id s now d) [
    | inl e ↦ unchanged d (submit env c id s now (begin d)).1.committed keyed e
    | inr (r, found, held, e) ↦
        one_row (submitted s now) r d (submit env c id s now (begin d)).1.committed
          (λ x. ended-id s s.status now x) (submitted-IsLater s s.status now r (ground arith)) keyed
          (find-Any (λ r. r.id == id && (r.connector_id == c.id && r.tenant_id == c.tenant_id))
            d.requests r found)
          e
  ]
    where
      ended-id :
          (s : OperationalToolResultSubmission) (t : SubmittedStatus) (now : ℕ)
          (x : OperationalToolRequest)
          → (ended s t now x).id ≡ x.id
      ended-id s SubmittedStatus.completed now x = refl
      ended-id s SubmittedStatus.failed now x = refl

  results-Keeps :
      (d : Db) (tenant_id id now : ℕ)
      → IsKeyed key d.requests
      → Keeps d (result tenant_id id now (begin d)).1.committed
  results-Keeps d tenant_id id now keyed = elim (result-cases tenant_id id now d) [
    | inl e ↦ unchanged d (result tenant_id id now (begin d)).1.committed keyed e
    | inr (r, found, unfinished, e) ↦
        one_row Requests.lapsed r d (result tenant_id id now (begin d)).1.committed (λ x. refl)
          (lapse-IsLater Requests.lapsed r unfinished (inr refl)) keyed
          (find-Any (λ r. r.id == id && r.tenant_id == tenant_id) d.requests r found) e
  ]

  clears-Keeps :
      (d : Db) (tenant_id id : ℕ)
      → IsKeyed key d.requests
      → Keeps d (clear_ephemeral_payload env tenant_id id (begin d)).1.committed
  clears-Keeps d tenant_id id keyed = elim (clear-cases env tenant_id id d) [
    | inl e ↦ unchanged d (clear_ephemeral_payload env tenant_id id (begin d)).1.committed keyed e
    | inr (r, found, e) ↦
        one_row (Requests.cleared env) r d
          (clear_ephemeral_payload env tenant_id id (begin d)).1.committed (λ x. refl)
          (cleared-IsLater env r) keyed
          (find-Any (λ r. r.id == id && r.tenant_id == tenant_id) d.requests r found) e
  ]

  -- From a table without two requests of the same id, a call leaves such a table. Each request keeps
  -- its id, tenant, connector, asker, tool and deadline, and either keeps its status, number of
  -- claims, completion time and error code, with its result kept or dropped, or makes one step of
  -- the abstract machine; the requests that are added are pending and were never claimed.
  pub Call-Refines :
      (d e : Db)
      → Call env d e
      → IsKeyed key d.requests
      → Refines d.requests e.requests × IsKeyed key e.requests
  Call-Refines _ _ (creates d tenant_id user_id tool_name arguments id now fresh) keyed =
      creates-Keeps d tenant_id user_id tool_name arguments id now fresh keyed
  Call-Refines _ _ (claims d c token now) keyed = claims-Keeps d c token now keyed
  Call-Refines _ _ (submits d c id s now) keyed = submits-Keeps d c id s now keyed
  Call-Refines _ _ (results d tenant_id id now) keyed = results-Keeps d tenant_id id now keyed
  Call-Refines _ _ (clears d tenant_id id) keyed = clears-Keeps d tenant_id id keyed
  Call-Refines _ _ (elsewhere d cs ks) keyed =
      (Follow-refl key IsLater IsNew stay d.requests, keyed)
