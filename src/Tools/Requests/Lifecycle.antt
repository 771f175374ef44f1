-- ===== src/Tools/Requests/Lifecycle.antt =====
-- The life of a request: what it may become, and that every call of the service keeps to it.
use peka_saas.Common.{
  ℕ, ◌+◌, ◌<◌, ◌≡◌, ◌≢◌, ◌⊎◌, inl, inr, refl, true, none, List, arith, All, String, ◌||◌, subst,
  sym,
}
use peka_saas.Common.Keyed.{Follow}
use peka_saas.Connector.Types.{ManagedConnector, ConnectorCapability}
use peka_saas.Tools.Types.{
  ToolStatus, pending, claimed, completed, failed, expired, OperationalToolRequest,
  OperationalToolResultSubmission, SubmittedStatus, Db,
}
use peka_saas.Tools.Requests.{
  Env, create, claim, submit, result, clear_ephemeral_payload, chosen, new_request, is_claimable,
  is_open, is_old, request_of, request_of_tenant, submitted, ended,
}
use peka_saas.Common.Exec.{begin}
use peka_saas.Tools.Requests

-- The abstract request: its status and the number of its claims. It is claimed at most three times,
-- and claimed again while it is claimed; a claimed one is completed or fails; one that is neither
-- completed nor failed expires.
pub data Step : ToolStatus → ℕ → ToolStatus → ℕ → Type 0 where
  first : (n : ℕ) → n < 3 → Step pending n claimed (n + 1)
  again : (n : ℕ) → n < 3 → Step claimed n claimed (n + 1)
  complete : (n : ℕ) → Step claimed n completed n
  fail : (n : ℕ) → Step claimed n failed n
  lapse : (s : ToolStatus) (n : ℕ) → is_open s ≡ true → Step s n expired n

-- A row in place of another: who asked whom for what is kept, and either the request is where it
-- was, with at most its result dropped, or it makes a step.
pub record IsLater (r s : OperationalToolRequest) : Type 0 where
  pub id : s.id ≡ r.id
  pub tenant : s.tenant_id ≡ r.tenant_id
  pub connector : s.connector_id ≡ r.connector_id
  pub user : s.created_by_user_id ≡ r.created_by_user_id
  pub tool : s.tool_name ≡ r.tool_name
  pub deadline : s.expires_at ≡ r.expires_at
  pub moves :
      ((s.status ≡ r.status)
        × (s.attempt_count ≡ r.attempt_count)
        × (s.completed_at ≡ r.completed_at)
        × (s.error_code ≡ r.error_code)
        × ((s.result ≡ r.result) ⊎ (s.result ≡ none)))
      ⊎ Step r.status r.attempt_count s.status s.attempt_count

abbrev pub IsNew : OperationalToolRequest → Type 0
IsNew r = (r.status ≡ pending) × (r.attempt_count ≡ 0)

-- One call of the service, on the committed tables `d`, that leaves the committed tables `e`; or
-- a change to the tables of connectors by another part of the program.
pub data Call (env : Env) : Db → Db → Type 0 where
  creates :
      (d : Db) (tenant_id user_id : ℕ) (tool_name : String) (arguments id now : ℕ)
      → All (λ r. r.id ≢ id) d.requests
      → Call env d (create tenant_id user_id tool_name arguments id now (begin d)).1.committed
  claims :
      (d : Db) (c : ManagedConnector) (token now : ℕ)
      → Call env d (claim env c token now (begin d)).1.committed
  submits :
      (d : Db) (c : ManagedConnector) (request_id : ℕ) (s : OperationalToolResultSubmission)
      (now : ℕ)
      → Call env d (submit env c request_id s now (begin d)).1.committed
  results :
      (d : Db) (tenant_id request_id now : ℕ)
      → Call env d (result tenant_id request_id now (begin d)).1.committed
  clears :
      (d : Db) (tenant_id request_id : ℕ)
      → Call env d (clear_ephemeral_payload env tenant_id request_id (begin d)).1.committed
  elsewhere :
      (d : Db) (cs : List ManagedConnector) (ks : List ConnectorCapability)
      → Call env d (record d { connectors = cs; capabilities = ks })

abbrev pub key : OperationalToolRequest → ℕ
key r = r.id

-- The table of requests follows the abstract machine.
abbrev pub Refines : List OperationalToolRequest → List OperationalToolRequest → Type 0
Refines = Follow key IsLater IsNew

pub stay : (r : OperationalToolRequest) → IsLater r r
stay r = record {
  id = refl;
  tenant = refl;
  connector = refl;
  user = refl;
  tool = refl;
  deadline = refl;
  moves = inl (refl, refl, refl, refl, inl refl);
}

pub claimed-IsLater :
    (c : ManagedConnector) (hash now : ℕ) (r : OperationalToolRequest)
    → is_claimable c now r ≡ true
    → IsLater r (Requests.claimed hash now r)
claimed-IsLater c hash now r h = record {
  id = refl;
  tenant = refl;
  connector = refl;
  user = refl;
  tool = refl;
  deadline = refl;
  moves = inr (elim (started r.status (ground arith)) [
    | inl e ↦
        subst (λ s. Step s r.attempt_count claimed (r.attempt_count + 1)) (sym e)
          (first r.attempt_count (ground arith))
    | inr e ↦
        subst (λ s. Step s r.attempt_count claimed (r.attempt_count + 1)) (sym e)
          (again r.attempt_count (ground arith))
  ]);
}
  where
    started :
        (s : ToolStatus)
        → (Requests.is_pending s || Requests.is_claimed s) ≡ true
        → (s ≡ pending) ⊎ (s ≡ claimed)
    started s h = ground arith

pub lapse-IsLater :
    (f : OperationalToolRequest → OperationalToolRequest) (r : OperationalToolRequest)
    → is_open r.status ≡ true
    → (f r ≡ Requests.expired r) ⊎ (f r ≡ Requests.lapsed r)
    → IsLater r (f r)
lapse-IsLater f r h (inl e) = rw e (record {
  id = refl;
  tenant = refl;
  connector = refl;
  user = refl;
  tool = refl;
  deadline = refl;
  moves = inr (lapse r.status r.attempt_count h);
})
lapse-IsLater f r h (inr e) = rw e (record {
  id = refl;
  tenant = refl;
  connector = refl;
  user = refl;
  tool = refl;
  deadline = refl;
  moves = inr (lapse r.status r.attempt_count h);
})

pub cleared-IsLater : (env : Env) (r : OperationalToolRequest) → IsLater r (Requests.cleared env r)
cleared-IsLater env r = record {
  id = refl;
  tenant = refl;
  connector = refl;
  user = refl;
  tool = refl;
  deadline = refl;
  moves = inl (refl, refl, refl, refl, inr refl);
}

pub submitted-IsLater :
    (s : OperationalToolResultSubmission) (t : SubmittedStatus) (now : ℕ)
    (r : OperationalToolRequest)
    → r.status ≡ claimed
    → IsLater r (ended s t now r)
submitted-IsLater s SubmittedStatus.completed now r h = record {
  id = refl;
  tenant = refl;
  connector = refl;
  user = refl;
  tool = refl;
  deadline = refl;
  moves = inr (
      subst (λ v. Step v r.attempt_count completed r.attempt_count) (sym h)
        (complete r.attempt_count));
}
submitted-IsLater s SubmittedStatus.failed now r h = record {
  id = refl;
  tenant = refl;
  connector = refl;
  user = refl;
  tool = refl;
  deadline = refl;
  moves =
      inr
        (subst (λ v. Step v r.attempt_count failed r.attempt_count) (sym h) (fail r.attempt_count));
}
