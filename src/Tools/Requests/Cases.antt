-- ===== src/Tools/Requests/Cases.antt =====
-- What each call of the service leaves in the committed tables, by what it finds.
use peka_saas.Common.{
  ℕ, ◌≡◌, ◌⊎◌, inl, inr, true, some, [], ◌∷◌, ◌++◌, arith, update_rows, Option-cases, Bool-cases,
  ◌==◌, String, ◌&&◌, not, leb,
}
use peka_saas.Common.Exec.{begin}
use peka_saas.Common.Order.{earliest}
use peka_saas.Connector.Types.{ManagedConnector}
use peka_saas.Tools.Types.{OperationalToolRequest, OperationalToolResultSubmission, Db, is_allowed}
use peka_saas.Tools.Requests.{
  Env, create, claim, submit, result, clear_ephemeral_payload, chosen, new_request, is_claimable,
  is_open, is_old, request_of, request_of_tenant, submitted, holds_claim, is_too_large,
}
use peka_saas.Tools.Requests

pub create-cases :
    (tenant_id user_id : ℕ) (tool_name : String) (arguments id now : ℕ) (d : Db)
    → ((create tenant_id user_id tool_name arguments id now (begin d)).1.committed ≡ d)
      ⊎ ((c : ManagedConnector) × ((create tenant_id user_id tool_name arguments id now
              (begin d)).1.committed.requests
            ≡ d.requests ++ new_request tenant_id c user_id tool_name arguments id now ∷ []))
unfolding create
create-cases tenant_id user_id tool_name arguments id now d =
    elim (Bool-cases (is_allowed tool_name)) [
      | inr e ↦ inl (ground arith)
      | inl e ↦ elim (Option-cases (chosen tenant_id tool_name now d)) [
        | inl e' ↦ inl (ground arith)
        | inr (c, e') ↦ inr (c, ground arith)
      ]
    ]

pub claim-cases :
    (env : Env) (c : ManagedConnector) (token now : ℕ) (d : Db)
    → ((claim env c token now (begin d)).1.committed.requests
        ≡ update_rows (is_old now) Requests.expired d.requests)
      ⊎ ((r : OperationalToolRequest) × (earliest
              (λ r. r.created_at)
              (is_claimable c now)
              d.requests
            ≡ some r)
          × ((claim env c token now (begin d)).1.committed.requests
              ≡ update_rows
                  (λ x. x.id == r.id)
                  (Requests.claimed (env.sha256 token) now)
                  d.requests))
unfolding claim
claim-cases env c token now d =
    elim (Option-cases (earliest (λ r. r.created_at) (is_claimable c now) d.requests)) [
      | inl e ↦ inl (ground arith)
      | inr (r, e) ↦ inr (r, e, ground arith)
    ]

pub submit-cases :
    (env : Env) (c : ManagedConnector) (id : ℕ) (s : OperationalToolResultSubmission) (now : ℕ)
    (d : Db)
    → ((submit env c id s now (begin d)).1.committed ≡ d)
      ⊎ ((r : OperationalToolRequest) × (request_of c id d ≡ some r)
          × (holds_claim env s.claim_token now r ≡ true)
          × ((submit env c id s now (begin d)).1.committed.requests
              ≡ update_rows (λ x. x.id == r.id) (submitted s now) d.requests))
unfolding submit
submit-cases env c id s now d = elim (Option-cases (request_of c id d)) [
  | inl e ↦ inl (ground arith)
  | inr (r, e) ↦
      elim (Bool-cases (holds_claim env s.claim_token now r && not (is_too_large env s.result))) [
        | inr e' ↦ inl (ground arith)
        | inl e' ↦ inr (r, e, ground arith, ground arith)
      ]
]

pub result-cases :
    (tenant_id id now : ℕ) (d : Db)
    → ((result tenant_id id now (begin d)).1.committed ≡ d)
      ⊎ ((r : OperationalToolRequest) × (request_of_tenant tenant_id id d ≡ some r)
          × (is_open r.status ≡ true)
          × ((result tenant_id id now (begin d)).1.committed.requests
              ≡ update_rows (λ x. x.id == r.id) Requests.lapsed d.requests))
unfolding result
result-cases tenant_id id now d = elim (Option-cases (request_of_tenant tenant_id id d)) [
  | inl e ↦ inl (ground arith)
  | inr (r, e) ↦ elim (Bool-cases (is_open r.status && leb r.expires_at now)) [
    | inr e' ↦ inl (ground arith)
    | inl e' ↦ inr (r, e, ground arith, ground arith)
  ]
]

pub clear-cases :
    (env : Env) (tenant_id id : ℕ) (d : Db)
    → ((clear_ephemeral_payload env tenant_id id (begin d)).1.committed ≡ d)
      ⊎ ((r : OperationalToolRequest) × (request_of_tenant tenant_id id d ≡ some r)
          × ((clear_ephemeral_payload env tenant_id id (begin d)).1.committed.requests
              ≡ update_rows (λ x. x.id == r.id) (Requests.cleared env) d.requests))
unfolding clear_ephemeral_payload
clear-cases env tenant_id id d = elim (Option-cases (request_of_tenant tenant_id id d)) [
  | inl e ↦ inl (ground arith)
  | inr (r, e) ↦ inr (r, e, ground arith)
]
