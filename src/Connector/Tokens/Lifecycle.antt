-- ===== src/Connector/Tokens/Lifecycle.antt =====
-- What the creation, the listing and the revocation of a token leave for its use.
use peka_saas.Common.{
  ℕ, ◌+◌, ◌≡◌, ◌↔◌, ◌<◌, String, true, Option, none, some, arith, ◌==◌, ◌&&◌, ==_refl, [], ◌∷◌,
  Option-cases, inl, inr, refl, find-append, find_holds, is_some, find-update_rows,
}
use peka_saas.Common.Exec.{Session, is_ok}
use peka_saas.Connector.Types.{ConnectorRegistrationToken}
use peka_saas.Connector.Repository.{
  Db, stored, get_registration_token, get_registration_token_for_update,
}
use peka_saas.Connector.Tokens.{
  TokenStatus, token_status, token_lifetime, new_token, create_registration_token,
  revoke_registration_token,
}

-- The token can be used exactly before its expiry, and only while it is neither used nor revoked.
token_status-active_iff :
    (t : ConnectorRegistrationToken) (now : ℕ)
    → (token_status t now ≡ TokenStatus.active)
      ↔ ((t.used_at ≡ none) × (t.revoked_at ≡ none) × (now < t.expires_at))
unfolding token_status
token_status-active_iff t now = (λ h. ground arith, λ h. ground arith)

-- When no token has the hash, creating one returns, and the committed table then finds, under the
-- hash, a token of the tenant that is active exactly before thirty minutes have passed.
pub create_registration_token-found :
    (hash : ℕ → ℕ) (tenant_id actor_id : ℕ) (intended_name : Option String) (raw id now : ℕ)
    (s : Session Db)
    → get_registration_token_for_update (hash raw) s.working ≡ none
    → (is_ok (create_registration_token hash tenant_id actor_id intended_name raw id stored now s).0
        ≡ true)
      × (t : ConnectorRegistrationToken) × (get_registration_token_for_update
            (hash raw)
            (create_registration_token hash tenant_id actor_id intended_name raw id stored now
              s).1.committed
          ≡ some t)
      × (t.tenant_id ≡ tenant_id)
      × ((later : ℕ) → (token_status t later ≡ TokenStatus.active) ↔ (later < now + token_lifetime))
unfolding create_registration_token token_status
create_registration_token-found hash tenant_id actor_id intended_name raw id now s fresh = (
  ground arith,
  new_token tenant_id (hash raw) actor_id intended_name id now,
  ground (
    arith,
    find-append (λ t. t.token_hash == hash raw) s.working.tokens
        (new_token tenant_id (hash raw) actor_id intended_name id now ∷ []),
    ==_refl (hash raw),
  ),
  refl,
  λ later. (λ h. ground arith, λ h. ground arith),
)

-- The row that a revocation leaves.
pub revoked_row :
    (tenant_id token_id actor_id now token_hash : ℕ) (s : Session Db)
    (t : ConnectorRegistrationToken)
    → get_registration_token tenant_id token_id s.working ≡ some t
    → get_registration_token_for_update token_hash s.working ≡ some t
    → t.used_at ≡ none
    → (is_ok (revoke_registration_token tenant_id token_id actor_id now s).0 ≡ true)
      × (r : ConnectorRegistrationToken) × (get_registration_token_for_update token_hash
            (revoke_registration_token tenant_id token_id actor_id now s).1.working
          ≡ some r)
      × (r.used_at ≡ none)
      × (is_some r.revoked_at ≡ true)
unfolding revoke_registration_token
revoked_row tenant_id token_id actor_id now token_hash s t found presented unused =
    let same : (t.id == token_id && t.tenant_id == tenant_id) ≡ true =
      find_holds (λ t. t.id == token_id && t.tenant_id == tenant_id) s.working.tokens t found in
    elim (Option-cases t.revoked_at) [
      | inl e ↦ (
        ground arith,
        record t { revoked_at = some now },
        ground (
          arith,
          find-update_rows (λ r. r.token_hash == token_hash) (λ r. r.id == t.id)
              (λ r. record r { revoked_at = some now }) (λ r. refl) s.working.tokens,
          ==_refl t.id,
        ),
        unused,
        refl,
      )
      | inr (at, e) ↦ (ground arith, t, ground arith, unused, ground arith)
    ]
