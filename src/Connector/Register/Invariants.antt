-- ===== src/Connector/Register/Invariants.antt =====
-- What registrations keep: the tenant's limit, one active row for an appliance, and the single use
-- of a token.
use mathlib.Core.Bool.{false≢true}
use peka_saas.Common.{
  ℕ, ◌≡◌, ◌==◌, true, false, none, some, [], ◌∷◌, arith, ◌≤◌, Option-cases, refl, sym, ap, ◌∙◌, inl,
  inr, find, is_some, find-update_rows, count_rows, count_rows-append, count_rows_of_find,
}
use peka_saas.Common.Exec.{err, is_ok, Session}
use peka_saas.Connector.Types.{ConnectorRegistrationToken, ConnectorRegistrationRequest}
use peka_saas.Connector.Repository.{
  Db, count_active_for_tenant, is_active_instance, is_active_of, token_used, token_revoked,
  get_registration_token, registration_error,
}
use peka_saas.Connector.Tokens.{revoke_registration_token}
use peka_saas.Connector.Tokens.Lifecycle.{revoked_row}
use peka_saas.Connector.Register.{Registration, register, new_connector}
use peka_saas.Connector.Register.Refusals.{presented, overtaken}

module _ (env : Registration) (payload : ConnectorRegistrationRequest) (s : Session Db) where
  -- A tenant that has at most `connector_limit` active connectors has at most as many after any
  -- registration, accepted or refused, where the request began with nothing pending and no other
  -- transaction overtook it.
  pub register-within_limit :
      (tenant_id limit : ℕ)
      → s.working ≡ s.committed
      → overtaken env.outcome ≡ false
      → env.connector_limit ≡ some limit
      → count_active_for_tenant tenant_id s.working ≤ limit
      → count_active_for_tenant tenant_id (register env payload s).1.working ≤ limit
  unfolding register
  register-within_limit tenant_id limit clean alone e h =
      elim (Option-cases (presented env payload s)) [
        | inl unknown ↦ ground arith
        | inr (t, found) ↦ ground (
          arith,
          count_rows-append (is_active_of tenant_id) s.working.connectors
              (new_connector env t payload ∷ []),
        )
      ]

  -- When a tenant has at most one active connector with an instance id, it has at most one after any
  -- registration, accepted or refused, where the request began with nothing pending and no other
  -- transaction overtook it.
  pub register-one_instance :
      (tenant_id instance_id : ℕ)
      → s.working ≡ s.committed
      → overtaken env.outcome ≡ false
      → count_rows (is_active_instance tenant_id instance_id) s.working.connectors ≤ 1
      → count_rows
          (is_active_instance tenant_id instance_id)
          (register env payload s).1.working.connectors
        ≤ 1
  unfolding register
  register-one_instance tenant_id instance_id clean alone h =
      elim (Option-cases (presented env payload s)) [
        | inl unknown ↦ ground arith
        | inr (t, found) ↦ ground (
          arith,
          count_rows-append (is_active_instance tenant_id instance_id) s.working.connectors
              (new_connector env t payload ∷ []),
          count_rows_of_find (is_active_instance tenant_id instance_id) s.working.connectors,
        )
      ]

-- The token of a successful registration is found again, used.
register-marks_used :
    (env : Registration) (payload : ConnectorRegistrationRequest) (s : Session Db)
    (t : ConnectorRegistrationToken)
    → presented env payload s ≡ some t
    → is_ok (register env payload s).0 ≡ true
    → presented env payload (register env payload s).1 ≡ some (record t { used_at = some env.now })
unfolding register
register-marks_used env payload s t found done = ground (
  arith,
  find-update_rows (λ x. x.token_hash == env.hash_registration_token payload.registration_token)
      (λ x. x.id == t.id) (λ r. record r { used_at = some env.now }) (λ x. refl) s.working.tokens,
)

-- A used token is refused as used.
register-used :
    (env : Registration) (payload : ConnectorRegistrationRequest) (s : Session Db)
    (t : ConnectorRegistrationToken)
    → presented env payload s ≡ some t
    → is_some t.used_at ≡ true
    → (register env payload s).0
      ≡ err (
          registration_error token_used "The registration token has already been used." 410
            (some t.tenant_id)
            (some t.id)
            "token_used")
unfolding register
register-used env payload s t found used = ground arith

-- No token, no success.
register-needs_token :
    (env : Registration) (payload : ConnectorRegistrationRequest) (s : Session Db)
    → presented env payload s ≡ none
    → is_ok (register env payload s).0 ≡ false
unfolding register
register-needs_token env payload s e = ground arith

-- After a registration has succeeded, presenting the same token again is refused as used, by
-- whatever appliance, at whatever time and under whatever limit, where the later request hashes
-- tokens to the same value.
pub register_single_use :
    (env later : Registration) (payload again : ConnectorRegistrationRequest) (s : Session Db)
    → is_ok (register env payload s).0 ≡ true
    → later.hash_registration_token again.registration_token
      ≡ env.hash_registration_token payload.registration_token
    → (t : ConnectorRegistrationToken) × (presented env payload s ≡ some t)
      × ((register later again (register env payload s).1).0
          ≡ err (
              registration_error token_used "The registration token has already been used." 410
                (some t.tenant_id)
                (some t.id)
                "token_used"))
register_single_use env later payload again s done same =
    elim (Option-cases (presented env payload s)) [
      | inl unknown ↦ absurd (false≢true (sym (register-needs_token env payload s unknown) ∙ done))
      | inr (t, found) ↦ (
        t,
        found,
        register-used later again (register env payload s).1 (record t { used_at = some env.now })
            (ap
                (λ h.
                  find (λ (x : ConnectorRegistrationToken). x.token_hash == h)
                    (register env payload s).1.working.tokens)
                same
              ∙ register-marks_used env payload s t found done)
            refl,
      )
    ]

-- A revoked token that was not used is refused as revoked.
register-revoked :
    (env : Registration) (payload : ConnectorRegistrationRequest) (s : Session Db)
    (t : ConnectorRegistrationToken)
    → presented env payload s ≡ some t
    → t.used_at ≡ none
    → is_some t.revoked_at ≡ true
    → (register env payload s).0
      ≡ err (
          registration_error token_revoked "The registration token has been revoked." 410
            (some t.tenant_id)
            (some t.id)
            "token_revoked")
unfolding register
register-revoked env payload s t found unused revoked = ground arith

-- An unused token of the tenant can be revoked, the request returning, and a registration that
-- presents it afterwards, at whatever time, is refused as revoked.
pub register_after_revocation :
    (env : Registration) (payload : ConnectorRegistrationRequest) (s : Session Db)
    (t : ConnectorRegistrationToken) (tenant_id token_id actor_id now : ℕ)
    → presented env payload s ≡ some t
    → get_registration_token tenant_id token_id s.working ≡ some t
    → t.used_at ≡ none
    → (is_ok (revoke_registration_token tenant_id token_id actor_id now s).0 ≡ true)
      × (r : ConnectorRegistrationToken) × ((register env payload
            (revoke_registration_token tenant_id token_id actor_id now s).1).0
          ≡ err (
              registration_error token_revoked "The registration token has been revoked." 410
                (some r.tenant_id)
                (some r.id)
                "token_revoked"))
register_after_revocation env payload s t tenant_id token_id actor_id now found named unused =
    let (done, r, again, free, gone) =
      revoked_row tenant_id token_id actor_id now
        (env.hash_registration_token payload.registration_token) s t named found unused in
    (
      done,
      r,
      register-revoked env payload (revoke_registration_token tenant_id token_id actor_id now s).1 r
          again free gone,
    )
