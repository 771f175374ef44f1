-- ===== src/Connector/Register/Refusals.antt =====
-- Which registrations succeed, and what a refused one leaves.
use peka_saas.Common.{◌≡◌, ◌↔◌, ◌==◌, Bool, true, false, Option, none, some, arith, find_holds}
use peka_saas.Common.Exec.{is_ok, Session}
use peka_saas.Connector.Types.{
  ConnectorRegistrationToken, ConnectorRegistrationRequest, Tenant, active,
}
use peka_saas.Connector.Tokens.{TokenStatus, token_status}
use peka_saas.Connector.Repository.{
  Db, Outcome, stored, integrity_error, get_registration_token_for_update, get_active_by_instance,
  get_tenant, count_active_for_tenant,
}
use peka_saas.Connector.Register.{Registration, register, limit_reached}

abbrev pub presented :
    Registration → ConnectorRegistrationRequest → Session Db → Option ConnectorRegistrationToken
presented env payload s =
    get_registration_token_for_update (env.hash_registration_token payload.registration_token)
      s.working

-- Another transaction committed a row that the writes conflict with.
abbrev pub overtaken : Outcome → Bool
overtaken (integrity_error _) = true
overtaken _ = false

-- What a registration needs besides its token and the tenant's row.
pub record IsAdmissible (env : Registration) (payload : ConnectorRegistrationRequest) (db : Db)
    (t : ConnectorRegistrationToken) (tenant : Tenant) : Type 0 where
  pub usable : token_status t env.now ≡ TokenStatus.active
  pub tenant_active : tenant.status ≡ active
  pub new_instance : get_active_by_instance t.tenant_id payload.instance_id db ≡ none
  pub room : limit_reached env.connector_limit (count_active_for_tenant t.tenant_id db) ≡ false
  pub written : env.outcome ≡ stored

module _ (env : Registration) (payload : ConnectorRegistrationRequest) (s : Session Db) where
  -- When the token presented is found and its tenant has a row, the registration succeeds exactly when
  -- the token is neither used, revoked nor expired, the tenant is active, no active connector of the
  -- tenant has the appliance's instance id, the tenant is below the connector limit, and the writes are
  -- committed.
  pub register-ok_iff :
      (t : ConnectorRegistrationToken) (tenant : Tenant)
      → presented env payload s ≡ some t
      → get_tenant t.tenant_id s.working ≡ some tenant
      → (is_ok (register env payload s).0 ≡ true) ↔ IsAdmissible env payload s.working t tenant
  unfolding register token_status
  register-ok_iff t tenant e g =
      let same : (tenant.id == t.tenant_id) ≡ true =
        find_holds (λ x. x.id == t.tenant_id) s.working.tenants tenant g in
      (λ h. ground arith, λ h. ground arith)

  -- A registration whose token is unknown does not succeed.
  register-unknown_token : presented env payload s ≡ none → is_ok (register env payload s).0 ≡ false
  unfolding register
  register-unknown_token e = ground arith

  -- A registration that is refused leaves the connectors and the capabilities as they were and nothing
  -- pending, where the request began with nothing pending and no other transaction overtook it.
  pub register-keeps :
      s.working ≡ s.committed
      → is_ok (register env payload s).0 ≡ false
      → overtaken env.outcome ≡ false
      → ((register env payload s).1.working.connectors ≡ s.working.connectors)
        × ((register env payload s).1.working.capabilities ≡ s.working.capabilities)
        × ((register env payload s).1.working ≡ (register env payload s).1.committed)
  unfolding register
  register-keeps c e h = ground arith
