-- ===== src/Connector/Register.antt =====
-- `ConnectorService.register` of backend/app/services/connector_service.py.
pub mod Refusals
pub mod Invariants
use peka_saas.Common.{
  ℕ, ◌*◌, String, Bool, true, false, Option, none, some, List, [], ◌∷◌, leb, ◌==◌, not, is_some,
  is_none, if◌then◌else◌,
}
use peka_saas.Common.Exec.{
  Result, ok, err, Session, ◌>>=◌, ◌>>◌, pure, raise, or_raise, query, commit, rollback,
}
use peka_saas.Connector.Types.{
  ConnectorRegistrationToken, ConnectorEvent, ConnectorEventType, ManagedConnector, disconnected,
  registration_token_used, registration_token_failed, registration_token_expired, registered,
  ConnectorRegistrationRequest, Tenant, TenantStatus, active, suspended, tenant_retired, is_active,
}
use peka_saas.Connector.Repository.{
  Action, Db, Outcome, stored, integrity_error, operation_error, ErrorCode, token_not_found,
  token_expired, token_used, token_revoked, instance_already_registered, tenant_mismatch,
  tenant_inactive, connector_limit_reached, registration_not_permitted, internal_error,
  registration_error, get_registration_token_for_update, get_active_by_instance,
  count_active_for_tenant, get_tenant, modify_token, add_connector, event, replace_capabilities,
}
use peka_saas.Connector.Tokens.{token_event, record_expiry}

abbrev pub heartbeat_interval_seconds : ℕ
heartbeat_interval_seconds = 300

-- What the service is given: the constructor's `connector_limit`, the two hash functions of
-- backend/app/core/connector_security.py, the values that the request draws (the connector's id,
-- its raw secret), how the writes of the `try` block end, and the time.
pub record Registration : Type 0 where
  pub connector_limit : Option ℕ
  pub hash_registration_token : ℕ → ℕ
  pub hash_connector_secret : ℕ → ℕ
  pub connector_id : ℕ
  pub raw_secret : ℕ
  pub outcome : Outcome
  pub now : ℕ

pub record ConnectorRegistrationResponse : Type 0 where
  pub connector_id : ℕ
  pub tenant_id : ℕ
  pub connector_secret : ℕ
  pub heartbeat_interval : ℕ
  pub registered_at : ℕ
  pub tenant_timezone : String
  pub registration_token_id : ℕ

-- `_failed_token_use`: the event is committed before the exception.
pub failed_token_use :
    {A : Type 0} → ConnectorRegistrationToken → String → ErrorCode → ℕ → ℕ → String → Action A
failed_token_use t detail code status_code now reason = do
  event (token_event t.tenant_id registration_token_failed t.id none detail now)
  commit
  raise (registration_error code detail status_code (some t.tenant_id) (some t.id) reason)

-- `if condition: self._failed_token_use(…)`
refuse_if :
    Bool → ConnectorRegistrationToken → String → ErrorCode → ℕ → ℕ → String → Action (Unit {0})
unfolding failed_token_use
refuse_if true t detail code status_code now reason =
    failed_token_use t detail code status_code now reason
refuse_if false t detail code status_code now reason = pure tt

-- `f"tenant_{tenant.status.value}"`
abbrev tenant_reason : TenantStatus → String
tenant_reason active = "tenant_active"
tenant_reason suspended = "tenant_suspended"
tenant_reason tenant_retired = "tenant_retired"

abbrev record_expiry_if : Bool → ConnectorRegistrationToken → ℕ → Action (Unit {0})
record_expiry_if true t now = record_expiry t t.tenant_id now
record_expiry_if false t now = pure tt

-- The test of `expires_at`: an expiry that has no event yet is recorded first.
refuse_expired : Bool → ConnectorRegistrationToken → ℕ → Action (Unit {0})
unfolding failed_token_use
refuse_expired true t now = do
  record_expiry_if (is_none t.expiration_event_recorded_at) t now
  failed_token_use t "The registration token has expired." token_expired 410 now "token_expired"
refuse_expired false t now = pure tt

-- The three tests of the token's own columns.
check_token : ConnectorRegistrationToken → ℕ → Action (Unit {0})
unfolding refuse_if refuse_expired
check_token t now = do
  refuse_if (is_some t.used_at) t "The registration token has already been used." token_used 410 now
      "token_used"
  refuse_if (is_some t.revoked_at) t "The registration token has been revoked." token_revoked 410
      now "token_revoked"
  refuse_expired (leb t.expires_at now) t now

-- The tests of the tenant.
check_tenant : ConnectorRegistrationToken → Option Tenant → ℕ → Action Tenant
unfolding failed_token_use refuse_if
check_tenant t none now =
    failed_token_use t "Connector registration is not permitted." registration_not_permitted 403 now
      "tenant_not_found"
check_tenant t (some tenant) now = do
  refuse_if (not (tenant.id == t.tenant_id)) t
      "The registration token is not valid for this tenant." tenant_mismatch 403 now
      "tenant_mismatch"
  refuse_if (not (is_active tenant.status)) t
      "Connector registration is not permitted for an inactive tenant." tenant_inactive 403 now
      (tenant_reason tenant.status)
  pure tenant

-- `self.connector_limit is not None and count >= self.connector_limit`
abbrev pub limit_reached : Option ℕ → ℕ → Bool
limit_reached none count = false
limit_reached (some limit) count = leb limit count

-- The tests of the tenant's connectors.
check_capacity : Registration → ConnectorRegistrationToken → ℕ → Action (Unit {0})
unfolding refuse_if
check_capacity env t instance_id = do
  existing ← query (get_active_by_instance t.tenant_id instance_id)
  refuse_if (is_some existing) t "This connector appliance is already registered."
      instance_already_registered 409 env.now "instance_already_registered"
  count ← query (count_active_for_tenant t.tenant_id)
  refuse_if (limit_reached env.connector_limit count) t
      "The tenant connector limit has been reached." connector_limit_reached 409 env.now
      "connector_limit_reached"

-- The row that `register` adds, with the column defaults.
abbrev pub new_connector :
    Registration → ConnectorRegistrationToken → ConnectorRegistrationRequest → ManagedConnector
new_connector env t payload = record {
  id = env.connector_id;
  tenant_id = t.tenant_id;
  name = payload.connector_name;
  instance_id = payload.instance_id;
  version = payload.connector_version;
  environment = payload.environment;
  status = disconnected;
  secret_hash = env.hash_connector_secret env.raw_secret;
  registered_at = env.now;
  last_heartbeat_at = none;
  last_seen_at = some env.now;
  heartbeat_interval_seconds = heartbeat_interval_seconds;
  source_total = 0;
  source_healthy = 0;
  source_unhealthy = 0;
  source_disabled = 0;
  local_knowledge_store_status = none;
  knowledge_document_count = 0;
  knowledge_indexed_chunk_count = 0;
  last_knowledge_index_activity_at = none;
  consecutive_missed_heartbeats = 0;
  authentication_failure_count = 0;
  retired_at = none;
}

-- The two events of a registration.
abbrev registration_event :
    ConnectorRegistrationToken → ManagedConnector → ConnectorEventType → String → ℕ → ConnectorEvent
registration_event t c kind detail now =
    record (token_event t.tenant_id kind t.id none detail now) { connector_id = some c.id }

-- The statements of the `try` block before its commit.
store_connector :
    ConnectorRegistrationToken → ManagedConnector → List String → ℕ → Action (Unit {0})
store_connector t c capabilities now = do
  add_connector c
  replace_capabilities c capabilities now
  modify_token t.id (λ r. record r { used_at = some now })
  event (registration_event t c registration_token_used "Registration token consumed." now)
  event (registration_event t c registered "Connector registered." now)

-- The tables after a rollback, where another transaction has committed `db`.
abbrev rollback_to : Db → Action (Unit {0})
rollback_to db s = (ok tt, record s { working = db; committed = db })

abbrev internal : {A : Type 0} → ConnectorRegistrationToken → String → Action A
internal t reason = raise (
    registration_error internal_error "Connector registration failed unexpectedly." 500
      (some t.tenant_id) (some t.id) reason)

-- The handler of `IntegrityError`, by what `get_active_by_instance` finds after the rollback.
integrity_conflict : {A : Type 0} → ConnectorRegistrationToken → Option ManagedConnector → Action A
integrity_conflict t (some c) = raise (
    registration_error instance_already_registered "This connector appliance is already registered."
      409 (some t.tenant_id) (some t.id) "duplicate_active_instance_integrity_conflict")
integrity_conflict t none = internal t "database_integrity_error"

-- The `try` block with its two handlers.
finish :
    Outcome
    → ConnectorRegistrationToken
    → ManagedConnector
    → ConnectorRegistrationRequest
    → ℕ
    → Action (Unit {0})
unfolding store_connector integrity_conflict
finish stored t c payload now = do store_connector t c payload.capabilities now; commit
finish (integrity_error db) t c payload now = do
  rollback_to db
  found ← query (get_active_by_instance t.tenant_id payload.instance_id)
  integrity_conflict t found
finish operation_error t c payload now = do rollback; internal t "database_operation_error"

abbrev registration_response :
    Registration
    → ConnectorRegistrationToken
    → ManagedConnector
    → Tenant
    → ConnectorRegistrationResponse
registration_response env t c tenant = record {
  connector_id = c.id;
  tenant_id = c.tenant_id;
  connector_secret = env.raw_secret;
  heartbeat_interval = c.heartbeat_interval_seconds;
  registered_at = c.registered_at;
  tenant_timezone = tenant.timezone;
  registration_token_id = t.id;
}

unfoldable pub register :
    Registration → ConnectorRegistrationRequest → Action ConnectorRegistrationResponse
unfolding check_token check_tenant check_capacity finish
register env payload = do
  found ←
      query
        (get_registration_token_for_update (env.hash_registration_token payload.registration_token))
  token ← or_raise found (
      registration_error token_not_found "The registration token is invalid or not permitted." 401
        none none "token_not_found")
  check_token token env.now
  named ← query (get_tenant token.tenant_id)
  tenant ← check_tenant token named env.now
  check_capacity env token payload.instance_id
  let connector = new_connector env token payload
  finish env.outcome token connector payload env.now
  pure (registration_response env token connector tenant)
