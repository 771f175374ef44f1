-- ===== src/Connector/Repository.antt =====
-- `ConnectorRepository` of backend/app/repositories/connector_repository.py, and the lookup of
-- tenants. A table is the list of its rows; a query is a function of the tables.
use peka_saas.Common.{
  ℕ, String, Bool, Option, List, [], ◌∷◌, ◌++◌, ◌&&◌, not, map, ltb, leb, ◌==◌, is_none, where_rows,
  find, update_rows, count_rows,
}
use peka_saas.Common.Exec.{Exec, Session, write}
use peka_saas.Connector.Types.{
  ManagedConnector, ConnectorRegistrationToken, ConnectorHeartbeat, ConnectorCapability,
  ConnectorEvent, Tenant,
}

-- The tables that the connector code reads and writes.
pub record Db : Type 0 where
  pub tokens : List ConnectorRegistrationToken
  pub connectors : List ManagedConnector
  pub heartbeats : List ConnectorHeartbeat
  pub capabilities : List ConnectorCapability
  pub events : List ConnectorEvent
  pub tenants : List Tenant

-- `ConnectorRegistrationErrorCode`, the codes that the service raises.
pub data ErrorCode : Type 0 where
  token_not_found token_expired token_used token_revoked instance_already_registered : ErrorCode
  tenant_mismatch tenant_inactive connector_limit_reached : ErrorCode
  registration_not_permitted internal_error : ErrorCode

-- `ConnectorServiceError`, and its subclass `ConnectorRegistrationError` with the code, message,
-- status code, tenant id, token id and internal reason; an exception of the database driver.
pub data ConnectorError : Type 0 where
  service_error : String → ℕ → ConnectorError
  registration_error : ErrorCode → String → ℕ → Option ℕ → Option ℕ → String → ConnectorError
  database_error : ConnectorError

abbrev pub Action : Type 0 → Type 0
Action = Exec (Session Db) ConnectorError

-- How the statements of a `try` block that writes end: the rows are committed, a unique index
-- refuses them because another transaction has committed (the tables are those it left), or the
-- database fails.
pub data Outcome : Type 0 where
  stored : Outcome
  integrity_error : Db → Outcome
  operation_error : Outcome

abbrev pub get_registration_token_for_update : ℕ → Db → Option ConnectorRegistrationToken
get_registration_token_for_update token_hash db = find (λ t. t.token_hash == token_hash) db.tokens

abbrev pub get_registration_token : ℕ → ℕ → Db → Option ConnectorRegistrationToken
get_registration_token tenant_id token_id db =
    find (λ t. t.id == token_id && t.tenant_id == tenant_id) db.tokens

-- The newest first is an order of presentation, and is left out.
abbrev pub list_registration_tokens : ℕ → Bool → ℕ → Db → List ConnectorRegistrationToken
list_registration_tokens tenant_id include_inactive now db = elim include_inactive [
  | Bool.true ↦ where_rows (λ t. t.tenant_id == tenant_id) db.tokens
  | Bool.false ↦
      where_rows
        (λ t.
          t.tenant_id == tenant_id
          && (is_none t.used_at && (is_none t.revoked_at && ltb now t.expires_at)))
        db.tokens
]

-- The condition of `list_unrecorded_expired_tokens`.
abbrev pub is_unrecorded_expired : ℕ → ConnectorRegistrationToken → Bool
is_unrecorded_expired now t =
    leb t.expires_at now
    && (is_none t.used_at && (is_none t.revoked_at && is_none t.expiration_event_recorded_at))

abbrev pub list_unrecorded_expired_tokens : ℕ → Db → List ConnectorRegistrationToken
list_unrecorded_expired_tokens now db = where_rows (is_unrecorded_expired now) db.tokens

-- The condition of `get_active_by_instance`.
abbrev pub is_active_instance : ℕ → ℕ → ManagedConnector → Bool
is_active_instance tenant_id instance_id c =
    c.tenant_id == tenant_id && (c.instance_id == instance_id && is_none c.retired_at)

abbrev pub get_active_by_instance : ℕ → ℕ → Db → Option ManagedConnector
get_active_by_instance tenant_id instance_id db =
    find (is_active_instance tenant_id instance_id) db.connectors

abbrev pub is_active_of : ℕ → ManagedConnector → Bool
is_active_of tenant_id c = c.tenant_id == tenant_id && is_none c.retired_at

abbrev pub count_active_for_tenant : ℕ → Db → ℕ
count_active_for_tenant tenant_id db = count_rows (is_active_of tenant_id) db.connectors

-- `ConnectorRepository.get`
abbrev pub get : ℕ → ℕ → Db → Option ManagedConnector
get tenant_id connector_id db =
    find (λ c. c.id == connector_id && c.tenant_id == tenant_id) db.connectors

abbrev pub get_unscoped : ℕ → Db → Option ManagedConnector
get_unscoped connector_id db = find (λ c. c.id == connector_id) db.connectors

-- `TenantRepository.get_by_id`
abbrev pub get_tenant : ℕ → Db → Option Tenant
get_tenant tenant_id db = find (λ t. t.id == tenant_id) db.tenants

-- Assignments to the attributes of a loaded row.
abbrev pub modify_token :
    ℕ → (ConnectorRegistrationToken → ConnectorRegistrationToken) → Action (Unit {0})
modify_token id f = write λ db. record db { tokens = update_rows (λ t. t.id == id) f db.tokens }

abbrev pub modify_connector : ℕ → (ManagedConnector → ManagedConnector) → Action (Unit {0})
modify_connector id f =
    write λ db. record db { connectors = update_rows (λ c. c.id == id) f db.connectors }

abbrev pub add_token : ConnectorRegistrationToken → Action (Unit {0})
add_token t = write λ db. record db { tokens = db.tokens ++ t ∷ [] }

abbrev pub add_connector : ManagedConnector → Action (Unit {0})
add_connector c = write λ db. record db { connectors = db.connectors ++ c ∷ [] }

abbrev pub add_heartbeat : ConnectorHeartbeat → Action (Unit {0})
add_heartbeat h = write λ db. record db { heartbeats = db.heartbeats ++ h ∷ [] }

-- `ConnectorService._event`
abbrev pub event : ConnectorEvent → Action (Unit {0})
event e = write λ db. record db { events = db.events ++ e ∷ [] }

abbrev capability : ManagedConnector → ℕ → String → ConnectorCapability
capability c now name = record {
  connector_id = c.id;
  tenant_id = c.tenant_id;
  name = name;
  last_reported_at = now;
}

abbrev pub replace_capabilities : ManagedConnector → List String → ℕ → Action (Unit {0})
replace_capabilities c names now = write λ db. record db {
  capabilities =
      where_rows (λ k. not (k.connector_id == c.id)) db.capabilities
      ++ map (capability c now) names;
}

abbrev pub delete_heartbeats_before : ℕ → Db → Db
delete_heartbeats_before cutoff db = record db {
  heartbeats = where_rows (λ h. not (ltb h.received_at cutoff)) db.heartbeats;
}

-- `result.rowcount` of that statement
abbrev pub heartbeats_before : ℕ → Db → ℕ
heartbeats_before cutoff db = count_rows (λ h. ltb h.received_at cutoff) db.heartbeats
