-- ===== src/Witness/ConnectorData.antt =====
-- A tenant with a registration token, and a connector that is registered.
use peka_saas.Common.{ℕ, ◌+◌, ◌==◌, Bool, none, some, List, [], ◌∷◌}
use peka_saas.Common.Exec.{Session}
use peka_saas.Connector.Types.{
  ManagedConnector, connected, ConnectorRegistrationToken, ConnectorRegistrationRequest, Tenant,
  TenantStatus, ConnectorHeartbeatRequest,
}
use peka_saas.Connector.Repository.{Db, stored}
use peka_saas.Connector.Register.{Registration}
use peka_saas.Connector.Authenticate.{Credentials}

abbrev pub tenant : Tenant
tenant = record { id = 1; status = TenantStatus.active; timezone = "UTC" }

abbrev pub token : ConnectorRegistrationToken
token = record {
  id = 5;
  tenant_id = 1;
  token_hash = 77;
  expires_at = 1000;
  used_at = none;
  created_by_user_id = some 2;
  created_at = 10;
  revoked_at = none;
  intended_connector_name = none;
  expiration_event_recorded_at = none;
}

abbrev pub connector : ManagedConnector
connector = record {
  id = 9;
  tenant_id = 1;
  name = "edge";
  instance_id = 60;
  version = "1.0";
  environment = "prod";
  status = connected;
  secret_hash = 41;
  registered_at = 20;
  last_heartbeat_at = some 100;
  last_seen_at = some 100;
  heartbeat_interval_seconds = 300;
  source_total = 1;
  source_healthy = 1;
  source_unhealthy = 0;
  source_disabled = 0;
  local_knowledge_store_status = none;
  knowledge_document_count = 0;
  knowledge_indexed_chunk_count = 0;
  last_knowledge_index_activity_at = none;
  consecutive_missed_heartbeats = 0;
  authentication_failure_count = 0;
  retired_at = none;
}

abbrev tables : List ManagedConnector → Db
tables cs = record {
  tokens = token ∷ [];
  connectors = cs;
  heartbeats = [];
  capabilities = [];
  events = [];
  tenants = tenant ∷ [];
}

abbrev session : Db → Session Db
session db = record { working = db; committed = db }

-- The tenant's session without a connector, and with one.
abbrev pub vacant : Session Db
vacant = session (tables [])

abbrev pub occupied : Session Db
occupied = session (tables (connector ∷ []))

abbrev pub registration : Registration
registration = record {
  connector_limit = some 1;
  hash_registration_token = λ raw. raw + 7;
  hash_connector_secret = λ raw. raw + 1;
  connector_id = 9;
  raw_secret = 40;
  outcome = stored;
  now = 500;
}

abbrev pub request : ConnectorRegistrationRequest
request = record {
  registration_token = 70;
  connector_name = "edge";
  connector_version = "1.0";
  environment = "prod";
  instance_id = 60;
  capabilities = "documents" ∷ [];
}

-- Credentials for the registered connector with the secret.
abbrev pub credentials : ℕ → Credentials
credentials secret = record {
  connector_id = 9;
  header_connector_id = some 9;
  bearer_secret = some secret;
  retired_status_code = 410;
  reject_authentication_failed = Bool.true;
  verify_connector_secret = λ raw hash. (raw + 1) == hash;
  dummy_secret_hash = 0;
}

abbrev pub heartbeat_request : ℕ → ConnectorHeartbeatRequest
heartbeat_request instance_id = record {
  instance_id = instance_id;
  connector_name = none;
  connector_version = "1.1";
  environment = none;
  timestamp = 600;
  status = "ok";
  uptime_seconds = 5;
  sources = record { total = 2; healthy = 1; unhealthy = 1; disabled = 0 };
  capabilities = [];
  local_knowledge_store = none;
}
