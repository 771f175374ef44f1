-- ===== src/Connector/Types.antt =====
-- The rows of backend/app/models/connector.py and the requests of
-- backend/app/schemas/connector_api.py. UUIDs, hashes, secrets and timestamps are natural numbers:
-- the code only compares and copies them. A timestamp counts microseconds, Python's resolution.
use peka_saas.Common.{ℕ, ◌*◌, String, Bool, true, false, Option, List}

pub data ManagedConnectorStatus : Type 0 where
  connected in_sync degraded out_of_sync disconnected : ManagedConnectorStatus
  authentication_failed retired : ManagedConnectorStatus

-- `status.value`
unfoldable pub status_value : ManagedConnectorStatus → String
status_value connected = "connected"
status_value in_sync = "in_sync"
status_value degraded = "degraded"
status_value out_of_sync = "out_of_sync"
status_value disconnected = "disconnected"
status_value authentication_failed = "authentication_failed"
status_value retired = "retired"

-- `old == new` on two statuses
unfoldable pub same_status : ManagedConnectorStatus → ManagedConnectorStatus → Bool
same_status connected connected = true
same_status in_sync in_sync = true
same_status degraded degraded = true
same_status out_of_sync out_of_sync = true
same_status disconnected disconnected = true
same_status authentication_failed authentication_failed = true
same_status retired retired = true
same_status _ _ = false

pub data ConnectorEventType : Type 0 where
  registration_token_generated registration_token_revoked registration_token_used :
      ConnectorEventType
  registration_token_expired registration_token_failed registered : ConnectorEventType
  heartbeat_received source_health_changed status_changed : ConnectorEventType
  authentication_failure connector_retired : ConnectorEventType

pub record ManagedConnector : Type 0 where
  pub id : ℕ
  pub tenant_id : ℕ
  pub name : String
  pub instance_id : ℕ
  pub version : String
  pub environment : String
  pub status : ManagedConnectorStatus
  pub secret_hash : ℕ
  pub registered_at : ℕ
  pub last_heartbeat_at : Option ℕ
  pub last_seen_at : Option ℕ
  pub heartbeat_interval_seconds : ℕ
  pub source_total : ℕ
  pub source_healthy : ℕ
  pub source_unhealthy : ℕ
  pub source_disabled : ℕ
  pub local_knowledge_store_status : Option String
  pub knowledge_document_count : ℕ
  pub knowledge_indexed_chunk_count : ℕ
  pub last_knowledge_index_activity_at : Option ℕ
  pub consecutive_missed_heartbeats : ℕ
  pub authentication_failure_count : ℕ
  pub retired_at : Option ℕ

pub record ConnectorRegistrationToken : Type 0 where
  pub id : ℕ
  pub tenant_id : ℕ
  pub token_hash : ℕ
  pub expires_at : ℕ
  pub used_at : Option ℕ
  pub created_by_user_id : Option ℕ
  pub created_at : ℕ
  pub revoked_at : Option ℕ
  pub intended_connector_name : Option String
  pub expiration_event_recorded_at : Option ℕ

pub record ConnectorHeartbeat : Type 0 where
  pub connector_id : ℕ
  pub tenant_id : ℕ
  pub received_at : ℕ
  pub reported_at : ℕ
  pub version : String
  pub reported_status : String
  pub uptime_seconds : ℕ
  pub source_total : ℕ
  pub source_healthy : ℕ
  pub source_unhealthy : ℕ
  pub source_disabled : ℕ
  pub local_knowledge_store_status : Option String
  pub knowledge_document_count : ℕ
  pub knowledge_indexed_chunk_count : ℕ
  pub last_knowledge_index_activity_at : Option ℕ
  pub accepted : Bool

pub record ConnectorCapability : Type 0 where
  pub connector_id : ℕ
  pub tenant_id : ℕ
  pub name : String
  pub last_reported_at : ℕ

pub record ConnectorEvent : Type 0 where
  pub tenant_id : ℕ
  pub connector_id : Option ℕ
  pub registration_token_id : Option ℕ
  pub event_type : ConnectorEventType
  pub occurred_at : ℕ
  pub actor_user_id : Option ℕ
  pub detail : Option String

pub data TenantStatus : Type 0 where
  active suspended tenant_retired : TenantStatus

abbrev pub is_active : TenantStatus → Bool
is_active active = true
is_active _ = false

-- The columns of backend/app/models/tenant.py that the connector code reads.
pub record Tenant : Type 0 where
  pub id : ℕ
  pub status : TenantStatus
  pub timezone : String

pub record ConnectorRegistrationRequest : Type 0 where
  pub registration_token : ℕ
  pub connector_name : String
  pub connector_version : String
  pub environment : String
  pub instance_id : ℕ
  pub capabilities : List String

pub record ConnectorSourceSummary : Type 0 where
  pub total : ℕ
  pub healthy : ℕ
  pub unhealthy : ℕ
  pub disabled : ℕ

pub record LocalKnowledgeStoreSummary : Type 0 where
  pub status : String
  pub documents : ℕ
  pub indexed_chunks : ℕ
  pub last_index_activity : Option ℕ

pub record ConnectorHeartbeatRequest : Type 0 where
  pub instance_id : ℕ
  pub connector_name : Option String
  pub connector_version : String
  pub environment : Option String
  pub timestamp : ℕ
  pub status : String
  pub uptime_seconds : ℕ
  pub sources : ConnectorSourceSummary
  pub capabilities : List String
  pub local_knowledge_store : Option LocalKnowledgeStoreSummary

-- `timedelta(seconds=n)`
abbrev pub seconds : ℕ → ℕ
seconds n = n * 1000000
