-- ===== src/Connector/Heartbeat.antt =====
-- `record_heartbeat` of backend/app/services/connector_service.py.
pub mod Effects
pub mod Recorded
use peka_saas.Common.{
  ℕ, String, Bool, true, false, Option, none, some, ◌==◌, ◌&&◌, not, or_else, if◌then◌else◌,
}
use peka_saas.Common.Exec.{Session, ◌>>=◌, ◌>>◌, pure, raise, or_raise, query, commit}
use peka_saas.Connector.Types.{
  ManagedConnector, ConnectorHeartbeat, ConnectorHeartbeatRequest, LocalKnowledgeStoreSummary,
  ConnectorEventType, heartbeat_received, source_health_changed, authentication_failure,
}
use peka_saas.Connector.Status.{recalculate}
use peka_saas.Connector.Repository.{
  Action, service_error, get_tenant, modify_connector, add_heartbeat, event, replace_capabilities,
}
use peka_saas.Connector.Authenticate.{Credentials, authenticate, connector_event, status_event}

pub record ConnectorHeartbeatResponse : Type 0 where
  pub server_time : ℕ
  pub next_heartbeat_seconds : ℕ
  pub tenant_timezone : String

-- The columns that both kinds of heartbeat row share; a refused one has the column defaults.
abbrev pub refused_heartbeat : ManagedConnector → ConnectorHeartbeatRequest → ℕ → ConnectorHeartbeat
refused_heartbeat c payload now = record {
  connector_id = c.id;
  tenant_id = c.tenant_id;
  received_at = now;
  reported_at = payload.timestamp;
  version = payload.connector_version;
  reported_status = payload.status;
  uptime_seconds = payload.uptime_seconds;
  source_total = payload.sources.total;
  source_healthy = payload.sources.healthy;
  source_unhealthy = payload.sources.unhealthy;
  source_disabled = payload.sources.disabled;
  local_knowledge_store_status = none;
  knowledge_document_count = 0;
  knowledge_indexed_chunk_count = 0;
  last_knowledge_index_activity_at = none;
  accepted = false;
}

abbrev pub accepted_heartbeat :
    ManagedConnector → ConnectorHeartbeatRequest → ℕ → ConnectorHeartbeat
accepted_heartbeat c payload now = elim payload.local_knowledge_store [
  | none ↦ record (refused_heartbeat c payload now) { accepted = true }
  | some k ↦ record (refused_heartbeat c payload now) {
    local_knowledge_store_status = some k.status;
    knowledge_document_count = k.documents;
    knowledge_indexed_chunk_count = k.indexed_chunks;
    last_knowledge_index_activity_at = k.last_index_activity;
    accepted = true;
  }
]

-- The assignments under `if payload.local_knowledge_store is not None`.
abbrev store_knowledge : Option LocalKnowledgeStoreSummary → ManagedConnector → ManagedConnector
store_knowledge none c = c
store_knowledge (some k) c = record c {
  local_knowledge_store_status = some k.status;
  knowledge_document_count = k.documents;
  knowledge_indexed_chunk_count = k.indexed_chunks;
  last_knowledge_index_activity_at = k.last_index_activity;
}

-- The row after an accepted heartbeat, up to the status that `recalculate` derives.
pub heartbeat_row : ConnectorHeartbeatRequest → ℕ → ManagedConnector → ManagedConnector
heartbeat_row payload now c =
    let noted = record c {
      name = or_else payload.connector_name c.name;
      environment = or_else payload.environment c.environment;
      version = payload.connector_version;
      last_heartbeat_at = some now;
      last_seen_at = some now;
      source_total = payload.sources.total;
      source_healthy = payload.sources.healthy;
      source_unhealthy = payload.sources.unhealthy;
      source_disabled = payload.sources.disabled;
      consecutive_missed_heartbeats = 0;
      authentication_failure_count = 0;
    } in
    recalculate (store_knowledge payload.local_knowledge_store noted) now

-- `previous_sources == current_sources`
unfoldable pub same_sources : ManagedConnector → ManagedConnector → Bool
same_sources c d =
    c.source_total == d.source_total
    && (c.source_healthy == d.source_healthy
        && (c.source_unhealthy == d.source_unhealthy && c.source_disabled == d.source_disabled))

abbrev sources_event : ManagedConnector → ManagedConnector → ℕ → Action (Unit {0})
sources_event c d now =
    if same_sources c d
    then pure tt
    else event
        (connector_event c source_health_changed none "Reported source health summary changed." now)

-- The branch of an instance id that is not the registered one.
refuse_instance :
    ManagedConnector → ConnectorHeartbeatRequest → ℕ → Action ConnectorHeartbeatResponse
refuse_instance c payload now = do
  add_heartbeat (refused_heartbeat c payload now)
  event (
      connector_event c authentication_failure none "Authenticated heartbeat instance ID mismatch."
        now)
  commit
  raise (service_error "Heartbeat instance ID does not match registration." 409)

accept_heartbeat :
    ManagedConnector → ConnectorHeartbeatRequest → ℕ → Action ConnectorHeartbeatResponse
accept_heartbeat c payload now = do
  let d = heartbeat_row payload now c
  modify_connector c.id (heartbeat_row payload now)
  add_heartbeat (accepted_heartbeat c payload now)
  replace_capabilities c payload.capabilities now
  event (connector_event c heartbeat_received none "Heartbeat accepted." now)
  sources_event c d now
  status_event c c.status d.status now
  commit
  named ← query (get_tenant c.tenant_id)
  tenant ← or_raise named (service_error "Connector tenant no longer exists." 409)
  pure (record {
    server_time = now;
    next_heartbeat_seconds = c.heartbeat_interval_seconds;
    tenant_timezone = tenant.timezone;
  })

-- The commit is taken to succeed; where it does not, the source rolls back and raises again.
pub record_heartbeat :
    ManagedConnector → ConnectorHeartbeatRequest → ℕ → Action ConnectorHeartbeatResponse
unfolding refuse_instance accept_heartbeat
record_heartbeat c payload now =
    if payload.instance_id == c.instance_id
    then accept_heartbeat c payload now
    else refuse_instance c payload now

-- `ConnectorService.heartbeat`
pub heartbeat : Credentials → ConnectorHeartbeatRequest → ℕ → Action ConnectorHeartbeatResponse
heartbeat k payload now = do c ← authenticate k now; record_heartbeat c payload now
