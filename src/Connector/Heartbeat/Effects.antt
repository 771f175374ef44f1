-- ===== src/Connector/Heartbeat/Effects.antt =====
-- What a heartbeat does to the row of its connector.
use mathlib.Core.Option
use peka_saas.Common.{
  ℕ, ◌<◌, ◌≡◌, none, some, arith, update_rows, ap, ◌∙◌, find-update_rows, ◌==◌, ltb, if◌then◌else◌,
}
use peka_saas.Common.Exec.{Session}
use peka_saas.Connector.Types.{ManagedConnector, connected, degraded, ConnectorHeartbeatRequest}
use peka_saas.Connector.Status.{derive, recalculate}
use peka_saas.Connector.Repository.{Db, get_unscoped}
use peka_saas.Connector.Heartbeat.{record_heartbeat, heartbeat_row}

-- The accepted heartbeat writes one row, commits it, and changes no token.
record_heartbeat-connectors :
    (payload : ConnectorHeartbeatRequest) (now : ℕ) (s : Session Db) (c : ManagedConnector)
    → payload.instance_id ≡ c.instance_id
    → (record_heartbeat c payload now s).1.committed.connectors
      ≡ update_rows (λ x. x.id == c.id) (heartbeat_row payload now) s.working.connectors
unfolding record_heartbeat
record_heartbeat-connectors payload now s c same = ground arith

module _ (payload : ConnectorHeartbeatRequest) (now : ℕ) (s : Session Db) (c : ManagedConnector)
    (found : get_unscoped c.id s.working ≡ some c) where
  -- A heartbeat with the registered instance id of a connector that is not retired and has a positive
  -- interval commits the row with the failure count 0, the time of the heartbeat, and the status
  -- DEGRADED if a source is reported unhealthy and CONNECTED otherwise; the tenant and the secret stay.
  pub record_heartbeat-status :
      payload.instance_id ≡ c.instance_id
      → c.retired_at ≡ none
      → 0 < c.heartbeat_interval_seconds
      → (d : ManagedConnector) × (get_unscoped c.id (record_heartbeat c payload now s).1.committed
          ≡ some d)
        × (d.status ≡ (if ltb 0 payload.sources.unhealthy then degraded else connected))
        × (d.authentication_failure_count ≡ 0)
        × (d.last_heartbeat_at ≡ some now)
        × (d.tenant_id ≡ c.tenant_id)
        × (d.secret_hash ≡ c.secret_hash)
  record_heartbeat-status same current pos = (
    heartbeat_row payload now c,
    rw (record_heartbeat-connectors payload now s c same) (
        find-update_rows (λ x. x.id == c.id) (λ x. x.id == c.id) (heartbeat_row payload now) kept
          s.working.connectors
        ∙ ap
            (Option.map
              (λ (x : ManagedConnector). if x.id == c.id then heartbeat_row payload now x else x))
            found
        ∙ ground arith),
    unfold heartbeat_row recalculate derive in ground arith,
    unfold heartbeat_row recalculate in ground arith,
    unfold heartbeat_row recalculate in ground arith,
    unfold heartbeat_row recalculate in ground arith,
    unfold heartbeat_row recalculate in ground arith,
  )
    where
      kept : (x : ManagedConnector) → ((heartbeat_row payload now x).id == c.id) ≡ (x.id == c.id)
      kept x = unfold heartbeat_row recalculate in ground arith
