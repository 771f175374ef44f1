-- ===== src/Witness/Requests.antt =====
-- Examples of the theorems on the requests of a registered connector and on its status.
use peka_saas.Common.{
  ◌≢◌, ◌⊎◌, false, is_some, ◌≡◌, ◌↔◌, refl, arith, true, some, [], ◌∷◌, All, ltb, if◌then◌else◌,
}
use peka_saas.Common.Exec.{err, is_ok}
use peka_saas.Connector.Types.{ManagedConnector, ConnectorHeartbeat, connected, degraded, seconds}
use peka_saas.Connector.Repository.{service_error, get_unscoped, get_tenant}
use peka_saas.Connector.Authenticate.{authenticate}
use peka_saas.Connector.Authenticate.Lockout.{
  IsAccepted, authenticate-ok_iff, attempts, authenticate_lockout,
}
use peka_saas.Connector.Heartbeat.{record_heartbeat}
use peka_saas.Connector.Heartbeat.Effects.{record_heartbeat-status}
use peka_saas.Connector.Heartbeat.Recorded.{IsRecorded, IsRefusal, record_heartbeat_stored}
use peka_saas.Connector.Maintenance.{maintenance}
use peka_saas.Connector.Maintenance.Sweeps.{IsCurrent, maintenance-IsCurrent}
use peka_saas.Witness.ConnectorData.{connector, occupied, credentials, heartbeat_request}

authenticate-ok_iff_example :
    (is_ok (authenticate (credentials 40) 600 occupied).0 ≡ true)
    ↔ IsAccepted (credentials 40) connector
authenticate-ok_iff_example = authenticate-ok_iff (credentials 40) 600 occupied connector refl

authenticate_lockout_example :
    (authenticate (credentials 40) 900 (
      attempts
        ((credentials 3, 600) ∷ (credentials 4, 700) ∷ (credentials 5, 800) ∷ [])
        occupied)).0
    ≡ err (service_error "Connector authentication is locked after repeated failures." 403)
authenticate_lockout_example =
    authenticate_lockout (credentials 40) 900 occupied connector (credentials 3) 600
      ((credentials 4, 700) ∷ (credentials 5, 800) ∷ []) refl refl
      ((refl, refl), ((refl, refl), ((refl, refl), tt))) (omega arith) refl refl refl

record_heartbeat-status_example :
    (d : ManagedConnector) × (get_unscoped 9
        (record_heartbeat connector (heartbeat_request 60) 600 occupied).1.committed
      ≡ some d)
    × (d.status ≡ (if ltb 0 1 then degraded else connected))
    × (d.authentication_failure_count ≡ 0)
    × (d.last_heartbeat_at ≡ some 600)
    × (d.tenant_id ≡ 1)
    × (d.secret_hash ≡ 41)
record_heartbeat-status_example =
    record_heartbeat-status (heartbeat_request 60) 600 occupied connector refl refl refl
      (omega arith)

record_heartbeat_stored_example :
    (h : ConnectorHeartbeat) × IsRecorded connector
      (heartbeat_request 61)
      600
      occupied
      (record_heartbeat connector (heartbeat_request 61) 600 occupied).1
      h
    × ((((heartbeat_request 61).instance_id ≡ connector.instance_id)
          × (h.accepted ≡ true)
          × (is_ok (record_heartbeat connector (heartbeat_request 61) 600 occupied).0
              ≡ is_some (get_tenant connector.tenant_id occupied.working)))
        ⊎ (((heartbeat_request 61).instance_id ≢ connector.instance_id)
            × (h.accepted ≡ false)
            × (is_ok (record_heartbeat connector (heartbeat_request 61) 600 occupied).0 ≡ false)
            × IsRefusal connector 600 occupied
                (record_heartbeat connector (heartbeat_request 61) 600 occupied).1))
record_heartbeat_stored_example =
    record_heartbeat_stored connector (heartbeat_request 61) 600 occupied

maintenance-IsCurrent_example :
    All (IsCurrent (seconds 9000)) (maintenance (seconds 9000) occupied).1.committed.connectors
maintenance-IsCurrent_example = maintenance-IsCurrent (seconds 9000) occupied refl
