-- ===== src/Connector/Status.antt =====
-- `ConnectorStatusService` of backend/app/services/connector_status_service.py.
use peka_saas.Common.{
  ℕ, ◌-◌, ◌*◌, ◌≤◌, ◌<◌, ◌≡◌, ◌↔◌, Option, none, some, arith, ltb, leb, is_some, if◌then◌else◌,
}
use peka_saas.Connector.Types.{
  ManagedConnector, ManagedConnectorStatus, connected, degraded, out_of_sync, disconnected,
  authentication_failed, retired, seconds,
}

abbrev pub authentication_failure_threshold : ℕ
authentication_failure_threshold = 3

-- The part of `derive` for a connector that has sent a heartbeat. `-` stops at 0, which is the
-- `max(0.0, …)` of the source; `elapsed > 1.5 * interval` is multiplied by two.
heartbeat_status : ManagedConnector → ℕ → ℕ → ManagedConnectorStatus
heartbeat_status c last now =
    let elapsed = now - last in
    let interval = seconds c.heartbeat_interval_seconds in
    if leb (3 * interval) elapsed
    then disconnected
    else if ltb (3 * interval) (2 * elapsed)
    then out_of_sync
    else if ltb 0 c.source_unhealthy
    then degraded
    else connected

unfoldable pub derive : ManagedConnector → ℕ → ManagedConnectorStatus
unfolding heartbeat_status
derive c now =
    if is_some c.retired_at
    then retired
    else if leb authentication_failure_threshold c.authentication_failure_count
    then authentication_failed
    else elim c.last_heartbeat_at [ none ↦ disconnected | some last ↦ heartbeat_status c last now ]

-- The counter that `recalculate` writes beside the new status.
missed_heartbeats : Option ℕ → ManagedConnectorStatus → ℕ → ℕ
missed_heartbeats none _ _ = 0
missed_heartbeats (some _) out_of_sync _ = 2
missed_heartbeats (some _) disconnected _ = 3
missed_heartbeats (some _) authentication_failed old = old
missed_heartbeats (some _) retired old = old
missed_heartbeats (some _) _ _ = 0

-- The connector with its new status; the previous status is the argument's.
unfoldable pub recalculate : ManagedConnector → ℕ → ManagedConnector
unfolding missed_heartbeats
recalculate c now = record c {
  status = derive c now;
  consecutive_missed_heartbeats =
      missed_heartbeats c.last_heartbeat_at (derive c now) c.consecutive_missed_heartbeats;
}

-- A connector that has sent a heartbeat and has a positive interval is CONNECTED exactly when it is
-- not retired, has fewer than three authentication failures, sent the heartbeat at most one and a
-- half intervals ago and has no unhealthy source.
pub derive-connected_iff :
    (c : ManagedConnector) (last now : ℕ)
    → c.last_heartbeat_at ≡ some last
    → 0 < c.heartbeat_interval_seconds
    → (derive c now ≡ connected) ↔ (
        (c.retired_at ≡ none)
        × (c.authentication_failure_count < 3)
        × (2 * (now - last) ≤ 3 * seconds c.heartbeat_interval_seconds)
        × (c.source_unhealthy ≡ 0))
unfolding derive
derive-connected_iff c last now seen pos = (λ h. ground arith, λ h. ground arith)

-- Recalculating again at the same time changes nothing.
pub recalculate-recalculate :
    (c : ManagedConnector) (now : ℕ) → recalculate (recalculate c now) now ≡ recalculate c now
unfolding recalculate derive
recalculate-recalculate c now = ground arith

-- A connector whose row does not change is DISCONNECTED at every time after one at which it is.
pub derive-disconnected_mono :
    (c : ManagedConnector) (now later : ℕ)
    → now ≤ later
    → derive c now ≡ disconnected
    → derive c later ≡ disconnected
unfolding derive
derive-disconnected_mono c now later h e = ground arith
